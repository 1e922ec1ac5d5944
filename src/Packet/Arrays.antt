-- ===== src/Packet/Arrays.antt =====
-- `put` and `get` of byte arrays.
use conn.Common.{
  ℕ, ◌+◌, ◌%◌, ◌^◌, ◌≤◌, ◌<◌, ◌≡◌, refl, ap, ◌∙◌, true, false, [], ◌++◌, ltb, leb, if◌then◌else◌,
  arith, Bytes, length, not_lt→ltb, lt→ltb, take, drop, take-append-drop, length-take, length-drop,
  add64,
}
use native.Mathlib.Decide.{dec_le, dec_lt}
use conn.Packet.{
  NPacket, max_packet_size, write_size, read_size, get, get16, le16, put_array, get_array,
  get_bytes, unread16, failed, needs, got,
}
use conn.Packet.Inv.{IsValid, unread, slice_front, get16_front}
use conn.Packet.Strings.{append_counted}

-- `put` of an array succeeds exactly when its bytes and eight more fit, though it then uses only two
-- more: the length cut to 16 bits and all the bytes. Otherwise the packet stays as it is.
pub put_array_lem :
    (p : NPacket) (ba : Bytes)
    → IsValid p
    → length ba < 2 ^ 63
    → let (done, q) = put_array p ba in
      (done ≡ leb (p.size + (8 + length ba)) max_packet_size)
      × IsValid q
      × (done ≡ true → unread q ≡ unread p ++ (le16 (length ba % 2 ^ 16) ++ ba))
      × (done ≡ false → q ≡ p)
unfolding put_array
put_array_lem p ba v h = elim (dec_le (p.size + (8 + length ba)) max_packet_size) [
  | yes fits ↦
      let room : ltb (write_size p) (add64 8 (length ba)) ≡ false = not_lt→ltb _ _ (omega arith) in
      let within : leb (p.size + (8 + length ba)) max_packet_size ≡ true = ground arith in
      let (v1, e1) = append_counted p (length ba % 2 ^ 16) ba v (omega arith) in
      rw (room, within) (refl, v1, (λ _. e1), λ h. cc)
  | no over ↦
      let room : ltb (write_size p) (add64 8 (length ba)) ≡ true = lt→ltb _ _ (omega arith) in
      let within : leb (p.size + (8 + length ba)) max_packet_size ≡ false = ground arith in
      rw (room, within) (refl, v, (λ h. cc), λ _. refl)
]

unread16-lem : (p : NPacket) → unread16 (record p { read_idx = p.read_idx + 2 }) ≡ p
unread16-lem p = ap (λ k. record p { read_idx = k }) {y = p.read_idx} (omega arith)

-- `get` of an array whose length and bytes are in front, into a buffer that is large enough, returns
-- them and leaves the rest; into a smaller buffer it returns the length that is needed, and the
-- packet stays as it is.
pub get_array_front :
    (p : NPacket) (ba rest : Bytes) (room : ℕ)
    → IsValid p
    → length ba < 2 ^ 16
    → unread p ≡ le16 (length ba) ++ (ba ++ rest)
    → let (r, q) = get_array p room in
      (r ≡ (if ltb room (length ba) then needs (length ba) else got ba))
      × IsValid q
      × (length ba ≤ room → unread q ≡ rest)
      × (room < length ba → q ≡ p)
unfolding get_array get_bytes
get_array_front p ba rest room v h e =
    let (g, v1, e1) = get16_front p (length ba) (ba ++ rest) v h e in
    let q = record p { read_idx = p.read_idx + 2 } in
    let (low, front, v2, back) = slice_front q ba rest v1 e1 in
    let there : ltb (read_size q) (length ba) ≡ false = not_lt→ltb _ _ (omega arith) in
    elim (dec_lt room (length ba)) [
      | yes small ↦
          rw (g, there, lt→ltb _ _ small)
            (refl, omega arith, (λ k. absurd (omega arith)), λ _. unread16-lem p)
      | no enough ↦
          rw (g, there, not_lt→ltb _ _ enough)
            (rw front, v2, (λ _. back), λ k. absurd (omega arith))
    ]

-- A `get` of an array that returns -1 leaves the packet as it was.
pub get_array_failed :
    (p : NPacket) (room : ℕ) → IsValid p → (get_array p room).0 ≡ failed → (get_array p room).1 ≡ p
unfolding get_array get_bytes get16 get
get_array_failed p room v h = ground arith

-- An array of 2 ^ 16 bytes or more that fits is put with success, and what `get` then returns of it
-- is only its first `length % 2 ^ 16` bytes; the others stay in the way of the next `get`.
pub get_array-put_array_cut :
    (p : NPacket) (ba : Bytes) (room : ℕ)
    → IsValid p
    → unread p ≡ []
    → 2 ^ 16 ≤ length ba
    → p.size + (8 + length ba) ≤ max_packet_size
    → 2 ^ 16 ≤ room
    → let (done, q) = put_array p ba in
      let (r, q') = get_array q room in
      let n = length ba % 2 ^ 16 in
      (done ≡ true) × (r ≡ got (take n ba)) × (unread q' ≡ drop n ba) × (0 < length (drop n ba))
get_array-put_array_cut p ba room v e long fits wide =
    let (d, v1, u, _) = put_array_lem p ba v (omega arith) in
    let done : (put_array p ba).0 ≡ true = d ∙ within in
    let (r, _, left, _) =
      get_array_front (put_array p ba).1 (take n ba) (drop n ba) room v1 (omega (arith, count))
        (u done ∙ rw (e, count, take-append-drop n ba)) in
    (
      done,
      r ∙ rw (not_lt→ltb room (length (take n ba)) (omega (arith, count))),
      left (omega (arith, count)),
      omega (arith, length-drop n ba),
    )
  where
    n : ℕ
    n = length ba % 2 ^ 16

    count : length (take n ba) ≡ n
    count = omega (arith, length-take n ba)

    within : leb (p.size + (8 + length ba)) max_packet_size ≡ true
    within = ground arith
