-- ===== src/Packet/Strings.antt =====
-- `put` and `get` of strings.
use conn.Common.{
  ℕ, ◌+◌, ◌%◌, ◌^◌, ◌≤◌, ◌<◌, ◌≡◌, refl, ap, ◌∙◌, true, false, ◌++◌, none, some, ltb, leb, arith,
  Bytes, length, not_lt→ltb, lt→ltb, take_all,
}
use native.Mathlib.Decide.{dec_le}
use mathlib.Core.List.{append_assoc}
use conn.Packet.{
  NPacket, max_packet_size, write_size, read_size, append, put, get, get16, le16, c_str, put_chars,
  put_string, get_string, get_chars,
}
use conn.Packet.Inv.{IsValid, unread, unread-append, slice_front, get16_front}

-- A length and its bytes, appended one after the other.
pub append_counted :
    (p : NPacket) (n : ℕ) (bs : Bytes)
    → IsValid p
    → p.size + (2 + length bs) ≤ max_packet_size
    → let q = append (put p (le16 n)).1 bs in IsValid q × (unread q ≡ unread p ++ (le16 n ++ bs))
unfolding put
append_counted p n bs v h =
    let room : ltb (write_size p) 2 ≡ false = not_lt→ltb _ _ (omega arith) in
    let (v1, e1) = unread-append p (le16 n) v (omega arith) in
    let (v2, e2) = unread-append (append p (le16 n)) bs v1 (omega arith) in
    rw room (v2, e2 ∙ ap (λ t. t ++ bs) e1 ∙ append_assoc (unread p) (le16 n) bs)

-- `put` of a string shorter than 2 ^ 16 bytes succeeds exactly when its bytes and two more fit; it
-- then appends its length and its bytes up to the first 0, and otherwise the packet stays as it is.
pub put_string_lem :
    (p : NPacket) (s : Bytes)
    → IsValid p
    → length (c_str s) < 2 ^ 16
    → let (done, q) = put_string p s in
      let t = c_str s in
      (done ≡ leb (p.size + (2 + length t)) max_packet_size)
      × IsValid q
      × (done ≡ true → unread q ≡ unread p ++ (le16 (length t) ++ t))
      × (done ≡ false → q ≡ p)
unfolding put_string put_chars
put_string_lem p s v h =
    let t : Bytes = c_str s in
    let short : length t % 2 ^ 16 ≡ length t = omega arith in
    elim (dec_le (p.size + (2 + length t)) max_packet_size) [
      | yes fits ↦
          let room : ltb (write_size p) (2 + length t) ≡ false = not_lt→ltb _ _ (omega arith) in
          let within : leb (p.size + (2 + length t)) max_packet_size ≡ true = ground arith in
          let (v1, e1) = append_counted p (length t) t v fits in
          rw (short, room, within, take_all (length t) t (omega arith))
            (refl, v1, (λ _. e1), λ h. cc)
      | no over ↦
          let room : ltb (write_size p) (2 + length t) ≡ true = lt→ltb _ _ (omega arith) in
          let within : leb (p.size + (2 + length t)) max_packet_size ≡ false = ground arith in
          rw (short, room, within) (refl, v, (λ h. cc), λ _. refl)
    ]

-- `get` of a string whose length and bytes are in front returns it, and leaves the rest waiting.
pub get_string_front :
    (p : NPacket) (t rest : Bytes)
    → IsValid p
    → length t < 2 ^ 16
    → unread p ≡ le16 (length t) ++ (t ++ rest)
    → let (s, q) = get_string p in (s ≡ some t) × IsValid q × (unread q ≡ rest)
unfolding get_string get_chars
get_string_front p t rest v h e =
    let (g, v1, e1) = get16_front p (length t) (t ++ rest) v h e in
    let q = record p { read_idx = p.read_idx + 2 } in
    let (low, front, v2, back) = slice_front q t rest v1 e1 in
    let room : ltb (read_size q) (length t) ≡ false = not_lt→ltb _ _ (omega arith) in
    rw (g, room) (rw front, v2, back)

-- A `get` of a string that fails leaves the packet as it was: the length that it read is put back.
pub get_string_failed : (p : NPacket) → IsValid p → (get_string p).0 ≡ none → (get_string p).1 ≡ p
unfolding get_string get_chars get16 get
get_string_failed p v h = ground arith
