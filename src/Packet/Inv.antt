-- ===== src/Packet/Inv.antt =====
-- The bytes that wait to be got, and what each primitive does to them.
use conn.Common.{
  ℕ, ◌+◌, ◌-◌, ◌^◌, ◌≤◌, ◌<◌, ◌≡◌, refl, sym, ap, ap₂, ◌∙◌, true, false, [], ◌∷◌, ◌++◌, none, some,
  ltb, arith, Bytes, length, length-append, not_lt→ltb, lt→ltb,
}
use mathlib.Core.Bool.{false≢true}
use native.Mathlib.Decide.{dec_lt}
use conn.Common.Memory.{slice, copy, length-slice, slice-append, slice-copy, slice-copy_before}
use conn.Packet.{
  NPacket, max_packet_size, write_size, read_size, append, put, get, get16, le16, of_le16, init,
  reset_read,
}

pub record IsValid (p : NPacket) : Type 0 where
  pub ordered : p.read_idx ≤ p.size
  pub fits : p.size ≤ max_packet_size

-- The bytes put and not yet got.
abbrev pub unread : NPacket → Bytes
unread p = slice p.buf p.read_idx (p.size - p.read_idx)

-- A new packet is valid and empty, and so is any packet behind `reset_read`.
pub reset_read-IsValid :
    (junk : ℕ → ℕ) (p : NPacket)
    → (IsValid (init junk) × (unread (init junk) ≡ []))
      × IsValid (reset_read p)
      × (unread (reset_read p) ≡ [])
unfolding init reset_read
reset_read-IsValid junk p = ((omega arith, refl), omega arith, refl)

pub length-unread : (p : NPacket) → length (unread p) ≡ p.size - p.read_idx
length-unread p = length-slice p.buf p.read_idx (p.size - p.read_idx)

-- `append` within the buffer adds its bytes behind those that wait.
pub unread-append :
    (p : NPacket) (bs : Bytes)
    → IsValid p
    → p.size + length bs ≤ max_packet_size
    → IsValid (append p bs) × (unread (append p bs) ≡ unread p ++ bs)
unread-append p bs v h = (omega arith, joined)
  where
    mem : ℕ → ℕ
    mem = copy p.buf p.size bs

    joined : unread (append p bs) ≡ unread p ++ bs
    joined =
        ap (slice mem p.read_idx) {y = p.size - p.read_idx + length bs} (omega arith)
        ∙ slice-append mem p.read_idx (p.size - p.read_idx) (length bs)
        ∙ ap₂ ◌++◌
            (slice-copy_before bs p.buf (p.size - p.read_idx) p.read_idx p.size (omega arith))
            (ap (λ i. slice mem i (length bs)) {y = p.size} (omega arith)
              ∙ slice-copy bs p.buf p.size)

-- `put<T>` that succeeds appends the bytes of the value.
pub unread-put :
    (p : NPacket) (bs : Bytes)
    → IsValid p
    → (put p bs).0 ≡ true
    → IsValid (put p bs).1 × (unread (put p bs).1 ≡ unread p ++ bs)
unfolding put
unread-put p bs v d = elim (dec_lt (write_size p) (length bs)) [
  | yes over ↦ absurd (false≢true (rw (lt→ltb _ _ over) at d))
  | no fits ↦ rw (not_lt→ltb _ _ fits) (unread-append p bs v (omega arith))
]

-- Reading `n` of the bytes that wait takes them from the front.
pub unread_split :
    (p : NPacket) (n : ℕ)
    → IsValid p
    → n ≤ length (unread p)
    → let q = record p { read_idx = p.read_idx + n } in
      IsValid q × (unread p ≡ slice p.buf p.read_idx n ++ unread q)
unread_split p n v h = (
  omega (arith, length-unread p),
  ap (slice p.buf p.read_idx) {y = n + (p.size - (p.read_idx + n))} (omega (arith, length-unread p))
      ∙ slice-append p.buf p.read_idx n (p.size - (p.read_idx + n)),
)

-- Two lists that begin with as many bytes agree on them and on the rest.
pub append-cancel : (a b c d : Bytes) → length a ≡ length b → a ++ c ≡ b ++ d → (a ≡ b) × (c ≡ d)
append-cancel [] [] c d h e = (refl, e)
append-cancel [] (y ∷ b) c d h e = absurd (omega arith)
append-cancel (x ∷ a) [] c d h e = absurd (omega arith)
append-cancel (x ∷ a) (y ∷ b) c d h e =
    let (tails, rests) = append-cancel a b c d (omega arith) (cc) in (cc tails, rests)

-- The bytes in front are those that a read of their number returns, and the rest then waits.
pub slice_front :
    (p : NPacket) (bs rest : Bytes)
    → IsValid p
    → unread p ≡ bs ++ rest
    → let q = record p { read_idx = p.read_idx + length bs } in
      (length bs ≤ p.size - p.read_idx)
      × (slice p.buf p.read_idx (length bs) ≡ bs)
      × IsValid q
      × (unread q ≡ rest)
slice_front p bs rest v e =
    let (v', split) = unread_split p (length bs) v low in
    let (front, back) =
      append-cancel (slice p.buf p.read_idx (length bs)) bs
        (unread (record p { read_idx = p.read_idx + length bs })) rest
        (length-slice p.buf p.read_idx (length bs)) (sym split ∙ e) in
    (omega (arith, low, length-unread p), front, v', back)
  where
    low : length bs ≤ length (unread p)
    low = rw e (omega (arith, length-append bs rest))

pub read_size-eq : (p : NPacket) → IsValid p → read_size p ≡ p.size - p.read_idx
read_size-eq p v = omega arith

-- `get<T>` of a value whose bytes are in front takes exactly those.
pub get_front :
    (p : NPacket) (bs rest : Bytes)
    → IsValid p
    → unread p ≡ bs ++ rest
    → let q = record p { read_idx = p.read_idx + length bs } in
      (get p (length bs) ≡ (some bs, q)) × IsValid q × (unread q ≡ rest)
unfolding get
get_front p bs rest v e =
    let (low, front, v', back) = slice_front p bs rest v e in
    let room : ltb (read_size p) (length bs) ≡ false = not_lt→ltb _ _ (omega arith) in
    (rw room (rw front), v', back)

pub of_le16-le16 : (n : ℕ) → n < 2 ^ 16 → of_le16 (le16 n) ≡ n
of_le16-le16 n h = omega arith

pub get16_front :
    (p : NPacket) (n : ℕ) (rest : Bytes)
    → IsValid p
    → n < 2 ^ 16
    → unread p ≡ le16 n ++ rest
    → let q = record p { read_idx = p.read_idx + 2 } in
      (get16 p ≡ (some n, q)) × IsValid q × (unread q ≡ rest)
unfolding get16
get16_front p n rest v h e =
    let (g, v', back) = get_front p (le16 n) rest v e in
    (rw g (ap (λ k. (some k, record p { read_idx = p.read_idx + 2 })) (of_le16-le16 n h)), v', back)

-- With fewer than two bytes left no number is read, and the packet stays as it is.
pub get16_short : (p : NPacket) → IsValid p → length (unread p) < 2 → get16 p ≡ (none, p)
unfolding get16 get
get16_short p v h = ground (arith, length-unread p)
