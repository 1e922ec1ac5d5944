-- ===== src/Timepoint/Formats/Fields.antt =====
-- Numbers that are printed with a width, and read back.
use conn.Common.{
  ℕ, zero, suc, ◌+◌, ◌-◌, ◌*◌, ◌/◌, ◌%◌, ◌^◌, ◌<◌, ◌≤◌, ◌≡◌, refl, sym, ap, ◌∙◌, true, List, [],
  ◌∷◌, ◌++◌, some, ltb, lt→ltb, Bytes, length, length-append, length-replicate, replicate, arith,
  map, Bool-cases, inl, inr,
}
use mathlib.Core.Option
use mathlib.Core.List.{append_assoc, append-nil}
use native.Mathlib.Nat.{pow-suc, pow-zero}
use conn.Timepoint.{Civil}
use conn.Timepoint.Formats.{
  decimal, padded, fields_text, fields, is_digit, take_number, starts_digit, read_int, read_fields,
  read_time,
}

-- A number below a power of ten has no more digits than the exponent.
length-decimal : (w n v : ℕ) → v < 10 ^ suc w → length (decimal n v) ≤ suc w
unfolding decimal
length-decimal w zero v h = omega arith
length-decimal zero (suc n) v h =
    let small : v < 10 = omega (arith, pow-suc 10 0, pow-zero 10) in
    rw (lt→ltb v 10 small) (omega arith)
length-decimal (suc w) (suc n) v h = elim (Bool-cases (ltb v 10)) [
  | inl small ↦ rw small (omega arith)
  | inr large ↦
      let smaller : v / 10 < 10 ^ suc w = omega (arith, pow-suc 10 (suc w)) in
      rw large (
        omega (
          arith,
          length-append (decimal n (v / 10)) ((48 + v % 10) ∷ []),
          length-decimal w n (v / 10) smaller,
        ))
]

-- A number that fits is padded to the width.
pub length-padded : (w v : ℕ) → v < 10 ^ suc w → length (padded (suc w) v) ≡ suc w
unfolding padded
length-padded w v h =
    let text = decimal (suc v) v in
    omega (
      arith,
      length-append (replicate (suc w - length text) 48) text,
      length-replicate {A = ℕ} (suc w - length text) 48,
      length-decimal w (suc v) v h,
    )

-- A number with so many zeros behind it.
abbrev shift : ℕ → ℕ → ℕ
shift zero acc = acc
shift (suc k) acc = shift k acc * 10

take_number-digit :
    (acc d : ℕ) (s : Bytes) → d < 10 → take_number acc ((48 + d) ∷ s) ≡ take_number (acc * 10 + d) s
unfolding take_number
take_number-digit acc d s h =
    let digit : is_digit (48 + d) ≡ true = ground arith in
    rw digit (ap (λ n. take_number n s) {x = acc * 10 + (48 + d - 48)} (omega arith))

take_number-decimal :
    (n v acc : ℕ) (s : Bytes)
    → v < n
    → take_number acc (decimal n v ++ s) ≡ take_number (shift (length (decimal n v)) acc + v) s
unfolding decimal
take_number-decimal zero v acc s h = absurd (omega arith)
take_number-decimal (suc n) v acc s h = elim (Bool-cases (ltb v 10)) [
  | inl small ↦ rw small (take_number-digit acc v s (ground arith))
  | inr large ↦
      let front = decimal n (v / 10) in
      let big : 10 ≤ v = ground arith in
      rw large (
        ap (take_number acc) (append_assoc front ((48 + v % 10) ∷ []) s)
        ∙ take_number-decimal n (v / 10) acc ((48 + v % 10) ∷ s) (omega arith)
        ∙ take_number-digit (shift (length front) acc + v / 10) (v % 10) s (omega arith)
        ∙ ap (λ n. take_number n s) {x = (shift (length front) acc + v / 10) * 10 + v % 10}
            {y = shift (suc (length front)) acc + v} (omega arith)
        ∙ ap (λ k. take_number (shift k acc + v) s) {x = suc (length front)}
            {y = length (front ++ (48 + v % 10) ∷ [])}
            (omega (arith, length-append front ((48 + v % 10) ∷ []))))
]

shift_ten : (k acc : ℕ) → shift k (acc * 10) ≡ shift k acc * 10
shift_ten zero acc = refl
shift_ten (suc k) acc = ap (λ n. n * 10) (shift_ten k acc)

shift_nought : (k : ℕ) → shift k 0 ≡ 0
shift_nought zero = refl
shift_nought (suc k) = ap (λ n. n * 10) (shift_nought k)

shift-shift : (m k acc : ℕ) → shift m (shift k acc) ≡ shift (m + k) acc
shift-shift zero k acc = ap (λ n. shift n acc) {x = k} {y = zero + k} (omega arith)
shift-shift (suc m) k acc =
    ap (λ n. n * 10) (shift-shift m k acc)
    ∙ ap (λ n. shift n acc) {x = suc (m + k)} {y = suc m + k} (omega arith)

take_number-zeros :
    (k acc : ℕ) (s : Bytes) → take_number acc (replicate k 48 ++ s) ≡ take_number (shift k acc) s
take_number-zeros zero acc s = refl
take_number-zeros (suc k) acc s =
    take_number-digit acc 0 (replicate k 48 ++ s) (omega arith)
    ∙ ap (λ n. take_number n (replicate k 48 ++ s)) {x = acc * 10 + 0} {y = acc * 10} (omega arith)
    ∙ take_number-zeros k (acc * 10) s
    ∙ ap (λ n. take_number n s) (shift_ten k acc)

pub take_number-padded :
    (w v acc : ℕ) (s : Bytes)
    → take_number acc (padded w v ++ s) ≡ take_number (shift (length (padded w v)) acc + v) s
unfolding padded
take_number-padded w v acc s =
    let text = decimal (suc v) v in
    let k = w - length text in
    ap (take_number acc) (append_assoc (replicate k 48) text s)
    ∙ take_number-zeros k acc (text ++ s)
    ∙ take_number-decimal (suc v) v (shift k acc) s (omega arith)
    ∙ ap (λ n. take_number (n + v) s) (shift-shift (length text) k acc)
    ∙ ap (λ n. take_number (shift n acc + v) s) {x = length text + k}
        {y = length (replicate k 48 ++ text)}
        (omega (arith, length-append (replicate k 48) text, length-replicate {A = ℕ} k 48))

starts_digit-decimal : (n v : ℕ) (s : Bytes) → v < n → starts_digit (decimal n v ++ s) ≡ true
unfolding decimal
starts_digit-decimal zero v s h = absurd (omega arith)
starts_digit-decimal (suc n) v s h = elim (Bool-cases (ltb v 10)) [
  | inl small ↦ rw small (ground arith)
  | inr large ↦
      let front = decimal n (v / 10) in
      let big : 10 ≤ v = ground arith in
      rw large (
        ap starts_digit (append_assoc front ((48 + v % 10) ∷ []) s)
        ∙ starts_digit-decimal n (v / 10) ((48 + v % 10) ∷ s) (omega arith))
]

starts_digit-padded : (w v : ℕ) (s : Bytes) → starts_digit (padded w v ++ s) ≡ true
unfolding padded
starts_digit-padded w v s = by (w - length (decimal (suc v) v))
  where
    by : (k : ℕ) → starts_digit ((replicate k 48 ++ decimal (suc v) v) ++ s) ≡ true
    by zero = starts_digit-decimal (suc v) v s (omega arith)
    by (suc k) = refl

-- A number in front of a `_` is read whole, and the `_` left.
read_int-padded : (w v : ℕ) (s : Bytes) → read_int (padded w v ++ 95 ∷ s) ≡ some (v, 95 ∷ s)
unfolding read_int take_number
read_int-padded w v s =
    rw
      (
        starts_digit-padded w v (95 ∷ s),
        take_number-padded w v 0 (95 ∷ s),
        shift_nought (length (padded w v)),
      )
      (ap (λ n. some (n, 95 ∷ s)) {x = 0 + v} {y = v} (omega arith))

take_number_last :
    (w v acc : ℕ) → take_number acc (padded w v) ≡ (shift (length (padded w v)) acc + v, [])
unfolding take_number
take_number_last w v acc =
    ap (take_number acc) (sym (append-nil (padded w v))) ∙ take_number-padded w v acc []

-- A number at the end.
pub read_int-last : (w v : ℕ) → read_int (padded w v) ≡ some (v, [])
unfolding read_int
read_int-last w v =
    let starts : starts_digit (padded w v) ≡ true =
      ap starts_digit (sym (append-nil (padded w v))) ∙ starts_digit-padded w v [] in
    rw (starts, take_number_last w v 0, shift_nought (length (padded w v)))
      (ap (λ n. some (n, [])) {x = 0 + v} {y = v} (omega arith))

-- Two numbers without anything between them are read as one.
pub read_int-two :
    (w m v : ℕ) → v < 1000 → read_int (padded w m ++ padded 3 v) ≡ some (m * 1000 + v, [])
unfolding read_int
read_int-two w m v h =
    let small : v < 10 ^ 3 = omega (arith, pow-suc 10 2, pow-suc 10 1, pow-suc 10 0, pow-zero 10) in
    rw
      (
        starts_digit-padded w m (padded 3 v),
        take_number-padded w m 0 (padded 3 v),
        shift_nought (length (padded w m)),
        take_number_last 3 v (0 + m),
        length-padded 2 v small,
      )
      (ap (λ n. some (n, [])) {x = shift 3 (0 + m) + v} {y = m * 1000 + v} (omega arith))

read_fields-fields_text :
    (fs : List (ℕ × ℕ)) (s : Bytes)
    → read_fields (length fs) (fields_text fs s) ≡ some (map (λ (w, v). v) fs, s)
unfolding read_fields fields_text Option.bind
read_fields-fields_text [] s = refl
read_fields-fields_text ((w, v) ∷ fs) s =
    rw (read_int-padded w v (fields_text fs s), read_fields-fields_text fs s) refl

-- A date and a time of day that are printed with a number behind them are read back with it.
pub read_time-fields :
    (t : Civil) (s : Bytes) (v : ℕ)
    → read_int s ≡ some (v, [])
    → read_time (fields_text (fields t) s) ≡ some (t, v)
unfolding read_time Option.bind
read_time-fields t s v h = rw (read_fields-fields_text (fields t) s, h) refl
