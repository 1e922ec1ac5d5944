-- ===== src/Utils.antt =====
-- common/Utils.h: sorting, powers of 2, trimming and the comparison of texts with a wildcard.
pub mod Sort
pub mod Trim
pub mod Power
pub mod Wildcard
mod Tests
use conn.Common.{
  ℕ, zero, suc, ◌-◌, ◌*◌, ◌%◌, ◌^◌, Bool, true, false, ◌&&◌, not, List, [], ◌∷◌, Option, none, some,
  if◌then◌else◌, leb, Bytes, codes, equal, less, length, get_or, set,
}

-- `insertion_sort` on the elements of an array, by a test `gt` for `>`. An index outside the array,
-- which the loops never use, would read `d`.
module _ {ℓ} {A : Type ℓ} (gt : A → A → Bool) (d : A) where
  -- The inner loop with `j + 1` = `k`, and the store behind it.
  unfoldable pub shift : A → List A → ℕ → List A
  shift key arr zero = set arr 0 key
  shift key arr (suc k) =
      let rest = shift key (set arr (suc k) (get_or arr k d)) k in
      if gt (get_or arr k d) key then rest else set arr (suc k) key

  -- `n` rounds of the outer loop, from index `i` on.
  unfoldable pub sort_loop : List A → ℕ → ℕ → List A
  sort_loop arr i zero = arr
  sort_loop arr i (suc n) = sort_loop (shift (get_or arr i d) arr i) (suc i) n

  unfoldable pub insertion_sort : List A → List A
  insertion_sort arr = sort_loop arr 1 (length arr - 1)

-- `while (value <= x) value = value << 1;`, at most `n` rounds of it: none where they are too few.
unfoldable pub power_loop : ℕ → ℕ → ℕ → Option ℕ
power_loop zero x value = if leb value x then none else some value
power_loop (suc n) x value =
    let rest = power_loop n x (value * 2 % 2 ^ 32) in if leb value x then rest else some value

-- `next_power_2`
unfoldable pub next_power_2 : ℕ → ℕ → Option ℕ
next_power_2 n x = power_loop n x 1

-- `GEN`
abbrev pub gen : Bytes
gen = codes "*"

abbrev pub is_gen : Bytes → Bool
is_gen s = equal s gen

-- `less_than` of two texts: the wildcard is not below anything, nor anything below it.
unfoldable pub less_than : Bytes → Bytes → Bool
less_than a b =
    if is_gen a && is_gen b
    then false
    else if is_gen a && not (is_gen b)
    then false
    else if not (is_gen a) && is_gen b
    then false
    else less a b

-- `less_than` of two pairs and of more, given as one list of pairs.
unfoldable pub less_than_all : List (Bytes × Bytes) → Bool
less_than_all [] = false
less_than_all ((a, b) ∷ []) = less_than a b
less_than_all ((a, b) ∷ p ∷ ps) =
    let rest = less_than_all (p ∷ ps) in
    if less_than a b then true else if less_than b a then false else rest
