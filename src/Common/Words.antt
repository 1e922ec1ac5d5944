-- ===== src/Common/Words.antt =====
-- Unsigned words of C++, as numbers below a power of two. `-` on ℕ stops at 0, so a word's
-- subtraction adds the modulus first.
use Prim.Native.Nat.{ℕ, ◌+◌, ◌-◌, ◌%◌, ◌^◌, ◌<◌}
use mathlib.Core.Path.{◌≡◌}
use mathlib.Core.Logic.{◌≢◌}
use native.Mathlib.Decide.{dec_lt}
use native.Mathlib.Nat.{mod-eq_of_lt, mod-eq-sub-mod, mod-add-mod}
use native.Mathlib.Omega.{arith}

abbrev pub add32 : ℕ → ℕ → ℕ
add32 a b = (a + b) % 2 ^ 32

abbrev pub sub32 : ℕ → ℕ → ℕ
sub32 a b = (a + 2 ^ 32 - b) % 2 ^ 32

abbrev pub add64 : ℕ → ℕ → ℕ
add64 a b = (a + b) % 2 ^ 64

abbrev pub sub64 : ℕ → ℕ → ℕ
sub64 a b = (a + 2 ^ 64 - b) % 2 ^ 64

add-mod-ne_of_lt : {cap h k : ℕ} → h < cap → 0 < k → k < cap → (h + k) % cap ≢ h
add-mod-ne_of_lt {cap} {h} {k} hh hz hk = elim (dec_lt (h + k) cap) [
  | yes p ↦ omega (arith, mod-eq_of_lt p)
  | no p ↦ omega (
    arith,
    mod-eq-sub-mod {n = h + k} {m = cap} (omega arith),
    mod-eq_of_lt {n = h + k - cap} {m = cap} (omega arith),
  )
]

-- Two addresses less than `cap` apart fall on different cells of an array of `cap` cells.
pub mod-ne-mod : (cap i j : ℕ) → i < j → j < i + cap → i % cap ≢ j % cap
mod-ne-mod cap i j lo hi e = elim (dec_lt 0 cap) [
  | yes pos ↦
      add-mod-ne_of_lt {cap = cap} {h = i % cap} {k = j - i} (omega arith) (omega arith)
        (omega arith) (rw mod-add-mod (rw (shift, e)))
  | no none_left ↦ absurd (omega arith)
]
  where
    shift : i + (j - i) ≡ j
    shift = omega arith
