-- ===== src/Common/Texts.antt =====
-- Text as the list of its bytes.
use Prim.Native.Nat.{ℕ}
use Prim.Native.Char.{code}
use Prim.Native.String.{String}
use mathlib.Core.Bool.{Bool, true, false, ◌&&◌, ◌||◌, false≢true}
use mathlib.Core.List.{List, [], ◌∷◌, ◌++◌}
use mathlib.Core.Logic.{◌↔◌}
use mathlib.Core.Path.{◌≡◌, refl, sym}
use native.Mathlib.Omega.{arith}
use conn.Common.Tests.{◌==◌, ltb, leb, if◌then◌else◌}

abbrev pub Bytes : Type 0
Bytes = List ℕ

-- The bytes of an ASCII literal.
abbrev pub codes : String → Bytes
codes String.[] = []
codes (String.◌∷◌ c s) = code c ∷ codes s

-- `std::isspace`, of an ASCII character.
abbrev pub is_space : ℕ → Bool
is_space x = x == 32 || (leb 9 x && leb x 13)

-- `operator==` of `std::string`.
unfoldable pub equal : Bytes → Bytes → Bool
equal [] [] = true
equal (x ∷ xs) (y ∷ ys) = x == y && equal xs ys
equal _ _ = false

-- The comparison decides equality.
pub equal-decides : (s t : Bytes) → (equal s t ≡ true) ↔ (s ≡ t)
unfolding equal
equal-decides (c ∷ s) (d ∷ t) = let rest = equal-decides s t in ground (arith, rest)
equal-decides [] t = ground arith
equal-decides (c ∷ s) [] = ground arith

-- `operator<` of `std::string`, on bytes.
unfoldable pub less : Bytes → Bytes → Bool
less [] [] = false
less [] (y ∷ ys) = true
less (x ∷ xs) [] = false
less (x ∷ xs) (y ∷ ys) =
    let rest = less xs ys in if ltb x y then true else if ltb y x then false else rest

pub less_irrefl : (s : Bytes) → less s s ≡ false
unfolding less
less_irrefl [] = refl
less_irrefl (x ∷ s) = let rest = less_irrefl s in ground (arith, rest)

pub less_trans : (r s t : Bytes) → less r s ≡ true → less s t ≡ true → less r t ≡ true
unfolding less
less_trans [] [] t h k = absurd (false≢true h)
less_trans [] (y ∷ s) [] h k = absurd (false≢true k)
less_trans [] (y ∷ s) (z ∷ t) h k = refl
less_trans (x ∷ r) [] t h k = absurd (false≢true h)
less_trans (x ∷ r) (y ∷ s) [] h k = absurd (false≢true k)
less_trans (x ∷ r) (y ∷ s) (z ∷ t) h k = let rest = less_trans r s t in ground (arith, rest)

pub less_total : (s t : Bytes) → less s t ≡ false → less t s ≡ false → s ≡ t
unfolding less
less_total [] [] h k = refl
less_total [] (y ∷ t) h k = absurd (false≢true (sym h))
less_total (x ∷ s) [] h k = absurd (false≢true (sym k))
less_total (x ∷ s) (y ∷ t) h k = let rest = less_total s t in ground (arith, rest)

-- The bytes in front of the first `c`, all of them if there is none.
unfoldable pub upto : ℕ → Bytes → Bytes
upto c [] = []
upto c (x ∷ s) = let rest = upto c s in if x == c then [] else x ∷ rest

-- Behind a text without `c`, a `c` is the first one.
pub upto-append : (c : ℕ) (s t : Bytes) → upto c s ≡ s → upto c (s ++ c ∷ t) ≡ s
unfolding upto
upto-append c [] t h = ground arith
upto-append c (x ∷ s) t h = let rest = upto-append c s t in ground (arith, rest)

pub append_left_cancel : (r s t : Bytes) → r ++ s ≡ r ++ t → s ≡ t
append_left_cancel [] s t h = h
append_left_cancel (x ∷ r) s t h = append_left_cancel r s t (cc)
