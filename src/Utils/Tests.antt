-- ===== src/Utils/Tests.antt =====
-- The utilities at concrete values.
use conn.Common.{
  ℕ, ◌≡◌, refl, Bool, true, false, some, List, [], ◌∷◌, ◌++◌, Bytes, codes, ltb, arith,
}
use mathlib.Core.List.{Perm}
use conn.Utils.{insertion_sort, sort_loop, shift, next_power_2, power_loop}
use conn.Utils.Trim.{trim, Spaces, StartsBare, EndsBare, trim_lem}
use conn.Utils.Sort.{Sorted, insertion_sort-Sorted}

abbrev above : ℕ → ℕ → Bool
above a b = ltb b a

sorts : insertion_sort above 0 (3 ∷ 1 ∷ 2 ∷ 1 ∷ []) ≡ 1 ∷ 1 ∷ 2 ∷ 3 ∷ []
unfolding insertion_sort sort_loop shift
sorts = refl

powers : next_power_2 32 1000 ≡ some 1024
unfolding next_power_2 power_loop
powers = refl

insertion_sort-Sorted_example :
    Perm (insertion_sort above 0 (3 ∷ 1 ∷ 2 ∷ [])) (3 ∷ 1 ∷ 2 ∷ [])
    × Sorted above 0 (insertion_sort above 0 (3 ∷ 1 ∷ 2 ∷ []))
insertion_sort-Sorted_example = insertion_sort-Sorted above 0 above_asym (3 ∷ 1 ∷ 2 ∷ [])
  where
    above_asym : (a b : ℕ) → above a b ≡ true → above b a ≡ false
    above_asym a b h = ground arith

abbrev texts : List (Bytes × Bytes)
texts = (codes "*", codes "NSE") ∷ (codes "A", codes "B") ∷ []

trims : trim (codes "  a b ") ≡ codes "a b"
unfolding trim
trims = refl

trim_lem_example :
    (a : Bytes) × (b : Bytes) × (codes "  a b " ≡ a ++ (trim (codes "  a b ") ++ b))
    × Spaces a
    × Spaces b
    × StartsBare (trim (codes "  a b "))
    × EndsBare (trim (codes "  a b "))
trim_lem_example = trim_lem (codes "  a b ")
