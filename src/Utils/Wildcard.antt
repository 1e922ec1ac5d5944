-- ===== src/Utils/Wildcard.antt =====
-- The comparison of texts with a wildcard, and of several texts in turn.
use conn.Common.{
  ◌≡◌, refl, sym, ◌∙◌, true, false, List, [], ◌∷◌, Bytes, less, less_irrefl, less_trans, Bool-cases,
  inl, inr, arith,
}
use mathlib.Core.Bool.{false≢true}
use conn.Utils.{less_than, less_than_all}

less_asym : (a b : Bytes) → less a b ≡ true → less b a ≡ false
less_asym a b h = elim (Bool-cases (less b a)) [
  | inl back ↦ absurd (false≢true (sym (less_irrefl a) ∙ less_trans a b a h back))
  | inr other ↦ other
]

less_than-asym : (a b : Bytes) → less_than a b ≡ true → less_than b a ≡ false
unfolding less_than
less_than-asym a b h = let back = less_asym a b in ground (arith, back)

abbrev pub swapped : List (Bytes × Bytes) → List (Bytes × Bytes)
swapped [] = []
swapped ((a, b) ∷ ps) = (b, a) ∷ swapped ps

-- Several texts compared in turn are never below each other both ways, wildcards or not.
pub less_than_all-asym :
    (ps : List (Bytes × Bytes)) → less_than_all ps ≡ true → less_than_all (swapped ps) ≡ false
unfolding less_than_all
less_than_all-asym [] h = refl
less_than_all-asym ((a, b) ∷ []) h = less_than-asym a b h
less_than_all-asym ((a, b) ∷ (c, d) ∷ ps) h =
    let rest = less_than_all-asym ((c, d) ∷ ps) in
    let first = less_than-asym a b in ground (arith, rest, first)
