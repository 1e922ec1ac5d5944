-- ===== src/Config/Levels.antt =====
-- The levels of a stream: sorted, and the numbers of the text.
use conn.Common.{◌≡◌, refl, true, false, List, [], ◌∷◌, ℤ, pos, negsuc, Bool-cases, inl, inr, arith}
use mathlib.Core.List.{Perm}
use mathlib.Core.List.Perm
use conn.Config.{less_int, insert_level, sort_levels}

pub less_int_asym : (v w : ℤ) → less_int v w ≡ true → less_int w v ≡ false
less_int_asym (pos m) (pos n) h = ground arith
less_int_asym (pos m) (negsuc n) h = cc
less_int_asym (negsuc m) (pos n) h = refl
less_int_asym (negsuc m) (negsuc n) h = ground arith

-- No number is above the one behind it.
abbrev pub IsRising : List ℤ → Type 0
IsRising [] = Unit {0}
IsRising (v ∷ []) = Unit {0}
IsRising (v ∷ w ∷ ws) = (less_int w v ≡ false) × IsRising (w ∷ ws)

insert_level-perm : (v : ℤ) (ws : List ℤ) → Perm (insert_level v ws) (v ∷ ws)
unfolding insert_level
insert_level-perm v [] = Perm.rfl
insert_level-perm v (w ∷ ws) = elim (Bool-cases (less_int w v)) [
  | inl below ↦ rw below (Perm.trans (Perm.cons w (insert_level-perm v ws)) (Perm.swap v w ws))
  | inr above ↦ rw above Perm.rfl
]

pub sort_levels-perm : (vs : List ℤ) → Perm (sort_levels vs) vs
unfolding sort_levels
sort_levels-perm [] = Perm.rfl
sort_levels-perm (v ∷ vs) =
    Perm.trans (insert_level-perm v (sort_levels vs)) (Perm.cons v (sort_levels-perm vs))

insert_level-IsRising : (v : ℤ) (ws : List ℤ) → IsRising ws → IsRising (insert_level v ws)
unfolding insert_level
insert_level-IsRising v [] r = tt
insert_level-IsRising v (w ∷ []) r = elim (Bool-cases (less_int w v)) [
  | inl below ↦ rw below (less_int_asym w v below, tt)
  | inr above ↦ rw above (above, tt)
]
insert_level-IsRising v (w ∷ x ∷ ws) (k, r) = elim (Bool-cases (less_int w v)) [
  | inr above ↦ rw above (above, (k, r))
  | inl below ↦
      let rest = insert_level-IsRising v (x ∷ ws) r in
      rw below (elim (Bool-cases (less_int x v)) [
        | inl lower ↦ rw lower (k, (rw lower at rest))
        | inr higher ↦ rw higher (less_int_asym w v below, (rw higher at rest))
      ])
]

pub sort_levels-IsRising : (vs : List ℤ) → IsRising (sort_levels vs)
unfolding sort_levels
sort_levels-IsRising [] = tt
sort_levels-IsRising (v ∷ vs) = insert_level-IsRising v (sort_levels vs) (sort_levels-IsRising vs)
