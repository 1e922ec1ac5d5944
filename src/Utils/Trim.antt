-- ===== src/Utils/Trim.antt =====
-- `start_trim`, `end_trim` and `trim`.
use conn.Common.{
  ◌≡◌, refl, sym, ap, ◌∙◌, true, false, ◌&&◌, [], ◌∷◌, ◌++◌, if◌then◌else◌, Bytes, is_space,
  Bool-cases, inl, inr, subst, ℕ,
}
use mathlib.Core.Bool.{true≢false}
use conn.Url.{is_empty}

-- The text from its first character that is no whitespace.
unfoldable pub start_trim : Bytes → Bytes
start_trim [] = []
start_trim (x ∷ s) = let rest = start_trim s in if is_space x then rest else x ∷ s

-- The text up to its last character that is no whitespace.
unfoldable pub end_trim : Bytes → Bytes
end_trim [] = []
end_trim (x ∷ s) = let rest = end_trim s in if is_empty rest && is_space x then [] else x ∷ rest

unfoldable pub trim : Bytes → Bytes
unfolding start_trim end_trim
trim s = end_trim (start_trim s)

abbrev pub Spaces : Bytes → Type 0
Spaces [] = Unit {0}
Spaces (x ∷ s) = (is_space x ≡ true) × Spaces s

-- A text that is empty or begins with no whitespace.
abbrev pub StartsBare : Bytes → Type 0
StartsBare [] = Unit {0}
StartsBare (x ∷ s) = is_space x ≡ false

-- A text that is empty or ends with no whitespace.
abbrev pub EndsBare : Bytes → Type 0
EndsBare [] = Unit {0}
EndsBare (x ∷ []) = is_space x ≡ false
EndsBare (x ∷ y ∷ s) = EndsBare (y ∷ s)

start_trim_lem :
    (s : Bytes) → (a : Bytes) × (s ≡ a ++ start_trim s) × Spaces a × StartsBare (start_trim s)
unfolding start_trim
start_trim_lem [] = ([], refl, tt, tt)
start_trim_lem (x ∷ s) = elim (Bool-cases (is_space x)) [
  | inl space ↦
      let (a, e, k, b) = start_trim_lem s in rw space (x ∷ a, ap (λ t. x ∷ t) e, (space, k), b)
  | inr bare ↦ rw bare ([], refl, tt, bare)
]

EndsBare-cons : (x : ℕ) (s : Bytes) → EndsBare s → is_empty s ≡ false → EndsBare (x ∷ s)
EndsBare-cons x [] e h = absurd (true≢false h)
EndsBare-cons x (y ∷ s) e h = e

empty_nil : (s : Bytes) → is_empty s ≡ true → s ≡ []
empty_nil [] h = refl
empty_nil (x ∷ s) h = absurd (true≢false (sym h))

end_trim_lem : (s : Bytes) → (b : Bytes) × (s ≡ end_trim s ++ b) × Spaces b × EndsBare (end_trim s)
unfolding end_trim
end_trim_lem [] = ([], refl, tt, tt)
end_trim_lem (x ∷ s) =
    let (b, e, k, bare) = end_trim_lem s in
    elim (Bool-cases (is_empty (end_trim s))) [
      | inr more ↦ rw more (b, ap (λ t. x ∷ t) e, k, EndsBare-cons x (end_trim s) bare more)
      | inl blank ↦
          let all : s ≡ b = e ∙ ap (λ t. t ++ b) (empty_nil (end_trim s) blank) in
          elim (Bool-cases (is_space x)) [
            | inl space ↦ rw (blank, space) (x ∷ b, ap (λ t. x ∷ t) all, (space, k), tt)
            | inr last ↦
                rw (blank, last)
                  (
                    b,
                    ap (λ t. x ∷ t) e,
                    k,
                    subst (λ t. EndsBare (x ∷ t)) (sym (empty_nil (end_trim s) blank)) last,
                  )
          ]
    ]

front_bare : (t s b : Bytes) → s ≡ t ++ b → StartsBare s → StartsBare t
front_bare [] s b e h = tt
front_bare (x ∷ t) s b e h = subst StartsBare e h

-- What trim leaves of a text begins and ends with no whitespace, if it is not empty, and what it takes
-- away at the start and at the end is whitespace.
pub trim_lem :
    (s : Bytes)
    → (a : Bytes) × (b : Bytes) × (s ≡ a ++ (trim s ++ b))
      × Spaces a
      × Spaces b
      × StartsBare (trim s)
      × EndsBare (trim s)
unfolding trim
trim_lem s =
    let (a, e, k, starts) = start_trim_lem s in
    let (b, f, l, ends) = end_trim_lem (start_trim s) in
    (a, b, e ∙ ap (λ t. a ++ t) f, k, l, front_bare (end_trim (start_trim s)) _ b f starts, ends)
