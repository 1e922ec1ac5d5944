-- ===== src/Url/Lines.antt =====
-- Texts that are read line by line, up to a delimiter.
use conn.Common.{
  ℕ, suc, ◌+◌, ◌<◌, ◌≡◌, refl, ap, ◌∙◌, true, false, List, [], ◌∷◌, ◌++◌, none, some, ◌==◌,
  if◌then◌else◌, Bytes, length, arith, take, drop, Bool-cases, inl, inr,
}
use mathlib.Core.Bool.{false≢true}
use conn.Url.{take_line, find}

abbrev pub Lacks : ℕ → Bytes → Type 0
Lacks c [] = Unit {0}
Lacks c (x ∷ s) = ((x == c) ≡ false) × Lacks c s

-- The texts between the delimiters.
abbrev cons_first : ℕ → List Bytes → List Bytes
cons_first x [] = (x ∷ []) ∷ []
cons_first x (s ∷ ss) = (x ∷ s) ∷ ss

unfoldable pub split : ℕ → Bytes → List Bytes
split c [] = [] ∷ []
split c (x ∷ s) = let rest = split c s in if x == c then [] ∷ rest else cons_first x rest

-- A line is the first of the texts; where the delimiter was found, the others are those of what is left.
pub take_line-split :
    (c : ℕ) (s : Bytes)
    → let (line, t) = take_line c s in
      (split c s ≡ line ∷ (if t.good then split c t.rest else []))
      × (t.good ≡ true → length t.rest < length s)
unfolding take_line split
take_line-split c [] = (refl, λ h. absurd (false≢true h))
take_line-split c (x ∷ s) =
    let (texts, shorter) = take_line-split c s in
    elim (Bool-cases (x == c)) [
      | inl here ↦ rw here (refl, λ h. omega arith)
      | inr past ↦ rw (past, texts) (refl, λ h. omega (arith, shorter h))
    ]

pub split-append : (c : ℕ) (a s : Bytes) → Lacks c a → split c (a ++ c ∷ s) ≡ a ∷ split c s
unfolding split
split-append c [] s k = ground arith
split-append c (x ∷ a) s (k, ks) = rw (k, split-append c a s ks)

pub split_self : (c : ℕ) (a : Bytes) → Lacks c a → split c a ≡ a ∷ []
unfolding split
split_self c [] k = refl
split_self c (x ∷ a) (k, ks) = rw (k, split_self c a ks)

pub take_line_at :
    (c : ℕ) (a s : Bytes)
    → Lacks c a
    → take_line c (a ++ c ∷ s) ≡ (a, record { rest = s; good = true })
unfolding take_line
take_line_at c [] s k = ground arith
take_line_at c (x ∷ a) s (k, ks) = rw (k, take_line_at c a s ks)

pub take_line_end :
    (c : ℕ) (a : Bytes) → Lacks c a → take_line c a ≡ (a, record { rest = []; good = false })
unfolding take_line
take_line_end c [] k = refl
take_line_end c (x ∷ a) (k, ks) = rw (k, take_line_end c a ks)

pub find_at : (c : ℕ) (a s : Bytes) → Lacks c a → find (c ∷ []) (a ++ c ∷ s) ≡ some (length a)
unfolding find
find_at c [] s k = ground arith
find_at c (x ∷ a) s (k, ks) = let rest = find_at c a s ks in ground arith

pub find_none : (c : ℕ) (a : Bytes) → Lacks c a → find (c ∷ []) a ≡ none
unfolding find
find_none c [] k = refl
find_none c (x ∷ a) (k, ks) = let rest = find_none c a ks in ground arith

pub take_front : (a s : Bytes) → take (length a) (a ++ s) ≡ a
take_front [] s = refl
take_front (x ∷ a) s = ap (λ t. x ∷ t) (take_front a s)

pub drop_front : (c : ℕ) (a s : Bytes) → drop (length a + 1) (a ++ c ∷ s) ≡ s
drop_front c [] s = refl
drop_front c (x ∷ a) s =
    ap (λ n. drop n (x ∷ a ++ c ∷ s)) {y = suc (length a + 1)} (omega arith) ∙ drop_front c a s
