-- ===== src/Operators/Extract.antt =====
-- `extractString`: what it takes, and when it ends.
use conn.Common.{
  is_space, ℕ, zero, suc, ◌<◌, ◌≡◌, ◌≢◌, ◌↔◌, ◌⊎◌, refl, sym, ap, ◌∙◌, Bool, true, false, ◌||◌, [],
  ◌∷◌, ◌++◌, Option, none, some, ◌==◌, Bytes, length, length-append, arith, Bool-cases, inl, inr,
  ==_iff, subst,
}
use mathlib.Core.List.{append_assoc, append-nil}
use conn.Url.{Stream}
use conn.Operators.{extract_loop, extract_string}
use conn.Operators.Streams.{good, next_char, get_char, squeeze}

-- None of the characters is one of the two.
abbrev pub LacksBoth : ℕ → ℕ → Bytes → Type 0
LacksBoth d e [] = Unit {0}
LacksBoth d e (x ∷ s) = ((x == d || x == e) ≡ false) × LacksBoth d e s

module _ (delim end junk : ℕ) where
  extract_loop_at :
      (n c x : ℕ) (a rest val : Bytes)
      → LacksBoth delim end a
      → is_space x ≡ false
      → (x == delim || x == end) ≡ true
      → length a < n
      → (let (c', s') = get_char (good (a ++ x ∷ rest)) c in extract_loop n delim end c' s' val)
        ≡ some (val ++ squeeze a, x == end, good rest)
  unfolding extract_loop get_char squeeze
  extract_loop_at zero c x a rest val k v t h = absurd (omega arith)
  extract_loop_at (suc n) c x [] rest val k v t h = rw (v, t, append-nil) refl
  extract_loop_at (suc n) c x (y ∷ a) rest val (k, ks) v t h = elim (Bool-cases (is_space y)) [
    | inl skipped ↦ rw skipped (extract_loop_at (suc n) c x a rest val ks v t (omega arith))
    | inr visible ↦
        rw (visible, k)
          (extract_loop_at n y x a rest (val ++ y ∷ []) ks v t (omega arith)
            ∙ rw (append_assoc val (y ∷ []) (squeeze a)) refl)
  ]

  -- The characters up to the first of the two delimiters are taken, without their whitespace, and so is
  -- the delimiter.
  pub extract_string-squeeze :
      (n x : ℕ) (a rest : Bytes)
      → LacksBoth delim end a
      → is_space x ≡ false
      → (x == delim || x == end) ≡ true
      → length a < n
      → extract_string n junk delim end (good (a ++ x ∷ rest))
        ≡ some (squeeze a, x == end, good rest)
  unfolding extract_string
  extract_string-squeeze n x a rest k v t h = extract_loop_at n junk x a rest [] k v t h

  next_char-LacksBoth :
      (c : ℕ) (s : Bytes)
      → (c == delim || c == end) ≡ false
      → LacksBoth delim end s
      → let (c', s') = next_char s c in
        ((c' == delim || c' == end) ≡ false) × LacksBoth delim end s'.rest
  unfolding next_char
  next_char-LacksBoth c [] p k = (p, tt)
  next_char-LacksBoth c (x ∷ s) p (k, ks) = elim (Bool-cases (is_space x)) [
    | inl skipped ↦ rw skipped (next_char-LacksBoth c s p ks)
    | inr visible ↦ rw visible (k, ks)
  ]

  get_char-LacksBoth :
      (c : ℕ) (s : Stream)
      → (c == delim || c == end) ≡ false
      → LacksBoth delim end s.rest
      → let (c', s') = get_char s c in
        ((c' == delim || c' == end) ≡ false) × LacksBoth delim end s'.rest
  unfolding get_char
  get_char-LacksBoth c s p k = elim (Bool-cases s.good) [
    | inl fine ↦ rw fine (next_char-LacksBoth c s.rest p k)
    | inr failed ↦ rw failed (p, k)
  ]

  extract_loop_endless :
      (n c : ℕ) (s : Stream) (val : Bytes)
      → (c == delim || c == end) ≡ false
      → LacksBoth delim end s.rest
      → extract_loop n delim end c s val ≡ none
  unfolding extract_loop
  extract_loop_endless zero c s val p k = refl
  extract_loop_endless (suc n) c s val p k =
      let (p', k') = get_char-LacksBoth c s p k in
      rw p (extract_loop_endless n (get_char s c).0 (get_char s c).1 (val ++ c ∷ []) p' k')

  -- Without a delimiter in the rest of the stream the loop has no end, whatever rounds it is given.
  pub extract_string_endless :
      (n : ℕ) (s : Stream)
      → (junk == delim || junk == end) ≡ false
      → LacksBoth delim end s.rest
      → extract_string n junk delim end s ≡ none
  unfolding extract_string
  extract_string_endless n s p k =
      let (p', k') = get_char-LacksBoth junk s p k in
      extract_loop_endless n (get_char s junk).0 (get_char s junk).1 [] p' k'

  -- Where the first delimiter of a text stands, if it has one.
  abbrev Found : Bytes → Type 0
  Found s =
      (a : Bytes) × (x : ℕ) × (rest : Bytes) × (s ≡ a ++ x ∷ rest)
      × LacksBoth delim end a
      × ((x == delim || x == end) ≡ true)

  Found-cons : (y : ℕ) (s : Bytes) → (y == delim || y == end) ≡ false → Found s → Found (y ∷ s)
  Found-cons y s p (a, x, rest, e, k, t) = (y ∷ a, x, rest, ap (λ r. y ∷ r) e, (p, k), t)

  first_delimiter : (s : Bytes) → Found s ⊎ LacksBoth delim end s
  first_delimiter [] = inr tt
  first_delimiter (y ∷ s) = elim (Bool-cases (y == delim || y == end)) [
    | inl here ↦ inl ([], y, s, refl, tt, here)
    | inr past ↦ elim (first_delimiter s) [
      | inl f ↦ inl (Found-cons y s past f)
      | inr k ↦ inr (past, k)
    ]
  ]

  apart : (o : Option (Bytes × Bool × Stream)) {r : Bytes × Bool × Stream} → o ≡ some r → o ≢ none
  apart o h e = cc

  -- On a good stream, and with delimiters that are no whitespace, the loop ends exactly when one of the
  -- delimiters is still to come; one round more than there are characters is then enough.
  pub extract_string-ends :
      (s : Bytes)
      → is_space delim ≡ false
      → is_space end ≡ false
      → (junk == delim || junk == end) ≡ false
      → (((n : ℕ) × (extract_string n junk delim end (good s) ≢ none)) ↔ (¬ LacksBoth delim end s))
        × (¬ LacksBoth delim end s → extract_string (suc (length s)) junk delim end (good s) ≢ none)
  extract_string-ends s dv ev p = (
    (λ (n, ends) k. ends (extract_string_endless n (good s) p k), λ h. (suc (length s), enough h)),
    enough,
  )
    where
      visible : (x : ℕ) → (x == delim || x == end) ≡ true → is_space x ≡ false
      visible x t = elim (Bool-cases (x == delim)) [
        | inl e ↦ rw ((==_iff x delim).0 e) dv
        | inr e ↦ rw ((==_iff x end).0 (rw e at t)) ev
      ]

      at_delimiter :
          (a rest : Bytes) (x : ℕ)
          → LacksBoth delim end a
          → (x == delim || x == end) ≡ true
          → extract_string (suc (length (a ++ x ∷ rest))) junk delim end (good (a ++ x ∷ rest))
            ≢ none
      at_delimiter a rest x k t = apart _ (
          extract_string-squeeze (suc (length (a ++ x ∷ rest))) x a rest k (visible x t) t
            (omega (arith, length-append a (x ∷ rest))))

      enough :
          ¬ LacksBoth delim end s → extract_string (suc (length s)) junk delim end (good s) ≢ none
      enough h = elim (first_delimiter s) [
        | inl (a, x, rest, e, k, t) ↦
            subst (λ r. extract_string (suc (length r)) junk delim end (good r) ≢ none) (sym e)
              (at_delimiter a rest x k t)
        | inr k ↦ absurd (h k)
      ]
