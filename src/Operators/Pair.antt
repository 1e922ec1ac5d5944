-- ===== src/Operators/Pair.antt =====
-- Pairs printed and read back.
use conn.Common.{
  is_space, ℕ, ◌≡◌, refl, ◌∙◌, Bool, true, false, [], ◌∷◌, ◌++◌, ◌==◌, ==_iff, if◌then◌else◌, Bytes,
  Bool-cases, inl, inr,
}
use mathlib.Core.List.{append_assoc}
use conn.Url.{is_empty}
use conn.Operators.{Element, Field, print_pair, read_place, read_pair}
use conn.Operators.Streams.{good, get_char, get_char_at, peek_is}
use conn.Operators.Items.{ReadsPlace, Restores}

abbrev pub starts : ℕ → Bytes → Bool
starts d [] = false
starts d (x ∷ s) = x == d

peek_is_place :
    (d : ℕ) (t rest : Bytes)
    → starts d t ≡ false
    → peek_is d (good (t ++ d ∷ rest)) ≡ (is_empty t, good (t ++ d ∷ rest))
unfolding peek_is
peek_is_place d [] rest h = rw ((==_iff d d).1 refl) refl
peek_is_place d (x ∷ t) rest h = rw h refl

get_char_place :
    (d c : ℕ) (t rest : Bytes)
    → is_space d ≡ false
    → is_empty t ≡ true
    → get_char (good (t ++ d ∷ rest)) c ≡ (d, good rest)
get_char_place d c [] rest v h = get_char_at d c rest v
get_char_place d c (x ∷ t) rest v h = cc

module _ {A : Type 0} (f : Field A) {Plain : A → Type 0} {delim : ℕ}
    (reads : ReadsPlace f delim Plain) (visible : is_space delim ≡ false) where
  -- A place whose text is empty keeps what it held.
  read_place_lem :
      (dc : ℕ) (x old : A) (rest : Bytes)
      → Plain x
      → starts delim (f.print x) ≡ false
      → (dc' : ℕ) × (read_place f delim dc (good (f.print x ++ delim ∷ rest)) old
          ≡ ((if is_empty (f.print x) then old else x), dc', good rest))
  unfolding read_place
  read_place_lem dc x old rest k s = elim (Bool-cases (is_empty (f.print x))) [
    | inl blank ↦ (
      delim,
      rw
          (
            peek_is_place delim (f.print x) rest s,
            blank,
            get_char_place delim dc (f.print x) rest visible blank,
          )
          refl,
    )
    | inr written ↦
        let (dc', e) = reads dc x old rest k in
        (dc', rw (peek_is_place delim (f.print x) rest s, written, e) refl)
  ]

module _ {X Y : Type 0} (f : Field X) (g : Field Y) {P : X → Type 0} {Q : Y → Type 0}
    (reads_first : ReadsPlace f 44 P) (reads_second : ReadsPlace g 62 Q) (junk : ℕ) where
  -- A pair that is printed and read back has its places again, whatever follows it, but for a place
  -- whose text is empty: that keeps what the variable held before.
  pub read_pair-print_pair :
      (x x0 : X) (y y0 : Y) (rest : Bytes)
      → P x
      → Q y
      → starts 44 (f.print x) ≡ false
      → starts 62 (g.print y) ≡ false
      → read_pair f g junk (good (print_pair f g (x, y) ++ rest)) (x0, y0) ≡ (
        ((if is_empty (f.print x) then x0 else x), (if is_empty (g.print y) then y0 else y)),
        good rest,
      )
  unfolding read_pair print_pair get_char
  read_pair-print_pair x x0 y y0 rest p q s t =
      let more = g.print y ++ 62 ∷ rest in
      let (dc1, e1) = read_place_lem f reads_first refl 60 x x0 more p s in
      let (dc2, e2) = read_place_lem g reads_second refl dc1 y y0 rest q t in
      rw
        (
          append_assoc (f.print x) (44 ∷ g.print y ++ 62 ∷ []) rest,
          append_assoc (g.print y) (62 ∷ []) rest,
          e1,
          e2,
        )
        refl

-- A pair as the item of a container.
abbrev pub pair_element : {X Y : Type 0} → Field X → Field Y → ℕ → Element (X × Y)
pair_element f g junk = record {
  print = print_pair f g;
  read = read_pair f g junk;
  initial = (f.initial, g.initial);
}

abbrev pub IsPair :
    {X Y : Type 0} → Field X → Field Y → (X → Type 0) → (Y → Type 0) → X × Y → Type 0
IsPair f g P Q (x, y) =
    (P x × (starts 44 (f.print x) ≡ false) × (is_empty (f.print x) ≡ false))
    × (Q y × (starts 62 (g.print y) ≡ false) × (is_empty (g.print y) ≡ false))

pub pair_element-Restores :
    {X Y : Type 0} (f : Field X) (g : Field Y) {P : X → Type 0} {Q : Y → Type 0}
    → ReadsPlace f 44 P
    → ReadsPlace g 62 Q
    → (junk : ℕ) → Restores (pair_element f g junk) (IsPair f g P Q)
pair_element-Restores f g reads_first reads_second junk d (x, y) (x0, y0) rest
      ((p, s, written_first), (q, t, written_second)) m =
    read_pair-print_pair f g reads_first reads_second junk x x0 y y0 (d ∷ rest) p q s t
    ∙ rw (written_first, written_second) refl
