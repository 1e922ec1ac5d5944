-- ===== src/Operators/Container.antt =====
-- A container printed and read back, for any kind of item that is read back.
use conn.Common.{
  ℕ, zero, suc, ◌<◌, ◌≡◌, refl, Bool, true, false, ◌||◌, List, [], ◌∷◌, ◌++◌, some, ◌==◌, Bytes,
  length, length-append, arith, map,
}
use mathlib.Core.List.{append_assoc, append-nil}
use conn.Operators.{Item, print_items, print_container, fill, read_container}
use conn.Operators.Insert.{All, insert_all}
use conn.Operators.Streams.{good, get_char, peek_is}

abbrev pub is_end : ℕ → Bool
is_end d = d == 44 || d == 93

-- An item, followed by `,` or `]`, is read back as `kept` gives it.
abbrev pub ReadsBack : {A : Type 0} → Item A → (A → Type 0) → (A → A) → Type 0
ReadsBack {A} i Plain kept =
    (n dc d : ℕ) (x : A) (rest : Bytes)
    → Plain x
    → is_end d ≡ true
    → length (i.print x) < n
    → (dc' : ℕ) × (i.read n dc (good (i.print x ++ d ∷ rest))
        ≡ some (kept x, d == 93, dc', good rest))

abbrev pub is_closed : Bytes → Bool
is_closed [] = false
is_closed (x ∷ s) = x == 93

-- The text behind the opening bracket does not look like that of an empty container.
abbrev pub Opens : {A : Type 0} → Item A → List A → Type 0
Opens i [] = Unit {0}
Opens i (x ∷ xs) = is_closed (print_items i true (x ∷ xs) ++ 93 ∷ []) ≡ false

peek_is_closed :
    (t : Bytes) (rest : Bytes)
    → is_closed (t ++ 93 ∷ []) ≡ false
    → peek_is 93 (good (t ++ 93 ∷ rest)) ≡ (false, good (t ++ 93 ∷ rest))
unfolding peek_is
peek_is_closed [] rest h = rw h refl
peek_is_closed (x ∷ t) rest h = rw h refl

module _ {A : Type 0} (i : Item A) {Plain : A → Type 0} {kept : A → A}
    (reads : ReadsBack i Plain kept) (insert : A → List A → List A) where
  fill-print_items :
      (n dc : ℕ) (x : A) (xs : List A) (rest : Bytes) (acc : List A)
      → All Plain (x ∷ xs)
      → length (print_items i true (x ∷ xs)) < n
      → fill i insert n dc (good (print_items i true (x ∷ xs) ++ 93 ∷ rest)) acc
        ≡ some (insert_all insert acc (map kept (x ∷ xs)), good rest)
  unfolding fill print_items
  fill-print_items zero dc x xs rest acc k h = absurd (omega arith)
  fill-print_items (suc n) dc x [] rest acc (k, _) h =
      let (dc', e) =
        reads (suc n) dc 93 x rest k refl (omega (arith, length-append (i.print x) [])) in
      rw (append-nil, fill, e) refl
  fill-print_items (suc n) dc x (y ∷ ys) rest acc (k, ks) h =
      let more = print_items i true (y ∷ ys) in
      let (dc', e) =
        reads (suc n) dc 44 x (more ++ 93 ∷ rest) k refl
          (omega (arith, length-append (i.print x) (44 ∷ more))) in
      rw (append_assoc (i.print x) (44 ∷ more) (93 ∷ rest), fill, e)
        (fill-print_items n dc' y ys rest (insert (kept x) acc) ks
          (omega (arith, length-append (i.print x) (44 ∷ more))))

  pub read_container-print_container :
      (n junk : ℕ) (xs : List A) (rest : Bytes) (acc : List A)
      → All Plain xs
      → Opens i xs
      → length (print_container i xs) < n
      → read_container i insert n junk (good (print_container i xs ++ rest)) acc
        ≡ some (insert_all insert acc (map kept xs), good rest)
  unfolding print_container read_container get_char
  read_container-print_container n junk [] rest acc k o h = unfold peek_is print_items in refl
  read_container-print_container n junk (x ∷ xs) rest acc k o h =
      let t = print_items i true (x ∷ xs) in
      rw (append_assoc t (93 ∷ []) rest, peek_is_closed t rest o)
        (fill-print_items n 91 x xs rest acc k (omega (arith, length-append t (93 ∷ []))))
