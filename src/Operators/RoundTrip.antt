-- ===== src/Operators/RoundTrip.antt =====
-- What `operator<<` of a container prints is read back by its `operator>>`.
use conn.Common.{
  ℕ, ◌<◌, ◌≡◌, ◌≢◌, refl, ap, ◌∙◌, Bool, false, ◌||◌, List, [], ◌∷◌, ◌++◌, some, ◌==◌, Bytes,
  length, map, arith,
}
use conn.Url.Lines.{Lacks}
use conn.Operators.{
  text_field, Item, text_item, entry_item, print_vector, read_vector, print_set, read_set,
  print_unordered_set, read_unordered_set, print_unordered_map, read_unordered_map, keep_old,
  assign_value, on_keys, push_back, ordered_insert, hashed_insert, print_items,
}
use conn.Operators.Streams.{good, squeeze}
use conn.Operators.Extract.{LacksBoth}
use conn.Operators.Insert.{
  All, Chain, Below, insert_all, insert_all-push_back, insert_all-Chain, ordered_insert_last,
  hashed_insert_last,
}
use conn.Operators.Container.{ReadsBack, Opens, is_closed, read_container-print_container}
use conn.Operators.Items.{
  text_field-ReadsPlace, text_item-ReadsBack, entry_item-ReadsBack, kept_value, BothPlain,
}

-- Texts that have no `,` and no `]`; one empty text alone is printed as no text at all.
abbrev pub IsPrintable : List Bytes → Type 0
IsPrintable v = All (LacksBoth 44 93) v × (v ≢ [] ∷ [])

lacks_end : (x : ℕ) → (x == 44 || x == 93) ≡ false → (x == 93) ≡ false
lacks_end x h = ground arith

texts_open : (junk : ℕ) (v : List Bytes) → IsPrintable v → Opens (text_item junk) v
unfolding print_items
texts_open junk [] k = tt
texts_open junk ([] ∷ []) (ks, h) = absurd (h refl)
texts_open junk ([] ∷ t ∷ v) k = refl
texts_open junk ((x ∷ s) ∷ v) (((k, _), _), h) = lacks_end x k

-- A vector of texts without `,` and `]` that is printed, whatever follows it, is read back into a
-- vector as its items without their whitespace, behind those that were there; the vector of one empty
-- text excepted.
pub read_vector-print_vector :
    (n junk : ℕ) (v old : List Bytes) (rest : Bytes)
    → IsPrintable v
    → length (print_vector (text_item junk) v) < n
    → read_vector (text_item junk) n junk (good (print_vector (text_item junk) v ++ rest)) old
      ≡ some (old ++ map squeeze v, good rest)
unfolding read_vector print_vector
read_vector-print_vector n junk v old rest k h =
    read_container-print_container (text_item junk) (text_item-ReadsBack junk) push_back n junk v
      rest old k.0 (texts_open junk v k) h
    ∙ ap (λ r. some (r, good rest)) (insert_all-push_back old (map squeeze v))

module _ {A : Type 0} (i : Item A) {Plain : A → Type 0} (reads : ReadsBack i Plain (λ x. x)) where
  map_same : (xs : List A) → map (λ x. x) xs ≡ xs
  map_same [] = refl
  map_same (x ∷ xs) = ap (λ r. x ∷ r) (map_same xs)

  -- A set that is printed is read back into an empty one, if its items are in the order of its
  -- comparison and are read back.
  pub read_set-print_set :
      (lt : A → A → Bool) (n junk : ℕ) (xs : List A) (rest : Bytes)
      → Chain (Below lt) xs
      → All Plain xs
      → Opens i xs
      → length (print_set i xs) < n
      → read_set i lt n junk (good (print_set i xs ++ rest)) [] ≡ some (xs, good rest)
  unfolding read_set print_set
  read_set-print_set lt n junk xs rest c k o h =
      read_container-print_container i reads (ordered_insert lt keep_old) n junk xs rest [] k o h
      ∙ ap (λ r. some (insert_all (ordered_insert lt keep_old) [] r, good rest)) (map_same xs)
      ∙ ap (λ r. some (r, good rest))
          (insert_all-Chain (Below lt) (ordered_insert lt keep_old)
            (λ y ys. ordered_insert_last lt keep_old y ys) [] xs c)

  -- A hashed set whose items are different, likewise, in the order in which it was printed.
  pub read_unordered_set-print_unordered_set :
      (eq : A → A → Bool) (n junk : ℕ) (xs : List A) (rest : Bytes)
      → Chain (λ x y. eq x y ≡ false) xs
      → All Plain xs
      → Opens i xs
      → length (print_unordered_set i xs) < n
      → read_unordered_set i eq n junk (good (print_unordered_set i xs ++ rest)) []
        ≡ some (xs, good rest)
  unfolding read_unordered_set print_unordered_set
  read_unordered_set-print_unordered_set eq n junk xs rest c k o h =
      read_container-print_container i reads (hashed_insert eq keep_old) n junk xs rest [] k o h
      ∙ ap (λ r. some (insert_all (hashed_insert eq keep_old) [] r, good rest)) (map_same xs)
      ∙ ap (λ r. some (r, good rest))
          (insert_all-Chain (λ x y. eq x y ≡ false) (hashed_insert eq keep_old)
            (λ y ys. hashed_insert_last eq keep_old y ys) [] xs c)

-- The first key of a map does not begin with the character that ends it.
abbrev pub StartsWell : {V : Type 0} → List (Bytes × V) → Type 0
StartsWell [] = Unit {0}
StartsWell ((k, v) ∷ m) = is_closed (k ++ 61 ∷ []) ≡ false

module _ {V : Type 0} (i : Item V) {Plain : V → Type 0} {kept : V → V}
    (reads : ReadsBack i Plain kept) where
  abbrev KeysLack : Bytes × V → Type 0
  KeysLack = BothPlain (Lacks 61) Plain

  is_closed-key :
      (k t : Bytes)
      → is_closed (k ++ 61 ∷ []) ≡ false
      → is_closed ((k ++ 61 ∷ t) ++ 93 ∷ []) ≡ false
  is_closed-key [] t h = h
  is_closed-key (x ∷ k) t h = h

  is_closed-append :
      (t s u : Bytes) → is_closed (t ++ 93 ∷ []) ≡ false → is_closed ((t ++ s) ++ u) ≡ false
  is_closed-append [] s u h = cc
  is_closed-append (x ∷ t) s u h = h

  entries_open : (m : List (Bytes × V)) → StartsWell m → Opens (entry_item text_field i) m
  unfolding print_items
  entries_open [] s = tt
  entries_open ((k, v) ∷ m) s =
      is_closed-append (k ++ 61 ∷ i.print v) (print_items (entry_item text_field i) false m)
        (93 ∷ []) (is_closed-key k (i.print v) s)

  -- A hashed map, likewise, if its keys are different.
  pub read_unordered_map-print_unordered_map :
      (eq : Bytes → Bytes → Bool) (n junk : ℕ) (m : List (Bytes × V)) (rest : Bytes)
      → Chain (λ e f. on_keys eq e f ≡ false) (map (kept_value kept) m)
      → All KeysLack m
      → StartsWell m
      → length (print_unordered_map text_field i m) < n
      → read_unordered_map text_field i eq n junk
          (good (print_unordered_map text_field i m ++ rest))
          []
        ≡ some (map (kept_value kept) m, good rest)
  unfolding read_unordered_map print_unordered_map
  read_unordered_map-print_unordered_map eq n junk m rest c k s h =
      read_container-print_container (entry_item text_field i)
        (entry_item-ReadsBack text_field i (text_field-ReadsPlace 61) reads)
        (hashed_insert (on_keys eq) assign_value) n junk m rest [] k (entries_open m s) h
      ∙ ap (λ r. some (r, good rest))
          (insert_all-Chain (λ e f. on_keys eq e f ≡ false)
            (hashed_insert (on_keys eq) assign_value)
            (λ y ys. hashed_insert_last (on_keys eq) assign_value y ys) [] (map (kept_value kept) m)
            c)
