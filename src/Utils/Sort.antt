-- ===== src/Utils/Sort.antt =====
-- `insertion_sort` sorts.
use conn.Common.{
  ℕ, suc, ◌+◌, ◌≡◌, refl, sym, ap, ◌∙◌, Bool, true, false, List, [], ◌∷◌, ◌++◌, if◌then◌else◌,
  length, get_or, set, Bool-cases, inl, inr, arith,
}
use mathlib.Core.List.{Perm, perm_middle, append-nil}
use mathlib.Core.List.Perm
use conn.Utils.{shift, sort_loop, insertion_sort}

module _ {ℓ} {A : Type ℓ} where
  -- A part of an array that is held from its end on, in front of the rest.
  abbrev onto : List A → List A → List A
  onto [] post = post
  onto (y ∷ r) post = onto r (y ∷ post)

  get_or-onto :
      (d : A) (r post : List A) (i : ℕ) → get_or (onto r post) (length r + i) d ≡ get_or post i d
  get_or-onto d [] post i = ap (λ n. get_or post n d) {y = i} (omega arith)
  get_or-onto d (y ∷ r) post i =
      ap (λ n. get_or (onto r (y ∷ post)) n d) {y = length r + suc i} (omega arith)
      ∙ get_or-onto d r (y ∷ post) (suc i)

  set-onto :
      (r post : List A) (i : ℕ) (v : A) → set (onto r post) (length r + i) v ≡ onto r (set post i v)
  set-onto [] post i v = ap (λ n. set post n v) {y = i} (omega arith)
  set-onto (y ∷ r) post i v =
      ap (λ n. set (onto r (y ∷ post)) n v) {y = length r + suc i} (omega arith)
      ∙ set-onto r (y ∷ post) (suc i) v

  onto-perm : (r post : List A) → Perm (onto r post) (r ++ post)
  onto-perm [] post = Perm.rfl
  onto-perm (y ∷ r) post = Perm.trans (onto-perm r (y ∷ post)) (perm_middle r post)

module _ {ℓ} {A : Type ℓ} (gt : A → A → Bool) (d : A) where
  -- The insertion of a key into the part that is sorted, seen from its end.
  insert_back : A → List A → List A
  insert_back key [] = key ∷ []
  insert_back key (y ∷ r) =
      let rest = insert_back key r in if gt y key then y ∷ rest else key ∷ y ∷ r

  insert_all : List A → List A → List A
  insert_all [] r = r
  insert_all (x ∷ xs) r = insert_all xs (insert_back x r)

  shift-insert_back :
      (key z : A) (r post : List A)
      → shift gt d key (onto r (z ∷ post)) (length r) ≡ onto (insert_back key r) post
  unfolding shift insert_back
  shift-insert_back key z [] post = refl
  shift-insert_back key z (y ∷ r) post =
      let here : get_or (onto r (y ∷ z ∷ post)) (length r) d ≡ y =
        ap (λ n. get_or (onto r (y ∷ z ∷ post)) n d) {y = length r + 0} (omega arith)
        ∙ get_or-onto d r (y ∷ z ∷ post) 0 in
      let put : (v : A) → set (onto r (y ∷ z ∷ post)) (suc (length r)) v ≡ onto r (y ∷ v ∷ post) =
        λ v.
          ap (λ n. set (onto r (y ∷ z ∷ post)) n v) {y = length r + 1} (omega arith)
          ∙ set-onto r (y ∷ z ∷ post) 1 v in
      elim (Bool-cases (gt y key)) [
        | inl larger ↦ rw (here, put y, larger) (shift-insert_back key y r (y ∷ post))
        | inr other ↦ rw (here, put key, other) refl
      ]

  length-insert_back : (key : A) (r : List A) → length (insert_back key r) ≡ suc (length r)
  unfolding insert_back
  length-insert_back key [] = refl
  length-insert_back key (y ∷ r) = elim (Bool-cases (gt y key)) [
    | inl larger ↦ rw larger (ap suc (length-insert_back key r))
    | inr other ↦ rw other refl
  ]

  sort_loop-insert_all :
      (post r : List A)
      → sort_loop gt d (onto r post) (length r) (length post) ≡ onto (insert_all post r) []
  unfolding sort_loop insert_all
  sort_loop-insert_all [] r = refl
  sort_loop-insert_all (x ∷ xs) r =
      let key : get_or (onto r (x ∷ xs)) (length r) d ≡ x =
        ap (λ n. get_or (onto r (x ∷ xs)) n d) {y = length r + 0} (omega arith)
        ∙ get_or-onto d r (x ∷ xs) 0 in
      ap
        (λ k.
          sort_loop gt d (shift gt d k (onto r (x ∷ xs)) (length r)) (suc (length r)) (length xs))
        key
      ∙ ap (λ a. sort_loop gt d a (suc (length r)) (length xs)) (shift-insert_back x x r xs)
      ∙ ap (λ n. sort_loop gt d (onto (insert_back x r) xs) n (length xs))
          (sym (length-insert_back x r))
      ∙ sort_loop-insert_all xs (insert_back x r)

  length-onto : (r post : List A) → length (onto r post) ≡ length r + length post
  length-onto [] post = omega arith
  length-onto (y ∷ r) post = omega (arith, length-onto r (y ∷ post))

  length-insert_all : (xs r : List A) → length (insert_all xs r) ≡ length xs + length r
  unfolding insert_all
  length-insert_all [] r = omega arith
  length-insert_all (x ∷ xs) r =
      omega (arith, length-insert_all xs (insert_back x r), length-insert_back x r)

  insertion_sort-insert_all :
      (x : A) (xs : List A) → insertion_sort gt d (x ∷ xs) ≡ onto (insert_all xs (x ∷ [])) []
  unfolding insertion_sort
  insertion_sort-insert_all x xs =
      ap (sort_loop gt d (x ∷ xs) 1) {y = length xs} (omega arith)
      ∙ sort_loop-insert_all xs (x ∷ [])

  pub length-insertion_sort : (arr : List A) → length (insertion_sort gt d arr) ≡ length arr
  unfolding insertion_sort sort_loop
  length-insertion_sort [] = refl
  length-insertion_sort (x ∷ xs) =
      ap length (insertion_sort-insert_all x xs)
      ∙ omega (arith, length-onto (insert_all xs (x ∷ [])) [], length-insert_all xs (x ∷ []))

  insert_back-perm : (key : A) (r : List A) → Perm (insert_back key r) (key ∷ r)
  unfolding insert_back
  insert_back-perm key [] = Perm.rfl
  insert_back-perm key (y ∷ r) = elim (Bool-cases (gt y key)) [
    | inl larger ↦ rw larger (Perm.trans (Perm.cons y (insert_back-perm key r)) (Perm.swap key y r))
    | inr other ↦ rw other Perm.rfl
  ]

  insert_all-perm : (xs r : List A) → Perm (insert_all xs r) (xs ++ r)
  unfolding insert_all
  insert_all-perm [] r = Perm.rfl
  insert_all-perm (x ∷ xs) r =
      Perm.trans (insert_all-perm xs (insert_back x r))
        (Perm.trans (Perm.append (Perm.rfl {l = xs}) (insert_back-perm x r)) (perm_middle xs r))

  -- No element is above the next one.
  abbrev pub Sorted : List A → Type 0
  Sorted [] = Unit {0}
  Sorted (x ∷ []) = Unit {0}
  Sorted (x ∷ y ∷ xs) = (gt x y ≡ false) × Sorted (y ∷ xs)

  -- The same of a part that is held from its end on.
  abbrev Falling : List A → Type 0
  Falling [] = Unit {0}
  Falling (y ∷ []) = Unit {0}
  Falling (y ∷ z ∷ r) = (gt z y ≡ false) × Falling (z ∷ r)

  onto-Sorted :
      (y : A) (r post : List A) → Falling (y ∷ r) → Sorted (y ∷ post) → Sorted (onto (y ∷ r) post)
  onto-Sorted y [] post f s = s
  onto-Sorted y (z ∷ r) post (k, f) s = onto-Sorted z r (y ∷ post) f (k, s)

  module _ (asym : (a b : A) → gt a b ≡ true → gt b a ≡ false) where
    insert_back-Falling : (key : A) (r : List A) → Falling r → Falling (insert_back key r)
    unfolding insert_back
    insert_back-Falling key [] f = tt
    insert_back-Falling key (y ∷ []) f = elim (Bool-cases (gt y key)) [
      | inl larger ↦ rw larger (asym y key larger, tt)
      | inr other ↦ rw other (other, tt)
    ]
    insert_back-Falling key (y ∷ z ∷ r) (k, f) = elim (Bool-cases (gt y key)) [
      | inr other ↦ rw other (other, (k, f))
      | inl larger ↦
          let rest = insert_back-Falling key (z ∷ r) f in
          rw larger (elim (Bool-cases (gt z key)) [
            | inl above ↦ rw above (k, (rw above at rest))
            | inr below ↦ rw below (asym y key larger, (rw below at rest))
          ])
    ]

    insert_all-Falling : (xs r : List A) → Falling r → Falling (insert_all xs r)
    unfolding insert_all
    insert_all-Falling [] r f = f
    insert_all-Falling (x ∷ xs) r f =
        insert_all-Falling xs (insert_back x r) (insert_back-Falling x r f)

    Falling-Sorted : (r : List A) → Falling r → Sorted (onto r [])
    Falling-Sorted [] f = tt
    Falling-Sorted (y ∷ r) f = onto-Sorted y r [] f tt

    -- `insertion_sort` of any array returns the same elements in an order in which none is above the
    -- next, for any comparison that does not hold both ways.
    pub insertion_sort-Sorted :
        (arr : List A) → Perm (insertion_sort gt d arr) arr × Sorted (insertion_sort gt d arr)
    unfolding insertion_sort sort_loop
    insertion_sort-Sorted [] = (Perm.rfl, tt)
    insertion_sort-Sorted (x ∷ xs) =
        let e = insertion_sort-insert_all x xs in
        (
          rw e (
              Perm.trans (onto-perm (insert_all xs (x ∷ [])) []) (
                rw (append-nil (insert_all xs (x ∷ []))) (
                  Perm.trans (insert_all-perm xs (x ∷ []))
                    (rw (append-nil xs) at (perm_middle {a = x} xs []))))),
          rw e (Falling-Sorted (insert_all xs (x ∷ [])) (insert_all-Falling xs (x ∷ []) tt)),
        )
