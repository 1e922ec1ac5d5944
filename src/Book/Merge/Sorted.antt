-- ===== src/Book/Merge/Sorted.antt =====
-- The merged book is sorted, where the counts start from 0.
use conn.Common.{
  set-length_append, take-length_append, drop-length_append, length-drop, ℕ, zero, suc, ◌+◌, ◌≤◌,
  ◌≡◌, refl, sym, ap, ap₂, ◌∙◌, true, false, List, [], ◌∷◌, ◌++◌, some, ltb, length, length-append,
  take, drop, set, arith, lt→ltb, not_lt→ltb,
}
use mathlib.Core.List.{Perm, append_assoc, append-nil}
use mathlib.Core.Option
use conn.Utils.{insertion_sort}
use conn.Utils.Sort.{Sorted, insertion_sort-Sorted}
use conn.Book.{Prices, Level, empty_level, above}
use conn.Book.Merge.{Side, copy_side, copy_books, sort_first, total, merge_side}

module _ {ℓ} {P : Type ℓ} (prices : Prices P) where
  pub concat : List (List (Level P)) → List (Level P)
  concat [] = []
  concat (b ∷ bs) = b ++ concat bs

  length-concat : (bs : List (List (Level P))) → length (concat bs) ≡ total prices bs
  unfolding concat
  length-concat [] = refl
  length-concat (b ∷ bs) = omega (arith, length-append b (concat bs), length-concat bs)

  copy_side-append :
      (ls pre post : List (Level P)) (counter : ℕ)
      → counter ≡ length pre
      → length ls ≤ length post
      → copy_side prices ls counter (pre ++ post)
        ≡ some ((pre ++ ls) ++ drop (length ls) post, counter + length ls)
  unfolding copy_side
  copy_side-append [] pre post counter e h =
      ap₂ (λ a n. some (a, n)) (ap (λ t. t ++ post) (sym (append-nil pre))) (omega arith)
  copy_side-append (l ∷ ls) pre [] counter e h = absurd (omega arith)
  copy_side-append (l ∷ ls) pre (z ∷ post) counter e h =
      let room : ltb counter (length (pre ++ z ∷ post)) ≡ true =
        lt→ltb _ _ (omega (arith, length-append pre (z ∷ post))) in
      let put : set (pre ++ z ∷ post) counter l ≡ (pre ++ l ∷ []) ++ post =
        ap (λ n. set (pre ++ z ∷ post) n l) e
        ∙ set-length_append pre z l post
        ∙ sym (append_assoc pre (l ∷ []) post) in
      let rest =
        copy_side-append ls (pre ++ l ∷ []) post (counter + 1)
          (omega (arith, length-append pre (l ∷ []))) (omega arith) in
      rw (room, put)
        (rest
          ∙ ap₂ (λ a n. some (a ++ drop (length ls) post, n)) (append_assoc pre (l ∷ []) ls)
              (omega arith))

  drop_nil : (n : ℕ) → drop {A = Level P} n [] ≡ []
  drop_nil zero = refl
  drop_nil (suc n) = refl

  drop-drop : (m n : ℕ) (xs : List (Level P)) → drop n (drop m xs) ≡ drop (m + n) xs
  drop-drop zero n xs = ap (λ k. drop k xs) {x = n} {y = 0 + n} (omega arith)
  drop-drop (suc m) n [] = drop_nil n ∙ sym (drop_nil (suc m + n))
  drop-drop (suc m) n (x ∷ xs) =
      drop-drop m n xs ∙ ap (λ k. drop k (x ∷ xs)) {x = suc (m + n)} {y = suc m + n} (omega arith)

  pub copy_books-append :
      (bs : List (List (Level P))) (pre post : List (Level P)) (counter : ℕ)
      → counter ≡ length pre
      → total prices bs ≤ length post
      → copy_books prices bs counter (pre ++ post)
        ≡ some ((pre ++ concat bs) ++ drop (total prices bs) post, counter + total prices bs)
  unfolding copy_books Option.bind concat
  copy_books-append [] pre post counter e h =
      ap₂ (λ a n. some (a, n)) (ap (λ t. t ++ post) (sym (append-nil pre))) (omega arith)
  copy_books-append (b ∷ bs) pre post counter e h =
      let rest =
        copy_books-append bs (pre ++ b) (drop (length b) post) (counter + length b)
          (omega (arith, length-append pre b)) (omega (arith, length-drop (length b) post)) in
      ap (λ o. Option.bind o (λ r. copy_books prices bs r.1 r.0))
        (copy_side-append b pre post counter e (omega arith))
      ∙ rest
      ∙ ap₂ (λ a n. some (a, n))
          (ap₂ ◌++◌ (append_assoc pre b (concat bs)) (drop-drop (length b) (total prices bs) post))
          (omega arith)

  -- One merge, where the counts start from 0 and the levels of all books fit the array: it succeeds, the
  -- count is the number of levels, and in front of the old levels stand those of all the books, each
  -- once, in an order in which no price is above the next one. It is assumed that of two prices at most
  -- one is below the other.
  pub merge_side-Sorted :
      (books : List (List (Level P))) (side : Side P)
      → ((p q : P) → prices.less p q ≡ true → prices.less q p ≡ false)
      → side.count ≡ 0
      → total prices books ≤ length side.levels
      → (front : List (Level P)) × (merge_side prices books side
          ≡ some (record {
            levels = front ++ drop (total prices books) side.levels;
            count = total prices books;
          }))
        × Perm front (concat books)
        × Sorted (above prices) (empty_level prices) front
  unfolding merge_side sort_first Option.bind
  merge_side-Sorted books side asym zero_count fits =
      let t = total prices books in
      let all = concat books in
      let back = drop t side.levels in
      let copied : copy_books prices books 0 side.levels ≡ some (all ++ back, 0 + t) =
        copy_books-append books [] side.levels 0 refl fits in
      let sum : side.count + t ≡ t = omega arith in
      let room : ltb (length (all ++ back)) t ≡ false =
        not_lt→ltb _ _ (omega (arith, length-append all back, length-concat books)) in
      let front : take t (all ++ back) ≡ all =
        ap (λ n. take n (all ++ back)) (sym (length-concat books)) ∙ take-length_append all back in
      let behind : drop t (all ++ back) ≡ back =
        ap (λ n. drop n (all ++ back)) (sym (length-concat books)) ∙ drop-length_append all back in
      let (perm, sorted) =
        insertion_sort-Sorted (above prices) (empty_level prices) (λ a b. asym b.price a.price)
          all in
      (
        insertion_sort (above prices) (empty_level prices) all,
        rw (copied, sum, room, front, behind) refl,
        perm,
        sorted,
      )
