-- ===== src/Book/Merge/Grows.antt =====
-- The counts of the merged book are never reset.
use conn.Common.{
  subst, length-set, length-drop, length-take, ℕ, zero, suc, ◌+◌, ◌*◌, ◌≤◌, ◌<◌, ◌≡◌, refl, ap, ◌∙◌,
  List, [], ◌∷◌, Option, none, some, ltb, length, length-append, take, drop, set, arith, lt→ltb,
  not_lt→ltb, Bool-cases, Option-cases, inl, inr,
}
use native.Mathlib.Decide.{dec_lt}
use mathlib.Core.Option
use conn.Utils.{insertion_sort}
use conn.Utils.Sort.{length-insertion_sort}
use conn.Book.{Prices, Level, empty_level, above}
use conn.Book.Merge.{Side, copy_side, copy_books, sort_first, total, merge_side, merges}

module _ {ℓ} {P : Type ℓ} (prices : Prices P) where
  abbrev Keeps : ℕ → Option (List (Level P) × ℕ) → Type 0
  Keeps n none = Unit {0}
  Keeps n (some r) = length r.0 ≡ n

  copy_side-Keeps :
      (ls : List (Level P)) (counter : ℕ) (arr : List (Level P))
      → Keeps (length arr) (copy_side prices ls counter arr)
  unfolding copy_side
  copy_side-Keeps [] counter arr = refl
  copy_side-Keeps (l ∷ ls) counter arr = elim (Bool-cases (ltb counter (length arr))) [
    | inr full ↦ rw full tt
    | inl room ↦ rw room (
        subst (λ n. Keeps n (copy_side prices ls (counter + 1) (set arr counter l)))
          (length-set arr counter l) (copy_side-Keeps ls (counter + 1) (set arr counter l)))
  ]

  copy_books-Keeps :
      (bs : List (List (Level P))) (counter : ℕ) (arr : List (Level P))
      → Keeps (length arr) (copy_books prices bs counter arr)
  unfolding copy_books Option.bind
  copy_books-Keeps [] counter arr = refl
  copy_books-Keeps (b ∷ bs) counter arr = elim (Option-cases (copy_side prices b counter arr)) [
    | inl out ↦ rw out tt
    | inr (r, copied) ↦
        let same : length r.0 ≡ length arr =
          subst (Keeps (length arr)) copied (copy_side-Keeps b counter arr) in
        rw copied
          (subst (λ n. Keeps n (copy_books prices bs r.1 r.0)) same (copy_books-Keeps bs r.1 r.0))
  ]

  abbrev Grown : ℕ → ℕ → Option (Side P) → Type 0
  Grown count len none = Unit {0}
  Grown count len (some s) = (s.count ≡ count) × (length s.levels ≡ len) × (count ≤ len)

  merge_side-Grown :
      (books : List (List (Level P))) (side : Side P)
      → Grown (side.count + total prices books) (length side.levels) (merge_side prices books side)
  unfolding merge_side sort_first Option.bind
  merge_side-Grown books side = elim (Option-cases (copy_books prices books 0 side.levels)) [
    | inl out ↦ rw out tt
    | inr (r, copied) ↦
        let same : length r.0 ≡ length side.levels =
          subst (Keeps (length side.levels)) copied (copy_books-Keeps books 0 side.levels) in
        elim (dec_lt (length r.0) (side.count + total prices books)) [
          | yes over ↦ rw (copied, lt→ltb _ _ over) tt
          | no fits ↦
              let n = side.count + total prices books in
              let sorted = insertion_sort (above prices) (empty_level prices) (take n r.0) in
              rw (copied, not_lt→ltb _ _ fits)
                (
                  refl,
                  omega (
                    arith,
                    length-append sorted (drop n r.0),
                    length-take n r.0,
                    length-drop n r.0,
                    length-insertion_sort (above prices) (empty_level prices) (take n r.0),
                    same,
                  ),
                  omega arith,
                )
        ]
  ]

  -- Merges of the same books, one after the other, count their levels again each time: as soon as that
  -- is more than the array holds, a merge stores or reads levels outside of it.
  pub merges-none :
      (n : ℕ) (books : List (List (Level P))) (side : Side P)
      → 0 < n
      → length side.levels < side.count + n * total prices books
      → merges prices n books side ≡ none
  unfolding merges Option.bind
  merges-none zero books side pos over = absurd (omega arith)
  merges-none (suc n) books side pos over = elim (Option-cases (merge_side prices books side)) [
    | inl out ↦ rw out refl
    | inr (s, merged) ↦
        let (count, len, fits) =
          subst (Grown (side.count + total prices books) (length side.levels)) merged
            (merge_side-Grown books side) in
        elim (dec_lt 0 n) [
          | no last ↦
              let nothing : n * total prices books ≡ 0 =
                ap (λ m. m * total prices books) {x = n} {y = 0} (omega arith) ∙ omega arith in
              absurd (omega arith)
          | yes more ↦ rw merged (merges-none n books s more (omega arith))
        ]
  ]
