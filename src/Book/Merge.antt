-- ===== src/Book/Merge.antt =====
-- engine/book/Stream.h, mergeOrderBook: the books of all venues are copied into one and sorted by price.
pub mod Sorted
pub mod Grows
use conn.Common.{
  ℕ, zero, suc, ◌+◌, List, [], ◌∷◌, ◌++◌, Option, none, some, if◌then◌else◌, ltb, length, take,
  drop, set,
}
use mathlib.Core.List.Perm
use mathlib.Core.Option
use conn.Utils.{insertion_sort}
use conn.Book.{Prices, Level, empty_level, above}

-- One side of `m_composite_order_book`: the array and the count.
pub record Side {ℓ} (P : Type ℓ) : Type ℓ where
  pub levels : List (Level P)
  pub count : ℕ

module _ {ℓ} {P : Type ℓ} (prices : Prices P) where
  -- One side of every book is copied, from index `counter` on: the array, and `none` where a level would
  -- be stored outside of it.
  pub copy_side : List (Level P) → ℕ → List (Level P) → Option (List (Level P) × ℕ)
  copy_side [] counter arr = some (arr, counter)
  copy_side (l ∷ ls) counter arr =
      let rest = copy_side ls (counter + 1) (set arr counter l) in
      if ltb counter (length arr) then rest else none

  -- The loop over `m_l2Snapshots_order_book`; a book is the first `bid_count` (or `ask_count`) levels.
  pub copy_books : List (List (Level P)) → ℕ → List (Level P) → Option (List (Level P) × ℕ)
  unfolding copy_side
  copy_books [] counter arr = some (arr, counter)
  copy_books (b ∷ bs) counter arr =
      Option.bind (copy_side b counter arr) (λ r. copy_books bs r.1 r.0)

  -- `insertion_sort(arr, len)`: only the first `len` elements move; `none` where there are fewer.
  pub sort_first : ℕ → List (Level P) → Option (List (Level P))
  sort_first len arr =
      if ltb (length arr) len
      then none
      else some (insertion_sort (above prices) (empty_level prices) (take len arr) ++ drop len arr)

  abbrev pub total : List (List (Level P)) → ℕ
  total [] = 0
  total (b ∷ bs) = length b + total bs

  -- `mergeOrderBook` on one side: the counter starts at 0, and the count goes on from what it was.
  unfoldable pub merge_side : List (List (Level P)) → Side P → Option (Side P)
  unfolding copy_books sort_first
  merge_side books side = Option.bind (copy_books books 0 side.levels) (λ r.
      let count = side.count + total books in
      Option.map (λ arr. record { levels = arr; count = count }) (sort_first count r.0))

  -- Further merges of the same books, with nothing in between.
  unfoldable pub merges : ℕ → List (List (Level P)) → Side P → Option (Side P)
  merges zero books side = some side
  merges (suc n) books side = Option.bind (merge_side books side) (merges n books)
