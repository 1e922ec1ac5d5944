-- ===== src/Book/Tests.antt =====
-- Books with natural numbers as prices.
use conn.Common.{
  ◌-◌, ◌+◌, ◌*◌, ◌/◌, ◌==◌, ℕ, ◌≡◌, refl, true, false, some, List, [], ◌∷◌, ◌++◌, ltb, drop,
  replicate, arith,
}
use mathlib.Core.List.{Perm}
use conn.Exchange.{nse}
use conn.Utils.Sort.{Sorted}
use conn.Book.{Prices, Level, Book, depth, empty_level, above, buy, assign, copy, price_at, size_at}
use conn.Book.Copy.{price_at-assign}
use conn.Book.Merge.{Side, merge_side}
use conn.Book.Merge.Sorted.{concat, merge_side-Sorted}
use conn.Book.Vertical.{Blending, vertical_level}
use conn.Book.Vertical.Sizes.{sizes, AllWithin, FirstAbove, vertical_level-sizes}

abbrev prices : Prices ℕ
prices = record { less = ltb; max = 1000000 }

prices_asym : (p q : ℕ) → ltb p q ≡ true → ltb q p ≡ false
prices_asym p q h = ground arith

abbrev level : ℕ → Level ℕ
level p = record { ex = nse; size = 10; price = p }

abbrev empty_book : Book ℕ
empty_book = record {
  bid = replicate depth (empty_level prices);
  ask = replicate depth (empty_level prices);
  bid_count = 0;
  ask_count = 0;
  symbol = [];
}

abbrev book : Book ℕ
book = record empty_book { bid = level 7 ∷ []; bid_count = 1 }

abbrev venues : List (List (Level ℕ))
venues = (level 3 ∷ level 1 ∷ []) ∷ (level 2 ∷ []) ∷ []

abbrev composite : Side ℕ
composite = record { levels = replicate 5 (empty_level prices); count = 0 }

merge_side-Sorted_example :
    (front : List (Level ℕ)) × (merge_side prices venues composite
      ≡ some (record { levels = front ++ drop 3 composite.levels; count = 3 }))
    × Perm front (concat prices venues)
    × Sorted (above prices) (empty_level prices) front
merge_side-Sorted_example = merge_side-Sorted prices venues composite prices_asym refl (omega arith)

-- Prices that are blended with division of natural numbers.
abbrev blending : Blending ℕ
blending = record {
  eq = ◌==◌;
  blend = λ p q p' q'. (p * q + p' * q') / (q + q');
  fill = λ p w p' h. (p * (w - h) + p' * h) / (h + (w - h));
}

vertical_level-sizes_example :
    let (stored, _) =
      vertical_level prices blending (5 ∷ 15 ∷ 50 ∷ []) (level 1 ∷ level 2 ∷ []) [] in
    (left : List ℕ) × (5 ∷ 15 ∷ 50 ∷ [] ≡ sizes prices blending stored ++ left)
    × AllWithin prices blending 20 (sizes prices blending stored)
    × FirstAbove prices blending 20 left
vertical_level-sizes_example =
    vertical_level-sizes prices blending (5 ∷ 15 ∷ 50 ∷ []) (level 1 ∷ level 2 ∷ []) []
      (omega arith)

price_at-assign_example :
    (price_at prices (assign prices empty_book book) buy 0 ≡ 7)
    × (size_at prices 99 (assign prices empty_book book) buy 0 ≡ 10)
    × (price_at prices (copy prices book) buy 0 ≡ 7)
    × (size_at prices 99 (copy prices book) buy 0 ≡ 10)
unfolding price_at size_at
price_at-assign_example =
    price_at-assign prices empty_book book buy 0 99 (record { bids = refl; asks = refl })
      (omega arith) (omega arith)
