-- ===== src/Book/Snapshot/Tests.antt =====
-- A stream with natural numbers below 1000 as prices.
use conn.Common.{
  ◌-◌, ℕ, ◌+◌, ◌*◌, ◌/◌, ◌≤◌, ◌==◌, ◌≡◌, refl, true, false, some, List, [], ◌∷◌, if◌then◌else◌, ltb,
  replicate, arith,
}
use conn.Exchange.{nse, ebs}
use conn.Book.{Prices, Level, Book, depth, empty_level}
use conn.Book.Vertical.{Blending}
use conn.Book.Tiers.{Averaging, BookSides, Tiers, sweep, tier_loop}
use conn.Book.Tiers.Sweep.{Cut, sweep_bounds, tier_loop-AllLarger}
use conn.Book.Snapshot.{Stream, on_snapshot}
use conn.Book.Snapshot.Final.{ShowsNothing, on_snapshot_first}

abbrev prices : Prices ℕ
prices = record { less = λ p q. if ltb p 1000 then ltb p q else false; max = 1000 }

prices_top : (p : ℕ) → prices.less prices.max p ≡ false
prices_top p = refl

prices_asym : (p q : ℕ) → prices.less p q ≡ true → prices.less q p ≡ false
prices_asym p q h = ground arith

abbrev blending : Blending ℕ
blending = record {
  eq = ◌==◌;
  blend = λ p q p' q'. (p * q + p' * q') / (q + q');
  fill = λ p w p' h. (p * (w - h) + p' * h) / (h + (w - h));
}

abbrev averaging : Averaging ℕ
averaging = record {
  eq = ◌==◌;
  nought = 0;
  add_scaled = λ acc n p. acc + n * p;
  over = λ sum n. sum / n;
}

abbrev venue_level : ℕ → Level ℕ
venue_level n = record { ex = nse; size = n; price = 7 }

abbrev other_level : ℕ → Level ℕ
other_level n = record { ex = ebs; size = n; price = 6 }

abbrev blank_book : Book ℕ
blank_book = record {
  bid = replicate depth (empty_level prices);
  ask = replicate depth (empty_level prices);
  bid_count = 0;
  ask_count = 0;
  symbol = [];
}

abbrev venue_books : List (BookSides ℕ)
venue_books = record { bid = venue_level 5 ∷ other_level 5 ∷ []; ask = venue_level 5 ∷ [] } ∷ []

abbrev blank_sides : BookSides ℕ
blank_sides = record { bid = blank_book.bid; ask = blank_book.ask }

abbrev stream : Stream ℕ
stream = record {
  order_books = venue_books;
  fullamount_books = venue_books;
  sweepable_books = venue_books;
  level_vec = 5 ∷ 10 ∷ [];
  composite_bid = record { levels = replicate 100 (empty_level prices); count = 0 };
  composite_ask = record { levels = replicate 100 (empty_level prices); count = 0 };
  price_book = record {
    bid = replicate 100 (empty_level prices);
    ask = replicate 100 (empty_level prices);
  };
  order_book = blank_sides;
  fullamount_book = blank_book;
  final_book = blank_book;
  bid_sweepable = [];
  ask_sweepable = [];
}

-- The sizes of two venues add up to the size.
sweep_two : (sweep 10 0 [] (venue_level 5 ∷ other_level 5 ∷ [])).cum_size ≡ 10
unfolding sweep
sweep_two = refl

-- The last level is cut, but not counted.
sweep_part : (sweep 8 0 [] (venue_level 5 ∷ other_level 5 ∷ [])).cum_size ≡ 5
unfolding sweep
sweep_part = refl

sweep_bounds_example :
    let s = sweep 8 0 [] (venue_level 5 ∷ other_level 5 ∷ []) in
    (0 ≤ s.cum_size) × (s.cum_size ≤ 8) × Cut (venue_level 5 ∷ other_level 5 ∷ []) s.levels
sweep_bounds_example = sweep_bounds 8 0 [] (venue_level 5 ∷ other_level 5 ∷ []) (omega arith)

abbrev two_tiers : Tiers ℕ
two_tiers = record {
  final_bid = blank_book.bid;
  final_ask = blank_book.ask;
  bid_sweepable = venue_level 50 ∷ other_level 20 ∷ [];
  ask_sweepable = [];
}

tier_loop-AllLarger_example :
    (t : Tiers ℕ) × (tier_loop prices averaging 0 (10 ∷ 20 ∷ []) two_tiers ≡ some t)
    × (t.final_bid ≡ two_tiers.final_bid)
    × (t.final_ask ≡ two_tiers.final_ask)
tier_loop-AllLarger_example =
    tier_loop-AllLarger prices averaging 0 10 (20 ∷ []) two_tiers (omega arith) (omega arith)

on_snapshot_first_example :
    (s : Stream ℕ) × (on_snapshot prices blending averaging stream ≡ some s)
    × ShowsNothing prices prices_top blending averaging 2 1 s
on_snapshot_first_example =
    on_snapshot_first prices prices_top blending averaging stream prices_asym refl refl refl refl
      (omega arith) (omega arith) (refl, refl, refl, refl) (omega arith)
