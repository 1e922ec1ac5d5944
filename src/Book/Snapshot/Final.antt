-- ===== src/Book/Snapshot/Final.antt =====
-- What a snapshot leaves in the books of a stream.
use conn.Common.{
  ℕ, zero, suc, ◌+◌, ◌≤◌, ◌≡◌, refl, ap, ◌∙◌, Bool, true, false, List, [], ◌∷◌, ◌++◌, some, map,
  length, length-append, length-take, take, length-set, get_elem?, set, ◌<◌, replicate, ltb, leb,
  not_lt→ltb, if◌then◌else◌, arith, drop, Bool-cases, inl, inr,
}
use mathlib.Core.Option
use conn.Utils.{insertion_sort}
use conn.Utils.Sort.{length-insertion_sort}
use conn.Book.{Prices, Level, empty_level, Side, Book, clear, clear_agg, depth, price_at}
use conn.Book.Merge.{total}
use conn.Book.Merge.Sorted.{merge_side-Sorted}
use conn.Book.Vertical.{Blending, price_levels, vertical_price, vertical_level}
use conn.Book.Vertical.Lengths.{stored_in-fits, length-price_levels_of, length-vertical_level}
use conn.Book.Tiers.{
  Averaging, BookSides, Tiers, Venues, better_price, totals, fullamount_bids, fullamount_asks,
  fullamount_books, fullamount_loop, bid_before, ask_before, store_ask, store_bid, sweep, tier_loop,
}
use conn.Book.Tiers.Sweep.{Cut, sweep_bounds}
use conn.Book.Snapshot.{
  Stream, all_levels, merge_order_book, integrate, fill_fullamount, copy_fullamount,
  collect_sweepable, make_tiers, on_snapshot,
}

abbrev pub bid_sides {ℓ} : {P : Type ℓ} → Stream P → List (List (Level P))
bid_sides {P} s = map (λ (b : BookSides P). b.bid) s.order_books

abbrev pub ask_sides {ℓ} : {P : Type ℓ} → Stream P → List (List (Level P))
ask_sides {P} s = map (λ (b : BookSides P). b.ask) s.order_books

length-Cut {ℓ} : {P : Type ℓ} (ls ms : List (Level P)) → Cut ls ms → length ms ≡ length ls
length-Cut [] ms c = ap length c
length-Cut (l ∷ ls) [] c = ap length c
length-Cut (l ∷ ls) (m ∷ ms) c = omega (arith, length-Cut ls ms c.1)

get_elem?-replicate {ℓ} :
    {A : Type ℓ} (k n : ℕ) (d : A) → n < k → get_elem? (replicate k d) n ≡ some d
get_elem?-replicate zero n d h = absurd (omega arith)
get_elem?-replicate (suc k) zero d h = refl
get_elem?-replicate (suc k) (suc n) d h = get_elem?-replicate k n d (omega (arith, h))

get_elem?-within {ℓ} :
    {A : Type ℓ} (arr : List A) (n : ℕ) → n < length arr → (a : A) × (get_elem? arr n ≡ some a)
get_elem?-within [] n h = absurd (omega arith)
get_elem?-within (a ∷ arr) zero h = (a, refl)
get_elem?-within (a ∷ arr) (suc n) h = get_elem?-within arr n (omega (arith, h))

module _ {ℓ} {P : Type ℓ} (prices : Prices P)
    (top : (p : P) → prices.less prices.max p ≡ false) where
  -- Levels that are all empty.
  abbrev pub blank : ℕ → List (Level P)
  blank k = replicate k (empty_level prices)

  -- No price is better than that of an empty level.
  better_price-blank :
      (k n i : ℕ) (p : P) → n < k → better_price prices n i p (blank k) ≡ some (blank k)
  unfolding better_price Option.bind
  better_price-blank k n i p h = rw (get_elem?-replicate k n (empty_level prices) h, top p) refl

  either_same {κ} : {A : Type κ} (b : Bool) (x y : A) → x ≡ y → (if b then x else y) ≡ y
  either_same true x y e = e
  either_same false x y e = refl

  fullamount_bids-blank :
      (k lit n i : ℕ) (ls : List (Level P))
      → n < k
      → fullamount_bids prices lit n i ls (blank k) ≡ some (blank k)
  unfolding fullamount_bids Option.bind
  fullamount_bids-blank k lit n i [] h = refl
  fullamount_bids-blank k lit n i (l ∷ ls) h =
      rw
        (either_same (leb lit l.size) (better_price prices n i l.price (blank k)) (some (blank k))
          (better_price-blank k n i l.price h))
        (fullamount_bids-blank k lit n (suc i) ls h)

  fullamount_asks-blank :
      (k lit n : ℕ) (ls : List (Level P))
      → n < k
      → fullamount_asks prices lit n ls (blank k) ≡ some (blank k)
  unfolding fullamount_asks Option.bind
  fullamount_asks-blank k lit n [] h = refl
  fullamount_asks-blank k lit n (l ∷ ls) h =
      rw
        (either_same (leb lit l.size) (better_price prices n n l.price (blank k)) (some (blank k))
          (better_price-blank k n n l.price h))
        (fullamount_asks-blank k lit n ls h)

  abbrev blank_sides : ℕ → BookSides P
  blank_sides k = record { bid = blank k; ask = blank k }

  fullamount_books-blank :
      (k lit n : ℕ) (books : List (BookSides P))
      → n < k
      → fullamount_books prices lit n books (blank_sides k) ≡ some (blank_sides k)
  unfolding fullamount_books Option.bind
  fullamount_books-blank k lit n [] h = refl
  fullamount_books-blank k lit n (b ∷ bs) h =
      rw (fullamount_bids-blank k lit n 0 b.bid h, fullamount_asks-blank k lit n b.ask h)
        (fullamount_books-blank k lit n bs h)

  fullamount_loop-blank :
      (k n : ℕ) (lits : List ℕ) (books : List (BookSides P))
      → n + length lits ≤ k
      → fullamount_loop prices n lits books (blank_sides k) ≡ some (blank_sides k)
  unfolding fullamount_loop Option.bind
  fullamount_loop-blank k n [] books h = refl
  fullamount_loop-blank k n (lit ∷ lits) books h =
      rw (fullamount_books-blank k lit n books (omega (arith, h)))
        (fullamount_loop-blank k (suc n) lits books (omega (arith, h)))

  module _ (blending : Blending P) (avg : Averaging P) where
    store_ask-blank :
        (k n : ℕ) (res : Venues P) → n < k → store_ask prices avg n res (blank k) ≡ some (blank k)
    unfolding store_ask
    store_ask-blank k n res h = rw (get_elem?-replicate k n (empty_level prices) h, top _) refl

    store_bid-length :
        (n : ℕ) (res : Venues P) (arr : List (Level P))
        → n < length arr
        → (arr' : List (Level P)) × (store_bid prices avg n res arr ≡ some arr')
          × (length arr' ≡ length arr)
    unfolding store_bid
    store_bid-length n res arr h =
        let (old, there) = get_elem?-within arr n h in
        let (sum, size) = totals avg res avg.nought 0 in
        let price = avg.over sum size in
        let stored = set arr n (record old { price = price; size = size }) in
        elim (Bool-cases (prices.less price old.price)) [
          | inl above ↦ (stored, rw (there, above) refl, length-set arr n _)
          | inr below ↦ (arr, rw (there, below) refl, refl)
        ]

    -- The loop over the tiers keeps the asks, if they are all empty, and the number of levels to sweep.
    tier_loop_keeps :
        (k n : ℕ) (lits : List ℕ) (t : Tiers P)
        → t.final_ask ≡ blank k
        → length t.final_bid ≡ k
        → n + length lits ≤ k
        → (t' : Tiers P) × (tier_loop prices avg n lits t ≡ some t')
          × (t'.final_ask ≡ blank k)
          × (length t'.bid_sweepable ≡ length t.bid_sweepable)
          × (length t'.ask_sweepable ≡ length t.ask_sweepable)
    unfolding tier_loop Option.bind
    tier_loop_keeps k n [] t h d w = (t, refl, h, refl, refl)
    tier_loop_keeps k n (lit ∷ lits) t h d w =
        let bids = sweep lit 0 [] t.bid_sweepable in
        let asks = sweep lit 0 [] t.ask_sweepable in
        let (_, _, cut_bids) = sweep_bounds lit 0 [] t.bid_sweepable (omega arith) in
        let (_, _, cut_asks) = sweep_bounds lit 0 [] t.ask_sweepable (omega arith) in
        let same_bids = length-Cut t.bid_sweepable bids.levels cut_bids in
        let same_asks = length-Cut t.ask_sweepable asks.levels cut_asks in
        let (tier_bid, stored, kept) =
          store_bid-length n bids.res t.final_bid (omega (arith, d, w)) in
        let ask_kept : store_ask prices avg n asks.res t.final_ask ≡ some (blank k) =
          ap (store_ask prices avg n asks.res) h
          ∙ store_ask-blank k n asks.res (omega (arith, w)) in
        let swept : Tiers P = record t { bid_sweepable = bids.levels } in
        let both : Tiers P = record swept { ask_sweepable = asks.levels; final_bid = tier_bid } in
        elim (Bool-cases (ltb bids.cum_size lit)) [
          | inl short ↦ (swept, rw short refl, h, same_bids, refl)
          | inr reached ↦ elim (Bool-cases (ltb asks.cum_size lit)) [
            | inl short ↦ (both, rw (reached, stored, short) refl, h, same_bids, same_asks)
            | inr more ↦
                let (t', e, a, b, c) =
                  tier_loop_keeps k (suc n) lits (record both { final_ask = blank k }) refl
                    (kept ∙ d) (omega (arith, w)) in
                (t', rw (reached, stored, more, ask_kept) e, a, b ∙ same_bids, c ∙ same_asks)
          ]
        ]

    fill_fullamount-blank :
        (s : Stream P)
        → length s.level_vec ≤ 10
        → fill_fullamount prices blending avg s
          ≡ some (record s {
            final_book = clear prices s.final_book;
            fullamount_book = clear_agg prices 10 s.fullamount_book;
          })
    unfolding fill_fullamount clear_agg
    fill_fullamount-blank s h =
        rw (fullamount_loop-blank 10 0 s.level_vec s.fullamount_books (omega (arith, h))) refl

    price_at_none :
        (b : Book P) (side : Side) (x : ℕ)
        → b.bid_count ≡ 0
        → b.ask_count ≡ 0
        → price_at prices b side x ≡ prices.max
    unfolding price_at
    price_at_none b Side.buy x h k = rw (h, not_lt→ltb x 0 (λ l. absurd (omega arith))) refl
    price_at_none b Side.sell x h k = rw (k, not_lt→ltb x 0 (λ l. absurd (omega arith))) refl
    price_at_none b Side.none x h k = rw (k, not_lt→ltb x 0 (λ l. absurd (omega arith))) refl

    -- A stream whose final book shows nothing, and that has, for each side, so many levels to sweep.
    abbrev pub ShowsNothing : ℕ → ℕ → Stream P → Type ℓ
    ShowsNothing bids asks s =
        ((side : Side) (x : ℕ) → price_at prices s.final_book side x ≡ prices.max)
        × (s.final_book.ask ≡ blank depth)
        × (s.fullamount_book.bid ≡ blank 10)
        × (s.fullamount_book.ask ≡ blank 10)
        × (length s.bid_sweepable ≡ bids)
        × (length s.ask_sweepable ≡ asks)

    rest_of_snapshot :
        (s : Stream P)
        → length s.level_vec ≤ 10
        → (s' : Stream P) × (Option.bind (fill_fullamount prices blending avg s) (λ s2.
              make_tiers prices blending avg
                (collect_sweepable prices blending avg (copy_fullamount prices blending avg s2)))
            ≡ some s')
          × ShowsNothing
              (length s.bid_sweepable + length (all_levels (λ b. b.bid) s.sweepable_books))
              (length s.ask_sweepable + length (all_levels (λ b. b.ask) s.sweepable_books))
              s'
    unfolding make_tiers collect_sweepable copy_fullamount clear clear_agg Option.bind
    rest_of_snapshot s short =
        let bids = s.bid_sweepable ++ all_levels (λ b. b.bid) s.sweepable_books in
        let asks = s.ask_sweepable ++ all_levels (λ b. b.ask) s.sweepable_books in
        let (t, looped, a, b, c) =
          tier_loop_keeps depth 0 s.level_vec
            (record {
              final_bid = blank depth;
              final_ask = blank depth;
              bid_sweepable = sorted_bids bids;
              ask_sweepable = sorted_asks asks;
            })
            refl refl (omega (arith, short)) in
        let filled : Stream P = record s {
          final_book = clear prices s.final_book;
          fullamount_book = clear_agg prices 10 s.fullamount_book;
        } in
        let swept =
          collect_sweepable prices blending avg (copy_fullamount prices blending avg filled) in
        (
          record swept {
            final_book = record swept.final_book { bid = t.final_bid; ask = t.final_ask };
            bid_sweepable = t.bid_sweepable;
            ask_sweepable = t.ask_sweepable;
          },
          rw (fill_fullamount-blank s short, looped) refl,
          (
            λ side x. price_at_none _ side x refl refl,
            a,
            refl,
            refl,
            b
                ∙ length-insertion_sort (λ l m. bid_before avg prices m l) (empty_level prices) bids
                ∙ length-append s.bid_sweepable (all_levels (λ b. b.bid) s.sweepable_books),
            c
                ∙ length-insertion_sort (λ l m. ask_before avg prices m l) (empty_level prices) asks
                ∙ length-append s.ask_sweepable (all_levels (λ b. b.ask) s.sweepable_books),
          ),
        )
      where
        sorted_bids : List (Level P) → List (Level P)
        sorted_bids = insertion_sort (λ l m. bid_before avg prices m l) (empty_level prices)

        sorted_asks : List (Level P) → List (Level P)
        sorted_asks = insertion_sort (λ l m. ask_before avg prices m l) (empty_level prices)

    -- The arrays of the books that the integrations write: 20 levels on each side of the book by sizes, and
    -- 100 of that by prices.
    abbrev pub HasDepths : Stream P → Type 0
    HasDepths s =
        (length s.order_book.bid ≡ depth)
        × (length s.order_book.ask ≡ depth)
        × (length s.price_book.bid ≡ 100)
        × (length s.price_book.ask ≡ 100)

    -- The integrations fit: they leave only the two books changed.
    integrate-fits :
        (s : Stream P)
        → HasDepths s
        → s.composite_bid.count ≤ 100
        → s.composite_ask.count ≤ 100
        → length s.level_vec ≤ 10
        → (order price : BookSides P) × (integrate prices blending avg s
            ≡ some (record s { order_book = order; price_book = price }))
    unfolding integrate Option.bind vertical_price
    integrate-fits s (ob, oa, pb, pa) cb ca short =
        let bids = take s.composite_bid.count s.composite_bid.levels in
        let asks = take s.composite_ask.count s.composite_ask.levels in
        let v = vertical_level prices blending s.level_vec bids asks in
        let (few_bids, few_asks) = length-vertical_level prices blending s.level_vec bids asks in
        let few_prices_b =
          length-price_levels_of prices blending 99 bids
            (omega (arith, cb, length-take s.composite_bid.count s.composite_bid.levels)) in
        let few_prices_a =
          length-price_levels_of prices blending 99 asks
            (omega (arith, ca, length-take s.composite_ask.count s.composite_ask.levels)) in
        let put = λ (front arr : List (Level P)). front ++ drop (length front) arr in
        (
          record { bid = put v.0 s.order_book.bid; ask = put v.1 s.order_book.ask },
          record {
            bid = put (price_levels prices blending bids) s.price_book.bid;
            ask = put (price_levels prices blending asks) s.price_book.ask;
          },
          rw
              (
                stored_in-fits v.0 s.order_book.bid (omega (arith, ob, few_bids, short)),
                stored_in-fits v.1 s.order_book.ask (omega (arith, oa, few_asks, short)),
                stored_in-fits (price_levels prices blending bids) s.price_book.bid
                    (omega (arith, pb, few_prices_b)),
                stored_in-fits (price_levels prices blending asks) s.price_book.ask
                    (omega (arith, pa, few_prices_a)),
              )
              refl,
        )

    -- The first snapshot, if the books of all venues have at most 100 levels on a side, as many as the merged
    -- one has room for, the other arrays are as deep as those of the code, and at most 10 sizes are
    -- configured: it is processed without leaving an array, and then, as no
    -- price is above the largest, the final book shows no price at any place of either side, its asks and the
    -- book of full amounts are empty, and the levels to sweep are as many as before and all of the books'.
    -- The comparison of prices is asymmetric.
    pub on_snapshot_first :
        (s : Stream P)
        → ((p q : P) → prices.less p q ≡ true → prices.less q p ≡ false)
        → s.composite_bid.count ≡ 0
        → s.composite_ask.count ≡ 0
        → length s.composite_bid.levels ≡ 100
        → length s.composite_ask.levels ≡ 100
        → total prices (bid_sides s) ≤ 100
        → total prices (ask_sides s) ≤ 100
        → HasDepths s
        → length s.level_vec ≤ 10
        → (s' : Stream P) × (on_snapshot prices blending avg s ≡ some s')
          × ShowsNothing
              (length s.bid_sweepable + length (all_levels (λ b. b.bid) s.sweepable_books))
              (length s.ask_sweepable + length (all_levels (λ b. b.ask) s.sweepable_books))
              s'
    unfolding on_snapshot merge_order_book Option.bind
    on_snapshot_first s asym no_bids no_asks deep_bids deep_asks bids_fit asks_fit depths short =
        let (bids, merged_bids, _, _) =
          merge_side-Sorted prices (bid_sides s) s.composite_bid asym no_bids
            (omega (arith, bids_fit, deep_bids)) in
        let (asks, merged_asks, _, _) =
          merge_side-Sorted prices (ask_sides s) s.composite_ask asym no_asks
            (omega (arith, asks_fit, deep_asks)) in
        let s1 : Stream P = record s {
          composite_bid = record {
            levels = bids ++ drop (total prices (bid_sides s)) s.composite_bid.levels;
            count = total prices (bid_sides s);
          };
          composite_ask = record {
            levels = asks ++ drop (total prices (ask_sides s)) s.composite_ask.levels;
            count = total prices (ask_sides s);
          };
        } in
        let (order, price, integrated) = integrate-fits s1 depths bids_fit asks_fit short in
        let (s', done, shown) =
          rest_of_snapshot (record s1 { order_book = order; price_book = price }) short in
        (s', rw (merged_bids, merged_asks, integrated) done, shown)
