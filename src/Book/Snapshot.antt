-- ===== src/Book/Snapshot.antt =====
-- engine/book/Stream.h: the state of a stream, mergeOrderBook and onSnapshot as a whole.
pub mod Final
mod Tests
use conn.Common.{ℕ, ◌+◌, List, [], ◌∷◌, ◌++◌, Option, map, length, take, drop}
use mathlib.Core.Option
use conn.Utils.{insertion_sort}
use conn.Book.{Prices, Level, empty_level, Book, clear, clear_agg, copy_levels}
use conn.Book.Merge.{Side, merge_side}
use conn.Book.Vertical.{Blending, stored_in, vertical_level, vertical_price}
use conn.Book.Tiers.{
  Averaging, BookSides, Tiers, fullamount_loop, bid_before, ask_before, tier_loop,
}

-- The members that onSnapshot uses; the maps of books by exchange are given by their books in order.
pub record Stream {ℓ} (P : Type ℓ) : Type ℓ where
  pub order_books : List (BookSides P)
  pub fullamount_books : List (BookSides P)
  pub sweepable_books : List (BookSides P)
  pub level_vec : List ℕ
  pub composite_bid : Side P
  pub composite_ask : Side P
  pub price_book : BookSides P
  pub order_book : BookSides P
  pub fullamount_book : Book P
  pub final_book : Book P
  pub bid_sweepable : List (Level P)
  pub ask_sweepable : List (Level P)

abbrev pub all_levels {ℓ} :
    {P : Type ℓ} → (BookSides P → List (Level P)) → List (BookSides P) → List (Level P)
all_levels side [] = []
all_levels side (b ∷ bs) = side b ++ all_levels side bs

module _ {ℓ} {P : Type ℓ} (prices : Prices P) (blending : Blending P) (avg : Averaging P) where
  -- The end of mergeOrderBook: the integrations of the merged book.
  unfoldable pub integrate : Stream P → Option (Stream P)
  unfolding vertical_level vertical_price
  integrate s =
      let bids = take s.composite_bid.count s.composite_bid.levels in
      let asks = take s.composite_ask.count s.composite_ask.levels in
      let (order_bids, order_asks) = vertical_level prices blending s.level_vec bids asks in
      Option.bind (stored_in order_bids s.order_book.bid) λ ob.
        Option.bind (stored_in order_asks s.order_book.ask) λ oa.
          Option.bind (vertical_price prices blending bids s.price_book.bid) λ pb.
            Option.map
              (λ pa. record s {
                order_book = record { bid = ob; ask = oa };
                price_book = record { bid = pb; ask = pa };
              })
              (vertical_price prices blending asks s.price_book.ask)

  -- `mergeOrderBook`; none where it would leave an array.
  unfoldable pub merge_order_book : Stream P → Option (Stream P)
  unfolding merge_side integrate
  merge_order_book s =
      Option.bind
        (merge_side prices (map (λ (b : BookSides P). b.bid) s.order_books) s.composite_bid)
        (λ bids.
          Option.bind
            (merge_side prices (map (λ (b : BookSides P). b.ask) s.order_books) s.composite_ask)
            (λ asks. integrate (record s { composite_bid = bids; composite_ask = asks })))

  -- The book of full amounts: cleared, and filled at the places of the sizes.
  unfoldable pub fill_fullamount : Stream P → Option (Stream P)
  unfolding clear clear_agg fullamount_loop
  fill_fullamount s =
      let f = clear_agg prices 10 s.fullamount_book in
      Option.map
        (λ (sides : BookSides P). record s {
          final_book = clear prices s.final_book;
          fullamount_book = record f { bid = sides.bid; ask = sides.ask };
        })
        (fullamount_loop prices 0 s.level_vec s.fullamount_books
          (record { bid = f.bid; ask = f.ask }))

  -- It is copied to the final book, as far as its counts go.
  unfoldable pub copy_fullamount : Stream P → Stream P
  unfolding copy_levels
  copy_fullamount s =
      let f = s.fullamount_book in
      record s {
        final_book = record s.final_book {
          bid = copy_levels prices 0 f.bid_count f.bid s.final_book.bid;
          ask = copy_levels prices 0 f.ask_count f.ask s.final_book.ask;
          bid_count = f.bid_count;
          ask_count = f.ask_count;
        };
      }

  -- The levels to sweep, behind those that are there, and sorted; `std::sort` leaves open how levels are
  -- ordered that come before each other neither way.
  unfoldable pub collect_sweepable : Stream P → Stream P
  unfolding insertion_sort
  collect_sweepable s = record s {
    bid_sweepable =
        insertion_sort (λ a b. bid_before avg prices b a) (empty_level prices)
          (s.bid_sweepable ++ all_levels (λ b. b.bid) s.sweepable_books);
    ask_sweepable =
        insertion_sort (λ a b. ask_before avg prices b a) (empty_level prices)
          (s.ask_sweepable ++ all_levels (λ b. b.ask) s.sweepable_books);
  }

  -- The tiers of the final book.
  unfoldable pub make_tiers : Stream P → Option (Stream P)
  unfolding tier_loop
  make_tiers s =
      Option.map
        (λ (t : Tiers P). record s {
          final_book = record s.final_book { bid = t.final_bid; ask = t.final_ask };
          bid_sweepable = t.bid_sweepable;
          ask_sweepable = t.ask_sweepable;
        })
        (tier_loop prices avg 0 s.level_vec (record {
          final_bid = s.final_book.bid;
          final_ask = s.final_book.ask;
          bid_sweepable = s.bid_sweepable;
          ask_sweepable = s.ask_sweepable;
        }))

  -- `onSnapshot`: isOrderBook is true of every exchange, and nothing else of the message is used. None
  -- where a read or a store would leave an array.
  unfoldable pub on_snapshot : Stream P → Option (Stream P)
  on_snapshot s = Option.bind (merge_order_book s) λ s1.
      Option.bind (fill_fullamount s1) λ s2. make_tiers (collect_sweepable (copy_fullamount s2))
