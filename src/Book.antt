-- ===== src/Book.antt =====
-- engine/book/Level.h, Book.h, AggBook.h and SymbolType.h: the levels of a book, and copies of it.
pub mod Copy
pub mod Symbol
pub mod Merge
pub mod Snapshot
pub mod Tiers
pub mod Vertical
mod Tests
use conn.Common.{ℕ, zero, suc, Bool, List, [], if◌then◌else◌, ltb, Bytes, get_or, set, replicate}
use conn.Exchange.{Exchange}

-- What the code uses of `double` for prices: two comparisons and the largest value. The arithmetic on
-- prices is not needed here.
pub record Prices {ℓ} (P : Type ℓ) : Type ℓ where
  pub less : P → P → Bool
  pub max : P

pub record Level {ℓ} (P : Type ℓ) : Type ℓ where
  pub ex : Exchange
  pub size : ℕ
  pub price : P

pub data Side : Type 0 where
  buy sell none : Side

abbrev pub depth : ℕ
depth = 20

pub record Book {ℓ} (P : Type ℓ) : Type ℓ where
  pub bid : List (Level P)
  pub ask : List (Level P)
  pub bid_count : ℕ
  pub ask_count : ℕ
  pub symbol : Bytes

module _ {ℓ} {P : Type ℓ} (prices : Prices P) where
  -- `Level()` and `Level::clear`
  abbrev pub empty_level : Level P
  empty_level = record { ex = Exchange.null; size = 0; price = prices.max }

  -- `Level::operator>`
  abbrev pub above : Level P → Level P → Bool
  above a b = prices.less b.price a.price

  -- `Level::operator+` and `operator+=` take the other level over.
  abbrev pub plus : Level P → Level P → Level P
  plus a other = other

  -- `Book::clear`: every level, and neither count.
  unfoldable pub clear : Book P → Book P
  clear b = record b { bid = replicate depth empty_level; ask = replicate depth empty_level }

  -- `AggBook::clear` also resets the counts; `n` is DEPTH.
  unfoldable pub clear_agg : ℕ → Book P → Book P
  clear_agg n b = record b {
    bid = replicate n empty_level;
    ask = replicate n empty_level;
    bid_count = 0;
    ask_count = 0;
  }

  -- `for (i = 0; i < n; ++i) to[i] = from[i];`, from index `i` on.
  unfoldable pub copy_levels : ℕ → ℕ → List (Level P) → List (Level P) → List (Level P)
  copy_levels i zero from to = to
  copy_levels i (suc n) from to = copy_levels (suc i) n from (set to i (get_or from i empty_level))

  -- `Book::operator=`
  unfoldable pub assign : Book P → Book P → Book P
  unfolding copy_levels
  assign b other = record {
    bid = copy_levels 0 other.bid_count other.bid b.bid;
    ask = copy_levels 0 other.ask_count other.ask b.ask;
    bid_count = other.bid_count;
    ask_count = other.ask_count;
    symbol = other.symbol;
  }

  -- The copy constructor: the levels that are not copied are new ones.
  unfoldable pub copy : Book P → Book P
  unfolding assign
  copy other =
      assign
        (record {
          bid = replicate depth empty_level;
          ask = replicate depth empty_level;
          bid_count = 0;
          ask_count = 0;
          symbol = [];
        })
        other

  abbrev at_or_max {ℓ'} : {B : Type ℓ'} → B → (Level P → B) → ℕ → ℕ → List (Level P) → B
  at_or_max top field x count levels =
      if ltb x count then field (get_or levels x empty_level) else top

  -- `price_at`: any side that is not Buy is the ask side.
  unfoldable pub price_at : Book P → Side → ℕ → P
  price_at b buy x = at_or_max prices.max (λ l. l.price) x b.bid_count b.bid
  price_at b _ x = at_or_max prices.max (λ l. l.price) x b.ask_count b.ask

  -- `size_at`, with `top` for the largest double.
  unfoldable pub size_at : ℕ → Book P → Side → ℕ → ℕ
  size_at top b buy x = at_or_max top (λ l. l.size) x b.bid_count b.bid
  size_at top b _ x = at_or_max top (λ l. l.size) x b.ask_count b.ask
