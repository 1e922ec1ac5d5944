-- ===== src/Book/Vertical.antt =====
-- engine/book/Stream.h, verticalIntergrationPrice and verticalIntergrationLevel: levels of the merged
-- book are put together by price, and to the sizes of the configuration.
pub mod Lengths
pub mod Sizes
use conn.Common.{
  ℕ, ◌+◌, Option, none, some, List, [], ◌∷◌, ◌++◌, Bool, if◌then◌else◌, leb, length, drop,
}
use conn.Exchange.{Exchange}
use conn.Book.{Prices, Level, empty_level}

-- What the two functions use of the arithmetic of prices: `eq` is `==`, and `blend p q p' q'` is
-- `(p * q + p' * q') / (q + q')`. `fill p want p' have` is
-- `(p * (want - have) + p' * have) / (have + (want - have))`, where the difference is an `int` and may be
-- negative.
pub record Blending {ℓ} (P : Type ℓ) : Type ℓ where
  pub eq : P → P → Bool
  pub blend : P → ℕ → P → ℕ → P
  pub fill : P → ℕ → P → ℕ → P

-- An array with the levels that are stored at its front, if it has room for them.
abbrev pub stored_in {ℓ} : {P : Type ℓ} → List (Level P) → List (Level P) → Option (List (Level P))
stored_in front arr =
    if leb (length front) (length arr) then some (front ++ drop (length front) arr) else none

module _ {ℓ} {P : Type ℓ} (prices : Prices P) (arith_of : Blending P) where
  -- `bid.price = (…)/(…); bid.size += l.size;`
  abbrev pub add_level : Level P → Level P → Level P
  add_level bid l = record bid {
    price = arith_of.blend bid.price bid.size l.price l.size;
    size = bid.size + l.size;
  }

  -- The loop of verticalIntergrationPrice on one side, over the levels behind the first: the levels that
  -- are stored, in order. `last_price` keeps the price of the first level.
  unfoldable pub price_loop : P → Level P → List (Level P) → List (Level P)
  price_loop last_price bid [] = bid ∷ []
  price_loop last_price bid (l ∷ ls) =
      let same = price_loop last_price (add_level bid l) ls in
      let new = price_loop last_price (add_level l l) ls in
      if arith_of.eq last_price l.price then same else bid ∷ new

  unfoldable pub price_levels : List (Level P) → List (Level P)
  unfolding price_loop
  price_levels [] = empty_level prices ∷ []
  price_levels (bid ∷ ls) = price_loop bid.price bid ls

  -- verticalIntergrationPrice on one side: the old levels behind those that are stored stay;
  -- none where there is no room for them.
  unfoldable pub vertical_price : List (Level P) → List (Level P) → Option (List (Level P))
  vertical_price composite book = stored_in (price_levels composite) book

  -- The inner loop of verticalIntergrationLevel, over the sizes that are left; `have` is the size that
  -- its test adds to that of the level `l`.
  unfoldable pub level_while : ℕ → Level P → Level P → List ℕ → List (Level P) × List ℕ
  level_while have bid l [] = ([], [])
  level_while have bid l (want ∷ wants) =
      let new_bid : Level P = record {
        ex = Exchange.null;
        size = want;
        price = arith_of.fill l.price want bid.price bid.size;
      } in
      let (stored, left) = level_while have bid l wants in
      if leb want (have + l.size) then (new_bid ∷ stored, left) else ([], want ∷ wants)

  -- `bid.price = …; bid.size += l.size;`
  abbrev pub take_level : Level P → Level P → Level P
  take_level bid l = record bid {
    price = arith_of.blend l.price l.size bid.price bid.size;
    size = bid.size + l.size;
  }

  -- The outer loop on the bid side.
  unfoldable pub bid_loop : Level P → List ℕ → List (Level P) → List (Level P) × Level P
  bid_loop bid wants [] = ([], bid)
  bid_loop bid [] (l ∷ ls) = ([], bid)
  bid_loop bid (want ∷ wants) (l ∷ ls) =
      let (stored, left) = level_while bid.size bid l (want ∷ wants) in
      let (more, last) = bid_loop (take_level bid l) left ls in (stored ++ more, last)

  -- The outer loop on the ask side: its test has the size of the bid side, `bid_size`, in it.
  unfoldable pub ask_loop : ℕ → Level P → List ℕ → List (Level P) → List (Level P)
  ask_loop bid_size ask wants [] = []
  ask_loop bid_size ask [] (l ∷ ls) = []
  ask_loop bid_size ask (want ∷ wants) (l ∷ ls) =
      let (stored, left) = level_while bid_size ask l (want ∷ wants) in
      stored ++ ask_loop bid_size (take_level ask l) left ls

  -- verticalIntergrationLevel: what is stored at the front of both sides of `m_order_book`.
  unfoldable pub vertical_level :
      List ℕ → List (Level P) → List (Level P) → List (Level P) × List (Level P)
  unfolding bid_loop ask_loop
  vertical_level level_vec bids asks =
      let (stored, bid) = bid_loop (empty_level prices) level_vec bids in
      (stored, ask_loop bid.size (empty_level prices) level_vec asks)
