-- ===== src/Book/Tiers.antt =====
-- engine/book/Stream.h, onSnapshot: the book of full amounts, and the tiers that are swept from the
-- levels of several venues. An `int` of the source is not cut to 32 bits; a read or a store outside of an
-- array gives none.
pub mod Sweep
use conn.Common.{
  ℕ, suc, ◌+◌, ◌-◌, Bool, List, [], ◌∷◌, ◌++◌, Option, none, some, ◌==◌, ltb, leb, if◌then◌else◌,
  get_elem?, set,
}
use mathlib.Core.Option
use conn.Exchange.{Exchange}
use conn.Exchange.Key.{index}
use conn.Book.{Prices, Level}

-- What onSnapshot uses of the arithmetic of prices: `==`, `0.0`, `acc + size * price`, and
-- `sum / size`.
pub record Averaging {ℓ} (P : Type ℓ) : Type ℓ where
  pub eq : P → P → Bool
  pub nought : P
  pub add_scaled : P → ℕ → P → P
  pub over : P → ℕ → P

-- A book of a venue: its first `bid_count` and `ask_count` levels.
pub record BookSides {ℓ} (P : Type ℓ) : Type ℓ where
  pub bid : List (Level P)
  pub ask : List (Level P)

-- `res`, a map from exchanges to levels, by its only entry for an exchange.
abbrev pub Venues {ℓ} : Type ℓ → Type ℓ
Venues P = List (Exchange × Level P)

module _ {ℓ} {P : Type ℓ} (prices : Prices P) where
  -- `if (arr[n].price < price) arr[i].price = price;`
  unfoldable pub better_price : ℕ → ℕ → P → List (Level P) → Option (List (Level P))
  better_price n i price arr = Option.bind (get_elem? arr n) λ old.
      if prices.less old.price price
      then Option.map (λ at_i. set arr i (record at_i { price = price })) (get_elem? arr i)
      else some arr

  -- The loop over the bids of one book, for the size `lit` at place `n`: the price that is compared
  -- stands at `n`, the one that is set at `i`.
  unfoldable pub fullamount_bids :
      ℕ → ℕ → ℕ → List (Level P) → List (Level P) → Option (List (Level P))
  unfolding better_price
  fullamount_bids lit n i [] arr = some arr
  fullamount_bids lit n i (l ∷ ls) arr =
      Option.bind (if leb lit l.size then better_price n i l.price arr else some arr)
        (fullamount_bids lit n (suc i) ls)

  -- The loop over the asks: the price that is set stands at `n` too.
  unfoldable pub fullamount_asks : ℕ → ℕ → List (Level P) → List (Level P) → Option (List (Level P))
  unfolding better_price
  fullamount_asks lit n [] arr = some arr
  fullamount_asks lit n (l ∷ ls) arr =
      Option.bind (if leb lit l.size then better_price n n l.price arr else some arr)
        (fullamount_asks lit n ls)

  -- The loop over the books.
  unfoldable pub fullamount_books : ℕ → ℕ → List (BookSides P) → BookSides P → Option (BookSides P)
  unfolding fullamount_bids fullamount_asks
  fullamount_books lit n [] b = some b
  fullamount_books lit n (k ∷ ks) b = Option.bind (fullamount_bids lit n 0 k.bid b.bid) λ bids.
      Option.bind (fullamount_asks lit n k.ask b.ask)
        λ asks. fullamount_books lit n ks (record { bid = bids; ask = asks })

  -- The loop over the sizes of the configuration, from place `n` on.
  unfoldable pub fullamount_loop :
      ℕ → List ℕ → List (BookSides P) → BookSides P → Option (BookSides P)
  unfolding fullamount_books
  fullamount_loop n [] books b = some b
  fullamount_loop n (lit ∷ lits) books b =
      Option.bind (fullamount_books lit n books b) (fullamount_loop (suc n) lits books)

-- `res.find`
unfoldable pub find_venue {ℓ} : {P : Type ℓ} → Venues P → Exchange → Option (Level P)
find_venue [] ex = none
find_venue ((e, l) ∷ res) ex =
    let rest = find_venue res ex in if index e == index ex then some l else rest

-- `res[ex] = …` of an exchange that is there.
unfoldable pub set_venue {ℓ} : {P : Type ℓ} → Venues P → Exchange → Level P → Venues P
set_venue [] ex l = []
set_venue ((e, k) ∷ res) ex l =
    let rest = set_venue res ex l in if index e == index ex then (e, l) ∷ res else (e, k) ∷ rest

-- What the loop over the levels leaves: the size that it has counted, the levels it has taken by their
-- venues, and the levels with the sizes that it has cut.
pub record Swept {ℓ} (P : Type ℓ) : Type ℓ where
  pub cum_size : ℕ
  pub res : Venues P
  pub levels : List (Level P)

module _ {ℓ} {P : Type ℓ} where
  abbrev pub keep_level : Level P → Swept P → Swept P
  keep_level l s = record s { levels = l ∷ s.levels }

  -- A further level of a venue that has been taken: the level of the venue is replaced if this is larger.
  unfoldable pub retake : ℕ → ℕ → Venues P → Level P → Level P → Venues P
  retake lit cum_size res vs old =
      if ltb old.size vs.size
      then set_venue res vs.ex (record old {
        price = vs.price;
        size =
            if leb (cum_size + vs.size - old.size) lit
            then vs.size
            else cum_size + vs.size - old.size - lit;
      })
      else res

  -- The loop over the sorted levels of one side, for the size `lit`.
  unfoldable pub sweep : ℕ → ℕ → Venues P → List (Level P) → Swept P
  unfolding find_venue retake set_venue
  sweep lit cum_size res [] = record { cum_size = cum_size; res = res; levels = [] }
  sweep lit cum_size res (vs ∷ rest) =
      let whole = sweep lit (cum_size + vs.size) (res ++ (vs.ex, vs) ∷ []) rest in
      let part = sweep lit cum_size (res ++ (vs.ex, vs) ∷ []) rest in
      let new =
        if leb (cum_size + vs.size) lit
        then keep_level vs whole
        else keep_level (record vs { size = lit - cum_size }) part in
      let again = λ (old : Level P).
        keep_level vs (sweep lit cum_size (retake lit cum_size res vs old) rest) in
      let taken : Swept P = elim (find_venue res vs.ex) [ none ↦ new | some old ↦ again old ] in
      if ltb cum_size lit
      then taken
      else record { cum_size = cum_size; res = res; levels = vs ∷ rest }

module _ {ℓ} {P : Type ℓ} (avg : Averaging P) where
  -- The loop over `res`: `cum_price_siz` and `tot_size`.
  unfoldable pub totals : Venues P → P → ℕ → P × ℕ
  totals [] cum_price_siz tot_size = (cum_price_siz, tot_size)
  totals ((e, l) ∷ res) cum_price_siz tot_size =
      totals res (avg.add_scaled cum_price_siz l.size l.price) (tot_size + l.size)

  -- `a.price != b.price`, and the order of the bids: descending price, then descending size.
  abbrev pub bid_before : Prices P → Level P → Level P → Bool
  bid_before prices a b =
      if avg.eq a.price b.price then ltb b.size a.size else prices.less b.price a.price

  -- The order of the asks: ascending price, then descending size.
  abbrev pub ask_before : Prices P → Level P → Level P → Bool
  ask_before prices a b =
      if avg.eq a.price b.price then ltb b.size a.size else prices.less a.price b.price

-- `m_final_book` and the levels to sweep.
pub record Tiers {ℓ} (P : Type ℓ) : Type ℓ where
  pub final_bid : List (Level P)
  pub final_ask : List (Level P)
  pub bid_sweepable : List (Level P)
  pub ask_sweepable : List (Level P)

module _ {ℓ} {P : Type ℓ} (prices : Prices P) (avg : Averaging P) where
  -- The bid at place `n` becomes the average of the tier, if its price is above it.
  unfoldable pub store_bid : ℕ → Venues P → List (Level P) → Option (List (Level P))
  unfolding totals
  store_bid n res arr =
      let (cum_price_siz, tot_size) = totals avg res avg.nought 0 in
      let cum_price = avg.over cum_price_siz tot_size in
      Option.map
        (λ old.
          if prices.less cum_price old.price
          then set arr n (record old { price = cum_price; size = tot_size })
          else arr)
        (get_elem? arr n)

  -- The ask, if its price is below it.
  unfoldable pub store_ask : ℕ → Venues P → List (Level P) → Option (List (Level P))
  unfolding totals
  store_ask n res arr =
      let (cum_price_siz, tot_size) = totals avg res avg.nought 0 in
      let cum_price = avg.over cum_price_siz tot_size in
      Option.map
        (λ old.
          if prices.less old.price cum_price
          then set arr n (record old { price = cum_price; size = tot_size })
          else arr)
        (get_elem? arr n)

  -- The loop over the sizes, from tier `n` on: it ends at the first size that a side does not reach.
  unfoldable pub tier_loop : ℕ → List ℕ → Tiers P → Option (Tiers P)
  unfolding store_bid store_ask
  tier_loop n [] t = some t
  tier_loop n (lit ∷ lits) t =
      let bids = sweep lit 0 [] t.bid_sweepable in
      let asks = sweep lit 0 [] t.ask_sweepable in
      let swept = record t { bid_sweepable = bids.levels } in
      let both = record swept { ask_sweepable = asks.levels } in
      let with_ask = λ (tier_bid : List (Level P)).
        Option.bind (store_ask n asks.res t.final_ask) λ tier_ask.
          tier_loop (suc n) lits (record both { final_bid = tier_bid; final_ask = tier_ask }) in
      let with_bid = λ (tier_bid : List (Level P)).
        if ltb asks.cum_size lit
        then some (record both { final_bid = tier_bid })
        else with_ask tier_bid in
      if ltb bids.cum_size lit
      then some swept
      else Option.bind (store_bid n bids.res t.final_bid) with_bid
