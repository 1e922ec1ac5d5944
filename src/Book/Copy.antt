-- ===== src/Book/Copy.antt =====
-- Copies of a book.
use conn.Common.{
  ℕ, zero, suc, ◌+◌, ◌≤◌, ◌<◌, ◌≡◌, refl, ap, ◌∙◌, List, [], length, get_or, get_or-set_self,
  get_or-set_ne, set, replicate, length-set, arith, lt→ltb, not_lt→ltb,
}
use native.Mathlib.Decide.{dec_lt}
use conn.Book.{
  Prices, Level, Side, buy, Book, depth, empty_level, at_or_max, copy_levels, assign, copy,
  price_at, size_at,
}

module _ {ℓ} {P : Type ℓ} (prices : Prices P) where
  abbrev at : List (Level P) → ℕ → Level P
  at xs j = get_or xs j (empty_level prices)

  copy_levels-before :
      (n i j : ℕ) (from to : List (Level P))
      → j < i
      → at (copy_levels prices i n from to) j ≡ at to j
  unfolding copy_levels
  copy_levels-before zero i j from to h = refl
  copy_levels-before (suc n) i j from to h =
      copy_levels-before n (suc i) j from (set to i (at from i)) (omega arith)
      ∙ get_or-set_ne to i j (at from i) (empty_level prices) (λ e. omega arith)

  copy_levels-at :
      (n i j : ℕ) (from to : List (Level P))
      → i ≤ j
      → j < i + n
      → j < length to
      → at (copy_levels prices i n from to) j ≡ at from j
  unfolding copy_levels
  copy_levels-at zero i j from to lo hi h = absurd (omega arith)
  copy_levels-at (suc n) i j from to lo hi h = elim (dec_lt i j) [
    | yes later ↦
        copy_levels-at n (suc i) j from (set to i (at from i)) later (omega arith)
          (omega (arith, length-set to i (at from i)))
    | no here ↦
        let e : i ≡ j = omega arith in
        copy_levels-before n (suc i) j from (set to i (at from i)) (omega arith)
        ∙ ap (λ k. at (set to k (at from k)) j) e
        ∙ get_or-set_self to j (at from j) (empty_level prices) h
  ]

  read_copied {ℓ'} :
      {B : Type ℓ'} (top : B) (field : Level P → B) (x n : ℕ) (from to : List (Level P))
      → n ≤ length to
      → at_or_max prices top field x n (copy_levels prices 0 n from to)
        ≡ at_or_max prices top field x n from
  read_copied top field x n from to h = elim (dec_lt x n) [
    | no past ↦ rw (not_lt→ltb x n past) refl
    | yes inside ↦
        rw (lt→ltb x n inside)
          (ap field (copy_levels-at n 0 x from to (omega arith) (omega arith) (omega arith)))
  ]

  -- A book of 20 levels on each side.
  pub record IsFull (b : Book P) : Type 0 where
    pub bids : length b.bid ≡ depth
    pub asks : length b.ask ≡ depth

  -- A book that was copied, by the constructor or by assignment to any book, answers `price_at` and
  -- `size_at` like the first one, on every side and at every index, if its counts are at most 20.
  pub price_at-assign :
      (b other : Book P) (side : Side) (x top : ℕ)
      → IsFull b
      → other.bid_count ≤ depth
      → other.ask_count ≤ depth
      → (price_at prices (assign prices b other) side x ≡ price_at prices other side x)
        × (size_at prices top (assign prices b other) side x ≡ size_at prices top other side x)
        × (price_at prices (copy prices other) side x ≡ price_at prices other side x)
        × (size_at prices top (copy prices other) side x ≡ size_at prices top other side x)
  unfolding assign copy price_at size_at
  price_at-assign b other side x top full h k =
      let (p, s) = same b side full in
      let (p', s') = same fresh side (record { bids = refl; asks = refl }) in (p, s, p', s')
    where
      fresh : Book P
      fresh = record {
        bid = replicate depth (empty_level prices);
        ask = replicate depth (empty_level prices);
        bid_count = 0;
        ask_count = 0;
        symbol = [];
      }

      same :
          (b : Book P) (side : Side)
          → IsFull b
          → (price_at prices (assign prices b other) side x ≡ price_at prices other side x)
            × (size_at prices top (assign prices b other) side x ≡ size_at prices top other side x)
      same b buy full = (
        read_copied prices.max (λ l. l.price) x other.bid_count other.bid b.bid (omega arith),
        read_copied top (λ l. l.size) x other.bid_count other.bid b.bid (omega arith),
      )
      same b _ full = (
        read_copied prices.max (λ l. l.price) x other.ask_count other.ask b.ask (omega arith),
        read_copied top (λ l. l.size) x other.ask_count other.ask b.ask (omega arith),
      )
