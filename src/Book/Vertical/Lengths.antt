-- ===== src/Book/Vertical/Lengths.antt =====
-- How many levels are stored.
use conn.Common.{
  ℕ, suc, ◌+◌, ◌≤◌, ◌≡◌, refl, true, List, [], ◌∷◌, ◌++◌, some, leb, length, drop, arith,
  Bool-cases, inl, inr, length-append,
}
use conn.Book.{Prices, Level, empty_level}
use conn.Book.Vertical.{
  Blending, stored_in, add_level, price_loop, price_levels, level_while, take_level, bid_loop,
  ask_loop, vertical_level,
}

-- What fits is stored.
pub stored_in-fits {ℓ} :
    {P : Type ℓ} (front arr : List (Level P))
    → length front ≤ length arr
    → stored_in front arr ≡ some (front ++ drop (length front) arr)
stored_in-fits front arr h =
    let fits : leb (length front) (length arr) ≡ true = ground arith in rw fits refl

module _ {ℓ} {P : Type ℓ} (prices : Prices P) (arith_of : Blending P) where
  length-price_loop :
      (last_price : P) (bid : Level P) (ls : List (Level P))
      → length (price_loop prices arith_of last_price bid ls) ≤ suc (length ls)
  unfolding price_loop
  length-price_loop last_price bid [] = omega arith
  length-price_loop last_price bid (l ∷ ls) =
      let same = length-price_loop last_price (add_level prices arith_of bid l) ls in
      let new = length-price_loop last_price (add_level prices arith_of l l) ls in
      elim (Bool-cases (arith_of.eq last_price l.price)) [
        | inl e ↦ rw e (omega (arith, same))
        | inr d ↦ rw d (omega (arith, new))
      ]

  pub length-price_levels_of :
      (n : ℕ) (ls : List (Level P))
      → length ls ≤ suc n
      → length (price_levels prices arith_of ls) ≤ suc n
  unfolding price_levels
  length-price_levels_of n [] h = omega arith
  length-price_levels_of n (bid ∷ ls) h = omega (arith, length-price_loop bid.price bid ls)

  length-level_while :
      (have : ℕ) (bid l : Level P) (wants : List ℕ)
      → let (stored, left) = level_while prices arith_of have bid l wants in
        length stored + length left ≡ length wants
  unfolding level_while
  length-level_while have bid l [] = omega arith
  length-level_while have bid l (want ∷ wants) = elim (Bool-cases (leb want (have + l.size))) [
    | inl fits ↦ rw fits (omega (arith, length-level_while have bid l wants))
    | inr over ↦ rw over (omega arith)
  ]

  length-bid_loop :
      (bids : List (Level P)) (bid : Level P) (wants : List ℕ)
      → length (bid_loop prices arith_of bid wants bids).0 ≤ length wants
  unfolding bid_loop
  length-bid_loop [] bid wants = omega arith
  length-bid_loop (l ∷ ls) bid [] = omega arith
  length-bid_loop (l ∷ ls) bid (want ∷ wants) =
      let r = level_while prices arith_of bid.size bid l (want ∷ wants) in
      let more = bid_loop prices arith_of (take_level prices arith_of bid l) r.1 ls in
      omega (
        arith,
        length-level_while bid.size bid l (want ∷ wants),
        length-bid_loop ls (take_level prices arith_of bid l) r.1,
        length-append r.0 more.0,
      )

  length-ask_loop :
      (asks : List (Level P)) (bid_size : ℕ) (ask : Level P) (wants : List ℕ)
      → length (ask_loop prices arith_of bid_size ask wants asks) ≤ length wants
  unfolding ask_loop
  length-ask_loop [] bid_size ask wants = omega arith
  length-ask_loop (l ∷ ls) bid_size ask [] = omega arith
  length-ask_loop (l ∷ ls) bid_size ask (want ∷ wants) =
      let r = level_while prices arith_of bid_size ask l (want ∷ wants) in
      let more = ask_loop prices arith_of bid_size (take_level prices arith_of ask l) r.1 ls in
      omega (
        arith,
        length-level_while bid_size ask l (want ∷ wants),
        length-ask_loop ls bid_size (take_level prices arith_of ask l) r.1,
        length-append r.0 more,
      )

  -- On each side no more levels are stored than sizes are configured.
  pub length-vertical_level :
      (level_vec : List ℕ) (bids asks : List (Level P))
      → let (stored_bids, stored_asks) = vertical_level prices arith_of level_vec bids asks in
        (length stored_bids ≤ length level_vec) × (length stored_asks ≤ length level_vec)
  unfolding vertical_level
  length-vertical_level level_vec bids asks =
      let r = bid_loop prices arith_of (empty_level prices) level_vec bids in
      (
        length-bid_loop bids (empty_level prices) level_vec,
        length-ask_loop asks r.1.size (empty_level prices) level_vec,
      )
