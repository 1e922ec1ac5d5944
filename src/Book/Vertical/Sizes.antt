-- ===== src/Book/Vertical/Sizes.antt =====
-- The sizes of the levels that are put together.
use conn.Common.{
  ℕ, ◌+◌, ◌*◌, ◌≤◌, ◌<◌, ◌≡◌, refl, subst, sym, ap, ◌∙◌, List, [], ◌∷◌, ◌++◌, if◌then◌else◌, leb,
  arith, Bool-cases, inl, inr,
}
use mathlib.Core.List.{append_assoc}
use conn.Book.{Prices, Level, empty_level}
use conn.Book.Vertical.{
  Blending, add_level, price_loop, price_levels, level_while, take_level, bid_loop, vertical_level,
}

module _ {ℓ} {P : Type ℓ} (prices : Prices P) (arith_of : Blending P) where
  abbrev pub total_size : List (Level P) → ℕ
  total_size [] = 0
  total_size (l ∷ ls) = l.size + total_size ls

  -- Each level behind the first, with the size that it adds: twice its own, unless it has the price of
  -- the first.
  abbrev pub counted : P → List (Level P) → ℕ
  counted first [] = 0
  counted first (l ∷ ls) =
      (if arith_of.eq first l.price then l.size else 2 * l.size) + counted first ls

  price_loop-total :
      (last_price : P) (bid : Level P) (ls : List (Level P))
      → total_size (price_loop prices arith_of last_price bid ls) ≡ bid.size + counted last_price ls
  unfolding price_loop
  price_loop-total last_price bid [] = refl
  price_loop-total last_price bid (l ∷ ls) =
      let same = price_loop-total last_price (add_level prices arith_of bid l) ls in
      let new = price_loop-total last_price (add_level prices arith_of l l) ls in
      elim (Bool-cases (arith_of.eq last_price l.price)) [
        | inl e ↦ rw e (omega (arith, same))
        | inr d ↦ rw d (omega (arith, new))
      ]

  -- The sizes of the levels put together by price add up to those of the first level and of each further
  -- one, which counts twice unless it has the price of the first.
  pub price_levels-total :
      (bid : Level P) (ls : List (Level P))
      → total_size (price_levels prices arith_of (bid ∷ ls)) ≡ bid.size + counted bid.price ls
  unfolding price_levels
  price_levels-total bid ls = price_loop-total bid.price bid ls

  abbrev pub sizes : List (Level P) → List ℕ
  sizes [] = []
  sizes (l ∷ ls) = l.size ∷ sizes ls

  sizes-append : (a b : List (Level P)) → sizes (a ++ b) ≡ sizes a ++ sizes b
  sizes-append [] b = refl
  sizes-append (x ∷ a) b = ap (◌∷◌ x.size) (sizes-append a b)

  abbrev pub AllWithin : ℕ → List ℕ → Type 0
  AllWithin n [] = Unit {0}
  AllWithin n (w ∷ ws) = (w ≤ n) × AllWithin n ws

  abbrev pub FirstAbove : ℕ → List ℕ → Type 0
  FirstAbove n [] = Unit {0}
  FirstAbove n (w ∷ ws) = n < w

  AllWithin-mono : (m n : ℕ) (ws : List ℕ) → m ≤ n → AllWithin m ws → AllWithin n ws
  AllWithin-mono m n [] h k = tt
  AllWithin-mono m n (w ∷ ws) h (k, ks) = (omega arith, AllWithin-mono m n ws h ks)

  AllWithin-append : (n : ℕ) (a b : List ℕ) → AllWithin n a → AllWithin n b → AllWithin n (a ++ b)
  AllWithin-append n [] b k l = l
  AllWithin-append n (w ∷ a) b (k, ks) l = (k, AllWithin-append n a b ks l)

  level_while-sizes :
      (have : ℕ) (bid l : Level P) (wants : List ℕ)
      → let (stored, left) = level_while prices arith_of have bid l wants in
        (wants ≡ sizes stored ++ left)
        × AllWithin (have + l.size) (sizes stored)
        × FirstAbove (have + l.size) left
  unfolding level_while
  level_while-sizes have bid l [] = (refl, tt, tt)
  level_while-sizes have bid l (want ∷ wants) = elim (Bool-cases (leb want (have + l.size))) [
    | inl fits ↦
        let (e, k, f) = level_while-sizes have bid l wants in
        rw fits (ap (◌∷◌ want) e, (ground arith, k), f)
    | inr over ↦ rw over (refl, tt, ground arith)
  ]

  -- What is stored on the bid side are levels of the sizes asked for, from the first one on and in order:
  -- all those up to the first that is more than all the bids together have.
  pub bid_loop-sizes :
      (bids : List (Level P)) (bid : Level P) (wants : List ℕ)
      → FirstAbove bid.size wants
      → let (stored, last) = bid_loop prices arith_of bid wants bids in
        (left : List ℕ) × (wants ≡ sizes stored ++ left)
        × AllWithin (bid.size + total_size bids) (sizes stored)
        × FirstAbove (bid.size + total_size bids) left
  unfolding bid_loop
  bid_loop-sizes [] bid wants f = (
    wants,
    refl,
    tt,
    subst (λ n. FirstAbove n wants) {x = bid.size} {y = bid.size + 0} (omega arith) f,
  )
  bid_loop-sizes (l ∷ ls) bid [] f = ([], refl, tt, tt)
  bid_loop-sizes (l ∷ ls) bid (want ∷ wants) f =
      let (e, k, f1) = level_while-sizes bid.size bid l (want ∷ wants) in
      let stored = (level_while prices arith_of bid.size bid l (want ∷ wants)).0 in
      let left1 = (level_while prices arith_of bid.size bid l (want ∷ wants)).1 in
      let (left, e', k', f') = bid_loop-sizes ls (take_level prices arith_of bid l) left1 f1 in
      let more = (bid_loop prices arith_of (take_level prices arith_of bid l) left1 ls).0 in
      let sum : bid.size + l.size + total_size ls ≡ bid.size + (l.size + total_size ls) =
        omega arith in
      let apart : sizes (stored ++ more) ≡ sizes stored ++ sizes more = sizes-append stored more in
      (
        left,
        e
            ∙ ap (λ t. sizes stored ++ t) e'
            ∙ sym (append_assoc (sizes stored) (sizes more) left)
            ∙ ap (λ t. t ++ left) (sym apart),
        subst (AllWithin (bid.size + (l.size + total_size ls))) (sym apart) (
            AllWithin-append (bid.size + (l.size + total_size ls)) (sizes stored) (sizes more)
              (AllWithin-mono (bid.size + l.size) (bid.size + (l.size + total_size ls))
                (sizes stored) (omega arith) k)
              (subst (λ n. AllWithin n (sizes more)) sum k')),
        subst (λ n. FirstAbove n left) sum f',
      )

  -- On the bid side verticalIntergrationLevel stores levels of the configured sizes, from the first one
  -- on and in order: all those up to the first that is more than all the bids together have. The first
  -- configured size is not 0.
  pub vertical_level-sizes :
      (level_vec : List ℕ) (bids asks : List (Level P))
      → FirstAbove 0 level_vec
      → let (stored, _) = vertical_level prices arith_of level_vec bids asks in
        (left : List ℕ) × (level_vec ≡ sizes stored ++ left)
        × AllWithin (total_size bids) (sizes stored)
        × FirstAbove (total_size bids) left
  unfolding vertical_level
  vertical_level-sizes level_vec bids asks f =
      let (left, e, k, above) = bid_loop-sizes bids (empty_level prices) level_vec f in
      let sum : 0 + total_size bids ≡ total_size bids = omega arith in
      (
        left,
        e,
        subst
            (λ n.
              AllWithin n (sizes (bid_loop prices arith_of (empty_level prices) level_vec bids).0))
            sum k,
        subst (λ n. FirstAbove n left) sum above,
      )
