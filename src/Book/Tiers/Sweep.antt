-- ===== src/Book/Tiers/Sweep.antt =====
-- The sweep of one side for one size.
use conn.Common.{
  ℕ, ◌+◌, ◌≤◌, ◌<◌, ◌≡◌, refl, true, false, some, List, [], ◌∷◌, ◌++◌, ltb, leb, lt→ltb, arith,
  Bool-cases, Option-cases, inl, inr,
}
use conn.Book.{Prices, Level}
use conn.Book.Tiers.{Venues, Tiers, find_venue, retake, sweep, Averaging, tier_loop}

leb_le : (a b : ℕ) → leb a b ≡ true → a ≤ b
leb_le a b h = ground arith

leb_gt : (a b : ℕ) → leb a b ≡ false → b < a
leb_gt a b h = ground arith

module _ {ℓ} {P : Type ℓ} where
  -- The sizes of some levels are cut, and nothing else is changed.
  abbrev pub Cut : List (Level P) → List (Level P) → Type ℓ
  Cut [] ms = ms ≡ []
  Cut (l ∷ ls) [] = [] ≡ l ∷ ls
  Cut (l ∷ ls) (m ∷ ms) = ((m.ex ≡ l.ex) × (m.price ≡ l.price) × (m.size ≤ l.size)) × Cut ls ms

  Cut-self : (ls : List (Level P)) → Cut ls ls
  Cut-self [] = refl
  Cut-self (l ∷ ls) = ((refl, refl, omega arith), Cut-self ls)

  -- The size that a sweep has counted does not pass the size that it is for, so that the tier is reached
  -- exactly when the two are equal; of the levels nothing but the size is changed, and that is only cut.
  pub sweep_bounds :
      (lit cum_size : ℕ) (res : Venues P) (levels : List (Level P))
      → cum_size ≤ lit
      → let s = sweep lit cum_size res levels in
        (cum_size ≤ s.cum_size) × (s.cum_size ≤ lit) × Cut levels s.levels
  unfolding sweep
  sweep_bounds lit cum_size res [] h = (omega arith, h, refl)
  sweep_bounds lit cum_size res (vs ∷ rest) h = elim (Bool-cases (ltb cum_size lit)) [
    | inr full ↦ rw full (omega arith, h, ((refl, refl, omega arith), Cut-self rest))
    | inl short ↦ elim (Option-cases (find_venue res vs.ex)) [
      | inr (old, taken) ↦
          let (a, b, c) = sweep_bounds lit cum_size (retake lit cum_size res vs old) rest h in
          rw (short, taken) (a, b, ((refl, refl, omega arith), c))
      | inl new ↦ elim (Bool-cases (leb (cum_size + vs.size) lit)) [
        | inl fits ↦
            let (a, b, c) =
              sweep_bounds lit (cum_size + vs.size) (res ++ (vs.ex, vs) ∷ []) rest
                (leb_le (cum_size + vs.size) lit fits) in
            rw (short, new, fits) (omega arith, b, ((refl, refl, omega arith), c))
        | inr large ↦
            let (a, b, c) = sweep_bounds lit cum_size (res ++ (vs.ex, vs) ∷ []) rest h in
            rw (short, new, large)
              (a, b, ((refl, refl, omega (arith, leb_gt (cum_size + vs.size) lit large)), c))
      ]
    ]
  ]

  -- Every level is larger than the size.
  abbrev pub AllLarger : ℕ → List (Level P) → Type 0
  AllLarger lit [] = Unit {0}
  AllLarger lit (l ∷ ls) = (lit < l.size) × AllLarger lit ls

  -- Where each level alone is larger than the size, nothing at all is counted.
  pub sweep-AllLarger :
      (lit : ℕ) (res : Venues P) (levels : List (Level P))
      → AllLarger lit levels
      → (sweep lit 0 res levels).cum_size ≡ 0
  unfolding sweep
  sweep-AllLarger lit res [] k = refl
  sweep-AllLarger lit res (vs ∷ rest) (k, ks) = elim (Bool-cases (ltb 0 lit)) [
    | inr full ↦ rw full refl
    | inl short ↦ elim (Option-cases (find_venue res vs.ex)) [
      | inr (old, taken) ↦ rw (short, taken) (sweep-AllLarger lit (retake lit 0 res vs old) rest ks)
      | inl new ↦
          let large : leb (0 + vs.size) lit ≡ false = ground arith in
          rw (short, new, large) (sweep-AllLarger lit (res ++ (vs.ex, vs) ∷ []) rest ks)
    ]
  ]

-- Where the first size is not 0 and every bid to sweep is larger than it, the loop ends and no tier is made:
-- neither side of the final book changes, though each of the bids alone has the size.
pub tier_loop-AllLarger {ℓ} :
    {P : Type ℓ} (prices : Prices P) (avg : Averaging P) (n lit : ℕ) (lits : List ℕ) (t : Tiers P)
    → 0 < lit
    → AllLarger lit t.bid_sweepable
    → (t' : Tiers P) × (tier_loop prices avg n (lit ∷ lits) t ≡ some t')
      × (t'.final_bid ≡ t.final_bid)
      × (t'.final_ask ≡ t.final_ask)
unfolding tier_loop
tier_loop-AllLarger prices avg n lit lits t h k =
    let short : ltb (sweep lit 0 [] t.bid_sweepable).cum_size lit ≡ true =
      rw (sweep-AllLarger lit [] t.bid_sweepable k) (lt→ltb 0 lit h) in
    (
      record t { bid_sweepable = (sweep lit 0 [] t.bid_sweepable).levels },
      rw short refl,
      refl,
      refl,
    )
