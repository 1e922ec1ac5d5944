-- ===== src/PriceCompare/Steps.antt =====
-- Steps to worse and better prices, and what the comparisons say of them.
use conn.Common.{
  ℕ, ◌+◌, ◌-◌, ◌≤◌, ◌<◌, ◌≡◌, refl, ◌∙◌, Bool, true, false, pos, arith, inl, inr, ◌⊎◌,
}
use native.Mathlib.Decide.{dec_lt}
use conn.Book.{Side}
use conn.PriceCompare.{
  distance, double_le, double_gr, make_worse_by, make_better_by, is_worse_by, is_better_by,
  is_better, is_worse, get_worse_price, get_better_price,
}

-- `double_ge` read as the comparison that common/Utils.h has for it, `double_gr`.
abbrev pub IsGreater : (ℕ → ℕ → ℕ → Bool) → Type 0
IsGreater double_ge = (l r e : ℕ) → double_ge l r e ≡ double_gr l r e

module _ (double_ge : ℕ → ℕ → ℕ → Bool) (epsilon : ℕ) (ge : IsGreater double_ge) where
  -- A step of more than epsilon to a worse price, which stays above 0: the new price is worse than the
  -- old one, the old one better than it, the two differ by the amount, in both measures, and a step to a
  -- better price of the same amount goes back.
  pub make_worse_by-IsWorse :
      (side : Side) (p amount : ℕ)
      → epsilon < amount
      → amount ≤ p
      → let q = make_worse_by side p amount in
        (is_worse double_ge epsilon side q p ≡ true)
        × (is_better double_ge epsilon side p q ≡ true)
        × (is_worse_by side q p ≡ pos amount)
        × (is_better_by side p q ≡ pos amount)
        × (make_better_by side q amount ≡ p)
  unfolding make_worse_by is_worse is_better is_worse_by is_better_by make_better_by double_le
      double_gr
  make_worse_by-IsWorse Side.buy p amount h k = (
    ge (p + amount) p epsilon ∙ ground arith,
    ground arith,
    ground arith,
    ground arith,
    omega arith,
  )
  make_worse_by-IsWorse Side.sell p amount h k = (
    ground arith,
    ge p (p - amount) epsilon ∙ ground arith,
    ground arith,
    ground arith,
    omega arith,
  )
  make_worse_by-IsWorse Side.none p amount h k = (
    ground arith,
    ge p (p - amount) epsilon ∙ ground arith,
    ground arith,
    ground arith,
    omega arith,
  )

  -- Which of two prices is the lower, as the comparisons have it.
  abbrev Lower : ℕ → ℕ → Type 0
  Lower l r = (double_le l r epsilon ≡ true) × (double_gr l r epsilon ≡ false)

  abbrev Upper : ℕ → ℕ → Type 0
  Upper l r = (double_le l r epsilon ≡ false) × (double_gr l r epsilon ≡ true)

  apart : (l r : ℕ) → epsilon < distance l r → (Lower l r × Upper r l) ⊎ (Upper l r × Lower r l)
  unfolding double_le double_gr
  apart l r h = elim (dec_lt l r) [
    | yes below ↦ inl ((ground arith, ground arith), (ground arith, ground arith))
    | no above ↦ inr ((ground arith, ground arith), (ground arith, ground arith))
  ]

  -- Of two prices that are further apart than epsilon, and not null, one is taken for the better and the
  -- other for the worse one, and the better one is better than the worse.
  pub get_better_price-get_worse_price :
      (is_null_def : ℕ → Bool) (side : Side) (l r : ℕ)
      → is_null_def l ≡ false
      → is_null_def r ≡ false
      → epsilon < distance l r
      → let better = get_better_price double_ge epsilon is_null_def side l r in
        let worse = get_worse_price double_ge epsilon side l r in
        (((better ≡ l) × (worse ≡ r)) ⊎ ((better ≡ r) × (worse ≡ l)))
        × (is_better double_ge epsilon side better worse ≡ true)
  unfolding get_better_price get_worse_price is_better is_worse
  get_better_price-get_worse_price is_null_def Side.buy l r h k far = elim (apart l r far) [
    | inl ((le, gr), (_, _)) ↦ rw (h, k, le, ge l r epsilon, gr) (inl (refl, refl), le)
    | inr ((le, gr), (le', _)) ↦ rw (h, k, le, ge l r epsilon, gr) (inr (refl, refl), le')
  ]
  get_better_price-get_worse_price is_null_def Side.sell l r h k far = elim (apart l r far) [
    | inl ((le, gr), (_, gr')) ↦
        rw (h, k, ge l r epsilon, gr, le) (inr (refl, refl), ge r l epsilon ∙ gr')
    | inr ((le, gr), (_, _)) ↦
        rw (h, k, ge l r epsilon, gr, le) (inl (refl, refl), ge l r epsilon ∙ gr)
  ]
  get_better_price-get_worse_price is_null_def Side.none l r h k far = elim (apart l r far) [
    | inl ((le, gr), (_, gr')) ↦
        rw (h, k, ge l r epsilon, gr, le) (inr (refl, refl), ge r l epsilon ∙ gr')
    | inr ((le, gr), (_, _)) ↦
        rw (h, k, ge l r epsilon, gr, le) (inl (refl, refl), ge l r epsilon ∙ gr)
  ]
