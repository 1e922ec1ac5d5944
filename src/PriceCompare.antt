-- ===== src/PriceCompare.antt =====
-- engine/book/PriceCompare.h: prices that are better or worse for a side, with the comparisons of
-- common/Utils.h. Prices, amounts and epsilons are natural numbers of a small unit. `double_ge` and
-- `is_null_def` are declared nowhere: they are parameters.
pub mod Steps
mod Tests
use conn.Common.{ℕ, ◌+◌, ◌-◌, Bool, true, false, ◌&&◌, if◌then◌else◌, ltb, leb, ℤ, pos, negsuc}
use conn.Book.{Side, buy, sell}

-- `std::fabs(l - r)`
abbrev pub distance : ℕ → ℕ → ℕ
distance l r = (l - r) + (r - l)

unfoldable pub double_eq : ℕ → ℕ → ℕ → Bool
double_eq l r epsilon = ltb (distance l r) epsilon

unfoldable pub double_le : ℕ → ℕ → ℕ → Bool
double_le l r epsilon = ltb epsilon (distance l r) && ltb l r

unfoldable pub double_gr : ℕ → ℕ → ℕ → Bool
double_gr l r epsilon = ltb epsilon (distance l r) && ltb r l

-- `side == Side::Buy`
abbrev pub is_buy : Side → Bool
is_buy Side.buy = true
is_buy Side.sell = false
is_buy Side.none = false

-- `l - r`
abbrev pub minus : ℕ → ℕ → ℤ
minus l r = if leb r l then pos (l - r) else negsuc (r - l - 1)

-- `get_side_specific_price_diff`
unfoldable pub price_diff : Side → ℕ → ℕ → ℤ
price_diff side l r = if is_buy side then minus l r else minus r l

-- `make_worse_by` and `make_better_by`
unfoldable pub make_worse_by : Side → ℕ → ℕ → ℕ
make_worse_by side p amount = if is_buy side then p + amount else p - amount

unfoldable pub make_better_by : Side → ℕ → ℕ → ℕ
make_better_by side p amount = if is_buy side then p - amount else p + amount

-- `is_worse_by` and `is_better_by`
unfoldable pub is_worse_by : Side → ℕ → ℕ → ℤ
is_worse_by side l r = if is_buy side then minus l r else minus r l

unfoldable pub is_better_by : Side → ℕ → ℕ → ℤ
is_better_by side l r = if is_buy side then minus r l else minus l r

module _ (double_ge : ℕ → ℕ → ℕ → Bool) (epsilon : ℕ) where
  unfoldable pub is_better_equal : Side → ℕ → ℕ → Bool
  is_better_equal side l r = if is_buy side then double_le l r epsilon else double_ge l r epsilon

  unfoldable pub is_worse_equal : Side → ℕ → ℕ → Bool
  is_worse_equal side l r = if is_buy side then double_ge l r epsilon else double_le l r epsilon

  unfoldable pub is_better : Side → ℕ → ℕ → Bool
  is_better side l r = if is_buy side then double_le l r epsilon else double_ge l r epsilon

  unfoldable pub is_worse : Side → ℕ → ℕ → Bool
  is_worse side l r = if is_buy side then double_ge l r epsilon else double_le l r epsilon

  unfoldable pub get_worse_price : Side → ℕ → ℕ → ℕ
  get_worse_price side l r = if is_worse side l r then l else r

  unfoldable pub get_better_price : (ℕ → Bool) → Side → ℕ → ℕ → ℕ
  get_better_price is_null_def side l r =
      if is_null_def l then r else if is_null_def r then l else if is_better side l r then l else r
