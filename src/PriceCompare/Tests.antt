-- ===== src/PriceCompare/Tests.antt =====
-- Prices in units of a billionth.
use conn.Common.{◌≡◌, refl, false}
use conn.Book.{buy}
use conn.PriceCompare.{double_gr, is_better_equal, double_le}

-- A price is not better than itself, nor equal to it.
not_better_equal : is_better_equal double_gr 1 buy 100 100 ≡ false
unfolding is_better_equal double_le
not_better_equal = refl
