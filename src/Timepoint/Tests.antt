-- ===== src/Timepoint/Tests.antt =====
-- Times of a few seconds.
use conn.Common.{true, ◌⊎◌, ◌↔◌, ℕ, ◌≡◌, refl, arith, codes, none, some, pos}
use mathlib.Core.Option
use conn.Timepoint.{
  of_timespec, equal_time, less, less_equal, greater, greater_equal, Timepoint, Civil,
  total_seconds, parts,
}
use conn.Timepoint.Formats.{
  to_fix_time, from_fix_time, to_fix_date, from_fix_date, decimal, padded, fields_text,
}
use conn.Timepoint.Formats.Dates.{from_fix_date-to_fix_date}
use conn.Timepoint.Order.{Before, Same, of_timespec-order}
use conn.Timepoint.Fraction.{from_fix_time-to_fix_time}

abbrev time : Timepoint
time = record { nano = 5123456789 }

-- Five seconds and 123 milliseconds are printed with 828 milliseconds.
prints_wrong : (parts time).milli ≡ 828
unfolding parts
prints_wrong = refl

-- A calendar with seconds only.
abbrev seconds_only : ℕ → Civil
seconds_only s = record { year = 1970; mon = 1; mday = 1; hour = 0; min = 0; sec = s }

prints_time : to_fix_time seconds_only time ≡ codes "1970_01_01_00_00_05_828489"
unfolding to_fix_time parts padded decimal fields_text
prints_time = refl

from_fix_time-to_fix_time_example :
    from_fix_time (λ c. c.sec) (to_fix_time seconds_only time)
    ≡ some (record { nano = 833489000000 }, record { nano = 5000000000 })
from_fix_time-to_fix_time_example =
    from_fix_time-to_fix_time seconds_only (λ c. c.sec) time (λ s. refl) (omega arith)

abbrev in_1970 : ℕ → Civil
in_1970 s = record { year = 1970; mon = 1; mday = 2; hour = 0; min = 0; sec = s }

-- The eight digits that from_FIX_date is written for, and the text that to_FIX_date prints.
reads_digits : from_fix_date (codes "19700102") ≡ some (pos 1970, pos 1, pos 2)
unfolding from_fix_date Option.bind
reads_digits = refl

prints_date : to_fix_date in_1970 time ≡ codes "1970_01_02"
unfolding to_fix_date decimal
prints_date = refl

from_fix_date-to_fix_date_example : from_fix_date (codes "1970_01_02") ≡ none
unfolding to_fix_date decimal
from_fix_date-to_fix_date_example = from_fix_date-to_fix_date in_1970 time (omega arith)

of_timespec-order_example :
    let t = of_timespec 5 7 in
    let u = of_timespec 5 9 in
    let before = Before 5 7 5 9 in
    let same = Same 5 7 5 9 in
    (total_seconds t ≡ 5)
    × ((equal_time t u ≡ true) ↔ same)
    × ((less t u ≡ true) ↔ before)
    × ((greater u t ≡ true) ↔ before)
    × ((less_equal t u ≡ true) ↔ (before ⊎ same))
    × ((greater_equal u t ≡ true) ↔ (before ⊎ same))
of_timespec-order_example =
    of_timespec-order 5 7 5 9 (omega arith, omega arith) (omega arith, omega arith)
