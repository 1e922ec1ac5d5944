-- ===== src/Timepoint.antt =====
-- common/Timepoint.h: nanoseconds since 1970, their components, and the times of FIX messages.
pub mod Fraction
pub mod Formats
pub mod Order
mod Tests
use conn.Common.{ℕ, Bool, ◌==◌, ltb, leb, ◌*◌, ◌/◌, ◌%◌, ◌^◌, add64, sub32}

-- `m_nano`, a uint64_t.
pub record Timepoint : Type 0 where
  pub nano : ℕ

-- `Timepoint(const timespec&)`
abbrev pub of_timespec : ℕ → ℕ → Timepoint
of_timespec tv_sec tv_nsec = record { nano = add64 (tv_sec * 1000000000 % 2 ^ 64) tv_nsec }

abbrev pub total_microseconds : Timepoint → ℕ
total_microseconds t = t.nano / 1000

abbrev pub total_milliseconds : Timepoint → ℕ
total_milliseconds t = t.nano / 1000000

abbrev pub total_seconds : Timepoint → ℕ
total_seconds t = t.nano / 1000000000

abbrev pub total_minutes : Timepoint → ℕ
total_minutes t = t.nano / 60000000000

abbrev pub millisecond_component : Timepoint → ℕ
millisecond_component t = t.nano / 1000000 % 1000

abbrev pub microsecond_component : Timepoint → ℕ
microsecond_component t = t.nano / 1000 % 1000

abbrev pub nanosecond_component : Timepoint → ℕ
nanosecond_component t = t.nano % 1000

-- `operator ==` and the four comparisons.
unfoldable pub equal_time : Timepoint → Timepoint → Bool
equal_time t u = t.nano == u.nano

unfoldable pub less : Timepoint → Timepoint → Bool
less t u = ltb t.nano u.nano

unfoldable pub less_equal : Timepoint → Timepoint → Bool
less_equal t u = leb t.nano u.nano

unfoldable pub greater : Timepoint → Timepoint → Bool
greater t u = ltb u.nano t.nano

unfoldable pub greater_equal : Timepoint → Timepoint → Bool
greater_equal t u = leb u.nano t.nano

-- The fields of a `std::tm` that are used: `year` and `mon` are as printed, with the 1900 and the 1 that the
-- code adds to `tm_year` and `tm_mon` and takes from them.
pub record Civil : Type 0 where
  pub year : ℕ
  pub mon : ℕ
  pub mday : ℕ
  pub hour : ℕ
  pub min : ℕ
  pub sec : ℕ

-- The three parts of a second that are printed: milli, micro and nano.
pub record Parts : Type 0 where
  pub milli : ℕ
  pub micro : ℕ
  pub nano : ℕ

-- The arithmetic of `operator<<` and of `to_FIX_time` behind `gmtime_r`: `nano_sec` is a uint32_t.
unfoldable pub parts : Timepoint → Parts
parts t =
    let nano_sec = t.nano % 2 ^ 32 in
    let micro_sec = nano_sec / 1000 in
    let milli_sec = micro_sec / 1000 in
    record {
      milli = milli_sec;
      micro = sub32 micro_sec (milli_sec * 1000 % 2 ^ 32);
      nano = sub32 nano_sec (micro_sec * 1000 % 2 ^ 32);
    }
