-- ===== src/Timepoint/Fraction.antt =====
-- The parts of a second.
use conn.Common.{Option, some, refl, ◌++◌, ℕ, ◌+◌, ◌*◌, ◌/◌, ◌%◌, ◌^◌, ◌<◌, ◌≡◌, arith}
use conn.Timepoint.{
  Timepoint, Civil, of_timespec, total_seconds, millisecond_component, microsecond_component,
  nanosecond_component, parts,
}
use conn.Timepoint.Formats.{
  padded, to_fix_time, from_fix_time, to_fix_time_micro, from_fix_time_micro,
}
use conn.Timepoint.Formats.Fields.{read_int-last, read_int-two, read_time-fields}

-- The seconds and the components put together are the time, each component below 1000; and a time of
-- whole seconds below 2 ^ 33 and nanoseconds below 10 ^ 9 has those seconds.
pub components_lem :
    (t : Timepoint) (tv_sec tv_nsec : ℕ)
    → tv_sec < 2 ^ 33
    → tv_nsec < 1000000000
    → (t.nano
        ≡ total_seconds t * 1000000000
          + millisecond_component t * 1000000
          + microsecond_component t * 1000
          + nanosecond_component t)
      × (millisecond_component t < 1000)
      × (microsecond_component t < 1000)
      × (nanosecond_component t < 1000)
      × (total_seconds (of_timespec tv_sec tv_nsec) ≡ tv_sec)
components_lem t tv_sec tv_nsec h k =
    (omega arith, omega arith, omega arith, omega arith, omega arith)

-- What is printed of a time as parts of its second is the time modulo 2 ^ 32, not modulo a second: the
-- parts are right below one second, and in general only the micro- and nanoseconds are below 1000.
pub parts_lem :
    (t : Timepoint)
    → let p = parts t in
      (p.milli * 1000000 + p.micro * 1000 + p.nano ≡ t.nano % 2 ^ 32)
      × (p.micro < 1000)
      × (p.nano < 1000)
unfolding parts
parts_lem t = (omega arith, omega arith, omega arith)

abbrev two_times : ℕ → ℕ → Option (Timepoint × Timepoint)
two_times m n = some (record { nano = m }, record { nano = n })

both_times : {m m' n n' : ℕ} → m ≡ m' → n ≡ n' → two_times m n ≡ two_times m' n'
both_times e f = rw (e, f) refl

-- A time that to_FIX_time prints and from_FIX_time reads back: the result has lost the parts of the
-- second, and the member takes the microseconds modulo 2 ^ 32 nanoseconds, whose digits stand behind
-- those of the milliseconds, for milliseconds. It is assumed that `timegm` undoes `gmtime`, and that the
-- time is below 2 ^ 63.
pub from_fix_time-to_fix_time :
    (gmtime : ℕ → Civil) (timegm : Civil → ℕ) (t : Timepoint)
    → ((s : ℕ) → timegm (gmtime s) ≡ s)
    → t.nano < 2 ^ 63
    → from_fix_time timegm (to_fix_time gmtime t)
      ≡ some (
        record { nano = total_seconds t * 1000000000 + t.nano % 2 ^ 32 / 1000 * 1000000 },
        record { nano = total_seconds t * 1000000000 },
      )
unfolding to_fix_time from_fix_time
from_fix_time-to_fix_time gmtime timegm t inverse h =
    let date = gmtime (total_seconds t) in
    let p = parts t in
    let (whole, small, _) = parts_lem t in
    let read =
      read_time-fields date (padded 3 p.milli ++ padded 3 p.micro) (p.milli * 1000 + p.micro)
        (read_int-two 3 p.milli p.micro small) in
    rw (read, inverse (total_seconds t)) (both_times (unfold parts in omega arith) (omega arith))

-- A time that to_FIX_time_micro prints and from_FIX_time_micro reads back: the result has lost the parts
-- of the second, and the member takes the milliseconds that were printed for microseconds. It is assumed
-- that `timegm` undoes `gmtime`, and that the time is below 2 ^ 63.
pub from_fix_time_micro-to_fix_time_micro :
    (gmtime : ℕ → Civil) (timegm : Civil → ℕ) (t : Timepoint)
    → ((s : ℕ) → timegm (gmtime s) ≡ s)
    → t.nano < 2 ^ 63
    → from_fix_time_micro timegm (to_fix_time_micro gmtime t)
      ≡ some (
        record { nano = total_seconds t * 1000000000 + t.nano % 2 ^ 32 / 1000000 * 1000 },
        record { nano = total_seconds t * 1000000000 },
      )
unfolding to_fix_time_micro from_fix_time_micro
from_fix_time_micro-to_fix_time_micro gmtime timegm t inverse h =
    let date = gmtime (total_seconds t) in
    let p = parts t in
    let read = read_time-fields date (padded 3 p.milli) p.milli (read_int-last 3 p.milli) in
    rw (read, inverse (total_seconds t)) (both_times (unfold parts in omega arith) (omega arith))
