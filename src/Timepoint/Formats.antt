-- ===== src/Timepoint/Formats.antt =====
-- common/Timepoint.h: the three formats of FIX as texts, by to_FIX_time, to_FIX_time_micro and to_FIX_date,
-- and their readers.
pub mod Dates
pub mod Fields
use conn.Common.{
  ℕ, zero, suc, ◌+◌, ◌-◌, ◌*◌, ◌/◌, ◌%◌, ◌^◌, Bool, false, List, ◌||◌, ◌&&◌, [], ◌∷◌, ◌++◌, Option,
  none, some, ◌==◌, ltb, leb, if◌then◌else◌, Bytes, length, take, drop, replicate, add64, ℤ, pos,
  negsuc,
}
use mathlib.Core.Option
use conn.Timepoint.{Timepoint, Civil, total_seconds, parts}

-- A number as `operator<<` prints it; a number has fewer digits than `n` where `n` is above it.
unfoldable pub decimal : ℕ → ℕ → Bytes
decimal zero v = []
decimal (suc n) v =
    let front = decimal n (v / 10) in
    if ltb v 10 then (48 + v) ∷ [] else front ++ (48 + v % 10) ∷ []

-- `setw(w) << setfill('0') << v`
unfoldable pub padded : ℕ → ℕ → Bytes
padded w v = let text = decimal (suc v) v in replicate (w - length text) 48 ++ text

-- Numbers with their widths, each with a `_` behind it.
unfoldable pub fields_text : List (ℕ × ℕ) → Bytes → Bytes
unfolding padded
fields_text [] rest = rest
fields_text ((w, v) ∷ fields) rest = padded w v ++ 95 ∷ fields_text fields rest

-- The date and the time of day.
abbrev pub fields : Civil → List (ℕ × ℕ)
fields t = (4, t.year) ∷ (2, t.mon) ∷ (2, t.mday) ∷ (2, t.hour) ∷ (2, t.min) ∷ (2, t.sec) ∷ []

-- What `to_FIX_time` prints; `gmtime` gives the date and the time of day of a number of seconds. Nothing
-- stands between the milli- and the microseconds.
unfoldable pub to_fix_time : (ℕ → Civil) → Timepoint → Bytes
unfolding fields_text parts
to_fix_time gmtime t =
    let p = parts t in
    fields_text (fields (gmtime (total_seconds t))) (padded 3 p.milli ++ padded 3 p.micro)

-- What `to_FIX_time_micro` prints: the date, the time of day, and the milliseconds.
unfoldable pub to_fix_time_micro : (ℕ → Civil) → Timepoint → Bytes
unfolding fields_text parts
to_fix_time_micro gmtime t =
    fields_text (fields (gmtime (total_seconds t))) (padded 3 (parts t).milli)

-- What `to_FIX_date` prints.
unfoldable pub to_fix_date : (ℕ → Civil) → Timepoint → Bytes
unfolding padded
to_fix_date gmtime t =
    let date = gmtime (total_seconds t) in
    padded 4 date.year ++ (95 ∷ padded 2 date.mon ++ (95 ∷ padded 2 date.mday))

abbrev pub is_digit : ℕ → Bool
is_digit c = leb 48 c && leb c 57

-- The digits at the start of a text, read behind the number `acc`, and what is left.
unfoldable pub take_number : ℕ → Bytes → ℕ × Bytes
take_number acc [] = (acc, [])
take_number acc (c ∷ s) =
    let more = take_number (acc * 10 + (c - 48)) s in if is_digit c then more else (acc, c ∷ s)

abbrev pub starts_digit : Bytes → Bool
starts_digit [] = false
starts_digit (c ∷ s) = is_digit c

-- `is >> v` of a number, and what is left; none where no digit comes. The texts here have no signs and
-- no whitespace, and their numbers are in range.
unfoldable pub read_int : Bytes → Option (ℕ × Bytes)
unfolding take_number
read_int s = if starts_digit s then some (take_number 0 s) else none

-- `is >> ret`, of a character that is not looked at.
abbrev pub read_char : Bytes → Option Bytes
read_char [] = none
read_char (c ∷ s) = some s

-- So many numbers, each with a character behind it.
unfoldable pub read_fields : ℕ → Bytes → Option (List ℕ × Bytes)
unfolding read_int
read_fields zero s = some ([], s)
read_fields (suc n) s = Option.bind (read_int s) λ (v, s1).
    Option.bind (read_char s1) λ s2. Option.map (λ (vs, s3). (v ∷ vs, s3)) (read_fields n s2)

-- The six numbers in order.
abbrev pub civil_of : List ℕ → Option Civil
civil_of (year ∷ mon ∷ mday ∷ hour ∷ min ∷ sec ∷ []) =
    some (record { year = year; mon = mon; mday = mday; hour = hour; min = min; sec = sec })
civil_of _ = none

-- The date, the time of day and the number behind them.
unfoldable pub read_time : Bytes → Option (Civil × ℕ)
unfolding read_fields
read_time s =
    Option.bind (read_fields 6 s)
      λ (vs, s1). Option.bind (civil_of vs) λ t. Option.map (λ (v, _). (t, v)) (read_int s1)

-- `from_FIX_time`: the member as it is set, and the result; none where a number is missing, which leaves
-- members of `t` unset.
unfoldable pub from_fix_time : (Civil → ℕ) → Bytes → Option (Timepoint × Timepoint)
unfolding read_time
from_fix_time timegm s =
    Option.map
      (λ (t, milli_sec). (
        record { nano = add64 (timegm t * 1000000000 % 2 ^ 64) (milli_sec * 1000000 % 2 ^ 64) },
        record { nano = timegm t * 1000000000 % 2 ^ 64 },
      ))
      (read_time s)

-- `from_FIX_time_micro`, likewise.
unfoldable pub from_fix_time_micro : (Civil → ℕ) → Bytes → Option (Timepoint × Timepoint)
unfolding read_time
from_fix_time_micro timegm s =
    Option.map
      (λ (t, micro). (
        record { nano = add64 (timegm t * 1000000000 % 2 ^ 64) (micro * 1000 % 2 ^ 64) },
        record { nano = timegm t * 1000000000 % 2 ^ 64 },
      ))
      (read_time s)

unfoldable pub read_digits : ℕ → Bytes → ℕ
read_digits acc [] = acc
read_digits acc (c ∷ s) =
    let more = read_digits (acc * 10 + (c - 48)) s in if is_digit c then more else acc

-- The digits at the start of a text, of which there is one.
unfoldable pub number : Bytes → Option ℕ
unfolding read_digits
number [] = none
number (c ∷ s) = if is_digit c then some (read_digits 0 (c ∷ s)) else none

abbrev pub negative : ℕ → ℤ
negative zero = pos 0
negative (suc n) = negsuc n

-- `std::stoi`, of a text too short to go out of range: whitespace, a sign, and digits; it throws where
-- there is none.
unfoldable pub stoi : Bytes → Option ℤ
unfolding number
stoi [] = none
stoi (c ∷ s) =
    let rest = stoi s in
    if c == 32 || (leb 9 c && leb c 13)
    then rest
    else if c == 45
    then Option.map negative (number s)
    else if c == 43
    then Option.map pos (number s)
    else Option.map pos (number (c ∷ s))

-- The three numbers that `from_FIX_date` gives to `timegm` as the year, the month and the day; the hour,
-- the minute and the second are not set.
unfoldable pub from_fix_date : Bytes → Option (ℤ × ℤ × ℤ)
unfolding stoi
from_fix_date date = Option.bind (stoi (take 4 date)) λ year.
    Option.bind (stoi (take 2 (drop 4 date)))
      λ mon. Option.map (λ mday. (year, mon, mday)) (stoi (take 2 (drop 6 date)))
