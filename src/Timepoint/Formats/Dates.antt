-- ===== src/Timepoint/Formats/Dates.antt =====
-- Dates that are printed and read back.
use conn.Common.{
  ℕ, ◌<◌, ◌≡◌, refl, sym, ap, ◌∙◌, ◌∷◌, ◌++◌, none, Bytes, length, take, drop, inl, inr,
  take-length_append, drop-length_append, Option-cases,
}
use mathlib.Core.Option
use conn.Timepoint.{Timepoint, Civil, total_seconds}
use conn.Timepoint.Formats.Fields.{length-padded}
use conn.Timepoint.Formats.{padded, to_fix_date, stoi, from_fix_date}

cut_front : (n : ℕ) (a s : Bytes) → length a ≡ n → (take n (a ++ s) ≡ a) × (drop n (a ++ s) ≡ s)
cut_front n a s h = (
  ap (λ k. take k (a ++ s)) (sym h) ∙ take-length_append a s,
  ap (λ k. drop k (a ++ s)) (sym h) ∙ drop-length_append a s,
)

-- No date that to_FIX_date prints, of a year of at most four digits, can be read by from_FIX_date: the
-- month is looked for where the `_` stands, and an exception is thrown, or has been for the year.
pub from_fix_date-to_fix_date :
    (gmtime : ℕ → Civil) (t : Timepoint)
    → (gmtime (total_seconds t)).year < 10000
    → from_fix_date (to_fix_date gmtime t) ≡ none
unfolding from_fix_date to_fix_date Option.bind
from_fix_date-to_fix_date gmtime t h =
    let date = gmtime (total_seconds t) in
    let rest = padded 2 date.mon ++ (95 ∷ padded 2 date.mday) in
    let (year, behind) =
      cut_front 4 (padded 4 date.year) (95 ∷ rest) (length-padded 3 date.year h) in
    elim (Option-cases (stoi (padded 4 date.year))) [
      | inl failed ↦ rw (year, failed) refl
      | inr (y, done) ↦ rw (year, done, behind) refl
    ]
