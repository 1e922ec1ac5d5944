-- ===== src/Timepoint/Order.antt =====
-- The order of times that are made from a timespec.
use conn.Common.{ℕ, ◌+◌, ◌*◌, ◌/◌, ◌^◌, ◌<◌, ◌≡◌, ◌∙◌, ◌↔◌, ◌⊎◌, ap, true, ◌==◌, ltb, leb, arith}
use conn.Timepoint.{
  of_timespec, total_seconds, equal_time, less, less_equal, greater, greater_equal,
}

-- A timespec as the system gives it, of fewer than 2 ^ 64 nanoseconds.
abbrev pub IsTimespec : ℕ → ℕ → Type 0
IsTimespec sec nsec = (nsec < 1000000000) × (sec * 1000000000 + nsec < 2 ^ 64)

of_timespec-nano :
    (sec nsec : ℕ) → IsTimespec sec nsec → (of_timespec sec nsec).nano ≡ sec * 1000000000 + nsec
of_timespec-nano sec nsec (small, fits) = omega arith

abbrev pub Before : ℕ → ℕ → ℕ → ℕ → Type 0
Before sec nsec sec' nsec' = (sec < sec') ⊎ ((sec ≡ sec') × (nsec < nsec'))

abbrev pub Same : ℕ → ℕ → ℕ → ℕ → Type 0
Same sec nsec sec' nsec' = (sec ≡ sec') × (nsec ≡ nsec')

-- What the operators answer for two such numbers of nanoseconds.
compare_pairs :
    (sec nsec sec' nsec' a b : ℕ)
    → nsec < 1000000000
    → nsec' < 1000000000
    → a ≡ sec * 1000000000 + nsec
    → b ≡ sec' * 1000000000 + nsec'
    → let before = Before sec nsec sec' nsec' in
      let same = Same sec nsec sec' nsec' in
      (((a == b) ≡ true) ↔ same)
      × ((ltb a b ≡ true) ↔ before)
      × ((leb a b ≡ true) ↔ (before ⊎ same))
compare_pairs sec nsec sec' nsec' a b small small' e e' = (ground arith, ground arith, ground arith)

-- Two times that are made from timespecs of fewer than 2 ^ 64 nanoseconds, each with fewer than 10 ^ 9
-- nanoseconds behind its seconds, compare like the pairs of seconds and nanoseconds do, with each of the
-- operators; and the seconds are what total_seconds gives.
pub of_timespec-order :
    (sec nsec sec' nsec' : ℕ)
    → IsTimespec sec nsec
    → IsTimespec sec' nsec'
    → let t = of_timespec sec nsec in
      let u = of_timespec sec' nsec' in
      let before = Before sec nsec sec' nsec' in
      let same = Same sec nsec sec' nsec' in
      (total_seconds t ≡ sec)
      × ((equal_time t u ≡ true) ↔ same)
      × ((less t u ≡ true) ↔ before)
      × ((greater u t ≡ true) ↔ before)
      × ((less_equal t u ≡ true) ↔ (before ⊎ same))
      × ((greater_equal u t ≡ true) ↔ (before ⊎ same))
unfolding equal_time less less_equal greater greater_equal
of_timespec-order sec nsec sec' nsec' v w =
    let e = of_timespec-nano sec nsec v in
    let e' = of_timespec-nano sec' nsec' w in
    let (same, before, at_most) =
      compare_pairs sec nsec sec' nsec' (of_timespec sec nsec).nano (of_timespec sec' nsec').nano
        v.0 w.0 e e' in
    (ap (λ n. n / 1000000000) e ∙ omega (arith, v.0), same, before, before, at_most, at_most)
