-- ===== src/Domain/Cadence.antt =====
-- internal/domain/domain.go: SubscriptionCadence.Advance, with `Time.AddDate` of Go's library for the
-- units that it uses. A day in UTC has 24 hours. A date plus one month is the same day number of the
-- next month, normalised, so it lies as many days later as the date's own month has.
use gripe.Common.{
  ℕ, ◌+◌, ◌-◌, ◌*◌, ◌/◌, ◌%◌, ◌^◌, ◌≡◌, refl, Bool, false, List, [], ◌∷◌, ◌&&◌, ◌||◌, not, ltb, leb,
  eqb, if◌then◌else◌,
}
use gripe.Domain.{Time, SubscriptionCadence, daily, weekly, monthly}

-- A day in nanoseconds.
abbrev pub day_length : ℕ
day_length = 86400 * 10 ^ 9

-- Of a day since 0001-01-01: the place in its year, which begins at 0, and whether that is a leap
-- year. 400, 100, 4 and 1 years have 146097, 36524, 1461 and 365 days, and the last part of a
-- division may be a day longer.
unfoldable pub year_day : ℕ → ℕ × Bool
year_day day =
    let era_day = day % 146097 in
    let century = (if leb 3 (era_day / 36524) then 3 else era_day / 36524) in
    let century_day = era_day - century * 36524 in
    let cycle = century_day / 1461 in
    let cycle_day = century_day % 1461 in
    let year = (if leb 3 (cycle_day / 365) then 3 else cycle_day / 365) in
    (cycle_day - year * 365, eqb year 3 && (not (eqb cycle 24) || eqb century 3))

abbrev month_lengths : Bool → List ℕ
month_lengths leap =
    31 ∷ (if leap then 29 else 28) ∷ 31 ∷ 30 ∷ 31 ∷ 30 ∷ 31 ∷ 31 ∷ 30 ∷ 31 ∷ 30 ∷ 31 ∷ []

-- The length of the month in which a day of the year lies; the last list entry is December.
unfoldable pub month_at : ℕ → List ℕ → ℕ
month_at day [] = 31
month_at day (n ∷ ns) = let later = month_at (day - n) ns in if ltb day n then n else later

unfoldable pub month_length : Time → ℕ
unfolding year_day month_at
month_length t = let (day, leap) = year_day (t / day_length) in month_at day (month_lengths leap)

unfoldable pub advance : SubscriptionCadence → Time → Time
advance daily t = t + day_length
advance weekly t = t + 7 * day_length
advance monthly t = t + month_length t * day_length
advance (SubscriptionCadence.other s) t = t

-- 31 January 2026, noon: a month later is 3 March.
advance_end_of_january :
    (advance monthly (739646 * day_length + 43200 * 10 ^ 9) ≡ 739677 * day_length + 43200 * 10 ^ 9)
    × (year_day 739646 ≡ (30, false))
    × (year_day 739677 ≡ (61, false))
unfolding advance month_length
advance_end_of_january = (refl, refl, refl)
