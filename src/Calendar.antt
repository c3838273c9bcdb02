-- ===== src/Calendar.antt =====
-- Dates and instants, and the two walks over business days: `_next_business_day` (bank/payments.py)
-- and `_expected_settlement_date` (pos/generator.py). A date is its proleptic ordinal, as
-- `date.toordinal` has it, and an instant a number of microseconds; the end of Python's calendar, in
-- the year 9999, is not modelled. A `while` loop takes fuel.
pub mod Civil
pub mod NextDay
pub mod Settlement
mod Tests
use mock_sim.Base.{
  ℕ, zero, suc, ◌+◌, ◌*◌, ◌/◌, ◌%◌, Bool, true, false, Option, none, some, List, [], ◌∷◌, ltb, ◌==◌,
  if◌then◌else◌,
}

abbrev pub Date : Type 0
Date = ℕ

abbrev pub microseconds_per_second : ℕ
microseconds_per_second = 1_000_000

abbrev pub microseconds_per_day : ℕ
microseconds_per_day = 86_400_000_000

-- `datetime(d.year, d.month, d.day, hour, 0, 0, tzinfo=utc)`
unfoldable pub at_hour : Date → ℕ → ℕ
at_hour d hour = d * microseconds_per_day + hour * 3600 * microseconds_per_second

-- `datetime.date()`
unfoldable pub date_of : ℕ → Date
date_of t = t / microseconds_per_day

-- `date.isoweekday()`: Monday is 1 and Sunday is 7.
unfoldable pub isoweekday : Date → ℕ
isoweekday d = if d % 7 == 0 then 7 else d % 7

-- `day in weekend_days`
unfoldable pub is_in : ℕ → List ℕ → Bool
is_in day [] = false
is_in day (w ∷ ws) = if day == w then true else is_in day ws

unfoldable pub is_weekend : List ℕ → Date → Bool
is_weekend weekend_days d = is_in (isoweekday d) weekend_days

-- The loop of `_next_business_day`.
unfoldable pub skip_weekend : ℕ → List ℕ → Date → Option Date
skip_weekend zero weekend_days result = none
skip_weekend (suc f) weekend_days result =
    let rest = skip_weekend f weekend_days (result + 1) in
    if is_weekend weekend_days result then rest else some result

-- A week is enough, unless every day is in the weekend.
unfoldable pub next_business_day : Date → List ℕ → Option Date
next_business_day d weekend_days = skip_weekend 7 weekend_days (d + 1)

-- The loop of `_expected_settlement_date`.
unfoldable pub count_working_days : ℕ → List ℕ → ℕ → Date → ℕ → Option Date
count_working_days zero weekend_days settlement_days result added = none
count_working_days (suc f) weekend_days settlement_days result added =
    let rest =
      count_working_days f weekend_days settlement_days (result + 1)
        (if is_weekend weekend_days (result + 1) then added else added + 1) in
    if ltb added settlement_days then rest else some result

unfoldable pub expected_settlement_date : Date → ℕ → List ℕ → Option Date
expected_settlement_date sim_date settlement_days weekend_days =
    count_working_days (7 * settlement_days + 1) weekend_days settlement_days sim_date 0
