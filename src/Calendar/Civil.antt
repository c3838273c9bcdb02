-- ===== src/Calendar/Civil.antt =====
-- The year and the day of the year of a date, as Python's `_ord2ymd` finds them (`strftime("%y%j")`,
-- `timetuple().tm_yday`).
use mock_sim.Base.{ℕ, ◌+◌, ◌-◌, ◌*◌, ◌/◌, ◌%◌, ◌≡◌, refl, ◌||◌, ◌==◌, if◌then◌else◌}
use mock_sim.Calendar.{Date}

pub record YearDay : Type 0 where
  pub year : ℕ
  pub day : ℕ

-- A year of 366 days is the fourth of its four, or the fourth century of its four: there the division
-- by the length of a year gives 4, and the date is the last day of the year before.
unfoldable pub year_day : Date → YearDay
year_day d =
    let n = d - 1 in
    let n400 = n / 146_097 in
    let n100 = n % 146_097 / 36_524 in
    let n4 = n % 146_097 % 36_524 / 1461 in
    let n1 = n % 146_097 % 36_524 % 1461 / 365 in
    let year = n400 * 400 + n100 * 100 + n4 * 4 + n1 in
    if n1 == 4 || n100 == 4
    then record { year = year; day = 366 }
    else record { year = year + 1; day = n % 146_097 % 36_524 % 1461 % 365 + 1 }

-- 29 February 2024 and 31 December 2024
leap_day : year_day 738_945 ≡ record { year = 2024; day = 60 }
unfolding year_day
leap_day = refl

last_day : year_day 739_251 ≡ record { year = 2024; day = 366 }
unfolding year_day
last_day = refl
