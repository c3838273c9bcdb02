-- ===== src/Calendar/Tests.antt =====
-- Tests and instances for the walks over business days. The ordinal of 2026-01-01, a Thursday, is
-- 739617.
use mock_sim.Base.{ℕ, ◌+◌, ◌≤◌, ◌<◌, ◌≡◌, refl, true, not, some, List, [], ◌∷◌, arith}
use mock_sim.Calendar.{
  isoweekday, is_in, is_weekend, next_business_day, skip_weekend, expected_settlement_date,
  count_working_days, Date,
}
use mock_sim.Calendar.NextDay.{IsProper, IsFirstBusinessDay, next_business_day-IsFirstBusinessDay}
use mock_sim.Calendar.Settlement.{business_days, expected_settlement_date_lem}

abbrev thursday : Date
thursday = 739617

abbrev friday_saturday : List ℕ
friday_saturday = 5 ∷ 6 ∷ []

thursday_is_four : isoweekday thursday ≡ 4
unfolding isoweekday
thursday_is_four = refl

over_the_weekend : next_business_day thursday friday_saturday ≡ some 739620
unfolding next_business_day skip_weekend is_weekend is_in isoweekday
over_the_weekend = refl

two_days : expected_settlement_date thursday 2 friday_saturday ≡ some 739621
unfolding expected_settlement_date count_working_days is_weekend is_in isoweekday
two_days = refl

friday_saturday-IsProper : IsProper friday_saturday
unfolding is_in
friday_saturday-IsProper = record {
  workday = 1;
  from_monday = omega arith;
  to_sunday = omega arith;
  not_weekend = refl;
}

next_business_day-IsFirstBusinessDay_example :
    (r : Date) × (next_business_day thursday friday_saturday ≡ some r)
    × (thursday < r)
    × (r ≤ thursday + 7)
    × IsFirstBusinessDay friday_saturday (thursday + 1) r
next_business_day-IsFirstBusinessDay_example =
    next_business_day-IsFirstBusinessDay friday_saturday thursday friday_saturday-IsProper

expected_settlement_date_lem_example :
    (j : ℕ) × (expected_settlement_date thursday 2 friday_saturday ≡ some (thursday + j))
    × (business_days friday_saturday thursday j ≡ 2)
    × (not (is_weekend friday_saturday (thursday + j)) ≡ true)
expected_settlement_date_lem_example =
    expected_settlement_date_lem thursday 2 friday_saturday friday_saturday-IsProper
