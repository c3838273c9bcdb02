-- ===== src/Bank/Payments/Timing.antt =====
-- When a payment is processed (bank/payments.py, `_compute_fire_at`).
use mock_sim.Base.{
  ℕ, ◌+◌, ◌*◌, ◌<◌, ◌≤◌, ◌≡◌, inl, inr, true, some, Text, is_member, not, ◌||◌, if◌then◌else◌,
  Bool-cases, arith,
}
use mock_sim.Session.{ok}
use mock_sim.Calendar.{date_of, at_hour, is_weekend, microseconds_per_day}
use mock_sim.Calendar.NextDay.{next_business_day-IsFirstBusinessDay}
use mock_sim.Bank.Regions.{BankRegionConfig, get_region}
use mock_sim.Bank.Regions.Checks.{get_region-IsRegion}
use mock_sim.Bank.Payments.{compute_fire_at, instant_rails, rtgs_rails}

at_hour-after : (now d hour : ℕ) → date_of now < d → now < at_hour d hour
unfolding at_hour date_of
at_hour-after now d hour h = omega arith

at_hour-within :
    (now d hour : ℕ)
    → d ≤ date_of now + 7
    → hour < 24
    → at_hour d hour < now + 8 * microseconds_per_day
unfolding at_hour date_of
at_hour-within now d hour h k = omega arith

date_of-at_hour : (d hour : ℕ) → hour < 24 → date_of (at_hour d hour) ≡ d
unfolding at_hour date_of
date_of-at_hour d hour h = omega arith

-- In every region the processing time exists, and is after the present and within eight days of it;
-- on a rail that is not instant it falls on a business day.
pub compute_fire_at_lem :
    (code : Text) (region_cfg : BankRegionConfig) (now : ℕ) (rail : Text)
    → get_region code ≡ ok region_cfg
    → (t : ℕ) × (compute_fire_at now rail region_cfg ≡ some t)
      × (now < t)
      × (t < now + 8 * microseconds_per_day)
      × ((is_member rail instant_rails || not (is_weekend region_cfg.weekend_days (date_of t)))
          ≡ true)
unfolding compute_fire_at
compute_fire_at_lem code region_cfg now rail e = elim (Bool-cases (is_member rail instant_rails)) [
  | inl instant ↦
      (now + 30 * 1_000_000, rw (instant, compute_fire_at), omega arith, omega arith, rw instant)
  | inr slow ↦
      let region = get_region-IsRegion code region_cfg e in
      let (r, found, after, near, first) =
        next_business_day-IsFirstBusinessDay region_cfg.weekend_days (date_of now)
          region.proper_weekend in
      let hour = if is_member rail rtgs_rails then region_cfg.settlement_cutoff_hour else 9 in
      let in_the_day : hour < 24 = elim (Bool-cases (is_member rail rtgs_rails)) [
        | inl rtgs ↦ rw rtgs region.in_the_day
        | inr ach ↦ rw ach (omega arith)
      ] in
      (
        at_hour r hour,
        rw (slow, found, compute_fire_at),
        at_hour-after now r hour after,
        at_hour-within now r hour near in_the_day,
        rw (slow, date_of-at_hour r hour in_the_day, first.is_business),
      )
]
