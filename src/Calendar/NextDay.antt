-- ===== src/Calendar/NextDay.antt =====
-- `_next_business_day` (bank/payments.py): it ends, at the first business day after the date.
use mock_sim.Base.{
  ℕ, zero, suc, ◌+◌, ◌-◌, ◌%◌, ◌≤◌, ◌<◌, ◌≡◌, inl, inr, true, false, some, List, arith, Bool-cases,
}
use native.Mathlib.Decide.{dec_le}
use mock_sim.Calendar.{Date, isoweekday, is_in, is_weekend, skip_weekend, next_business_day}

-- A weekend that leaves a working day: some ISO weekday is not in it.
pub record IsProper (weekend_days : List ℕ) : Type 0 where
  pub workday : ℕ
  pub from_monday : 1 ≤ workday
  pub to_sunday : workday ≤ 7
  pub not_weekend : is_in workday weekend_days ≡ false

isoweekday-reaches : (w d : ℕ) → 1 ≤ w → w ≤ 7 → isoweekday (d + (w + 7 - d % 7) % 7) ≡ w
unfolding isoweekday
isoweekday-reaches w d h k = ground arith

-- Among any seven consecutive days there is a business day.
pub business_day_ahead :
    (ws : List ℕ) (d : Date) → IsProper ws → (k : ℕ) × (k < 7) × (is_weekend ws (d + k) ≡ false)
unfolding is_weekend
business_day_ahead ws d p = (
  (p.workday + 7 - d % 7) % 7,
  omega arith,
  rw (isoweekday-reaches p.workday d p.from_monday p.to_sunday) p.not_weekend,
)

-- The first business day from a date on.
pub record IsFirstBusinessDay (ws : List ℕ) (d r : Date) : Type 0 where
  pub from_start : d ≤ r
  pub is_business : is_weekend ws r ≡ false
  pub skipped : (x : Date) → d ≤ x → x < r → is_weekend ws x ≡ true

skip_weekend_lem :
    (f : ℕ) (ws : List ℕ) (d k : ℕ)
    → k < f
    → is_weekend ws (d + k) ≡ false
    → (r : Date) × (skip_weekend f ws d ≡ some r) × (r ≤ d + k) × IsFirstBusinessDay ws d r
unfolding skip_weekend
skip_weekend_lem zero ws d k h b = elim h [ ]
skip_weekend_lem (suc f) ws d zero h b =
    let here : is_weekend ws d ≡ false = let e : d ≡ d + 0 = omega arith in rw e b in
    (
      d,
      rw here,
      omega arith,
      record {
        from_start = omega arith;
        is_business = here;
        skipped = λ x lo hi. absurd (omega arith);
      },
    )
skip_weekend_lem (suc f) ws d (suc k) h b = elim (Bool-cases (is_weekend ws d)) [
  | inl weekend ↦
      let moved : d + 1 + k ≡ d + suc k = omega arith in
      let (r, found, near, first) = skip_weekend_lem f ws (d + 1) k (omega arith) (rw moved b) in
      (
        r,
        rw weekend found,
        omega arith,
        record {
          from_start = omega (arith, first.from_start);
          is_business = first.is_business;
          skipped = λ x lo hi. elim (dec_le (d + 1) x) [
            | yes after ↦ first.skipped x after hi
            | no before ↦ let same : x ≡ d = omega arith in rw same weekend
          ];
        },
      )
  | inr business ↦ (
    d,
    rw business,
    omega arith,
    record {
      from_start = omega arith;
      is_business = business;
      skipped = λ x lo hi. absurd (omega arith);
    },
  )
]

-- With a weekend that leaves a working day, the search ends within a week, at the first business day
-- after the date: that day is none of the weekend, and every day between is.
pub next_business_day-IsFirstBusinessDay :
    (ws : List ℕ) (d : Date)
    → IsProper ws
    → (r : Date) × (next_business_day d ws ≡ some r)
      × (d < r)
      × (r ≤ d + 7)
      × IsFirstBusinessDay ws (d + 1) r
unfolding next_business_day
next_business_day-IsFirstBusinessDay ws d p =
    let (k, near, business) = business_day_ahead ws (d + 1) p in
    let (r, found, bound, first) = skip_weekend_lem 7 ws (d + 1) k near business in
    (r, found, omega (arith, first.from_start), omega arith, first)
