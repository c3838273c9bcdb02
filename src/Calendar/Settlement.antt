-- ===== src/Calendar/Settlement.antt =====
-- `_expected_settlement_date` (pos/generator.py): it ends, on the business day that is as many
-- business days after the sale as the region settles in.
use mock_sim.Base.{
  ℕ, zero, suc, ◌+◌, ◌-◌, ◌*◌, ◌≤◌, ◌<◌, ◌≡◌, refl, ap, ◌∙◌, inl, inr, true, false, some, List,
  arith, ltb, if◌then◌else◌, Bool-cases, ◌==◌, ◌||◌, not,
}
use native.Mathlib.Decide.{dec_le}
use mock_sim.Calendar.{Date, is_weekend, count_working_days, expected_settlement_date}
use mock_sim.Calendar.NextDay.{IsProper, business_day_ahead}

-- The business days among the `k` days after a date.
abbrev pub business_days : List ℕ → Date → ℕ → ℕ
business_days ws d zero = 0
business_days ws d (suc k) = (if is_weekend ws (d + 1) then 0 else 1) + business_days ws (d + 1) k

-- The loop has added `added` business days: it ends `j` days on, when the count is reached, on a
-- business day if it moved. `k` more weekend days may come first, and then at most six each time.
record Reaches (ws : List ℕ) (days : ℕ) (result : Date) (added : ℕ) (j : ℕ) : Type 0 where
  counted : business_days ws result j + added ≡ days
  on_business : added < days → is_weekend ws (result + j) ≡ false
  at_once : added ≡ days → j ≡ 0

closer :
    (ws : List ℕ) (x k : ℕ)
    → is_weekend ws x ≡ true
    → is_weekend ws (x + k) ≡ false
    → (k' : ℕ) × (k ≡ suc k') × (is_weekend ws (x + 1 + k') ≡ false)
closer ws x zero w b = let e : x + 0 ≡ x = omega arith in cc (w, rw e at b)
closer ws x (suc k) w b = let e : x + 1 + k ≡ x + suc k = omega arith in (k, refl, rw e b)

count_working_days_lem :
    (f : ℕ) (ws : List ℕ) (days result added k : ℕ)
    → IsProper ws
    → added ≤ days
    → is_weekend ws (result + 1 + k) ≡ false
    → 7 * (days - added) + k < f + 6
    → k < 7
    → 0 < f
    → (j : ℕ) × (count_working_days f ws days result added ≡ some (result + j))
      × Reaches ws days result added j
unfolding count_working_days
count_working_days_lem zero ws days result added k p le b fuel kk ff = elim ff [ ]
count_working_days_lem (suc f) ws days result added k p le b fuel kk ff =
    elim (Bool-cases (ltb added days)) [
      | inr done ↦ (
        0,
        rw done (ap some (omega arith)),
        record {
          counted = ground arith;
          on_business = λ h. absurd (ground arith);
          at_once = λ _. refl;
        },
      )
      | inl more ↦ elim (Bool-cases (is_weekend ws (result + 1))) [
        | inl weekend ↦
            let (k', is_k, b') = closer ws (result + 1) k weekend b in
            let (j, found, r) =
              count_working_days_lem f ws days (result + 1) added k' p le b' (omega arith)
                (omega arith) (ground arith) in
            (
              suc j,
              rw (more, weekend) (found ∙ ap some (omega arith)),
              record {
                counted = rw weekend (omega (arith, r.counted));
                on_business = λ h. moved j (r.on_business h);
                at_once = λ e. absurd (ground arith);
              },
            )
        | inr business ↦
            let (k', near, b') = business_day_ahead ws (result + 1 + 1) p in
            let (j, found, r) =
              count_working_days_lem f ws days (result + 1) (added + 1) k' p (ground arith) b'
                (ground arith) near (ground arith) in
            (
              suc j,
              rw (more, business) (found ∙ ap some (omega arith)),
              record {
                counted = rw business (omega (arith, r.counted));
                on_business = λ h. last j business r;
                at_once = λ e. absurd (ground arith);
              },
            )
      ]
    ]
  where
    moved :
        (j : ℕ) → is_weekend ws (result + 1 + j) ≡ false → is_weekend ws (result + suc j) ≡ false
    moved j h = let e : result + suc j ≡ result + 1 + j = omega arith in rw e h

    -- Either the count was reached on this very day, or the rest ends on a business day.
    last :
        (j : ℕ)
        → is_weekend ws (result + 1) ≡ false
        → Reaches ws days (result + 1) (added + 1) j
        → is_weekend ws (result + suc j) ≡ false
    last j business r = elim (dec_le (added + 2) days) [
      | yes further ↦ moved j (r.on_business (omega arith))
      | no reached ↦
          let e : result + suc j ≡ result + 1 =
            omega (arith, r.at_once (omega (arith, r.counted))) in
          rw e business
    ]

-- With a weekend that leaves a working day, the settlement date exists: the days from the sale to it
-- hold exactly as many business days as the region settles in, and it is a business day itself unless
-- it is the day of the sale.
pub expected_settlement_date_lem :
    (sim_date days : ℕ) (ws : List ℕ)
    → IsProper ws
    → (j : ℕ) × (expected_settlement_date sim_date days ws ≡ some (sim_date + j))
      × (business_days ws sim_date j ≡ days)
      × ((days == 0 || not (is_weekend ws (sim_date + j))) ≡ true)
unfolding expected_settlement_date
expected_settlement_date_lem sim_date days ws p =
    let (k, near, b) = business_day_ahead ws (sim_date + 1) p in
    let (j, found, r) =
      count_working_days_lem (7 * days + 1) ws days sim_date 0 k p (omega arith) b (omega arith)
        near (omega arith) in
    (
      j,
      found,
      omega (arith, r.counted),
      elim (Bool-cases (days == 0)) [
        | inl at_once ↦ rw at_once
        | inr later ↦ rw (later, r.on_business (ground arith))
      ],
    )
