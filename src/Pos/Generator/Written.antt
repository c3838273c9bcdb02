-- ===== src/Pos/Generator/Written.antt =====
-- A whole day of an active merchant (pos/generator.py, `generate_merchant_day`), over its batches.
use mock_sim.Base.{
  ℕ, zero, suc, ◌+◌, ◌-◌, ◌*◌, ◌≤◌, ◌≡◌, refl, ap, subst, ◌∙◌, Bool, true, false, Option, some,
  List, [], ◌∷◌, ◌++◌, map, All, Text, codes, length, take, drop, if◌then◌else◌, arith,
}
use mathlib.Core.List.{append_assoc}
use mock_sim.Models.{Merchant, PosTransaction, SimSchedulerJob, generate_gmv_job, settle_batch_job}
use mock_sim.Calendar.{Date, at_hour, expected_settlement_date}
use mock_sim.Calendar.Settlement.{expected_settlement_date_lem}
use mock_sim.Session.{Env, Db, Session, ok, pure, ◌>>◌}
use mock_sim.Scheduler.{schedule_at, new_job}
use mock_sim.Pos.Random.{Floats, Random, IsInRange, Truncates}
use mock_sim.Pos.Regions.{PosRegionConfig, get_region}
use mock_sim.Pos.Settlement.{load_merchant, schedule_settlement}
use mock_sim.Pos.Generator.{batch_size, poisson_approx}
use mock_sim.Pos.Generator.Sale.{spread_timestamps}
use mock_sim.Pos.Generator.Picks.{IsServable, get_region-IsServable}
use mock_sim.Pos.Generator.Counts.{IsAscending, IsOpen, spread_timestamps_lem}
use mock_sim.Pos.Generator.Rows.{IsOfPlan, stamp_of, Adds, Adds-nil, Adds-append, write_batch_lem}
use mock_sim.Pos.Generator.Day.{
  Plan, schedule_next_day, schedule_settlement_of, write_batch, write_batches, rounds_of,
  schedule_following, schedule_day_after, weekend_hundredths, write_day, count_day, generate_day,
  generate_of, generate_merchant_day,
}

take-drop : (n : ℕ) (xs : List ℕ) → take n xs ++ drop n xs ≡ xs
take-drop zero xs = refl
take-drop (suc n) [] = refl
take-drop (suc n) (x ∷ xs) = ap (λ l. x ∷ l) (take-drop n xs)

length-drop : (n : ℕ) (xs : List ℕ) → length (drop n xs) ≡ length xs - n
length-drop zero xs = omega arith
length-drop (suc n) [] = omega arith
length-drop (suc n) (x ∷ xs) = omega (arith, length-drop n xs)

length-nil : (xs : List ℕ) → length xs ≤ 0 → xs ≡ []
length-nil [] h = refl
length-nil (x ∷ xs) h = absurd (omega arith)

length-take-drop : (n : ℕ) (xs : List ℕ) → length (take n xs) + length (drop n xs) ≡ length xs
length-take-drop zero xs = omega arith
length-take-drop (suc n) [] = omega arith
length-take-drop (suc n) (x ∷ xs) = omega (arith, length-take-drop n xs)

module _ {F : Type 0} (fl : Floats F) (rng : Random F) (p : Plan) (env : Env) (t : Truncates fl)
    (s : IsServable p.region_cfg) where
  write_batches_lem :
      (rounds : ℕ) (stamps : List ℕ) (n : ℕ) (d : Db)
      → length stamps ≤ rounds * 100
      → ((write_batches fl rng p env rounds stamps n d).0 ≡ ok (length stamps))
        × Adds p stamps d (write_batches fl rng p env rounds stamps n d).1
  unfolding write_batches
  write_batches_lem zero stamps n d h = rw (length-nil stamps (omega arith)) (refl, Adds-nil p d)
  write_batches_lem (suc rounds) stamps n d h =
      let now = take batch_size stamps in
      let later = drop batch_size stamps in
      let (n', one, first) = write_batch_lem fl rng p env t s now n d in
      let d1 = (write_batch fl rng p env now n d).1 in
      let (more, rest) =
        write_batches_lem rounds later n' d1 (omega (arith, length-drop batch_size stamps)) in
      let d2 = (write_batches fl rng p env rounds later n' d1).1 in
      rw (one, more)
        (
          ap (λ (v : ℕ). ok v) (length-take-drop batch_size stamps),
          subst (λ l. Adds p l d d2) (take-drop batch_size stamps)
              (Adds-append p now later d d1 d2 first rest),
        )

rounds_of-enough : (count : ℕ) → count ≤ rounds_of count * 100
unfolding rounds_of
rounds_of-enough count = omega arith

-- The day of a merchant between two states: the rows that it added, and the jobs for the next day and
-- for the settlement.
pub record IsGenerated (p : Plan) (count : ℕ) (d d' : Db) : Type 0 where
  pub rows : List PosTransaction
  pub added : d'.transactions ≡ d.transactions ++ rows
  pub counted : length rows ≡ count
  pub fits : All (IsOfPlan p) rows
  pub ordered : IsAscending (map stamp_of rows)
  pub opened : All (IsOpen p.sim_date) (map stamp_of rows)
  pub next : SimSchedulerJob
  pub settlement : SimSchedulerJob
  pub scheduled : d'.jobs ≡ d.jobs ++ next ∷ settlement ∷ []
  pub next_at : next.fire_at ≡ at_hour (p.sim_date + 1) 0
  pub next_day : next.payload ≡ generate_gmv_job p.merchant_id (p.sim_date + 1) p.tenant
  pub settled_at : settlement.fire_at ≡ at_hour p.settle_date 0
  pub settled_day : settlement.payload ≡ settle_batch_job p.merchant_id p.settle_date p.tenant

abbrev pub plan_of : ℕ → Text → Date → Merchant → PosRegionConfig → Date → Plan
plan_of tenant merchant_id sim_date merchant cfg settle_date = record {
  tenant = tenant;
  merchant_id = merchant_id;
  sim_date = sim_date;
  merchant = merchant;
  region_cfg = cfg;
  settle_date = settle_date;
}

length-map : (rows : List PosTransaction) → length (map stamp_of rows) ≡ length rows
length-map [] = refl
length-map (r ∷ rows) = ap suc (length-map rows)

scheduled-IsGenerated :
    (p : Plan) (env : Env) (stamps : List ℕ) (count : ℕ) (d e : Db)
    → Adds p stamps d e
    → IsAscending stamps × All (IsOpen p.sim_date) stamps × (length stamps ≡ count)
    → ((schedule_day_after true env p e).0 ≡ ok tt)
      × IsGenerated p count d (schedule_day_after true env p e).1
unfolding schedule_day_after schedule_next_day schedule_settlement_of schedule_settlement
    schedule_at at_hour new_job
scheduled-IsGenerated p env stamps count d e a (o, opened, len) =
    let next =
      new_job env (env.draw e.draws) (some p.tenant) (at_hour (p.sim_date + 1) 0)
        (codes "pos.generate_gmv") (generate_gmv_job p.merchant_id (p.sim_date + 1) p.tenant) in
    let settlement =
      new_job env (env.draw (suc e.draws)) (some p.tenant) (at_hour p.settle_date 0)
        (codes "pos.settle_batch") (settle_batch_job p.merchant_id p.settle_date p.tenant) in
    (
      refl,
      record {
        rows = a.rows;
        added = a.added;
        counted = omega (arith, length-map a.rows, ap (λ l. length l) a.stamped, len);
        fits = a.fits;
        ordered = rw a.stamped o;
        opened = rw a.stamped opened;
        next = next;
        settlement = settlement;
        scheduled =
            append_assoc e.jobs (next ∷ []) (settlement ∷ [])
            ∙ ap (λ jobs. jobs ++ next ∷ settlement ∷ []) a.same_jobs;
        next_at = refl;
        next_day = refl;
        settled_at = refl;
        settled_day = refl;
      },
    )

module _ {F : Type 0} (fl : Floats F) (fuel : ℕ) (rng_for : ℕ → Text → Date → Random F) (env : Env)
    (tenant : ℕ) (merchant_id : Text) (sim_date : Date) where
  write_day_lem :
      (merchant : Merchant) (cfg : PosRegionConfig) (k n : ℕ) (d : Db) (settle_date : Date)
      → expected_settlement_date sim_date cfg.settlement_days cfg.weekend_days ≡ some settle_date
      → IsServable cfg
      → IsInRange (rng_for tenant merchant_id sim_date)
      → Truncates fl
      → (d' : Db) × (write_day fl fuel rng_for env tenant merchant_id sim_date true merchant cfg
            (suc k)
            n
            d
          ≡ (ok (some (suc k)), d'))
        × IsGenerated (plan_of tenant merchant_id sim_date merchant cfg settle_date) (suc k) d d'
  unfolding write_day
  write_day_lem merchant cfg k n d settle_date due s r t =
      let rng = rng_for tenant merchant_id sim_date in
      let p = plan_of tenant merchant_id sim_date merchant cfg settle_date in
      let stamps = (spread_timestamps rng sim_date (suc k) n).0 in
      let n' = suc (spread_timestamps rng sim_date (suc k) n).1 in
      let spread = spread_timestamps_lem rng sim_date (suc k) n r in
      let (total, adds) =
        write_batches_lem fl rng p env t s (rounds_of (suc k)) stamps n' d
          (rw spread.2 (rounds_of-enough (suc k))) in
      let e = (write_batches fl rng p env (rounds_of (suc k)) stamps n' d).1 in
      let (ended, generated) = scheduled-IsGenerated p env stamps (suc k) d e adds spread in
      (
        (schedule_day_after true env p e).1,
        (rw (due, total)
            (rw ended (ap (λ c. (ok (some c), (schedule_day_after true env p e).1)) spread.2))),
        generated,
      )

  if_true : (b : Bool) (x y : Session (Option ℕ)) (d : Db) → b ≡ true → (if b then x else y) d ≡ x d
  if_true true x y d h = refl
  if_true false x y d h = cc h

  generate_of-active :
      (merchant : Merchant) (d : Db)
      → merchant.is_active ≡ true
      → generate_of fl fuel rng_for env tenant merchant_id sim_date true (some merchant) d
        ≡ generate_day fl fuel rng_for env tenant merchant_id sim_date true merchant d
  unfolding generate_of
  generate_of-active merchant d active =
      if_true merchant.is_active
        (generate_day fl fuel rng_for env tenant merchant_id sim_date true merchant)
        (schedule_following true env tenant merchant_id sim_date >> pure (some 0)) d active

  -- The day of an active merchant of a known region, whose count of transactions comes out as some
  -- positive number, with a generator that keeps within the bounds it is given: exactly so many rows
  -- are added, in the order of their times, all within the hours of business of the day. Each is
  -- pending, is due on the settlement date of the day, has a network of the region, and an amount of
  -- at least 1 and at most ten times the usual ticket, or 1 where that is less. Then the next day's
  -- job and the settlement's are scheduled.
  pub generate_merchant_day-IsGenerated :
      (merchant : Merchant) (cfg : PosRegionConfig) (k n : ℕ) (d : Db)
      → load_merchant env tenant merchant_id d ≡ some merchant
      → merchant.is_active ≡ true
      → get_region merchant.region ≡ ok cfg
      → poisson_approx fl
          (rng_for tenant merchant_id sim_date)
          fuel
          (fl.mul
            (fl.of_nat merchant.expected_daily_txns)
            (fl.hundredths (weekend_hundredths cfg sim_date)))
          0
        ≡ (some (suc k), n)
      → IsInRange (rng_for tenant merchant_id sim_date)
      → Truncates fl
      → (settle_date : Date) × (d' : Db) × (expected_settlement_date sim_date cfg.settlement_days
            cfg.weekend_days
          ≡ some settle_date)
        × (generate_merchant_day fl fuel rng_for env tenant merchant_id sim_date true d
            ≡ (ok (some (suc k)), d'))
        × IsGenerated (plan_of tenant merchant_id sim_date merchant cfg settle_date) (suc k) d d'
  unfolding generate_merchant_day generate_day count_day
  generate_merchant_day-IsGenerated merchant cfg k n d loaded active region counted r t =
      let s = get_region-IsServable merchant.region cfg region in
      let (j, due, _, _) =
        expected_settlement_date_lem sim_date cfg.settlement_days cfg.weekend_days s.proper in
      let (d', run, generated) = write_day_lem merchant cfg k n d (sim_date + j) due s r t in
      (
        sim_date + j,
        d',
        due,
        (rw loaded (generate_of-active merchant d active ∙ (rw (region, counted) run))),
        generated,
      )
