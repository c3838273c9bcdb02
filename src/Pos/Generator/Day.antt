-- ===== src/Pos/Generator/Day.antt =====
-- pos/generator.py: `generate_merchant_day` and the scheduling of the jobs that follow it. The queries
-- for the merchant and the subscriptions are those of pos/settlement.py. `none` is returned where the
-- fuel of the Poisson loop ran out.
use mock_sim.Base.{
  ℕ, zero, suc, ◌+◌, ◌-◌, ◌/◌, Bool, Option, none, some, List, [], ◌∷◌, ◌++◌, Text, codes, length,
  take, drop, if◌then◌else◌,
}
use mock_sim.Errors.{python_error}
use mock_sim.Models.{Merchant, WebhookSubscription, Payload, per_event, generate_gmv_job}
use mock_sim.Calendar.{Date, at_hour, isoweekday, is_in, expected_settlement_date}
use mock_sim.Session.{
  Env, Session, pure, gets, lift, or_raise, modify, draw_id, ◌>>=◌, ◌>>◌, transaction,
}
use mock_sim.Outbox.{enqueue}
use mock_sim.Scheduler.{schedule_at}
use mock_sim.Pos.Random.{Floats, Random}
use mock_sim.Pos.Regions.{PosRegionConfig, get_region}
use mock_sim.Pos.Settlement.{load_merchant, schedule_settlement}
use mock_sim.Pos.Messages.{load_subscriptions, should_deliver}
use mock_sim.Pos.Generator.{batch_size, poisson_approx}
use mock_sim.Pos.Generator.Sale.{
  draw_sale, new_transaction, spread_timestamps, build_webhook_payload,
}

-- `_schedule_next_day`
unfoldable pub schedule_next_day : Env → ℕ → Text → Date → Session (Unit {0})
schedule_next_day env tenant merchant_id current_sim_date =
    let next_date = current_sim_date + 1 in
    transaction (
      schedule_at env (some tenant) (at_hour next_date 0) (codes "pos.generate_gmv")
        (generate_gmv_job merchant_id next_date tenant))

-- `schedule_initial_generation`, in the caller's session
unfoldable pub schedule_initial_generation : Env → ℕ → Text → Date → Session (Unit {0})
schedule_initial_generation env tenant merchant_id first_sim_date =
    schedule_at env (some tenant) (at_hour first_sim_date 0) (codes "pos.generate_gmv")
      (generate_gmv_job merchant_id first_sim_date tenant)

-- `_schedule_settlement`
unfoldable pub schedule_settlement_of : Env → ℕ → Text → Date → Session (Unit {0})
schedule_settlement_of env tenant merchant_id settlement_date =
    transaction (schedule_settlement env tenant merchant_id settlement_date)

-- The events of one transaction.
unfoldable pub enqueue_sale :
    Env → ℕ → Text → Payload → List WebhookSubscription → Session (Unit {0})
enqueue_sale env tenant merchant_id payload [] = pure tt
enqueue_sale env tenant merchant_id payload (sub ∷ subs) =
    (if should_deliver sub (codes "pos.transaction.authorized")
      then (enqueue env tenant merchant_id (codes "pos.transaction.authorized") payload
            sub.target_url sub.target_secret per_event none
          >> pure tt)
      else pure tt)
    >> enqueue_sale env tenant merchant_id payload subs

-- What the day of one merchant is made of.
pub record Plan : Type 0 where
  pub tenant : ℕ
  pub merchant_id : Text
  pub sim_date : Date
  pub merchant : Merchant
  pub region_cfg : PosRegionConfig
  pub settle_date : Date

module _ {F : Type 0} (fl : Floats F) (rng : Random F) (p : Plan) (env : Env) where
  -- One transaction: its draws from position n, its row and its events. The position goes on.
  unfoldable pub write_sale : List WebhookSubscription → ℕ → ℕ → Session ℕ
  write_sale subs ts n = do
    let (sale, n') = draw_sale fl rng p.merchant p.region_cfg p.sim_date n
    id ← draw_id env
    let txn =
        new_transaction fl p.merchant p.region_cfg p.tenant p.merchant_id p.sim_date p.settle_date
          env.wall ts id sale
    modify (λ d. record d { transactions = d.transactions ++ txn ∷ [] })
    enqueue_sale env p.tenant p.merchant_id (build_webhook_payload txn p.merchant) subs
    pure n'

  unfoldable pub write_sales : List WebhookSubscription → List ℕ → ℕ → Session ℕ
  write_sales subs [] n = pure n
  write_sales subs (ts ∷ rest) n = do n' ← write_sale subs ts n; write_sales subs rest n'

  -- One batch, in a transaction of its own.
  unfoldable pub write_batch : List ℕ → ℕ → Session ℕ
  write_batch batch_ts n =
      transaction (do subs ← gets (load_subscriptions env p.tenant); write_sales subs batch_ts n)

  -- The loop over `range(0, txn_count, _BATCH_SIZE)`, by the rounds left: how many rows it writes.
  unfoldable pub write_batches : ℕ → List ℕ → ℕ → Session ℕ
  write_batches zero timestamps n = pure 0
  write_batches (suc rounds) timestamps n = do
    n' ← write_batch (take batch_size timestamps) n
    total ← write_batches rounds (drop batch_size timestamps) n'
    pure (length (take batch_size timestamps) + total)

unfoldable pub rounds_of : ℕ → ℕ
rounds_of txn_count = (txn_count + (batch_size - 1)) / batch_size

-- What follows a day, if the next is to be scheduled.
unfoldable pub schedule_following : Bool → Env → ℕ → Text → Date → Session (Unit {0})
schedule_following schedule_next env tenant merchant_id sim_date =
    if schedule_next then schedule_next_day env tenant merchant_id sim_date else pure tt

unfoldable pub schedule_day_after : Bool → Env → Plan → Session (Unit {0})
schedule_day_after schedule_next env p =
    if schedule_next
    then (schedule_next_day env p.tenant p.merchant_id p.sim_date
        >> schedule_settlement_of env p.tenant p.merchant_id p.settle_date)
    else pure tt

abbrev pub weekend_hundredths : PosRegionConfig → Date → ℕ
weekend_hundredths cfg sim_date = if is_in (isoweekday sim_date) cfg.weekend_days then 60 else 100

module _ {F : Type 0} (fl : Floats F) (fuel : ℕ) (rng_for : ℕ → Text → Date → Random F) (env : Env)
    (tenant : ℕ) (merchant_id : Text) (sim_date : Date) (schedule_next : Bool) where
  -- The day, from the count of its transactions on; n is the position behind the draws of the count.
  -- The walk over the business days has fuel enough.
  unfoldable pub write_day : Merchant → PosRegionConfig → ℕ → ℕ → Session (Option ℕ)
  write_day merchant cfg zero n = do
    schedule_following schedule_next env tenant merchant_id sim_date
    pure (some 0)
  write_day merchant cfg (suc k) n = do
    let rng = rng_for tenant merchant_id sim_date
    let (timestamps, n') = spread_timestamps rng sim_date (suc k) n
    settle_date ←
        or_raise (expected_settlement_date sim_date cfg.settlement_days cfg.weekend_days)
          python_error
    let p : Plan = record {
      tenant = tenant;
      merchant_id = merchant_id;
      sim_date = sim_date;
      merchant = merchant;
      region_cfg = cfg;
      settle_date = settle_date;
    }
    total ← write_batches fl rng p env (rounds_of (suc k)) timestamps (suc n')
    schedule_day_after schedule_next env p
    pure (some total)

  unfoldable pub count_day : Merchant → PosRegionConfig → Option ℕ × ℕ → Session (Option ℕ)
  count_day merchant cfg (none, n) = pure none
  count_day merchant cfg (some count, n) = write_day merchant cfg count n

  -- An active merchant's day.
  unfoldable pub generate_day : Merchant → Session (Option ℕ)
  generate_day merchant = do
    cfg ← lift (get_region merchant.region)
    let lam =
        fl.mul (fl.of_nat merchant.expected_daily_txns)
          (fl.hundredths (weekend_hundredths cfg sim_date))
    count_day merchant cfg (poisson_approx fl (rng_for tenant merchant_id sim_date) fuel lam 0)

  unfoldable pub generate_of : Option Merchant → Session (Option ℕ)
  generate_of none = pure (some 0)
  generate_of (some merchant) =
      if merchant.is_active
      then generate_day merchant
      else (schedule_following schedule_next env tenant merchant_id sim_date >> pure (some 0))

  -- `generate_merchant_day`
  unfoldable pub generate_merchant_day : Session (Option ℕ)
  generate_merchant_day = do
    merchant ← gets (load_merchant env tenant merchant_id)
    generate_of merchant
