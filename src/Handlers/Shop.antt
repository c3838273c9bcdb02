-- ===== src/Handlers/Shop.antt =====
-- The job handlers of a settlement (pos/settlement.py) and of a merchant's day (pos/generator.py) lose no
-- job.
use mock_sim.Base.{
  sym, subst, ℕ, zero, suc, Option, none, some, true, List, [], ◌∷◌, Text, codes, if◌then◌else◌,
}
use mock_sim.Models.{
  WebhookSubscription, per_event, Payload, Merchant, MockTenant, PosTransaction, SettlementBatch,
}
use mock_sim.Session.{Env, pure, ◌>>◌}
use mock_sim.Session.Quiet.{Quiet, Quiet-pure, Quiet-if, Quiet-bind, quiet_rules}
use mock_sim.Calendar.{Date}
use mock_sim.Outbox.{enqueue}
use mock_sim.Scheduler.Extends.{Extends, Extends-refl}
use mock_sim.Bank.Payments.Quiet.{enqueue-Quiet}
use mock_sim.Pos.Random.{Floats, Random}
use mock_sim.Pos.Regions.{PosRegionConfig}
use mock_sim.Pos.Settlement.{
  schedule_settlement, announce_batch, settle_batch, settle_transactions, settle_merchant_day,
}
use mock_sim.Pos.Messages.{should_deliver}
use mock_sim.Pos.Settlement.Totals.{announce_batch_lem}
use mock_sim.Pos.Generator.Day.{
  Plan, enqueue_sale, write_sale, write_sales, write_batch, write_batches, write_day, count_day,
  generate_day, generate_of, generate_merchant_day, schedule_following, schedule_day_after,
  schedule_next_day, schedule_settlement_of,
}
use mock_sim.Handlers.Rules.{ExtendsJobs, jobs_rules, Quiet-ExtendsJobs, ExtendsJobs-if}

module _ (env : Env) (tenant : ℕ) where
  announce_batch-ExtendsJobs :
      (subs : List WebhookSubscription) (tenant_row : Option MockTenant) (merchant : Merchant)
      (batch : SettlementBatch)
      → ExtendsJobs (announce_batch env tenant subs tenant_row merchant batch)
  announce_batch-ExtendsJobs subs tenant_row merchant batch = record {
    at = λ d.
        subst (Extends d.jobs)
          (sym (announce_batch_lem env tenant subs tenant_row merchant batch d).1.2)
          (Extends-refl d.jobs);
  }

  settle_transactions-ExtendsJobs :
      (merchant_id : Text) (date : Date) (txns : List PosTransaction) (merchant : Option Merchant)
      → ExtendsJobs (settle_transactions env tenant merchant_id date txns merchant)
  unfolding settle_transactions settle_batch mock_sim.Pos.Settlement.write_batch
  settle_transactions-ExtendsJobs merchant_id date [] merchant = search jobs_rules
  settle_transactions-ExtendsJobs merchant_id date (t ∷ ts) none = search jobs_rules
  settle_transactions-ExtendsJobs merchant_id date (t ∷ ts) (some m) =
      search (jobs_rules, announce_batch-ExtendsJobs) depth 20

  pub settle_merchant_day-ExtendsJobs :
      (merchant_id : Text) (date : Date)
      → ExtendsJobs (settle_merchant_day env tenant merchant_id date)
  unfolding settle_merchant_day
  settle_merchant_day-ExtendsJobs merchant_id date =
      search (jobs_rules, settle_transactions-ExtendsJobs)

  enqueue_sale-Quiet :
      (merchant_id : Text) (payload : Payload) (subs : List WebhookSubscription)
      → Quiet (enqueue_sale env tenant merchant_id payload subs)
  unfolding enqueue_sale
  enqueue_sale-Quiet merchant_id payload [] = Quiet-pure tt
  enqueue_sale-Quiet merchant_id payload (sub ∷ subs) =
      let wanted = should_deliver sub (codes "pos.transaction.authorized") in
      let event =
        enqueue env tenant merchant_id (codes "pos.transaction.authorized") payload sub.target_url
          sub.target_secret per_event none in
      Quiet-bind (if wanted then event >> pure tt else pure tt)
        (λ _. enqueue_sale env tenant merchant_id payload subs)
        (Quiet-if wanted (event >> pure tt) (pure tt) (search (quiet_rules, enqueue-Quiet))
          (Quiet-pure tt))
        (λ _. enqueue_sale-Quiet merchant_id payload subs)

module _ {F : Type 0} (fl : Floats F) (rng : Random F) (p : Plan) (env : Env) where
  write_sale-ExtendsJobs :
      (subs : List WebhookSubscription) (ts n : ℕ) → ExtendsJobs (write_sale fl rng p env subs ts n)
  unfolding write_sale
  write_sale-ExtendsJobs subs ts n =
      search (jobs_rules, Quiet-ExtendsJobs, enqueue_sale-Quiet) depth 20

  write_sales-ExtendsJobs :
      (subs : List WebhookSubscription) (stamps : List ℕ) (n : ℕ)
      → ExtendsJobs (write_sales fl rng p env subs stamps n)
  unfolding write_sales
  write_sales-ExtendsJobs subs [] n = search jobs_rules
  write_sales-ExtendsJobs subs (ts ∷ rest) n =
      let later = write_sales-ExtendsJobs subs rest in
      search (jobs_rules, write_sale-ExtendsJobs, later)

  write_batches-ExtendsJobs :
      (rounds : ℕ) (stamps : List ℕ) (n : ℕ)
      → ExtendsJobs (write_batches fl rng p env rounds stamps n)
  unfolding write_batches write_batch
  write_batches-ExtendsJobs zero stamps n = search jobs_rules
  write_batches-ExtendsJobs (suc rounds) stamps n =
      let later = write_batches-ExtendsJobs rounds in
      search (jobs_rules, write_sales-ExtendsJobs, later) depth 12

module _ {F : Type 0} (fl : Floats F) (fuel : ℕ) (rng_for : ℕ → Text → Date → Random F) (env : Env)
    (tenant : ℕ) (merchant_id : Text) (sim_date : Date) where
  write_day-ExtendsJobs :
      (m : Merchant) (cfg : PosRegionConfig) (count n : ℕ)
      → ExtendsJobs (write_day fl fuel rng_for env tenant merchant_id sim_date true m cfg count n)
  unfolding write_day schedule_following schedule_day_after schedule_next_day schedule_settlement_of
      schedule_settlement
  write_day-ExtendsJobs m cfg zero n = search jobs_rules
  write_day-ExtendsJobs m cfg (suc k) n = search (jobs_rules, write_batches-ExtendsJobs) depth 20

  count_day-ExtendsJobs :
      (m : Merchant) (cfg : PosRegionConfig) (counted : Option ℕ × ℕ)
      → ExtendsJobs (count_day fl fuel rng_for env tenant merchant_id sim_date true m cfg counted)
  unfolding count_day
  count_day-ExtendsJobs m cfg (none, n) = search jobs_rules
  count_day-ExtendsJobs m cfg (some count, n) = write_day-ExtendsJobs m cfg count n

  generate_of-ExtendsJobs :
      (merchant : Option Merchant)
      → ExtendsJobs (generate_of fl fuel rng_for env tenant merchant_id sim_date true merchant)
  unfolding generate_of generate_day schedule_following schedule_next_day
  generate_of-ExtendsJobs none = search jobs_rules
  generate_of-ExtendsJobs (some m) =
      ExtendsJobs-if m.is_active
        (generate_day fl fuel rng_for env tenant merchant_id sim_date true m)
        (schedule_next_day env tenant merchant_id sim_date >> pure (some 0))
        (search (jobs_rules, count_day-ExtendsJobs)) (search jobs_rules)

  pub generate_merchant_day-ExtendsJobs :
      ExtendsJobs (generate_merchant_day fl fuel rng_for env tenant merchant_id sim_date true)
  unfolding generate_merchant_day
  generate_merchant_day-ExtendsJobs = search (jobs_rules, generate_of-ExtendsJobs)
