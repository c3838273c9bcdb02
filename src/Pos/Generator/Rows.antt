-- ===== src/Pos/Generator/Rows.antt =====
-- What a day of a merchant writes (pos/generator.py, `generate_merchant_day`).
use mock_sim.Base.{
  ℕ, suc, ◌*◌, ◌≤◌, ◌≡◌, refl, ap, sym, ◌∙◌, inl, inr, true, some, List, [], ◌∷◌, ◌++◌, map, All,
  Text, codes, is_member, max, Bool-cases,
}
use mathlib.Core.List.{append-nil, append_assoc, map-append}
use mock_sim.Base.Int.{pos_part}
use mock_sim.Models.{PosTransaction, WebhookSubscription, Payload}
use mock_sim.Session.{Env, Db, ok}
use mock_sim.Outbox.{enqueue}
use mock_sim.Pos.Random.{Floats, Random, Truncates}
use mock_sim.Pos.Settlement.{is_pending}
use mock_sim.Pos.Messages.{should_deliver, load_subscriptions}
use mock_sim.Pos.Generator.Sale.{draw_sale, new_transaction, build_webhook_payload}
use mock_sim.Pos.Generator.Picks.{IsServable, pick_card_network-member}
use mock_sim.Pos.Generator.Counts.{lognormal_amount_bounds}
use mock_sim.Pos.Generator.Day.{Plan, enqueue_sale, write_sale, write_sales, write_batch}

-- A row of the day that a plan is for: pending, due at the plan's date, by a network of the region, and
-- of an amount within ten times the usual ticket.
pub record IsOfPlan (p : Plan) (t : PosTransaction) : Type 0 where
  pub of_tenant : t.mock_tenant_id ≡ p.tenant
  pub of_merchant : t.merchant_id ≡ p.merchant_id
  pub on_day : t.sim_date ≡ p.sim_date
  pub due : t.expected_settlement_date ≡ some p.settle_date
  pub unsettled : is_pending t.settlement_status ≡ true
  pub network : is_member t.card_network p.region_cfg.card_networks ≡ true
  pub at_least : 1 ≤ pos_part t.amount
  pub at_most : pos_part t.amount ≤ max 1 (10 * pos_part p.merchant.avg_ticket_minor_units)

abbrev pub stamp_of : PosTransaction → ℕ
stamp_of t = t.event_timestamp

-- What a session has written: these rows, and no job.
pub record Adds (p : Plan) (stamps : List ℕ) (d d' : Db) : Type 0 where
  pub rows : List PosTransaction
  pub added : d'.transactions ≡ d.transactions ++ rows
  pub stamped : map stamp_of rows ≡ stamps
  pub fits : All (IsOfPlan p) rows
  pub same_jobs : d'.jobs ≡ d.jobs

All-append :
    (P : PosTransaction → Type 0) (xs ys : List PosTransaction)
    → All P xs
    → All P ys
    → All P (xs ++ ys)
All-append P [] ys a b = b
All-append P (x ∷ xs) ys a b = (a.0, All-append P xs ys a.1 b)

pub Adds-nil : (p : Plan) (d : Db) → Adds p [] d d
Adds-nil p d = record {
  rows = [];
  added = sym (append-nil d.transactions);
  stamped = refl;
  fits = tt;
  same_jobs = refl;
}

pub Adds-append :
    (p : Plan) (s t : List ℕ) (d e f : Db) → Adds p s d e → Adds p t e f → Adds p (s ++ t) d f
Adds-append p s t d e f a b = record {
  rows = a.rows ++ b.rows;
  added = b.added ∙ ap (λ rows. rows ++ b.rows) a.added ∙ append_assoc d.transactions a.rows b.rows;
  stamped = rw (map-append, a.stamped, b.stamped) refl;
  fits = All-append (IsOfPlan p) a.rows b.rows a.fits b.fits;
  same_jobs = b.same_jobs ∙ a.same_jobs;
}

enqueue_sale_lem :
    (env : Env) (tenant : ℕ) (merchant_id : Text) (payload : Payload)
    (subs : List WebhookSubscription) (d : Db)
    → ((enqueue_sale env tenant merchant_id payload subs d).0 ≡ ok tt)
      × ((enqueue_sale env tenant merchant_id payload subs d).1.transactions ≡ d.transactions)
      × ((enqueue_sale env tenant merchant_id payload subs d).1.jobs ≡ d.jobs)
unfolding enqueue_sale enqueue
enqueue_sale_lem env tenant merchant_id payload [] d = (refl, refl, refl)
enqueue_sale_lem env tenant merchant_id payload (sub ∷ subs) d =
    elim (Bool-cases (should_deliver sub (codes "pos.transaction.authorized"))) [
      | inl wanted ↦ rw wanted (enqueue_sale_lem env tenant merchant_id payload subs _)
      | inr not_wanted ↦ rw not_wanted (enqueue_sale_lem env tenant merchant_id payload subs d)
    ]

module _ {F : Type 0} (fl : Floats F) (rng : Random F) (p : Plan) (env : Env) (t : Truncates fl)
    (s : IsServable p.region_cfg) where
  draw_sale_lem :
      (n : ℕ)
      → (is_member
            (draw_sale fl rng p.merchant p.region_cfg p.sim_date n).0.network
            p.region_cfg.card_networks
          ≡ true)
        × (1 ≤ (draw_sale fl rng p.merchant p.region_cfg p.sim_date n).0.amount)
        × ((draw_sale fl rng p.merchant p.region_cfg p.sim_date n).0.amount
            ≤ max 1 (10 * pos_part p.merchant.avg_ticket_minor_units))
  unfolding draw_sale
  draw_sale_lem n =
      let (low, high) = lognormal_amount_bounds fl rng p.merchant.avg_ticket_minor_units n t in
      (pick_card_network-member fl rng p.region_cfg _ s, low, high)

  new_transaction-IsOfPlan :
      (ts id n : ℕ)
      → IsOfPlan p (
          new_transaction fl p.merchant p.region_cfg p.tenant p.merchant_id p.sim_date p.settle_date
            env.wall ts id
            (draw_sale fl rng p.merchant p.region_cfg p.sim_date n).0)
  unfolding new_transaction
  new_transaction-IsOfPlan ts id n =
      let (network, low, high) = draw_sale_lem n in
      record {
        of_tenant = refl;
        of_merchant = refl;
        on_day = refl;
        due = refl;
        unsettled = refl;
        network = network;
        at_least = low;
        at_most = high;
      }

  -- The row of one sale.
  abbrev txn_of : ℕ → ℕ → ℕ → PosTransaction
  txn_of ts id n =
      new_transaction fl p.merchant p.region_cfg p.tenant p.merchant_id p.sim_date p.settle_date
        env.wall ts id (draw_sale fl rng p.merchant p.region_cfg p.sim_date n).0

  new_transaction-stamp : (ts id n : ℕ) → (txn_of ts id n).event_timestamp ≡ ts
  unfolding new_transaction
  new_transaction-stamp ts id n = refl

  write_sale_lem :
      (subs : List WebhookSubscription) (ts n : ℕ) (d : Db)
      → (n' : ℕ) × ((write_sale fl rng p env subs ts n d).0 ≡ ok n')
        × Adds p (ts ∷ []) d (write_sale fl rng p env subs ts n d).1
  unfolding write_sale
  write_sale_lem subs ts n d =
      let txn = txn_of ts (env.draw d.draws) n in
      let d1 : Db = record d { draws = suc d.draws; transactions = d.transactions ++ txn ∷ [] } in
      let (returned, same, jobs) =
        enqueue_sale_lem env p.tenant p.merchant_id (build_webhook_payload txn p.merchant) subs
          d1 in
      rw returned (
        (draw_sale fl rng p.merchant p.region_cfg p.sim_date n).1,
        refl,
        record {
          rows = txn ∷ [];
          added = same;
          stamped = ap (λ x. x ∷ []) (new_transaction-stamp ts (env.draw d.draws) n);
          fits = (new_transaction-IsOfPlan ts (env.draw d.draws) n, tt);
          same_jobs = jobs;
        },
      )

  write_sales_lem :
      (subs : List WebhookSubscription) (stamps : List ℕ) (n : ℕ) (d : Db)
      → (n' : ℕ) × ((write_sales fl rng p env subs stamps n d).0 ≡ ok n')
        × Adds p stamps d (write_sales fl rng p env subs stamps n d).1
  unfolding write_sales
  write_sales_lem subs [] n d = (n, refl, Adds-nil p d)
  write_sales_lem subs (ts ∷ rest) n d =
      let (n1, one, first) = write_sale_lem subs ts n d in
      let (n2, more, others) =
        write_sales_lem subs rest n1 (write_sale fl rng p env subs ts n d).1 in
      rw one (n2, more, Adds-append p (ts ∷ []) rest d _ _ first others)

  pub write_batch_lem :
      (stamps : List ℕ) (n : ℕ) (d : Db)
      → (n' : ℕ) × ((write_batch fl rng p env stamps n d).0 ≡ ok n')
        × Adds p stamps d (write_batch fl rng p env stamps n d).1
  unfolding write_batch
  write_batch_lem stamps n d =
      let (n', returned, a) = write_sales_lem (load_subscriptions env p.tenant d) stamps n d in
      rw returned (
        n',
        refl,
        record {
          rows = a.rows;
          added = a.added;
          stamped = a.stamped;
          fits = a.fits;
          same_jobs = a.same_jobs;
        },
      )
