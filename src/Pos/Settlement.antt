-- ===== src/Pos/Settlement.antt =====
-- pos/settlement.py: the settlement of the transactions of one merchant that are due on one day. The
-- function has a session of its own; rows that another worker has locked are not modelled, and an
-- id of a batch is the number drawn for its suffix.
pub mod Totals
pub mod Batches
pub mod Chain
mod Tests
use mock_sim.Base.{
  ℕ, Bool, true, false, ◌&&◌, Option, none, some, List, [], ◌∷◌, ◌++◌, map, Text, codes, text_eq,
  is_member, length, first, where_all, any_row, update_where, ◌==◌, if◌then◌else◌,
}
use mock_sim.Base.Int.{ℤ, sum_ℤ}
use mock_sim.Base.Keys.{shares_key}
use mock_sim.Models.{
  MockTenant, Merchant, PosTransaction, SettlementStatus, pending, settled, reversed,
  SettlementBatch, WebhookSubscription, Surface, pos_surface, bank_surface, WebhookFormat,
  per_event, trazmo_settlement, Payload, native_settlement, trazmo_batch, settle_batch_job,
}
use mock_sim.Session.{
  Env, Db, Session, pure, gets, modify, draw_id, visible, ◌>>=◌, ◌>>◌, transaction,
}
use mock_sim.Calendar.{Date, at_hour}
use mock_sim.Outbox.{enqueue}
use mock_sim.Scheduler.{schedule_at}
use mock_sim.Pos.Messages.{
  is_pos, load_subscriptions, is_trazmo, load_tenant, should_deliver, settlement_payload,
  build_settlement_payload, build_trazmo_settlement_payload, present, partner_code_of,
  trazmo_payload,
}

abbrev pub is_pending : SettlementStatus → Bool
is_pending pending = true
is_pending settled = false
is_pending reversed = false

abbrev pub is_date : Date → Option Date → Bool
is_date date none = false
is_date date (some e) = e == date

-- the `where` of the query for the transactions
unfoldable pub is_to_settle : Env → ℕ → Text → Date → PosTransaction → Bool
is_to_settle env tenant merchant_id date t =
    is_pending t.settlement_status
    && (is_date date t.expected_settlement_date
        && (text_eq t.merchant_id merchant_id
            && (t.mock_tenant_id == tenant && visible env t.mock_tenant_id)))

unfoldable pub load_merchant : Env → ℕ → Text → Db → Option Merchant
load_merchant env tenant merchant_id d =
    first
      (λ m.
        visible env m.mock_tenant_id && (text_eq m.id merchant_id && m.mock_tenant_id == tenant))
      d.merchants

-- the totals, and the row of the batch
unfoldable pub new_batch :
    Env → ℕ → ℕ → Text → Date → Merchant → Text → List PosTransaction → SettlementBatch
new_batch env id tenant merchant_id date merchant currency txns = record {
  id = id;
  mock_tenant_id = tenant;
  merchant_id = merchant_id;
  region = merchant.region;
  settlement_date = date;
  txn_count = length txns;
  gross_amount = sum_ℤ (map (λ t. t.amount) txns);
  total_mdr = sum_ℤ (map (λ t. t.mdr) txns);
  total_vat = sum_ℤ (map (λ t. t.vat_on_mdr) txns);
  net_amount = sum_ℤ (map (λ t. t.net_settlement) txns);
  currency = currency;
  created_at = env.wall;
}

abbrev pub mark_settled : ℕ → PosTransaction → PosTransaction
mark_settled batch_id t = record t {
  settlement_status = settled;
  settlement_batch_id = some batch_id;
}

-- The loop's body for one subscription: a trazmo event, a native one, or none.
unfoldable pub enqueue_settled :
    Env
    → ℕ
    → Option MockTenant
    → Merchant
    → SettlementBatch
    → Payload
    → WebhookSubscription
    → Session (Unit {0})
enqueue_settled env tenant tenant_row merchant batch native sub =
    if should_deliver sub (codes "pos.batch.settled")
    then if is_trazmo sub.format
      then elim (trazmo_payload (present merchant.acquirer_merchant_id) (partner_code_of tenant_row)
          batch) [
            | some payload ↦
                enqueue env tenant batch.merchant_id (codes "pos.batch.settled") payload
                  sub.target_url sub.target_secret trazmo_settlement (present sub.trazmo_tenant_id)
                >> pure tt
            | none ↦ pure tt
          ]
      else enqueue env tenant batch.merchant_id (codes "pos.batch.settled") native sub.target_url
          sub.target_secret per_event none
        >> pure tt
    else pure tt

unfoldable pub enqueue_all_settled :
    Env
    → ℕ
    → Option MockTenant
    → Merchant
    → SettlementBatch
    → Payload
    → List WebhookSubscription
    → Session (Unit {0})
enqueue_all_settled env tenant tenant_row merchant batch native [] = pure tt
enqueue_all_settled env tenant tenant_row merchant batch native (sub ∷ subs) =
    enqueue_settled env tenant tenant_row merchant batch native sub
    >> enqueue_all_settled env tenant tenant_row merchant batch native subs

-- the batch and the transactions that go into it
unfoldable pub write_batch : SettlementBatch → List PosTransaction → Session (Unit {0})
write_batch batch txns =
    modify (λ d. record d { batches = d.batches ++ batch ∷ [] })
    >> modify (λ d. record d {
      transactions =
          update_where (shares_key (λ t. t.id) txns) (mark_settled batch.id) d.transactions;
    })

-- the events of the batch
unfoldable pub announce_batch :
    Env
    → ℕ
    → List WebhookSubscription
    → Option MockTenant
    → Merchant
    → SettlementBatch
    → Session (Option SettlementBatch)
announce_batch env tenant subs tenant_row merchant batch = do
  native ← build_settlement_payload env batch merchant
  enqueue_all_settled env tenant tenant_row merchant batch native subs
  pure (some batch)

-- the body once there is a transaction to settle, `t`, and a merchant
unfoldable pub settle_batch :
    Env
    → ℕ
    → Text
    → Date
    → PosTransaction
    → List PosTransaction
    → Merchant
    → Session (Option SettlementBatch)
settle_batch env tenant merchant_id date t ts merchant = do
  subs ← gets (load_subscriptions env tenant)
  tenant_row ← gets (load_tenant tenant subs)
  id ← draw_id env
  let batch = new_batch env id tenant merchant_id date merchant t.currency (t ∷ ts)
  write_batch batch (t ∷ ts)
  announce_batch env tenant subs tenant_row merchant batch

unfoldable pub settle_transactions :
    Env → ℕ → Text → Date → List PosTransaction → Option Merchant → Session (Option SettlementBatch)
settle_transactions env tenant merchant_id date [] merchant = pure none
settle_transactions env tenant merchant_id date (t ∷ ts) none = pure none
settle_transactions env tenant merchant_id date (t ∷ ts) (some merchant) =
    settle_batch env tenant merchant_id date t ts merchant

unfoldable pub settle_merchant_day : Env → ℕ → Text → Date → Session (Option SettlementBatch)
settle_merchant_day env tenant merchant_id date = transaction (do
  txns ← gets (λ d. where_all (is_to_settle env tenant merchant_id date) d.transactions)
  merchant ← gets (load_merchant env tenant merchant_id)
  settle_transactions env tenant merchant_id date txns merchant)

unfoldable pub schedule_settlement : Env → ℕ → Text → Date → Session (Unit {0})
schedule_settlement env tenant merchant_id date =
    schedule_at env (some tenant) (at_hour date 0) (codes "pos.settle_batch")
      (settle_batch_job merchant_id date tenant)
