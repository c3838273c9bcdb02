-- ===== src/Pos/Messages.antt =====
-- pos/settlement.py: the subscriptions to a settlement, and the payloads of its events.
use mock_sim.Base.{
  ℕ, Bool, true, false, ◌&&◌, Option, none, some, List, [], ◌∷◌, Text, is_member, first, where_all,
  any_row, ◌==◌, if◌then◌else◌,
}
use mock_sim.Models.{
  MockTenant, Merchant, SettlementBatch, WebhookSubscription, Surface, pos_surface, bank_surface,
  WebhookFormat, per_event, trazmo_settlement, Payload, native_settlement, trazmo_batch,
}
use mock_sim.Session.{Env, Db, Session, pure, draw_id, visible, ◌>>=◌}

-- `_load_subscriptions`
abbrev pub is_pos : Surface → Bool
is_pos pos_surface = true
is_pos bank_surface = false

unfoldable pub load_subscriptions : Env → ℕ → Db → List WebhookSubscription
load_subscriptions env tenant d =
    where_all
      (λ s.
        visible env s.mock_tenant_id
        && (s.mock_tenant_id == tenant && (is_pos s.surface && s.is_active)))
      d.subscriptions

abbrev pub is_trazmo : WebhookFormat → Bool
is_trazmo trazmo_settlement = true
is_trazmo per_event = false

-- the tenant's row, which is loaded only for a subscription of the trazmo format
unfoldable pub load_tenant : ℕ → List WebhookSubscription → Db → Option MockTenant
load_tenant tenant subs d =
    if any_row (λ s. is_trazmo s.format) subs then first (λ t. t.id == tenant) d.tenants else none

-- `_should_deliver`
unfoldable pub should_deliver : WebhookSubscription → Text → Bool
should_deliver sub event_type = elim sub.event_types [
  | [] ↦ true
  | t ∷ ts ↦ is_member event_type (t ∷ ts)
]

-- `_build_settlement_payload`; the fields that repeat the batch's are left out
unfoldable pub settlement_payload : ℕ → SettlementBatch → Merchant → Payload
settlement_payload notification_id batch merchant = native_settlement (record {
  notification_id = notification_id;
  batch_id = batch.id;
  merchant_id = batch.merchant_id;
  merchant_name = merchant.name;
  settlement_date = batch.settlement_date;
  txn_count = batch.txn_count;
  gross_amount = batch.gross_amount;
  total_mdr = batch.total_mdr;
  total_vat = batch.total_vat;
  net_amount = batch.net_amount;
  currency = batch.currency;
})

unfoldable pub build_settlement_payload : Env → SettlementBatch → Merchant → Session Payload
build_settlement_payload env batch merchant = do
  notification_id ← draw_id env
  pure (settlement_payload notification_id batch merchant)

-- `_build_trazmo_settlement_payload`, as it is called
unfoldable pub build_trazmo_settlement_payload : Text → Text → SettlementBatch → Payload
build_trazmo_settlement_payload partner_code acquirer_merchant_id batch = trazmo_batch (record {
  partner_code = partner_code;
  acquirer_merchant_id = acquirer_merchant_id;
  settlement_date = batch.settlement_date;
  gross_amount_minor = batch.gross_amount;
  currency_code = batch.currency;
  net_amount_minor = batch.net_amount;
  transaction_count = batch.txn_count;
})

-- A text that is there and not empty.
abbrev pub present : Option Text → Option Text
present none = none
present (some []) = none
present (some (c ∷ s)) = some (c ∷ s)

-- What the partner is known by, if the tenant's row has it.
abbrev pub partner_code_of : Option MockTenant → Option Text
partner_code_of none = none
partner_code_of (some t) = present t.partner_code

-- The payload of the trazmo format, which needs both names.
unfoldable pub trazmo_payload : Option Text → Option Text → SettlementBatch → Option Payload
trazmo_payload (some acquirer) (some partner) batch =
    some (build_trazmo_settlement_payload partner acquirer batch)
trazmo_payload (some acquirer) none batch = none
trazmo_payload none partner batch = none
