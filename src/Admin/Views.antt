-- ===== src/Admin/Views.antt =====
-- admin/api.py: the views of the whole database, and its statistics. A listing takes its rows from the
-- latest; the order of rows of one time is that of the table.
use mock_sim.Base.{
  ℕ, min, Bool, true, false, ◌&&◌, Option, none, some, List, map, length, take, Text, text_eq,
  where_all, ◌==◌, codes,
}
use mock_sim.Base.Int.{ℤ}
use mock_sim.Models.{MockTenant, WebhookOutbox, OutboxStatus, AccountEntry, CreditDebit}
use mock_sim.Session.{Env, Session, gets}
use mock_sim.Paging.{latest_first, earliest_first}
use mock_sim.Pos.Messages.{present}

pub record TenantItem : Type 0 where
  pub id : ℕ
  pub name : Text
  pub partner_code : Option Text
  pub created_at : ℕ

abbrev pub tenant_item : MockTenant → TenantItem
tenant_item t = record {
  id = t.id;
  name = t.name;
  partner_code = t.partner_code;
  created_at = t.created_at;
}

unfoldable pub list_tenants : Session (List TenantItem)
list_tenants =
    gets (λ d. map tenant_item (earliest_first (λ (t : MockTenant). t.created_at) d.tenants))

abbrev pub outbox_status_text : OutboxStatus → Text
outbox_status_text OutboxStatus.pending = codes "pending"
outbox_status_text OutboxStatus.in_flight = codes "in_flight"
outbox_status_text OutboxStatus.delivered = codes "delivered"
outbox_status_text OutboxStatus.retrying = codes "retrying"
outbox_status_text OutboxStatus.dead_letter = codes "dead_letter"

pub record OutboxItem : Type 0 where
  pub event_id : ℕ
  pub event_type : Text
  pub partition_key : Text
  pub status : OutboxStatus
  pub attempt_count : ℕ
  pub target_url : Text
  pub last_error : Option Text
  pub created_at : ℕ
  pub delivered_at : Option ℕ
  pub next_attempt_at : Option ℕ

abbrev pub outbox_item : WebhookOutbox → OutboxItem
outbox_item r = record {
  event_id = r.event_id;
  event_type = r.event_type;
  partition_key = r.partition_key;
  status = r.status;
  attempt_count = r.attempt_count;
  target_url = r.target_url;
  last_error = r.last_error;
  created_at = r.created_at;
  delivered_at = r.delivered_at;
  next_attempt_at = r.next_attempt_at;
}

-- A filter that is given and not empty.
abbrev pub is_text : Option Text → Text → Bool
is_text none t = true
is_text (some wanted) t = text_eq t wanted

-- With a limit that is not negative, here and for the ledger.
unfoldable pub list_outbox : Option Text → ℕ → Session (List OutboxItem)
list_outbox status limit = gets (λ d. map outbox_item (
    take (min limit 500) (
      latest_first (λ (r : WebhookOutbox). r.created_at)
        (where_all (λ r. is_text (present status) (outbox_status_text r.status)) d.outbox))))

pub record EntryItem : Type 0 where
  pub id : ℕ
  pub account_iban : Text
  pub amount : ℤ
  pub credit_debit : CreditDebit
  pub currency : Text
  pub balance_after : ℤ
  pub booking_datetime : ℕ
  pub narration : Text

abbrev pub entry_item : AccountEntry → EntryItem
entry_item e = record {
  id = e.id;
  account_iban = e.account_iban;
  amount = e.amount;
  credit_debit = e.credit_debit;
  currency = e.currency;
  balance_after = e.balance_after;
  booking_datetime = e.booking_datetime;
  narration = e.narration;
}

abbrev pub is_tenant : Option ℕ → ℕ → Bool
is_tenant none t = true
is_tenant (some wanted) t = t == wanted

unfoldable pub browse_ledger : Option ℕ → Option Text → ℕ → Session (List EntryItem)
browse_ledger tenant_id iban limit = gets (λ d. map entry_item (
    take limit (
      latest_first (λ (e : AccountEntry). e.created_at)
        (where_all
          (λ e. is_tenant tenant_id e.mock_tenant_id && is_text (present iban) e.account_iban)
          d.entries))))

abbrev pub is_waiting : OutboxStatus → Bool
is_waiting OutboxStatus.pending = true
is_waiting OutboxStatus.retrying = true
is_waiting OutboxStatus.in_flight = false
is_waiting OutboxStatus.delivered = false
is_waiting OutboxStatus.dead_letter = false

abbrev pub is_delivered : OutboxStatus → Bool
is_delivered OutboxStatus.delivered = true
is_delivered OutboxStatus.pending = false
is_delivered OutboxStatus.retrying = false
is_delivered OutboxStatus.in_flight = false
is_delivered OutboxStatus.dead_letter = false

abbrev pub is_dead : OutboxStatus → Bool
is_dead OutboxStatus.dead_letter = true
is_dead OutboxStatus.pending = false
is_dead OutboxStatus.retrying = false
is_dead OutboxStatus.in_flight = false
is_dead OutboxStatus.delivered = false

pub record Stats : Type 0 where
  pub sim_time : ℕ
  pub merchants : ℕ
  pub accounts : ℕ
  pub pos_transactions : ℕ
  pub payments : ℕ
  pub pending : ℕ
  pub delivered : ℕ
  pub dead_letter : ℕ

unfoldable pub system_stats : Env → Session Stats
system_stats env = gets (λ d. record {
  sim_time = env.sim;
  merchants = length d.merchants;
  accounts = length d.accounts;
  pos_transactions = length d.transactions;
  payments = length d.payments;
  pending = length (where_all (λ r. is_waiting r.status) d.outbox);
  delivered = length (where_all (λ r. is_delivered r.status) d.outbox);
  dead_letter = length (where_all (λ r. is_dead r.status) d.outbox);
})
