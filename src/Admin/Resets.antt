-- ===== src/Admin/Resets.antt =====
-- What a reset of a tenant (admin/api.py, `reset_tenant`) leaves of the tenant and of the others.
use mock_sim.Base.{ℕ, ◌≡◌, ◌≢◌, Bool, List, [], where_all, ◌==◌, if◌then◌else◌}
use mock_sim.Models.{
  Account, AccountEntry, PaymentInstruction, Mandate, WebhookSubscription, WebhookOutbox,
  IdempotencyRecord, Merchant, PosTransaction, SettlementBatch, ScenarioConfig, MockTenant, ApiKey,
}
use mock_sim.Session.{Db}

module _ {A : Type 0} (tenant_of : A → ℕ) where
  abbrev pub rows_of : ℕ → List A → List A
  rows_of t rows = where_all (λ r. tenant_of r == t) rows

-- The rows of one tenant in every table that has tenants.
pub record Holdings : Type 0 where
  pub entries : List AccountEntry
  pub accounts : List Account
  pub payments : List PaymentInstruction
  pub mandates : List Mandate
  pub transactions : List PosTransaction
  pub batches : List SettlementBatch
  pub outbox : List WebhookOutbox
  pub subscriptions : List WebhookSubscription
  pub idempotency : List IdempotencyRecord
  pub scenario_configs : List ScenarioConfig
  pub merchants : List Merchant

abbrev pub holdings : ℕ → Db → Holdings
holdings t d = record {
  entries = rows_of (λ e. e.mock_tenant_id) t d.entries;
  accounts = rows_of (λ a. a.mock_tenant_id) t d.accounts;
  payments = rows_of (λ p. p.mock_tenant_id) t d.payments;
  mandates = rows_of (λ m. m.mock_tenant_id) t d.mandates;
  transactions = rows_of (λ x. x.mock_tenant_id) t d.transactions;
  batches = rows_of (λ b. b.mock_tenant_id) t d.batches;
  outbox = rows_of (λ r. r.mock_tenant_id) t d.outbox;
  subscriptions = rows_of (λ s. s.mock_tenant_id) t d.subscriptions;
  idempotency = rows_of (λ r. r.mock_tenant_id) t d.idempotency;
  scenario_configs = rows_of (λ s. s.mock_tenant_id) t d.scenario_configs;
  merchants = rows_of (λ m. m.mock_tenant_id) t d.merchants;
}

abbrev pub no_holdings : Holdings
no_holdings = record {
  entries = [];
  accounts = [];
  payments = [];
  mandates = [];
  transactions = [];
  batches = [];
  outbox = [];
  subscriptions = [];
  idempotency = [];
  scenario_configs = [];
  merchants = [];
}

-- What a tenant signs in with.
abbrev pub sign_in : ℕ → Db → List MockTenant × List ApiKey
sign_in t d = (rows_of (λ x. x.id) t d.tenants, rows_of (λ k. k.mock_tenant_id) t d.api_keys)

-- The state after a reset.
pub record IsWiped (tid : ℕ) (purge : Bool) (d d' : Db) : Type 0 where
  pub wiped : holdings tid d' ≡ no_holdings
  pub others : (t : ℕ) → t ≢ tid → holdings t d' ≡ holdings t d
  pub signed_in : sign_in tid d' ≡ (if purge then ([], []) else sign_in tid d)
  pub others_in : (t : ℕ) → t ≢ tid → sign_in t d' ≡ sign_in t d
  pub jobs : d'.jobs ≡ d.jobs
