-- ===== src/Session.antt =====
-- persistence/database.py: a database session as a monad of state and exceptions. The state comes
-- back after a raise too, since what the session wrote stays in it until the transaction ends;
-- `transaction` and `own_session` end it. Each query of a tenant-scoped table is filtered by the
-- tenant of the context, as the hook `_inject_tenant_filter` does.
pub mod Rules
pub mod Quiet
pub mod Returns
use mock_sim.Base.{
  ℕ, suc, Bool, true, false, ◌&&◌, Text, Option, none, some, List, [], ◌++◌, ◌==◌, if◌then◌else◌,
}
use mock_sim.Errors.{Error}
use mock_sim.Models.{
  MockTenant, ApiKey, IdempotencyRecord, WebhookSubscription, WebhookOutbox, SimSchedulerJob,
  ClockAdvanceJob, Account, AccountEntry, PaymentInstruction, Mandate, Merchant, PosTransaction,
  SettlementBatch, ScenarioEngineStatus, ScenarioConfig,
}

-- What a call reads from outside: the tenant of the context, the wall clock, the simulated clock,
-- the random source of ids (the n-th draw) and SHA-256.
pub record Env : Type 0 where
  pub tenant : Option ℕ
  pub wall : ℕ
  pub sim : ℕ
  pub draw : ℕ → ℕ
  pub sha256 : Text → Text

-- The tables, the ids drawn so far, and the idempotency records that a session has added and not
-- flushed: the sessions are made with `autoflush=False`, so a query does not see those.
pub record Db : Type 0 where
  pub tenants : List MockTenant
  pub api_keys : List ApiKey
  pub accounts : List Account
  pub entries : List AccountEntry
  pub payments : List PaymentInstruction
  pub mandates : List Mandate
  pub subscriptions : List WebhookSubscription
  pub outbox : List WebhookOutbox
  pub jobs : List SimSchedulerJob
  pub advance_jobs : List ClockAdvanceJob
  pub idempotency : List IdempotencyRecord
  pub unflushed : List IdempotencyRecord
  pub merchants : List Merchant
  pub transactions : List PosTransaction
  pub batches : List SettlementBatch
  pub scenario_status : List ScenarioEngineStatus
  pub scenario_configs : List ScenarioConfig
  pub draws : ℕ

pub data Result (A : Type 0) : Type 0 where
  ok : A → Result A
  err : Error → Result A

abbrev pub Session : Type 0 → Type 0
Session A = Db → Result A × Db

module _ {A : Type 0} where
  abbrev pub pure : A → Session A
  pure a d = (ok a, d)

  abbrev pub raise : Error → Session A
  raise e d = (err e, d)

  abbrev pub gets : (Db → A) → Session A
  gets f d = (ok (f d), d)

  abbrev pub or_raise : Option A → Error → Session A
  or_raise none e = raise e
  or_raise (some a) _ = pure a

  abbrev pub lift : Result A → Session A
  lift r d = (r, d)

-- The rest of a chain, after its head has returned or raised.
abbrev pub continue_with : {A B : Type 0} → Result A → (A → Session B) → Session B
continue_with (ok a) f d = f a d
continue_with (err e) f d = (err e, d)

infixl 5 ◌>>=◌ ◌>>◌
abbrev pub ◌>>=◌ : {A B : Type 0} → Session A → (A → Session B) → Session B
◌>>=◌ m f d = let (r, d') = m d in continue_with r f d'

abbrev pub ◌>>◌ : {A B : Type 0} → Session A → Session B → Session B
m >> k = m >>= λ _. k

abbrev pub raise_if : Bool → Error → Session (Unit {0})
raise_if c e d = (if c then err e else ok tt, d)

abbrev pub modify : (Db → Db) → Session (Unit {0})
modify f d = (ok tt, f d)

-- `uuid.uuid4()`, `new_ulid()`
abbrev pub draw_id : Env → Session ℕ
draw_id env d = (ok (env.draw d.draws), record d { draws = suc d.draws })

-- `session.flush()`
abbrev pub flush : Db → Db
flush d = record d { idempotency = d.idempotency ++ d.unflushed; unflushed = [] }

-- `get_session`: commit, which flushes, at the end; roll back after an exception.
abbrev pub close_session : {A : Type 0} → Result A → Db → Db → Result A × Db
close_session (ok a) before d = (ok a, flush d)
close_session (err e) before d = (err e, before)

abbrev pub transaction : {A : Type 0} → Session A → Session A
transaction m d = let (r, d') = m d in close_session r d d'

-- `_inject_tenant_filter`: whether a row of this tenant is seen.
unfoldable pub visible : Env → ℕ → Bool
visible env row_tenant = elim env.tenant [ none ↦ true | some t ↦ row_tenant == t ]

-- `Model.mock_tenant_id == tenant_id` under the filter; no row has no tenant.
abbrev pub is_own : Env → ℕ → Bool
is_own env row_tenant =
    visible env row_tenant && elim env.tenant [ none ↦ false | some t ↦ row_tenant == t ]
