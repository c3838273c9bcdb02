-- ===== src/Admin.antt =====
-- admin/api.py: the clock, the tenants, the replay of a webhook and the views of the whole database.
-- The session of an endpoint has no tenant, so it sees every row.
pub mod Views
pub mod Switch
pub mod GeneratePos
pub mod Resets
pub mod Clock
mod Tests
use mock_sim.Base.{
  ℕ, suc, ◌+◌, ◌*◌, min, Bool, true, false, ◌&&◌, ◌||◌, not, Option, none, some, List, [], ◌∷◌,
  ◌++◌, map, length, take, Text, codes, text_eq, first, where_all, update_where, delete_where, ◌==◌,
  if◌then◌else◌,
}
use mock_sim.Errors.{not_found, internal_error, Error}
use mock_sim.Models.{
  MockTenant, ApiKey, KeyStatus, WebhookOutbox, OutboxStatus, ClockAdvanceJob, AdvanceStatus,
  AccountEntry,
}
use mock_sim.Session.{
  Env, Db, Session, Result, ok, err, pure, gets, or_raise, modify, draw_id, transaction, ◌>>=◌,
  ◌>>◌,
}
use mock_sim.Clock.{SimClock, now, set}
use mock_sim.Calendar.{microseconds_per_second}
use mock_sim.Paging.{latest_first}
use mock_sim.Scheduler.{Registry, World, Outage}
use mock_sim.Scheduler.Advance.{Settings, Advanced, advance_by}

pub record AdvanceClockRequest : Type 0 where
  pub days : ℕ
  pub hours : ℕ
  pub minutes : ℕ

abbrev pub duration_of : AdvanceClockRequest → ℕ
duration_of body =
    ((body.days * 24 + body.hours) * 60 + body.minutes) * 60 * microseconds_per_second

-- The answer to a zero duration, or that of `advance`.
pub data ClockAnswer : Type 0 where
  noop : ℕ → ClockAnswer
  advanced : Advanced → ClockAnswer

abbrev pub as_answer : Result Advanced × World → Result ClockAnswer × World
as_answer (ok a, w) = (ok (advanced a), w)
as_answer (err e, w) = (err e, w)

-- `advance_clock`, under the tenant with the number zero
unfoldable pub advance_clock :
    Settings
    → Registry
    → Env
    → (ℕ → Outage)
    → (ℕ → Bool)
    → AdvanceClockRequest
    → World
    → Option (Result ClockAnswer × World)
advance_clock settings registry env outage over_budget body w =
    if duration_of body == 0
    then some (ok (noop (now w.clock)), w)
    else elim (advance_by settings registry env outage over_budget 0 (codes "admin")
        (duration_of body) w) [ none ↦ none | some answer ↦ some (as_answer answer) ]

pub record AdvanceState : Type 0 where
  pub job_id : ℕ
  pub status : AdvanceStatus
  pub slices_done : ℕ
  pub slices_total : ℕ
  pub target_sim_time : ℕ
  pub current_sim_time : ℕ
  pub error : Option Error

unfoldable pub poll_advance_job : Env → ℕ → Session AdvanceState
poll_advance_job env job_id = do
  job ←
      or_raise (← gets (λ d. first (λ j. j.id == job_id) d.advance_jobs)) (not_found internal_error)
  pure (record {
    job_id = job.id;
    status = job.status;
    slices_done = job.slices_done;
    slices_total = job.slices_total;
    target_sim_time = job.target_sim_time;
    current_sim_time = env.sim;
    error = job.error;
  })

unfoldable pub set_clock : ℕ → SimClock → SimClock
set_clock target clock = set target clock

pub record CreateTenantRequest : Type 0 where
  pub name : Text
  pub api_key : Text
  pub scopes : List Text
  pub partner_code : Option Text

-- The tenant, and whether it existed.
pub record TenantAnswer : Type 0 where
  pub tenant_id : ℕ
  pub name : Text
  pub api_key_hint : Text
  pub existed : Bool

abbrev pub tenant_answer : CreateTenantRequest → ℕ → Bool → TenantAnswer
tenant_answer body id existed = record {
  tenant_id = id;
  name = body.name;
  api_key_hint = take 8 body.api_key ++ codes "...";
  existed = existed;
}

unfoldable pub new_key : Env → Text → ℕ → CreateTenantRequest → ApiKey
new_key env key_hash tenant body = record {
  key_hash = key_hash;
  mock_tenant_id = tenant;
  name = body.name ++ codes " default key";
  scopes = body.scopes;
  rate_limit_profile = none;
  status = KeyStatus.active;
  created_at = env.wall;
  rotated_from = none;
}

abbrev pub new_tenant : Env → ℕ → CreateTenantRequest → MockTenant
new_tenant env id body = record {
  id = id;
  name = body.name;
  partner_code = body.partner_code;
  created_at = env.wall;
}

-- The branches of `create_tenant`: a key that is there, whatever its status, or none.
unfoldable pub create_or_find : Env → CreateTenantRequest → Option ApiKey → Session TenantAnswer
create_or_find env body (some key) = pure (tenant_answer body key.mock_tenant_id true)
create_or_find env body none = do
  id ← draw_id env
  modify (λ d. record d {
    tenants = d.tenants ++ new_tenant env id body ∷ [];
    api_keys = d.api_keys ++ new_key env (env.sha256 body.api_key) id body ∷ [];
  })
  pure (tenant_answer body id false)

unfoldable pub create_tenant : Env → CreateTenantRequest → Session TenantAnswer
create_tenant env body = transaction (do
  existing ← gets (λ d. first (λ k. text_eq k.key_hash (env.sha256 body.api_key)) d.api_keys)
  create_or_find env body existing)

-- The deletes of a reset. Foreign keys are not modelled, so their order does not matter.
abbrev pub without : ℕ → Db → Db
without tid d = record d {
  entries = delete_where (λ e. e.mock_tenant_id == tid) d.entries;
  accounts = delete_where (λ a. a.mock_tenant_id == tid) d.accounts;
  payments = delete_where (λ p. p.mock_tenant_id == tid) d.payments;
  mandates = delete_where (λ m. m.mock_tenant_id == tid) d.mandates;
  transactions = delete_where (λ t. t.mock_tenant_id == tid) d.transactions;
  batches = delete_where (λ b. b.mock_tenant_id == tid) d.batches;
  outbox = delete_where (λ r. r.mock_tenant_id == tid) d.outbox;
  subscriptions = delete_where (λ s. s.mock_tenant_id == tid) d.subscriptions;
  idempotency = delete_where (λ r. r.mock_tenant_id == tid) d.idempotency;
  scenario_configs = delete_where (λ s. s.mock_tenant_id == tid) d.scenario_configs;
  merchants = delete_where (λ m. m.mock_tenant_id == tid) d.merchants;
}

abbrev pub purged : ℕ → Db → Db
purged tid d = record d {
  api_keys = delete_where (λ k. k.mock_tenant_id == tid) d.api_keys;
  tenants = delete_where (λ t. t.id == tid) d.tenants;
}

unfoldable pub reset_tenant : ℕ → Bool → Session (Unit {0})
reset_tenant tid purge =
    transaction (modify (without tid) >> (if purge then modify (purged tid) else pure tt))

abbrev pub requeued : WebhookOutbox → WebhookOutbox
requeued r = record r {
  status = OutboxStatus.pending;
  attempt_count = 0;
  next_attempt_at = none;
  last_error = none;
}

unfoldable pub replay_webhook : ℕ → Session (Unit {0})
replay_webhook event_id = transaction (do
  or_raise (← gets (λ d. first (λ r. r.event_id == event_id) d.outbox)) (not_found internal_error)
  modify (λ d. record d { outbox = update_where (λ r. r.event_id == event_id) requeued d.outbox }))
