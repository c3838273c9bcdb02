-- ===== src/Scheduler.antt =====
-- core/sim_scheduler.py: jobs of simulated time, and one slice of an advance, which moves the clock
-- and fires the jobs that are due. The clock and the database are one state. A duration is in
-- microseconds and not negative. The database may fail in a slice, at its query or at its commit.
pub mod Order
pub mod Extends
pub mod Slice
pub mod Advance
mod Tests
use mock_sim.Base.{
  ℕ, zero, suc, ◌+◌, ◌-◌, ◌*◌, ◌/◌, ◌%◌, min, Bool, true, false, ◌&&◌, ◌||◌, Option, none, some,
  List, [], ◌∷◌, ◌++◌, Text, text_eq, where_all, update_where, ltb, leb, ◌==◌, if◌then◌else◌,
}
use mock_sim.Errors.{Error, python_error}
use mock_sim.Models.{
  JobPayload, SimSchedulerJob, JobStatus, JobError, no_handler, raised, ClockAdvanceJob,
  AdvanceStatus,
}
use mock_sim.Clock.{SimClock, now, advance}
use mock_sim.Calendar.{microseconds_per_second, microseconds_per_day}
use mock_sim.Session.{Env, Db, Session, Result, ok, err, modify, draw_id, ◌>>=◌}

unfoldable pub new_job : Env → ℕ → Option ℕ → ℕ → Text → JobPayload → SimSchedulerJob
new_job env id tenant fire_at job_type payload = record {
  id = id;
  mock_tenant_id = tenant;
  fire_at = fire_at;
  job_type = job_type;
  payload = payload;
  status = JobStatus.pending;
  fired_at = none;
  error = none;
  created_at = env.wall;
}

unfoldable pub schedule_at : Env → Option ℕ → ℕ → Text → JobPayload → Session (Unit {0})
schedule_at env tenant fire_at job_type payload = do
  id ← draw_id env
  modify (λ d. record d { jobs = d.jobs ++ new_job env id tenant fire_at job_type payload ∷ [] })

-- `JobCallback`: a handler runs in transactions of its own, under the clock of the environment.
abbrev pub Handler : Type 0
Handler = Env → ℕ → JobPayload → Session (Unit {0})

abbrev pub Registry : Type 0
Registry = List (Text × Handler)

-- `register_job_type`: the assignment of a key of `_registry`
unfoldable pub register_job_type : Text → Handler → Registry → Registry
register_job_type job_type callback [] = (job_type, callback) ∷ []
register_job_type job_type callback ((t, h) ∷ rest) =
    if text_eq t job_type
    then (job_type, callback) ∷ rest
    else (t, h) ∷ register_job_type job_type callback rest

-- `_registry.get`
unfoldable pub handler_of : Text → Registry → Option Handler
handler_of job_type [] = none
handler_of job_type ((t, h) ∷ rest) =
    if text_eq t job_type then some h else handler_of job_type rest

abbrev pub is_pending : JobStatus → Bool
is_pending JobStatus.pending = true
is_pending JobStatus.fired = false
is_pending JobStatus.failed = false

abbrev pub is_of_tenant : ℕ → Option ℕ → Bool
is_of_tenant tenant none = true
is_of_tenant tenant (some t) = t == tenant

-- the `where` of `_run_one_slice`
unfoldable pub is_due : ℕ → ℕ → SimSchedulerJob → Bool
is_due tenant slice_end j =
    leb j.fire_at slice_end && is_pending j.status && is_of_tenant tenant j.mock_tenant_id

unfoldable pub insert_job : SimSchedulerJob → List SimSchedulerJob → List SimSchedulerJob
insert_job a [] = a ∷ []
insert_job a (b ∷ rest) = if leb a.fire_at b.fire_at then a ∷ b ∷ rest else b ∷ insert_job a rest

-- `order_by(fire_at)`; jobs of the same time stay in the order of the table.
unfoldable pub order_jobs : List SimSchedulerJob → List SimSchedulerJob
unfolding insert_job
order_jobs [] = []
order_jobs (a ∷ rest) = insert_job a (order_jobs rest)

unfoldable pub due_jobs : ℕ → ℕ → List SimSchedulerJob → List SimSchedulerJob
due_jobs tenant slice_end rows = order_jobs (where_all (is_due tenant slice_end) rows)

-- The assignments to a job after its handler has returned or raised.
unfoldable pub after_handler : Env → Result (Unit {0}) → SimSchedulerJob → SimSchedulerJob
after_handler env (ok _) j = record j { status = JobStatus.fired; fired_at = some env.wall }
after_handler env (err e) j = record j { status = JobStatus.failed; error = some (raised e) }

unfoldable pub call_handler : Env → Option Handler → SimSchedulerJob → Db → SimSchedulerJob × Db
call_handler env none j d =
    (record j { status = JobStatus.failed; error = some (no_handler j.job_type) }, d)
call_handler env (some h) j d =
    let (r, d') = h env j.fire_at j.payload d in (after_handler env r j, d')

-- The loop over the jobs. Their new attributes stay in the session until it commits.
unfoldable pub fire_jobs : Registry → Env → List SimSchedulerJob → Db → List SimSchedulerJob × Db
unfolding call_handler
fire_jobs registry env [] d = ([], d)
fire_jobs registry env (j ∷ rest) d =
    let (j', d') = call_handler env (handler_of j.job_type registry) j d in
    let (rest', d'') = fire_jobs registry env rest d' in (j' ∷ rest', d'')

abbrev pub has_id : ℕ → SimSchedulerJob → Bool
has_id id j = j.id == id

abbrev pub assign : SimSchedulerJob → SimSchedulerJob → SimSchedulerJob
assign j row = record row { status = j.status; fired_at = j.fired_at; error = j.error }

-- `session.commit()`: an UPDATE for each job
unfoldable pub write_jobs : List SimSchedulerJob → List SimSchedulerJob → List SimSchedulerJob
write_jobs [] rows = rows
write_jobs (j ∷ rest) rows = write_jobs rest (update_where (has_id j.id) (assign j) rows)

pub record World : Type 0 where
  pub clock : SimClock
  pub db : Db

pub data Outage : Type 0 where
  steady query_fails commit_fails : Outage

-- what `_run_one_slice` writes at its end, unless the commit fails
unfoldable pub commit_jobs : Outage → List SimSchedulerJob → World → Result (Unit {0}) × World
commit_jobs commit_fails jobs w = (err python_error, w)
commit_jobs query_fails jobs w = (err python_error, w)
commit_jobs steady jobs w =
    (ok tt, record w { db = record (w.db) { jobs = write_jobs jobs w.db.jobs } })

unfoldable pub fire_slice : Registry → Env → Outage → ℕ → ℕ → World → Result (Unit {0}) × World
fire_slice registry env o duration tenant w =
    let slice_end = now w.clock + duration in
    let jobs = due_jobs tenant slice_end w.db.jobs in
    let clock = advance duration w.clock in
    let (jobs', d) = fire_jobs registry (record env { sim = now clock }) jobs w.db in
    commit_jobs o jobs' (record { clock = clock; db = d })

-- `_run_one_slice`: a query that fails stops it before the clock moves.
unfoldable pub run_one_slice : Registry → Env → Outage → ℕ → ℕ → World → Result (Unit {0}) × World
run_one_slice registry env query_fails duration tenant w = (err python_error, w)
run_one_slice registry env commit_fails duration tenant w =
    fire_slice registry env commit_fails duration tenant w
run_one_slice registry env steady duration tenant w =
    fire_slice registry env steady duration tenant w
