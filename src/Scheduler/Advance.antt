-- ===== src/Scheduler/Advance.antt =====
-- core/sim_scheduler.py: `advance` and the background task that goes on with a long advance. Of what
-- comes from outside, `over_budget n` says whether the wall clock is past the budget after slice n,
-- and `outage n` whether the database fails in slice n. A loop takes fuel; each slice takes time off
-- what remains, so one more than the duration is enough.
pub mod Lands
pub mod Ends
pub mod Fires
pub mod Foreign
use mock_sim.Base.{
  ℕ, zero, suc, ◌+◌, ◌-◌, ◌*◌, ◌/◌, ◌%◌, min, Bool, true, false, Option, none, some, List, [], ◌∷◌,
  ◌++◌, Text, update_where, ltb, ◌==◌, if◌then◌else◌,
}
use mock_sim.Errors.{Error}
use mock_sim.Models.{ClockAdvanceJob, AdvanceStatus}
use mock_sim.Clock.{now}
use mock_sim.Calendar.{microseconds_per_second, microseconds_per_day}
use mock_sim.Session.{Env, Db, Result, ok, err}
use mock_sim.Scheduler.{Registry, World, Outage, run_one_slice}

-- `settings`
pub record Settings : Type 0 where
  pub sim_clock_advance_slice_days : ℕ
  pub sim_clock_advance_async_threshold_days : ℕ

-- `config.py`
abbrev pub default_settings : Settings
default_settings = record {
  sim_clock_advance_slice_days = 1;
  sim_clock_advance_async_threshold_days = 7;
}

unfoldable pub slice_size : Settings → ℕ
slice_size settings = settings.sim_clock_advance_slice_days * microseconds_per_day

-- The response of `advance`. Where it is accepted, a background task runs the rest.
pub data Advanced : Type 0 where
  complete : ℕ → Advanced
  accepted : ℕ → ℕ → Advanced

-- `_create_advance_job`, which commits a session of its own
unfoldable pub create_advance_job : Env → ℕ → ℕ → ℕ → Text → World → ℕ × World
create_advance_job env tenant remaining slices_total requested_by w =
    let job_id = env.draw w.db.draws in
    (
      job_id,
      record w {
        db = record (w.db) {
          draws = suc w.db.draws;
          advance_jobs =
              w.db.advance_jobs
              ++ record {
                id = job_id;
                mock_tenant_id = tenant;
                requested_by = requested_by;
                target_sim_time = now w.clock + remaining;
                status = AdvanceStatus.pending;
                slices_total = slices_total;
                slices_done = 0;
                started_at = none;
                completed_at = none;
                error = none;
                created_at = env.wall;
              }
                ∷ [];
        };
      },
    )

-- A job for the rest, and the answer that names it: the job's id, and what remains for the task.
unfoldable pub hand_over : Env → ℕ → ℕ → ℕ → Text → World → Result Advanced × World
unfolding create_advance_job
hand_over env tenant remaining slices_total requested_by w =
    let (job_id, w') = create_advance_job env tenant remaining slices_total requested_by w in
    (ok (accepted job_id remaining), w')

-- `duration.days + (1 if duration.seconds > 0 else 0)`
unfoldable pub total_days : ℕ → ℕ
total_days duration =
    let seconds = duration % microseconds_per_day / microseconds_per_second in
    duration / microseconds_per_day + (if ltb 0 seconds then 1 else 0)

-- The end of a round of the loop of `advance`, with what comes next on each branch.
unfoldable pub after_sync_slice :
    Result (Unit {0})
    → Bool
    → Result Advanced × World
    → Option (Result Advanced × World)
    → World
    → Option (Result Advanced × World)
after_sync_slice (err e) over_budget handed rest w = some (err e, w)
after_sync_slice (ok _) true handed rest w = some handed
after_sync_slice (ok _) false handed rest w = rest

module _ (settings : Settings) (registry : Registry) (env : Env) (outage : ℕ → Outage)
    (over_budget : ℕ → Bool) (tenant : ℕ) (requested_by : Text) where
  -- The loop of `advance`, at slice n. `none`: the fuel ran out.
  unfoldable pub sync_slices : ℕ → ℕ → ℕ → World → Option (Result Advanced × World)
  unfolding slice_size
  sync_slices zero n remaining w = none
  sync_slices (suc f) n zero w = some (ok (complete (now w.clock)), w)
  sync_slices (suc f) n (suc r) w =
      let slice_dur = min (slice_size settings) (suc r) in
      let left = suc r - slice_dur in
      let (r', w') = run_one_slice registry env (outage n) slice_dur tenant w in
      let handed = hand_over env tenant left (left / microseconds_per_day + 1) requested_by w' in
      let rest = sync_slices f (suc n) left w' in after_sync_slice r' (over_budget n) handed rest w'

  -- `advance`
  unfoldable pub advance_by : ℕ → World → Option (Result Advanced × World)
  unfolding total_days
  advance_by duration w =
      if ltb settings.sim_clock_advance_async_threshold_days (total_days duration)
      then some (hand_over env tenant duration (total_days duration) requested_by w)
      else sync_slices (suc duration) 0 duration w

abbrev pub is_advance : ℕ → ClockAdvanceJob → Bool
is_advance job_id j = j.id == job_id

-- A session that loads the job, which is there, assigns to it, and commits.
abbrev pub update_advance : ℕ → (ClockAdvanceJob → ClockAdvanceJob) → World → World
update_advance job_id f w = record w {
  db = record (w.db) { advance_jobs = update_where (is_advance job_id) f w.db.advance_jobs };
}

module _ (env : Env) (job_id : ℕ) where
  unfoldable pub start_advance : World → World
  start_advance =
      update_advance job_id
        (λ j. record j { status = AdvanceStatus.running; started_at = some env.wall })

  unfoldable pub count_slice : ℕ → World → World
  count_slice slices_done = update_advance job_id (λ j. record j { slices_done = slices_done })

  unfoldable pub complete_advance : World → World
  complete_advance =
      update_advance job_id
        (λ j. record j { status = AdvanceStatus.complete; completed_at = some env.wall })

  unfoldable pub fail_advance : Error → World → World
  fail_advance e = update_advance job_id (λ j. record j {
    status = AdvanceStatus.failed;
    error = some e;
    completed_at = some env.wall;
  })

  -- The end of a round of the loop of `_run_advance_async`, with its `except` clause.
  unfoldable pub after_async_slice : Result (Unit {0}) → Option World → World → Option World
  after_async_slice (ok _) rest w = rest
  after_async_slice (err e) rest w = some (fail_advance e w)

module _ (settings : Settings) (registry : Registry) (env : Env) (outage : ℕ → Outage)
    (job_id tenant : ℕ) where
  -- The loop of `_run_advance_async`, at slice n.
  unfoldable pub async_slices : ℕ → ℕ → ℕ → World → Option World
  unfolding slice_size count_slice complete_advance
  async_slices zero n remaining w = none
  async_slices (suc f) n zero w = some (complete_advance env job_id w)
  async_slices (suc f) n (suc r) w =
      let slice_dur = min (slice_size settings) (suc r) in
      let (r', w') = run_one_slice registry env (outage n) slice_dur tenant w in
      let rest = async_slices f (suc n) (suc r - slice_dur) (count_slice env job_id (suc n) w') in
      after_async_slice env job_id r' rest w'

  -- `_run_advance_async`
  unfoldable pub run_advance_async : ℕ → World → Option World
  unfolding start_advance
  run_advance_async remaining w =
      async_slices (suc remaining) 0 remaining (start_advance env job_id w)
