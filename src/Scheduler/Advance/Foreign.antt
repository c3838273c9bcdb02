-- ===== src/Scheduler/Advance/Foreign.antt =====
-- An advance under a tenant that has no job (core/sim_scheduler.py): it fires none, and the table is
-- as it was, also where the database fails.
use mock_sim.Base.{
  ℕ, zero, suc, ◌+◌, ◌-◌, ◌/◌, min, ◌<◌, ◌≡◌, refl, ◌∙◌, inl, inr, Bool, true, false, Option, some,
  List, [], ◌∷◌, All, Text, where_all, ltb, Bool-cases, arith,
}
use mock_sim.Models.{SimSchedulerJob}
use mock_sim.Clock.{now}
use mock_sim.Calendar.{microseconds_per_day}
use mock_sim.Session.{Env, Result, ok, err}
use mock_sim.Scheduler.{
  Registry, World, Outage, steady, query_fails, commit_fails, is_due, order_jobs, due_jobs,
  fire_jobs, write_jobs, commit_jobs, fire_slice, run_one_slice,
}
use mock_sim.Scheduler.Advance.{
  Settings, Advanced, complete, slice_size, create_advance_job, hand_over, total_days,
  after_sync_slice, sync_slices, advance_by, start_advance, count_slice, complete_advance,
  fail_advance, after_async_slice, async_slices, run_advance_async,
}

-- Every row is a job of some other tenant.
abbrev pub IsForeign : ℕ → List SimSchedulerJob → Type 0
IsForeign tenant rows = All (λ j. (t : ℕ) × (j.mock_tenant_id ≡ some t) × ¬ (t ≡ tenant)) rows

module _ (tenant : ℕ) where
  due_jobs-foreign :
      (slice_end : ℕ) (rows : List SimSchedulerJob)
      → IsForeign tenant rows
      → due_jobs tenant slice_end rows ≡ []
  unfolding due_jobs order_jobs is_due
  due_jobs-foreign slice_end rows h = rw (where_all-foreign rows h)
    where
      where_all-foreign :
          (rows : List SimSchedulerJob)
          → IsForeign tenant rows
          → where_all (is_due tenant slice_end) rows ≡ []
      where_all-foreign [] h = refl
      where_all-foreign (j ∷ rows) h =
          let (t, of_other, other) = h.0 in rw (of_other, where_all-foreign rows h.1) (ground arith)

  run_one_slice-foreign :
      (registry : Registry) (env : Env) (o : Outage) (duration : ℕ) (w : World)
      → IsForeign tenant w.db.jobs
      → (run_one_slice registry env o duration tenant w).1.db.jobs ≡ w.db.jobs
  unfolding run_one_slice fire_slice fire_jobs commit_jobs write_jobs
  run_one_slice-foreign registry env steady duration w h = rw (due_jobs-foreign _ w.db.jobs h)
  run_one_slice-foreign registry env query_fails duration w h = refl
  run_one_slice-foreign registry env commit_fails duration w h = rw (due_jobs-foreign _ w.db.jobs h)

module _ (settings : Settings) (positive : 0 < settings.sim_clock_advance_slice_days)
    (registry : Registry) (env : Env) (outage : ℕ → Outage) (tenant : ℕ) where
  async_slices-foreign :
      (job_id f n remaining : ℕ) (w : World)
      → remaining < f
      → IsForeign tenant w.db.jobs
      → (w' : World) × (async_slices settings registry env outage job_id tenant f n remaining w
          ≡ some w')
        × (w'.db.jobs ≡ w.db.jobs)
  unfolding async_slices slice_size count_slice complete_advance after_async_slice fail_advance
  async_slices-foreign job_id zero n remaining w h foreign = absurd (omega arith)
  async_slices-foreign job_id (suc f) n zero w h foreign =
      (complete_advance env job_id w, refl, refl)
  async_slices-foreign job_id (suc f) n (suc r) w h foreign =
      let slice_dur = min (slice_size settings) (suc r) in
      let (r1, w1) = run_one_slice registry env (outage n) slice_dur tenant w in
      let same = run_one_slice-foreign tenant registry env (outage n) slice_dur w foreign in
      let (w', e, same') =
        async_slices-foreign job_id f (suc n) (suc r - slice_dur)
          (count_slice env job_id (suc n) w1) (omega arith) (rw same foreign) in
      round r1 w1 same (w', e, same' ∙ same)
    where
      round :
          (r1 : Result (Unit {0})) {rest : Option World} (w1 : World)
          → w1.db.jobs ≡ w.db.jobs
          → (w' : World) × (rest ≡ some w') × (w'.db.jobs ≡ w.db.jobs)
          → (w' : World) × (after_async_slice env job_id r1 rest w1 ≡ some w')
            × (w'.db.jobs ≡ w.db.jobs)
      round (ok u) w1 same ends = ends
      round (err x) w1 same ends = (fail_advance env job_id x w1, refl, same)

  pub run_advance_async-foreign :
      (job_id remaining : ℕ) (w : World)
      → IsForeign tenant w.db.jobs
      → (w' : World) × (run_advance_async settings registry env outage job_id tenant remaining w
          ≡ some w')
        × (w'.db.jobs ≡ w.db.jobs)
  unfolding run_advance_async start_advance
  run_advance_async-foreign job_id remaining w foreign =
      async_slices-foreign job_id (suc remaining) 0 remaining (start_advance env job_id w)
        (omega arith) foreign

  module _ (over_budget : ℕ → Bool) (requested_by : Text) where
    sync_slices-foreign :
        (f n remaining : ℕ) (w : World)
        → remaining < f
        → IsForeign tenant w.db.jobs
        → (out : Result Advanced × World) × (sync_slices settings registry env outage over_budget
              tenant requested_by f n remaining w
            ≡ some out)
          × (out.1.db.jobs ≡ w.db.jobs)
    unfolding sync_slices slice_size after_sync_slice hand_over create_advance_job
    sync_slices-foreign zero n remaining w h foreign = absurd (omega arith)
    sync_slices-foreign (suc f) n zero w h foreign = ((ok (complete (now w.clock)), w), refl, refl)
    sync_slices-foreign (suc f) n (suc r) w h foreign =
        let slice_dur = min (slice_size settings) (suc r) in
        let left = suc r - slice_dur in
        let (r1, w1) = run_one_slice registry env (outage n) slice_dur tenant w in
        let same = run_one_slice-foreign tenant registry env (outage n) slice_dur w foreign in
        let (out, e, same') =
          sync_slices-foreign f (suc n) left w1 (omega arith) (rw same foreign) in
        round r1 (over_budget n) left w1 same (out, e, same' ∙ same)
      where
        round :
            (r1 : Result (Unit {0})) (over : Bool) (left : ℕ)
            {rest : Option (Result Advanced × World)} (w1 : World)
            → w1.db.jobs ≡ w.db.jobs
            → (out : Result Advanced × World) × (rest ≡ some out) × (out.1.db.jobs ≡ w.db.jobs)
            → (out : Result Advanced × World) × (after_sync_slice r1 over
                  (hand_over env tenant left (left / microseconds_per_day + 1) requested_by w1)
                  rest
                  w1
                ≡ some out)
              × (out.1.db.jobs ≡ w.db.jobs)
        round (err x) over left w1 same ends = ((err x, w1), refl, same)
        round (ok u) true left w1 same ends = (_, refl, same)
        round (ok u) false left w1 same ends = ends

    pub advance_by-foreign :
        (duration : ℕ) (w : World)
        → IsForeign tenant w.db.jobs
        → (out : Result Advanced × World) × (advance_by settings registry env outage over_budget
              tenant requested_by duration w
            ≡ some out)
          × (out.1.db.jobs ≡ w.db.jobs)
    unfolding advance_by hand_over create_advance_job
    advance_by-foreign duration w foreign =
        elim (Bool-cases
          (ltb settings.sim_clock_advance_async_threshold_days (total_days duration))) [
            | inl long ↦
                (hand_over env tenant duration (total_days duration) requested_by w, rw long, refl)
            | inr short ↦
                let (out, e, same) =
                  sync_slices-foreign (suc duration) 0 duration w (omega arith) foreign in
                (out, rw short e, same)
          ]
