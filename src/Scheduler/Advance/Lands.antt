-- ===== src/Scheduler/Advance/Lands.antt =====
-- `advance` (core/sim_scheduler.py) while the database is up: what it has reached when it answers, and
-- what the background task makes of it.
use mock_sim.Base.{
  ℕ, zero, suc, ◌+◌, ◌-◌, ◌/◌, min, ◌<◌, ◌≡◌, refl, subst, ◌∙◌, inl, inr, Bool, true, ◌&&◌, Option,
  some, List, Text, any_row, ltb, ◌==◌, ==_refl, Bool-cases, arith,
}
use mock_sim.Base.Along.{any_row-append_one}
use mock_sim.Models.{SimSchedulerJob}
use mock_sim.Clock.{now}
use mock_sim.Calendar.{microseconds_per_day}
use mock_sim.Session.{Env, Result, ok, err}
use mock_sim.Scheduler.{Registry, World, steady, run_one_slice}
use mock_sim.Scheduler.Slice.{run_one_slice-Served}
use mock_sim.Scheduler.Extends.{Extends-refl, KeepJobs}
use mock_sim.Scheduler.Advance.{
  Settings, slice_size, Advanced, complete, accepted, hand_over, create_advance_job, sync_slices,
  advance_by, total_days, is_advance, start_advance, after_sync_slice, run_advance_async,
}
use mock_sim.Scheduler.Advance.Fires.{
  always_steady, IsServed, CanServe, nothing_left, slice-IsServed, slice_size_pos,
  async_slices-IsServed,
}

-- The row of an advance that was handed over: pending, and for this time.
abbrev pub IsPromised : ℕ → ℕ → World → Type 0
IsPromised job_id goal w =
    any_row (λ j. is_advance job_id j && (j.target_sim_time == goal)) w.db.advance_jobs ≡ true

module _ (tenant : ℕ) where
  -- What `advance` has reached when it answers.
  abbrev pub Lands : ℕ → List SimSchedulerJob → Result Advanced × World → Type 0
  Lands goal rows (ok (complete t), w) = (t ≡ goal) × (now w.clock ≡ goal) × IsServed tenant rows w
  Lands goal rows (ok (accepted job_id left), w) =
      (now w.clock + left ≡ goal) × IsPromised job_id goal w × CanServe tenant rows left w
  Lands goal rows (err e, w) = ⊥

module _ (settings : Settings) (registry : Registry) (env : Env) (tenant : ℕ) where
  -- The task that an answer has left to run, if any.
  abbrev pub finish : Result Advanced × World → Option World
  finish (ok (complete t), w) = some w
  finish (ok (accepted job_id left), w) =
      run_advance_async settings registry env always_steady job_id tenant left w
  finish (err e, w) = some w

module _ (registry : Registry) (k : KeepJobs registry) (env : Env) (tenant : ℕ) where
  hand_over-Lands :
      (left slices : ℕ) (requested_by : Text) (goal : ℕ) (rows : List SimSchedulerJob) (w : World)
      → now w.clock + left ≡ goal
      → CanServe tenant rows left w
      → Lands tenant goal rows (hand_over env tenant left slices requested_by w)
  unfolding hand_over create_advance_job
  hand_over-Lands left slices requested_by goal rows w e c = (
    e,
    any_row-append_one (λ j. is_advance (env.draw w.db.draws) j && (j.target_sim_time == goal))
        w.db.advance_jobs _ (rw (e, ==_refl goal, ==_refl (env.draw w.db.draws))),
    record { extended = c.extended; served = c.served },
  )

  module _ (settings : Settings) (positive : 0 < settings.sim_clock_advance_slice_days)
      (over_budget : ℕ → Bool) (requested_by : Text) where
    sync_slices-Lands :
        (f n remaining : ℕ) (rows : List SimSchedulerJob) (w : World)
        → remaining < f
        → CanServe tenant rows remaining w
        → (out : Result Advanced × World) × (sync_slices settings registry env always_steady
              over_budget tenant requested_by f n remaining w
            ≡ some out)
          × Lands tenant (now w.clock + remaining) rows out
    unfolding sync_slices after_sync_slice
    sync_slices-Lands zero n remaining rows w h c = absurd (omega arith)
    sync_slices-Lands (suc f) n zero rows w h c = (
      (ok (complete (now w.clock)), w),
      refl,
      (omega arith, omega arith, nothing_left tenant rows w c),
    )
    sync_slices-Lands (suc f) n (suc r) rows w h c =
        let slice_dur = min (slice_size settings) (suc r) in
        let left = suc r - slice_dur in
        let w1 = (run_one_slice registry env steady slice_dur tenant w).1 in
        let (returns, moved, _, _) = run_one_slice-Served registry env slice_dur tenant w k in
        let s = slice-IsServed registry k env tenant slice_dur rows w c.extended in
        let served : CanServe tenant rows left w1 = record {
          extended = s.extended;
          served = inr s.served;
        } in
        let same : now w1.clock + left ≡ now w.clock + suc r = omega (arith, moved) in
        let slices = left / microseconds_per_day + 1 in
        elim (Bool-cases (over_budget n)) [
          | inl over ↦ (
            hand_over env tenant left slices requested_by w1,
            rw (returns, over),
            hand_over-Lands left slices requested_by (now w.clock + suc r) rows w1 same served,
          )
          | inr under ↦
              let (out, e, lands) =
                sync_slices-Lands f (suc n) left rows w1
                  (omega (arith, slice_size_pos registry k env tenant settings positive)) served in
              (out, rw (returns, under) e, subst (λ goal. Lands tenant goal rows out) same lands)
        ]

    advance_by-Lands :
        (duration : ℕ) (w : World)
        → 0 < duration
        → (out : Result Advanced × World) × (advance_by settings registry env always_steady
              over_budget tenant requested_by duration w
            ≡ some out)
          × Lands tenant (now w.clock + duration) w.db.jobs out
    unfolding advance_by
    advance_by-Lands duration w h =
        let ready : CanServe tenant w.db.jobs duration w = record {
          extended = Extends-refl w.db.jobs;
          served = inl h;
        } in
        elim (Bool-cases
          (ltb settings.sim_clock_advance_async_threshold_days (total_days duration))) [
            | inl long ↦ (
              hand_over env tenant duration (total_days duration) requested_by w,
              rw long,
              hand_over-Lands duration (total_days duration) requested_by (now w.clock + duration)
                  w.db.jobs w refl ready,
            )
            | inr short ↦
                let (out, e, lands) =
                  sync_slices-Lands (suc duration) 0 duration w.db.jobs w (omega arith) ready in
                (out, rw short e, lands)
          ]

    finish-IsServed :
        (goal : ℕ) (rows : List SimSchedulerJob) (out : Result Advanced × World)
        → Lands tenant goal rows out
        → (w' : World) × (finish settings registry env tenant out ≡ some w')
          × (now w'.clock ≡ goal)
          × IsServed tenant rows w'
    unfolding run_advance_async start_advance
    finish-IsServed goal rows (ok (complete t), w) h = (w, refl, h.1, h.2)
    finish-IsServed goal rows (ok (accepted job_id left), w) h =
        let (w', e, arrived, served) =
          async_slices-IsServed registry k env tenant settings positive job_id (suc left) 0 left
            rows (start_advance env job_id w) (omega arith)
            (record { extended = h.2.extended; served = h.2.served }) in
        (w', e, arrived ∙ h.0, served)
    finish-IsServed goal rows (err e, w) h = elim h [ ]

    -- An advance of a positive duration, while the database is up and with handlers that lose no job,
    -- ends, at once or with its background task: the clock has then moved by exactly the duration, no
    -- job that the table had at the start is lost, and of those none that is of the tenant, or of no
    -- tenant, and was due by the new time is pending.
    pub advance_by-IsServed :
        (duration : ℕ) (w : World)
        → 0 < duration
        → (out : Result Advanced × World) × (w' : World) × (advance_by settings registry env
              always_steady over_budget tenant requested_by duration w
            ≡ some out)
          × (finish settings registry env tenant out ≡ some w')
          × (now w'.clock ≡ now w.clock + duration)
          × IsServed tenant w.db.jobs w'
    advance_by-IsServed duration w h =
        let (out, answered, lands) = advance_by-Lands duration w h in
        let (w', ended, arrived, served) =
          finish-IsServed (now w.clock + duration) w.db.jobs out lands in
        (out, w', answered, ended, arrived, served)
