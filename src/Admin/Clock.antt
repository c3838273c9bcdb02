-- ===== src/Admin/Clock.antt =====
-- The advance of the clock in admin/api.py, over the jobs of core/sim_scheduler.py. Every caller of
-- `schedule_at` gives a tenant, and the admin's own, zero, is the tenant of none of them.
use mock_sim.Base.{ℕ, ◌<◌, ◌≡◌, refl, ◌∙◌, inl, inr, Bool, some, ◌==◌, Bool-cases, codes}
use mock_sim.Clock.{now}
use mock_sim.Session.{Env, Result, ok, err}
use mock_sim.Scheduler.{Registry, World, Outage}
use mock_sim.Scheduler.Advance.{Settings, Advanced, run_advance_async}
use mock_sim.Scheduler.Advance.Foreign.{IsForeign, run_advance_async-foreign, advance_by-foreign}
use mock_sim.Admin.{AdvanceClockRequest, duration_of, ClockAnswer, noop, as_answer, advance_clock}

module _ (settings : Settings) (positive : 0 < settings.sim_clock_advance_slice_days)
    (registry : Registry) (env : Env) (outage : ℕ → Outage) (over_budget : ℕ → Bool)
    (body : AdvanceClockRequest) (job_id left : ℕ) (w : World) where
  -- Where every job is of a tenant other than zero, an advance by the admin, whatever its length,
  -- fires none: it ends, so does a background task after it, and each leaves the table of the jobs
  -- as it was, with all that are due still pending, whatever fails in the slices.
  pub advance_clock-fires_none :
      IsForeign 0 w.db.jobs
      → (answer : Result ClockAnswer) × (w' : World) × (w'' : World) × (advance_clock settings
            registry env outage over_budget body w
          ≡ some (answer, w'))
        × (run_advance_async settings registry env outage job_id 0 left w' ≡ some w'')
        × (w'.db.jobs ≡ w.db.jobs)
        × (w''.db.jobs ≡ w.db.jobs)
  unfolding advance_clock
  advance_clock-fires_none foreign = elim (Bool-cases (duration_of body == 0)) [
    | inl none_asked ↦
        let (w'', e, same) =
          run_advance_async-foreign settings positive registry env outage 0 job_id left w foreign in
        (ok (noop (now w.clock)), w, w'', rw none_asked, e, refl, same)
    | inr asked ↦
        let (out, e, same) =
          advance_by-foreign settings positive registry env outage 0 over_budget (codes "admin")
            (duration_of body) w foreign in
        let (w'', e', same') =
          run_advance_async-foreign settings positive registry env outage 0 job_id left out.1
            (rw same foreign) in
        ((as_answer out).0, out.1, w'', rw (asked, e, answered out), e', same, same' ∙ same)
  ]
    where
      answered : (out : Result Advanced × World) → as_answer out ≡ ((as_answer out).0, out.1)
      answered (ok a, w) = refl
      answered (err e, w) = refl
