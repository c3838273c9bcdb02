-- ===== src/Scheduler/Advance/Ends.antt =====
-- `_run_advance_async` (core/sim_scheduler.py), also where the database fails in a slice.
use mock_sim.Base.{
  ℕ, zero, suc, ◌-◌, min, ◌<◌, ◌≡◌, refl, inl, inr, Bool, true, false, not, ◌&&◌, Option, some,
  List, [], ◌∷◌, All, update_where, Bool-cases, arith,
}
use mock_sim.Models.{ClockAdvanceJob, AdvanceStatus}
use mock_sim.Session.{Env, Result, ok, err}
use mock_sim.Scheduler.{Registry, World, Outage, run_one_slice}
use mock_sim.Scheduler.Advance.{
  Settings, slice_size, is_advance, start_advance, count_slice, complete_advance, fail_advance,
  after_async_slice, async_slices, run_advance_async,
}

abbrev pub is_over : AdvanceStatus → Bool
is_over AdvanceStatus.pending = false
is_over AdvanceStatus.running = false
is_over AdvanceStatus.complete = true
is_over AdvanceStatus.failed = true

-- Every row with the id of the advance is complete or failed.
abbrev pub IsOver : ℕ → World → Type 0
IsOver job_id w =
    All (λ j. (is_advance job_id j && not (is_over j.status)) ≡ false) w.db.advance_jobs

update_where-IsOver :
    (job_id : ℕ) (f : ClockAdvanceJob → ClockAdvanceJob)
    → ((j : ClockAdvanceJob) → is_over (f j).status ≡ true)
    → (rows : List ClockAdvanceJob)
    → All
        (λ j. (is_advance job_id j && not (is_over j.status)) ≡ false)
        (update_where (is_advance job_id) f rows)
update_where-IsOver job_id f h [] = tt
update_where-IsOver job_id f h (j ∷ rows) = elim (Bool-cases (is_advance job_id j)) [
  | inl hit ↦ rw hit (rw (h j) (ground arith), update_where-IsOver job_id f h rows)
  | inr miss ↦ rw miss (rw miss, update_where-IsOver job_id f h rows)
]

module _ (settings : Settings) (positive : 0 < settings.sim_clock_advance_slice_days)
    (registry : Registry) (env : Env) (outage : ℕ → Outage) (job_id tenant : ℕ) where
  async_slices-IsOver :
      (f n remaining : ℕ) (w : World)
      → remaining < f
      → (w' : World) × (async_slices settings registry env outage job_id tenant f n remaining w
          ≡ some w')
        × IsOver job_id w'
  unfolding async_slices slice_size complete_advance after_async_slice fail_advance
  async_slices-IsOver zero n remaining w h = absurd (omega arith)
  async_slices-IsOver (suc f) n zero w h = (
    complete_advance env job_id w,
    refl,
    update_where-IsOver job_id _ (λ j. refl) w.db.advance_jobs,
  )
  async_slices-IsOver (suc f) n (suc r) w h =
      let slice_dur = min (slice_size settings) (suc r) in
      let w1 = (run_one_slice registry env (outage n) slice_dur tenant w).1 in
      round (run_one_slice registry env (outage n) slice_dur tenant w).0 _ w1 (
        async_slices-IsOver f (suc n) (suc r - slice_dur) (count_slice env job_id (suc n) w1)
          (omega arith))
    where
      round :
          (r' : Result (Unit {0})) (rest : Option World) (w1 : World)
          → (w' : World) × (rest ≡ some w') × IsOver job_id w'
          → (w' : World) × (after_async_slice env job_id r' rest w1 ≡ some w') × IsOver job_id w'
      round (ok u) rest w1 e = e
      round (err x) rest w1 e = (
        fail_advance env job_id x w1,
        refl,
        update_where-IsOver job_id _ (λ j. refl) w1.db.advance_jobs,
      )

  -- With slices of a positive length, the background task of an advance ends, whatever fails in its
  -- slices, and leaves the job that it runs complete or failed.
  pub run_advance_async-IsOver :
      (remaining : ℕ) (w : World)
      → (w' : World) × (run_advance_async settings registry env outage job_id tenant remaining w
          ≡ some w')
        × IsOver job_id w'
  unfolding run_advance_async
  run_advance_async-IsOver remaining w =
      async_slices-IsOver (suc remaining) 0 remaining (start_advance env job_id w) (omega arith)
