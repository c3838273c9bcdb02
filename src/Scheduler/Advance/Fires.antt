-- ===== src/Scheduler/Advance/Fires.antt =====
-- `advance` and `_run_advance_async` (core/sim_scheduler.py) while the database is up: where the clock
-- arrives, and which jobs have been fired by then.
use mock_sim.Base.{
  ℕ, zero, suc, ◌+◌, ◌-◌, min, ◌<◌, ◌≡◌, refl, ◌∙◌, ◌⊎◌, inl, inr, Bool, false, not, ◌&&◌, some,
  List, leb, arith,
}
use mock_sim.Base.Along.{Along, Along-join, Along-both, All-any}
use mock_sim.Models.{SimSchedulerJob}
use mock_sim.Clock.{now}
use mock_sim.Session.{Env}
use mock_sim.Scheduler.{
  Registry, World, Outage, steady, is_pending, is_of_tenant, is_due, run_one_slice,
}
use mock_sim.Scheduler.Slice.{Served, run_one_slice-Served}
use mock_sim.Scheduler.Extends.{Extends, Extends-trans, Follows, KeepJobs}
use mock_sim.Scheduler.Advance.{
  Settings, slice_size, count_slice, after_async_slice, complete_advance, async_slices,
}

abbrev pub always_steady : ℕ → Outage
always_steady n = steady

-- The table as it was at the start, and a world: no job of that table is lost, and none of those of
-- the tenant, or of no tenant, that were due by the time of the clock is pending. Jobs of other
-- tenants, and jobs that were added since, are not spoken of.
pub record IsServed (tenant : ℕ) (rows : List SimSchedulerJob) (w : World) : Type 0 where
  pub extended : Extends rows w.db.jobs
  pub served : Along (Served tenant (now w.clock)) rows w.db.jobs

-- The same, or there is time left for another slice.
pub record CanServe (tenant : ℕ) (rows : List SimSchedulerJob) (left : ℕ) (w : World) : Type 0 where
  pub extended : Extends rows w.db.jobs
  pub served : (0 < left) ⊎ Along (Served tenant (now w.clock)) rows w.db.jobs

pub nothing_left :
    (tenant : ℕ) (rows : List SimSchedulerJob) (w : World)
    → CanServe tenant rows 0 w
    → IsServed tenant rows w
nothing_left tenant rows w c = record { extended = c.extended; served = served c.served }
  where
    served :
        (0 < 0) ⊎ Along (Served tenant (now w.clock)) rows w.db.jobs
        → Along (Served tenant (now w.clock)) rows w.db.jobs
    served (inl h) = absurd (omega arith)
    served (inr a) = a

Served-Follows :
    (tenant slice_end : ℕ) (r s t : SimSchedulerJob)
    → Follows r s
    → Follows s t × Served tenant slice_end s t
    → Served tenant slice_end r t
unfolding is_due
Served-Follows tenant slice_end r s t f (g, q) = (
  q.0 ∙ f.0,
  sooner (leb r.fire_at slice_end) (is_pending r.status) (is_pending s.status) (is_pending t.status)
      (is_of_tenant tenant r.mock_tenant_id) f.3 g.3 (rw (f.1, f.2) at q.1),
)
  where
    sooner :
        (early a b c mine : Bool)
        → (b && not a) ≡ false
        → (c && not b) ≡ false
        → ((early && b && mine) && c) ≡ false
        → ((early && a && mine) && c) ≡ false
    sooner early a b c mine h g q = ground arith

module _ (registry : Registry) (k : KeepJobs registry) (env : Env) (tenant : ℕ) where
  -- One more slice.
  pub slice-IsServed :
      (duration : ℕ) (rows : List SimSchedulerJob) (w : World)
      → Extends rows w.db.jobs
      → IsServed tenant rows (run_one_slice registry env steady duration tenant w).1
  slice-IsServed duration rows w e =
      let (_, moved, kept, served) = run_one_slice-Served registry env duration tenant w k in
      let slice_end = now w.clock + duration in
      record {
        extended = Extends-trans rows w.db.jobs _ e kept;
        served = rw moved (
            Along-join (λ _. Unit) Follows (λ s t. Follows s t × Served tenant slice_end s t)
              (Served tenant slice_end) (λ r s t _. Served-Follows tenant slice_end r s t) rows
              w.db.jobs _ (All-any (λ _. Unit) (λ _. tt) rows) e
              (Along-both Follows (Served tenant slice_end) w.db.jobs _ kept served));
      }

  module _ (settings : Settings) (positive : 0 < settings.sim_clock_advance_slice_days) where
    pub slice_size_pos : 0 < slice_size settings
    unfolding slice_size
    slice_size_pos = omega arith

    pub async_slices-IsServed :
        (job_id f n remaining : ℕ) (rows : List SimSchedulerJob) (w : World)
        → remaining < f
        → CanServe tenant rows remaining w
        → (w' : World) × (async_slices settings registry env always_steady job_id tenant f n
              remaining w
            ≡ some w')
          × (now w'.clock ≡ now w.clock + remaining)
          × IsServed tenant rows w'
    unfolding async_slices complete_advance count_slice after_async_slice
    async_slices-IsServed job_id zero n remaining rows w h c = absurd (omega arith)
    async_slices-IsServed job_id (suc f) n zero rows w h c =
        let s = nothing_left tenant rows w c in
        (
          complete_advance env job_id w,
          refl,
          omega arith,
          record { extended = s.extended; served = s.served },
        )
    async_slices-IsServed job_id (suc f) n (suc r) rows w h c =
        let slice_dur = min (slice_size settings) (suc r) in
        let w1 = (run_one_slice registry env steady slice_dur tenant w).1 in
        let (returns, moved, _, _) = run_one_slice-Served registry env slice_dur tenant w k in
        let s = slice-IsServed slice_dur rows w c.extended in
        let (w', e, arrived, ended) =
          async_slices-IsServed job_id f (suc n) (suc r - slice_dur) rows
            (count_slice env job_id (suc n) w1) (omega (arith, slice_size_pos))
            (record { extended = s.extended; served = inr s.served }) in
        (w', rw returns e, arrived ∙ omega (arith, moved), ended)
