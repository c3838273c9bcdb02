-- ===== src/Scheduler/Slice.antt =====
-- `_run_one_slice` (core/sim_scheduler.py): every job that was due has been fired or has failed when
-- the slice has committed, and no row of the table is lost.
use mock_sim.Base.{
  ℕ, ◌+◌, ◌≤◌, ◌≡◌, refl, ◌∙◌, ◌⊎◌, inl, inr, Bool, true, false, not, ◌&&◌, Option, none, some,
  List, [], ◌∷◌, All, any_row, update_where, if◌then◌else◌, ◌==◌, ==_refl, Bool-cases, arith,
}
use mock_sim.Base.Along.{Along, Along-refl, Along-join, Along-both, Along-update_where, All-any}
use mock_sim.Models.{SimSchedulerJob}
use mock_sim.Clock.{now}
use mock_sim.Session.{Env, Db, Result, ok, err}
use mock_sim.Scheduler.{
  Handler, Registry, World, steady, is_pending, is_due, due_jobs, handler_of, after_handler,
  call_handler, fire_jobs, has_id, assign, write_jobs, commit_jobs, fire_slice, run_one_slice,
}
use mock_sim.Scheduler.Order.{due_jobs-IsInTimeOrder, any_row-count, count_where}
use mock_sim.Scheduler.Extends.{
  Follows, Follows-refl, Extends, Extends-refl, Extends-trans, KeepJobs, handler_of-KeepsJobs,
}

after_handler_lem :
    (env : Env) (r : Result (Unit {0})) (j : SimSchedulerJob)
    → ((after_handler env r j).id ≡ j.id) × (is_pending (after_handler env r j).status ≡ false)
unfolding after_handler
after_handler_lem env (ok u) j = (refl, refl)
after_handler_lem env (err e) j = (refl, refl)

abbrev Done : SimSchedulerJob → Type 0
Done j = is_pending j.status ≡ false

-- What firing one job does: the job keeps its id and is not pending, and the table is extended.
module _ (registry : Registry) (k : KeepJobs registry) (env : Env) where
  call_handler_lem :
      (h : Option Handler) (j : SimSchedulerJob) (d : Db)
      → handler_of j.job_type registry ≡ h
      → ((call_handler env h j d).0.id ≡ j.id)
        × (is_pending (call_handler env h j d).0.status ≡ false)
        × Extends d.jobs (call_handler env h j d).1.jobs
  unfolding call_handler
  call_handler_lem none j d e = (refl, refl, Extends-refl d.jobs)
  call_handler_lem (some h) j d e =
      let kept = (handler_of-KeepsJobs j.job_type registry h k e).at env j.fire_at j.payload d in
      let (same, done) = after_handler_lem env (h env j.fire_at j.payload d).0 j in
      (same, done, kept)

  fire_jobs_lem :
      (jobs : List SimSchedulerJob) (d : Db)
      → All Done (fire_jobs registry env jobs d).0
        × Extends d.jobs (fire_jobs registry env jobs d).1.jobs
        × ((id : ℕ)
            → any_row (has_id id) (fire_jobs registry env jobs d).0 ≡ any_row (has_id id) jobs)
  unfolding fire_jobs
  fire_jobs_lem [] d = (tt, Extends-refl d.jobs, λ id. refl)
  fire_jobs_lem (j ∷ rest) d =
      let (same, done, kept) = call_handler_lem (handler_of j.job_type registry) j d refl in
      let d' = (call_handler env (handler_of j.job_type registry) j d).1 in
      let (all_done, more, ids) = fire_jobs_lem rest d' in
      ((done, all_done), Extends-trans d.jobs d'.jobs _ kept more, λ id. rw (same, ids id) refl)

-- A row of the table before the writes, and the same row after them.
abbrev Written : List SimSchedulerJob → SimSchedulerJob → SimSchedulerJob → Type 0
Written jobs r r' = (r'.id ≡ r.id) × ((any_row (has_id r.id) jobs && is_pending r'.status) ≡ false)

write_jobs-Extends :
    (jobs rows : List SimSchedulerJob) → All Done jobs → Extends rows (write_jobs jobs rows)
unfolding write_jobs
write_jobs-Extends [] rows h = Extends-refl rows
write_jobs-Extends (j ∷ rest) rows h =
    Extends-trans rows _ _
      (Along-update_where Follows (has_id j.id) (assign j) (λ r _. Follows-refl r)
        (λ r _. (refl, refl, refl, rw h.0)) rows)
      (write_jobs-Extends rest _ h.1)

-- The same for the write of one job.
abbrev Touched : SimSchedulerJob → SimSchedulerJob → SimSchedulerJob → Type 0
Touched j r r' = (r'.id ≡ r.id) × (((j.id == r.id) && is_pending r'.status) ≡ false)

Written-cons :
    (j : SimSchedulerJob) (rest : List SimSchedulerJob) (r s t : SimSchedulerJob)
    → Touched j r s
    → Follows s t × Written rest s t
    → Written (j ∷ rest) r t
Written-cons j rest r s t p (f, q) = (q.0 ∙ p.0, either (Bool-cases (j.id == r.id)))
  where
    later : Bool
    later = is_pending t.status

    either :
        ((j.id == r.id) ≡ true) ⊎ ((j.id == r.id) ≡ false)
        → ((if j.id == r.id then true else any_row (has_id r.id) rest) && later) ≡ false
    either (inl hit) =
        let gone : is_pending s.status ≡ false = rw hit at p.1 in
        let still : (is_pending t.status && not false) ≡ false = rw gone at f.3 in
        rw hit (ground arith)
    either (inr miss) = rw miss (rw p.0 at q.1)

write_jobs-Written :
    (jobs rows : List SimSchedulerJob)
    → All Done jobs
    → Along (Written jobs) rows (write_jobs jobs rows)
unfolding write_jobs
write_jobs-Written [] rows h = Along-refl (Written []) (λ r. (refl, refl)) rows
write_jobs-Written (j ∷ rest) rows h =
    let rows' = update_where (has_id j.id) (assign j) rows in
    Along-join (λ _. Unit) (Touched j) (λ s t. Follows s t × Written rest s t) (Written (j ∷ rest))
      (λ r s t _. Written-cons j rest r s t) rows rows' (write_jobs rest rows')
      (All-any (λ _. Unit) (λ _. tt) rows)
      (Along-update_where (Touched j) (has_id j.id) (assign j) (λ r miss. (refl, ground arith))
        (λ r hit. (refl, rw h.0 (ground arith))) rows)
      (Along-both Follows (Written rest) rows' _ (write_jobs-Extends rest rows' h.1)
        (write_jobs-Written rest rows' h.1))

-- A row that was due at the end of the slice, or not, and the same row later.
abbrev pub Served : ℕ → ℕ → SimSchedulerJob → SimSchedulerJob → Type 0
Served tenant slice_end r r' =
    (r'.id ≡ r.id) × ((is_due tenant slice_end r && is_pending r'.status) ≡ false)

-- Of each row that is due, a found id.
found_due :
    (due : SimSchedulerJob → Bool) (found : ℕ → Bool) (whole rest : List SimSchedulerJob)
    → ((p : SimSchedulerJob → Bool) → count_where p rest ≤ count_where p whole)
    → ((id : ℕ) → 1 ≤ count_where (λ j. due j && has_id id j) whole → found id ≡ true)
    → All (λ r. (due r && not (found r.id)) ≡ false) rest
found_due due found whole [] part h = tt
found_due due found whole (r ∷ rest) part h = (
  elim (Bool-cases (due r)) [
    | inr fails ↦ rw fails
    | inl holds ↦
        let counted : 1 ≤ count_where (λ j. due j && has_id r.id j) (r ∷ rest) =
          rw (holds, ==_refl r.id) (omega arith) in
        rw (holds, h r.id (omega (arith, counted, part (λ j. due j && has_id r.id j))))
  ],
  found_due due found whole rest (λ p. omega (arith, part p)) h,
)

Served-Written :
    (tenant slice_end : ℕ) (jobs : List SimSchedulerJob) (r s t : SimSchedulerJob)
    → (is_due tenant slice_end r && not (any_row (has_id r.id) jobs)) ≡ false
    → Follows r s
    → Written jobs s t
    → Served tenant slice_end r t
Served-Written tenant slice_end jobs r s t c f q = (
  q.0 ∙ f.0,
  both (is_due tenant slice_end r) (any_row (has_id r.id) jobs) (is_pending t.status) c
      (rw f.0 at q.1),
)
  where
    both :
        (due found left : Bool)
        → (due && not found) ≡ false
        → (found && left) ≡ false
        → (due && left) ≡ false
    both due found left h k = ground arith

-- A slice that the database lets commit moves the clock by its duration. It keeps every job of the
-- table, whose id, time and tenant stay, and none of those that were due is pending any longer.
pub run_one_slice-Served :
    (registry : Registry) (env : Env) (duration tenant : ℕ) (w : World)
    → KeepJobs registry
    → ((run_one_slice registry env steady duration tenant w).0 ≡ ok tt)
      × (now (run_one_slice registry env steady duration tenant w).1.clock ≡ now w.clock + duration)
      × Extends w.db.jobs (run_one_slice registry env steady duration tenant w).1.db.jobs
      × Along
          (Served tenant (now w.clock + duration))
          w.db.jobs
          (run_one_slice registry env steady duration tenant w).1.db.jobs
unfolding run_one_slice fire_slice commit_jobs
run_one_slice-Served registry env duration tenant w k =
    let slice_end = now w.clock + duration in
    let jobs = due_jobs tenant slice_end w.db.jobs in
    let fired = fire_jobs registry (record env { sim = slice_end }) jobs w.db in
    let (done, kept, ids) = fire_jobs_lem registry k (record env { sim = slice_end }) jobs w.db in
    (
      refl,
      refl,
      Extends-trans w.db.jobs fired.1.jobs _ kept (write_jobs-Extends fired.0 fired.1.jobs done),
      Along-join (λ r. (is_due tenant slice_end r && not (any_row (has_id r.id) fired.0)) ≡ false)
          Follows (Written fired.0) (Served tenant slice_end)
          (Served-Written tenant slice_end fired.0) w.db.jobs fired.1.jobs _
          (found_due (is_due tenant slice_end) (λ id. any_row (has_id id) fired.0) w.db.jobs
            w.db.jobs (λ p. omega arith)
            (λ id h.
              ids id
              ∙ any_row-count (has_id id) jobs
                  (rw (due_jobs-IsInTimeOrder tenant slice_end w.db.jobs (has_id id)).1 h)))
          kept (write_jobs-Written fired.0 fired.1.jobs done),
    )
