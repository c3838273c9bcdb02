-- ===== src/Scheduler/Order.antt =====
-- The jobs of a slice (core/sim_scheduler.py, `_run_one_slice`): which they are, and their order.
use mock_sim.Base.{
  ℕ, ◌+◌, ◌≤◌, ◌≡◌, refl, ◌∙◌, inl, inr, Bool, true, ◌&&◌, List, [], ◌∷◌, where_all, any_row,
  if◌then◌else◌, leb, Bool-cases, arith,
}
use mock_sim.Models.{SimSchedulerJob}
use mock_sim.Scheduler.{is_due, insert_job, order_jobs, due_jobs}

-- Each job is followed by one that does not fire before it.
abbrev pub IsInTimeOrder : List SimSchedulerJob → Type 0
IsInTimeOrder [] = Unit
IsInTimeOrder (a ∷ []) = Unit
IsInTimeOrder (a ∷ b ∷ rest) = (a.fire_at ≤ b.fire_at) × IsInTimeOrder (b ∷ rest)

insert_job-IsInTimeOrder :
    (a : SimSchedulerJob) (rows : List SimSchedulerJob)
    → IsInTimeOrder rows
    → IsInTimeOrder (insert_job a rows)
unfolding insert_job
insert_job-IsInTimeOrder a [] o = tt
insert_job-IsInTimeOrder a (b ∷ []) o = elim (Bool-cases (leb a.fire_at b.fire_at)) [
  | inl before ↦ rw before (ground arith, tt)
  | inr after ↦ rw after (ground arith, tt)
]
insert_job-IsInTimeOrder a (b ∷ c ∷ rest) o = elim (Bool-cases (leb a.fire_at b.fire_at)) [
  | inl before ↦ rw before (ground arith, o)
  | inr after ↦ elim (Bool-cases (leb a.fire_at c.fire_at)) [
    | inl before ↦ rw (after, before) (ground arith, (ground arith, o.1))
    | inr later ↦ rw (after, later) (o.0, (rw later at (insert_job-IsInTimeOrder a (c ∷ rest) o.1)))
  ]
]

order_jobs-IsInTimeOrder : (rows : List SimSchedulerJob) → IsInTimeOrder (order_jobs rows)
unfolding order_jobs
order_jobs-IsInTimeOrder [] = tt
order_jobs-IsInTimeOrder (a ∷ rows) =
    insert_job-IsInTimeOrder a (order_jobs rows) (order_jobs-IsInTimeOrder rows)

-- How many jobs meet a condition.
abbrev pub count_where : (SimSchedulerJob → Bool) → List SimSchedulerJob → ℕ
count_where p [] = 0
count_where p (j ∷ rest) = (if p j then 1 else 0) + count_where p rest

insert_job-count :
    (p : SimSchedulerJob → Bool) (a : SimSchedulerJob) (rows : List SimSchedulerJob)
    → count_where p (insert_job a rows) ≡ (if p a then 1 else 0) + count_where p rows
unfolding insert_job
insert_job-count p a [] = refl
insert_job-count p a (b ∷ rows) = elim (Bool-cases (leb a.fire_at b.fire_at)) [
  | inl before ↦ rw before refl
  | inr after ↦ rw after (omega (arith, insert_job-count p a rows))
]

order_jobs-count :
    (p : SimSchedulerJob → Bool) (rows : List SimSchedulerJob)
    → count_where p (order_jobs rows) ≡ count_where p rows
unfolding order_jobs
order_jobs-count p [] = refl
order_jobs-count p (a ∷ rows) =
    insert_job-count p a (order_jobs rows) ∙ (omega (arith, order_jobs-count p rows))

where_all-count :
    (q p : SimSchedulerJob → Bool) (rows : List SimSchedulerJob)
    → count_where p (where_all q rows) ≡ count_where (λ j. q j && p j) rows
where_all-count q p [] = refl
where_all-count q p (a ∷ rows) = elim (Bool-cases (q a)) [
  | inl passes ↦ rw passes (omega (arith, where_all-count q p rows))
  | inr fails ↦ rw fails (omega (arith, where_all-count q p rows))
]

pub any_row-count :
    (p : SimSchedulerJob → Bool) (rows : List SimSchedulerJob)
    → 1 ≤ count_where p rows
    → any_row p rows ≡ true
any_row-count p [] h = absurd (omega arith)
any_row-count p (a ∷ rows) h = elim (Bool-cases (p a)) [
  | inl passes ↦ rw passes
  | inr fails ↦
      let some_left : 1 ≤ 0 + count_where p rows = rw fails at h in
      rw fails (any_row-count p rows (omega (arith, some_left)))
]

-- A slice takes the jobs that are due, each as often as the table has it, in the order of their
-- times.
pub due_jobs-IsInTimeOrder :
    (tenant slice_end : ℕ) (rows : List SimSchedulerJob) (p : SimSchedulerJob → Bool)
    → IsInTimeOrder (due_jobs tenant slice_end rows)
      × (count_where p (due_jobs tenant slice_end rows)
          ≡ count_where (λ j. is_due tenant slice_end j && p j) rows)
unfolding due_jobs
due_jobs-IsInTimeOrder tenant slice_end rows p = (
  order_jobs-IsInTimeOrder (where_all (is_due tenant slice_end) rows),
  order_jobs-count p (where_all (is_due tenant slice_end) rows)
      ∙ where_all-count (is_due tenant slice_end) p rows,
)
