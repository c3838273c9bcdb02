-- ===== src/Scheduler/Tests.antt =====
-- Tests and instances for core/sim_scheduler.py: a handler that schedules the next day's job and one
-- that raises.
use mock_sim.Base.{
  ℕ, ◌+◌, ◌≡◌, refl, Bool, false, ◌&&◌, none, some, List, [], ◌∷◌, Text, codes, text_eq, map, arith,
}
use mock_sim.Errors.{internal}
use mock_sim.Models.{SimSchedulerJob, JobStatus, process_payment_job, AdvanceStatus}
use mock_sim.Clock.{now}
use mock_sim.Calendar.{microseconds_per_day}
use mock_sim.Session.{ok, raise}
use mock_sim.Fixtures.{env, db}
use mock_sim.Scheduler.{
  new_job, Handler, Registry, World, steady, commit_fails, schedule_at, handler_of, is_due,
  due_jobs, order_jobs, insert_job, fire_jobs, call_handler, after_handler, write_jobs, commit_jobs,
  fire_slice, run_one_slice, has_id,
}
use mock_sim.Scheduler.Order.{IsInTimeOrder, count_where, due_jobs-IsInTimeOrder}
use mock_sim.Scheduler.Slice.{Served, run_one_slice-Served}
use mock_sim.Scheduler.Extends.{KeepsJobs, KeepJobs, Extends, Extends-append, Extends-refl}
use mock_sim.Scheduler.Advance.{default_settings, run_advance_async}
use mock_sim.Scheduler.Advance.Ends.{IsOver, run_advance_async-IsOver}
use mock_sim.Base.Along.{Along}

abbrev repeats : Handler
repeats e fire_at payload =
    schedule_at e (some 1) (fire_at + microseconds_per_day) (codes "daily") payload

abbrev breaks : Handler
breaks e fire_at payload = raise internal

abbrev registry : Registry
registry = (codes "daily", repeats) ∷ (codes "bad", breaks) ∷ []

repeats-KeepsJobs : KeepsJobs repeats
unfolding schedule_at
repeats-KeepsJobs = record { at = λ env fire_at payload d. Extends-append d.jobs _ }

breaks-KeepsJobs : KeepsJobs breaks
breaks-KeepsJobs = record { at = λ env fire_at payload d. Extends-refl d.jobs }

registry-KeepJobs : KeepJobs registry
registry-KeepJobs = (repeats-KeepsJobs, (breaks-KeepsJobs, tt))

abbrev job : ℕ → ℕ → Text → SimSchedulerJob
job id fire_at job_type = record {
  id = id;
  mock_tenant_id = some 1;
  fire_at = fire_at;
  job_type = job_type;
  payload = process_payment_job (codes "E2E") 1;
  status = JobStatus.pending;
  fired_at = none;
  error = none;
  created_at = 0;
}

abbrev rows : List SimSchedulerJob
rows = job 101 7 (codes "bad") ∷ job 102 3 (codes "daily") ∷ job 103 900 (codes "other") ∷ []

abbrev world : World
world = record {
  clock = record { t = 1 };
  db = record db {
    jobs = rows;
    advance_jobs =
        record {
          id = 7;
          mock_tenant_id = 1;
          requested_by = codes "admin";
          target_sim_time = 30;
          status = AdvanceStatus.pending;
          slices_total = 1;
          slices_done = 0;
          started_at = none;
          completed_at = none;
          error = none;
          created_at = 0;
        }
        ∷ [];
  };
}

the_earlier_first : map (λ (j : SimSchedulerJob). j.id) (due_jobs 1 10 rows) ≡ 102 ∷ 101 ∷ []
unfolding due_jobs is_due order_jobs insert_job
the_earlier_first = refl

the_statuses :
    map (λ (j : SimSchedulerJob). j.status) (run_one_slice registry env steady 9 1 world).1.db.jobs
    ≡ JobStatus.failed ∷ JobStatus.fired ∷ JobStatus.pending ∷ JobStatus.pending ∷ []
unfolding run_one_slice fire_slice commit_jobs due_jobs is_due order_jobs insert_job fire_jobs
    call_handler after_handler handler_of write_jobs schedule_at new_job text_eq
the_statuses = refl

due_jobs-IsInTimeOrder_example :
    IsInTimeOrder (due_jobs 1 10 rows)
    × (count_where (has_id 101) (due_jobs 1 10 rows)
        ≡ count_where (λ j. is_due 1 10 j && has_id 101 j) rows)
due_jobs-IsInTimeOrder_example = due_jobs-IsInTimeOrder 1 10 rows (has_id 101)

run_one_slice-Served_example :
    ((run_one_slice registry env steady 9 1 world).0 ≡ ok tt)
    × (now (run_one_slice registry env steady 9 1 world).1.clock ≡ 1 + 9)
    × Extends rows (run_one_slice registry env steady 9 1 world).1.db.jobs
    × Along (Served 1 (1 + 9)) rows (run_one_slice registry env steady 9 1 world).1.db.jobs
run_one_slice-Served_example = run_one_slice-Served registry env 9 1 world registry-KeepJobs

abbrev never : ℕ → Bool
never n = false

run_advance_async-IsOver_example :
    (w' : World) × (run_advance_async default_settings registry env (λ n. commit_fails) 7 1 30 world
      ≡ some w')
    × IsOver 7 w'
run_advance_async-IsOver_example =
    run_advance_async-IsOver default_settings (omega arith) registry env (λ n. commit_fails) 7 1 30
      world
