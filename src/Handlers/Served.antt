-- ===== src/Handlers/Served.antt =====
-- An advance of the clock (core/sim_scheduler.py) with the job handlers of the program.
use mock_sim.Base.{◌≡◌, ◌<◌, ◌+◌, ℕ, Bool, some, Text, text_eq}
use mock_sim.Models.{process_payment_job, settle_batch_job, generate_gmv_job, JobPayload}
use mock_sim.Clock.{now}
use mock_sim.Calendar.{Date}
use mock_sim.Session.{Env, Result}
use mock_sim.Scheduler.{World, register_job_type}
use mock_sim.Scheduler.Extends.{KeepJobs}
use mock_sim.Scheduler.Advance.{Settings, Advanced, advance_by}
use mock_sim.Scheduler.Advance.Fires.{always_steady, IsServed}
use mock_sim.Scheduler.Advance.Lands.{finish, advance_by-IsServed}
use mock_sim.Pos.Random.{Floats, Random}
use mock_sim.Handlers.{
  process_payment_handler, settle_batch_handler, generate_gmv_handler, program_registry,
}
use mock_sim.Handlers.Rules.{ExtendsJobs, jobs_rules}
use mock_sim.Handlers.Kept.{process_payment-ExtendsJobs}
use mock_sim.Handlers.Shop.{settle_merchant_day-ExtendsJobs, generate_merchant_day-ExtendsJobs}

process_payment_handler-ExtendsJobs :
    (env : Env) (fire_at : ℕ) (payload : JobPayload)
    → ExtendsJobs (process_payment_handler env fire_at payload)
unfolding process_payment_handler
process_payment_handler-ExtendsJobs env fire_at (process_payment_job id tenant) =
    search (jobs_rules, process_payment-ExtendsJobs)
process_payment_handler-ExtendsJobs env fire_at (settle_batch_job m date tenant) = search jobs_rules
process_payment_handler-ExtendsJobs env fire_at (generate_gmv_job m date tenant) = search jobs_rules

settle_batch_handler-ExtendsJobs :
    (env : Env) (fire_at : ℕ) (payload : JobPayload)
    → ExtendsJobs (settle_batch_handler env fire_at payload)
unfolding settle_batch_handler
settle_batch_handler-ExtendsJobs env fire_at (settle_batch_job m date tenant) =
    search (jobs_rules, settle_merchant_day-ExtendsJobs)
settle_batch_handler-ExtendsJobs env fire_at (process_payment_job id tenant) = search jobs_rules
settle_batch_handler-ExtendsJobs env fire_at (generate_gmv_job m date tenant) = search jobs_rules

module _ {F : Type 0} (fl : Floats F) (fuel : ℕ) (rng_for : ℕ → Text → Date → Random F) where
  generate_gmv_handler-ExtendsJobs :
      (env : Env) (fire_at : ℕ) (payload : JobPayload)
      → ExtendsJobs (generate_gmv_handler fl fuel rng_for env fire_at payload)
  unfolding generate_gmv_handler
  generate_gmv_handler-ExtendsJobs env fire_at (generate_gmv_job m date tenant) =
      search (jobs_rules, generate_merchant_day-ExtendsJobs)
  generate_gmv_handler-ExtendsJobs env fire_at (process_payment_job id tenant) = search jobs_rules
  generate_gmv_handler-ExtendsJobs env fire_at (settle_batch_job m date tenant) = search jobs_rules

  program_registry-KeepJobs : KeepJobs (program_registry fl fuel rng_for)
  unfolding program_registry register_job_type text_eq
  program_registry-KeepJobs = (
    record {
      at = λ env fire_at payload d. (generate_gmv_handler-ExtendsJobs env fire_at payload).at d;
    },
    (
      record {
        at = λ env fire_at payload d. (settle_batch_handler-ExtendsJobs env fire_at payload).at d;
      },
      (
        record {
          at = λ env fire_at payload d.
              (process_payment_handler-ExtendsJobs env fire_at payload).at d;
        },
        tt,
      ),
    ),
  )

  module _ (env : Env) (tenant : ℕ) (settings : Settings)
      (positive : 0 < settings.sim_clock_advance_slice_days) (over_budget : ℕ → Bool)
      (requested_by : Text) where
    -- With the handlers that the program registers, an advance of a positive duration ends while the
    -- database is up, at once or with its background task, whatever the payments, the settlements and
    -- the days of sales in it come to: the clock has then moved by exactly the duration, no job that
    -- the table had at the start is lost, and of those none that is of the advance's tenant, or of no
    -- tenant, and was due by the new time is pending. Jobs of other tenants, and jobs that the advance
    -- itself creates, are not spoken of.
    pub advance_by-program_registry-IsServed :
        (duration : ℕ) (w : World)
        → 0 < duration
        → (out : Result Advanced × World) × (w' : World) × (advance_by settings
              (program_registry fl fuel rng_for)
              env
              always_steady
              over_budget
              tenant
              requested_by
              duration
              w
            ≡ some out)
          × (finish settings (program_registry fl fuel rng_for) env tenant out ≡ some w')
          × (now w'.clock ≡ now w.clock + duration)
          × IsServed tenant w.db.jobs w'
    advance_by-program_registry-IsServed =
        advance_by-IsServed (program_registry fl fuel rng_for) program_registry-KeepJobs env tenant
          settings positive over_budget requested_by
