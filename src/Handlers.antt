-- ===== src/Handlers.antt =====
-- The registry of the scheduler as the program fills it at its start (main.py): the three job handlers
-- and their registrations (bank/payments.py, pos/settlement.py, pos/generator.py). A payload without
-- the keys of its type makes the handler raise; a Poisson loop that ran out of fuel counts as a raise.
pub mod Rules
pub mod Kept
pub mod Shop
pub mod Served
mod Tests
use mock_sim.Base.{ℕ, true, Option, [], Text, codes}
use mock_sim.Errors.{python_error}
use mock_sim.Models.{JobPayload, process_payment_job, settle_batch_job, generate_gmv_job}
use mock_sim.Session.{pure, raise, or_raise, ◌>>=◌, ◌>>◌}
use mock_sim.Calendar.{Date}
use mock_sim.Scheduler.{Handler, Registry, register_job_type}
use mock_sim.Bank.Payments.{process_payment}
use mock_sim.Pos.Random.{Floats, Random}
use mock_sim.Pos.Settlement.{settle_merchant_day}
use mock_sim.Pos.Generator.Day.{generate_merchant_day}

unfoldable pub process_payment_handler : Handler
process_payment_handler env fire_at (process_payment_job id tenant) =
    process_payment env tenant id >> pure tt
process_payment_handler env fire_at (settle_batch_job m date tenant) = raise python_error
process_payment_handler env fire_at (generate_gmv_job m date tenant) = raise python_error

unfoldable pub settle_batch_handler : Handler
settle_batch_handler env fire_at (settle_batch_job merchant_id date tenant) =
    settle_merchant_day env tenant merchant_id date >> pure tt
settle_batch_handler env fire_at (process_payment_job id tenant) = raise python_error
settle_batch_handler env fire_at (generate_gmv_job m date tenant) = raise python_error

module _ {F : Type 0} (fl : Floats F) (fuel : ℕ) (rng_for : ℕ → Text → Date → Random F) where
  unfoldable pub generate_gmv_handler : Handler
  generate_gmv_handler env fire_at (generate_gmv_job merchant_id date tenant) = do
    count ← generate_merchant_day fl fuel rng_for env tenant merchant_id date true
    or_raise count python_error
    pure tt
  generate_gmv_handler env fire_at (process_payment_job id tenant) = raise python_error
  generate_gmv_handler env fire_at (settle_batch_job m date tenant) = raise python_error

  -- The three calls of `register_handlers`, in the order of the start.
  unfoldable pub program_registry : Registry
  program_registry = register_job_type (codes "bank.process_payment") process_payment_handler (
      register_job_type (codes "pos.settle_batch") settle_batch_handler
        (register_job_type (codes "pos.generate_gmv") generate_gmv_handler []))
