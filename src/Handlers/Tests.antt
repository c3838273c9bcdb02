-- ===== src/Handlers/Tests.antt =====
-- An instance for the handlers of the program.
use mock_sim.Base.{◌≡◌, ◌+◌, ℕ, Bool, false, some, none, [], ◌∷◌, codes, arith}
use mock_sim.Models.{SimSchedulerJob, JobStatus, process_payment_job}
use mock_sim.Clock.{now}
use mock_sim.Session.{Result}
use mock_sim.Scheduler.{World}
use mock_sim.Scheduler.Advance.{Advanced, advance_by, default_settings}
use mock_sim.Scheduler.Advance.Fires.{always_steady, IsServed}
use mock_sim.Scheduler.Advance.Lands.{finish}
use mock_sim.Handlers.{program_registry}
use mock_sim.Handlers.Served.{advance_by-program_registry-IsServed}
use mock_sim.Fixtures.{env, db}
use mock_sim.Fixtures.Shop.{floats, rng_for}

-- The job of the payment of the test data.
abbrev job : SimSchedulerJob
job = record {
  id = 5;
  mock_tenant_id = some 1;
  fire_at = 7;
  job_type = codes "bank.process_payment";
  payload = process_payment_job (codes "E2E") 1;
  status = JobStatus.pending;
  fired_at = none;
  error = none;
  created_at = 0;
}

abbrev world : World
world = record { clock = record { t = 1 }; db = record db { jobs = job ∷ [] } }

abbrev never : ℕ → Bool
never _ = false

advance_by-program_registry-IsServed_example :
    (out : Result Advanced × World) × (w' : World) × (advance_by default_settings
        (program_registry floats 5 rng_for)
        env
        always_steady
        never
        1
        (codes "admin")
        9
        world
      ≡ some out)
    × (finish default_settings (program_registry floats 5 rng_for) env 1 out ≡ some w')
    × (now w'.clock ≡ 1 + 9)
    × IsServed 1 (job ∷ []) w'
advance_by-program_registry-IsServed_example =
    advance_by-program_registry-IsServed floats 5 rng_for env 1 default_settings (omega arith) never
      (codes "admin") 9 world (omega arith)
