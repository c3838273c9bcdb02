-- ===== src/Admin/Tests.antt =====
-- Tests of admin/api.py.
use mock_sim.Base.{ℕ, ◌≡◌, refl, true, some, none, [], ◌∷◌, codes, text_eq, arith}
use mock_sim.Base.Keys.{HasDistinctKeys}
use mock_sim.Models.{SimSchedulerJob, JobStatus, process_payment_job}
use mock_sim.Session.{ok, visible, Result}
use mock_sim.Scheduler.{World}
use mock_sim.Scheduler.Advance.{default_settings, run_advance_async}
use mock_sim.Scheduler.Advance.Fires.{always_steady}
use mock_sim.Admin.{
  ClockAnswer, advance_clock, CreateTenantRequest, create_tenant, create_or_find, new_key,
  tenant_answer,
}
use mock_sim.Admin.Clock.{advance_clock-fires_none}
use mock_sim.Pos.Settlement.{load_merchant}
use mock_sim.Pos.Settlement.Chain.{IsSettled}
use mock_sim.Admin.GeneratePos.{GeneratePosRequest, dates_of, drain}
use mock_sim.Admin.GeneratePos.Drained.{window, drain-IsSettled}
use mock_sim.Fixtures.{env, db}
use mock_sim.Fixtures.Shop.{shop, merchant, sales}

abbrev request : CreateTenantRequest
request = record {
  name = codes "T";
  api_key = codes "0123456789abcdef0123456789abcdef";
  scopes = [];
  partner_code = none;
}

-- The same key again finds the tenant.
existed :
    (create_tenant env request (create_tenant env request db).1).0
    ≡ ok (tenant_answer request 0 true)
unfolding create_tenant create_or_find new_key text_eq
existed = refl

abbrev backfill : GeneratePosRequest
backfill = record { merchant_ids = shop ∷ []; days = 2; backfill = true }

distinct : HasDistinctKeys (λ t. t.id) sales.transactions
distinct k = ground arith

loads : load_merchant env 1 shop sales ≡ some merchant
unfolding load_merchant visible text_eq
loads = refl

-- Sales to be settled on the days 20 and 21, as from a backfill of the two days up to day 20.
drain-IsSettled_example :
    ((n : ℕ) × ((drain env 20 merchant (dates_of 20 backfill) sales).0 ≡ ok n))
    × IsSettled env 1 shop
        (window 20 backfill)
        merchant
        sales
        (drain env 20 merchant (dates_of 20 backfill) sales).1
drain-IsSettled_example =
    drain-IsSettled env 20 merchant backfill sales refl (omega arith) (omega arith) distinct loads

abbrev job : SimSchedulerJob
job = record {
  id = 5;
  mock_tenant_id = some 1;
  fire_at = 7;
  job_type = codes "bank.process_payment";
  payload = process_payment_job (codes "E2E") 1;
  status = JobStatus.pending;
  fired_at = none;
  error = none;
  created_at = 0;
}

abbrev world : World
world = record { clock = record { t = 1 }; db = record db { jobs = job ∷ [] } }

-- A job of the tenant with the number one is due on the first of the two days.
advance_clock-fires_none_example :
    (answer : Result ClockAnswer) × (w' : World) × (w'' : World) × (advance_clock default_settings
        [] env always_steady
        (λ _. true)
        (record { days = 2; hours = 0; minutes = 0 })
        world
      ≡ some (answer, w'))
    × (run_advance_async default_settings [] env always_steady 6 0 86400000000 w' ≡ some w'')
    × (w'.db.jobs ≡ job ∷ [])
    × (w''.db.jobs ≡ job ∷ [])
advance_clock-fires_none_example =
    advance_clock-fires_none default_settings (omega arith) [] env always_steady (λ _. true)
      (record { days = 2; hours = 0; minutes = 0 }) 6 86400000000 world ((1, refl, omega arith), tt)
