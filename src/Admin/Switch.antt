-- ===== src/Admin/Switch.antt =====
-- The switch of the scenarios: its row (admin/api.py), which the start of the program adds
-- (main.py, `_ensure_scenario_engine_status`), and the flag of the process, which an endpoint sets to
-- what it answers.
use mock_sim.Base.{Bool, true, Option, none, some, [], ◌∷◌, ◌++◌, codes, first, update_where, ◌==◌}
use mock_sim.Models.{ScenarioEngineStatus}
use mock_sim.Session.{Env, Db, Session, pure, gets, modify, transaction, ◌>>=◌, ◌>>◌}

abbrev pub engine_row : Db → Option ScenarioEngineStatus
engine_row d = first (λ s. s.id == 1) d.scenario_status

abbrev pub engine_status : Env → Bool → ScenarioEngineStatus
engine_status env enabled = record {
  id = 1;
  enabled = enabled;
  updated_at = env.wall;
  updated_by = codes "admin";
}

unfoldable pub write_status : Env → Bool → Option ScenarioEngineStatus → Session (Unit {0})
write_status env enabled (some row) = modify (λ d. record d {
  scenario_status =
      update_where (λ s. s.id == 1) (λ s. engine_status env enabled) d.scenario_status;
})
write_status env enabled none =
    modify (λ d. record d { scenario_status = d.scenario_status ++ engine_status env enabled ∷ [] })

-- `_persist_scenario_status`
unfoldable pub persist_scenario_status : Env → Bool → Session (Unit {0})
persist_scenario_status env enabled =
    transaction (do row ← gets engine_row; write_status env enabled row)

-- `enable_scenarios` and `disable_scenarios`
unfoldable pub set_scenarios : Env → Bool → Session Bool
set_scenarios env enabled = persist_scenario_status env enabled >> pure enabled

unfoldable pub add_status : Env → Option ScenarioEngineStatus → Session (Unit {0})
add_status env (some row) = pure tt
add_status env none = modify (λ d. record d {
  scenario_status =
      d.scenario_status ++ record (engine_status env true) { updated_by = codes "system" } ∷ [];
})

unfoldable pub ensure_scenario_engine_status : Env → Session (Unit {0})
ensure_scenario_engine_status env = transaction (do row ← gets engine_row; add_status env row)
