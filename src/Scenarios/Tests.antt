-- ===== src/Scenarios/Tests.antt =====
-- Tests of core/scenarios.py.
use mock_sim.Base.{◌≡◌, refl, true, codes, text_eq, is_member}
use mock_sim.Idempotency.{strip, is_space}
use mock_sim.Scenarios.{inject_scenario, inject, error_response, pass_on}

downtime :
    inject_scenario true (codes " rail_downtime ") ≡ error_response 503 (codes "RAIL_DOWNTIME")
unfolding inject_scenario inject strip is_space is_member text_eq
downtime = refl

-- A failure of webhooks is in the set, and is handed on.
webhook_failure : inject_scenario true (codes "webhook_5xx") ≡ pass_on
unfolding inject_scenario inject strip is_space is_member text_eq
webhook_failure = refl
