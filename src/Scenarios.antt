-- ===== src/Scenarios.antt =====
-- core/scenarios.py: which named failure a request asks for, and what the middleware answers before
-- the endpoint runs. The header is the text of X-Inject-Scenario, empty where it is missing.
mod Tests
use mock_sim.Base.{
  ℕ, Bool, true, false, not, ◌&&◌, Option, none, some, List, [], ◌∷◌, Text, codes, text_eq,
  is_member, if◌then◌else◌,
}
use mock_sim.Idempotency.{strip}

-- `KNOWN_SCENARIOS`
abbrev pub known_scenarios : List Text
known_scenarios =
    codes "insufficient_funds"
    ∷ codes "account_dormant"
    ∷ codes "account_closed"
    ∷ codes "mandate_revoked"
    ∷ codes "webhook_5xx"
    ∷ codes "webhook_timeout"
    ∷ codes "duplicate_webhook"
    ∷ codes "delayed_settlement"
    ∷ codes "chargeback_after_settlement"
    ∷ codes "partial_recovery"
    ∷ codes "rail_downtime"
    ∷ codes "vat_miscalc"
    ∷ codes "narration_truncation"
    ∷ codes "iban_checksum_invalid"
    ∷ codes "clock_skew"
    ∷ codes "out_of_order_webhook"
    ∷ codes "recon_drift"
    ∷ codes "late_payment"
    ∷ []

-- `active_scenario`, with `_engine_enabled` and the scenario in the request's state
unfoldable pub active_scenario : Bool → Text → Option Text → Option Text
active_scenario enabled header entity_scenario =
    if not enabled
    then none
    else if is_member (strip header) known_scenarios
    then some (strip header)
    else entity_scenario

-- `_PRE_EXECUTION`
abbrev pub pre_execution : List Text
pre_execution =
    codes "rail_downtime"
    ∷ codes "iban_checksum_invalid"
    ∷ codes "clock_skew"
    ∷ codes "webhook_5xx"
    ∷ codes "webhook_timeout"
    ∷ []

-- What the middleware does: it hands the request on, or answers with a status and a code.
pub data Injection : Type 0 where
  pass_on : Injection
  error_response : ℕ → Text → Injection

-- The `if`s on a scenario of the set.
unfoldable pub inject : Text → Injection
inject scenario =
    if text_eq scenario (codes "rail_downtime")
    then error_response 503 (codes "RAIL_DOWNTIME")
    else if text_eq scenario (codes "iban_checksum_invalid")
    then error_response 422 (codes "INVALID_IBAN")
    else if text_eq scenario (codes "clock_skew")
    then error_response 400 (codes "CLOCK_SKEW")
    else pass_on

-- `ScenarioMiddleware.dispatch`
unfoldable pub inject_scenario : Bool → Text → Injection
inject_scenario enabled header =
    if not enabled
    then pass_on
    else if is_member (strip header) pre_execution
    then inject (strip header)
    else pass_on

-- The keyword `scenario_hint` that `scenario_aware` hands to an endpoint.
unfoldable pub scenario_hint : Bool → List Text → Text → Option Text
scenario_hint enabled supported header =
    if enabled && is_member (strip header) supported then some (strip header) else none
