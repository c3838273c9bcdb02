-- ===== src/Bank/Mandates.antt =====
-- bank/mandates.py and its endpoints in bank/api.py: the creation of a mandate, and a collection
-- against it. A mandate's id is made from the number drawn for its ULID.
pub mod Endpoints
pub mod Collection
pub mod Retry
mod Tests
use mock_sim.Base.{
  ℕ, Bool, true, false, ◌&&◌, not, Option, none, some, List, [], ◌∷◌, ◌++◌, Text, codes, text_eq,
  upper, first, update_where, ltb, is_none, ◌==◌, if◌then◌else◌,
}
use mock_sim.Base.Int.{ℤ, pos, ltb_ℤ, leb_ℤ}
use mock_sim.Errors.{
  Error, python_error, bad_request, not_found, unprocessable, validation_error, currency_mismatch,
  account_not_found, account_closed, account_dormant, mandate_not_found, mandate_not_active,
  mandate_expired, amount_exceeds_limit,
}
use mock_sim.Models.{
  Account, AccountStatus, active, dormant, closed, Mandate, MandateStatus, suspended, expired,
  cancelled, MandateResponse, PaymentInstruction, accepted, IdempotencyRecord, money, non_money,
  ResponseBody, payment_body, collect_body, mandate_body, account_body, merchant_body,
  subscription_body, CollectMandateResponse,
}
use mock_sim.Session.{
  Env, Db, Session, Result, ok, err, pure, raise, gets, or_raise, raise_if, lift, modify, draw_id,
  visible, ◌>>=◌, ◌>>◌, transaction,
}
use mock_sim.Decimal.{is_digits, lstrip_minus, int_text, str_nat, str_int}
use mock_sim.Money.{Money, minor_units, is_supported}
use mock_sim.Accounts.{select_account}
use mock_sim.Idempotency.{get_or_start, complete_record}
use mock_sim.Idempotency.Endpoint.{endpoint}
use mock_sim.Bank.Regions.{BankRegionConfig, get_region}
use mock_sim.Bank.Payments.{schedule_payment_processing}
use mock_sim.Bank.Initiation.{insert_instruction}

pub record CreateMandateRequest : Type 0 where
  pub debtor_iban : Text
  pub creditor_iban : Text
  pub debtor_name : Text
  pub max_amount : Option Text
  pub currency : Text
  pub region : Text
  pub expires_at : Option ℕ

pub record CollectMandateRequest : Type 0 where
  pub end_to_end_id : Text
  pub instruction_id : Text
  pub message_id : Text
  pub amount : Money
  pub remittance_info : Option Text

-- the region, whose absence is a validation error here
unfoldable pub region_or_bad_request : Result BankRegionConfig → Session BankRegionConfig
region_or_bad_request (ok cfg) = pure cfg
region_or_bad_request (err e) = raise (bad_request validation_error)

-- the status of the debtor's account
unfoldable pub check_debtor_status : AccountStatus → Session (Unit {0})
check_debtor_status active = pure tt
check_debtor_status closed = raise (unprocessable account_closed)
check_debtor_status dormant = raise (unprocessable account_dormant)

-- `max_amount`, a positive number of minor units where it is given
unfoldable pub read_max_amount : Option Text → Session (Option ℤ)
read_max_amount none = pure none
read_max_amount (some text) = do
  raise_if (not (is_digits (lstrip_minus text))) (bad_request validation_error)
  n ← lift (int_text text)
  raise_if (leb_ℤ n (pos 0)) (bad_request validation_error)
  pure (some n)

-- `gen_mandate_id` (core/identifiers.py)
unfoldable pub gen_mandate_id : Text → ℕ → Text
gen_mandate_id region ulid = codes "MND-" ++ upper region ++ b'-' ∷ str_nat ulid

unfoldable pub new_mandate : Env → ℕ → ℕ → CreateMandateRequest → Option ℤ → Mandate
new_mandate env ulid tenant body max_amount = record {
  id = gen_mandate_id body.region ulid;
  mock_tenant_id = tenant;
  debtor_iban = body.debtor_iban;
  creditor_iban = body.creditor_iban;
  debtor_name = body.debtor_name;
  max_amount = max_amount;
  currency = upper body.currency;
  region = upper body.region;
  status = active;
  scenario_name = none;
  created_at = env.wall;
  expires_at = body.expires_at;
}

unfoldable pub response_of : Mandate → Option Text → MandateResponse
response_of m max_amount = record {
  id = m.id;
  debtor_iban = m.debtor_iban;
  creditor_iban = m.creditor_iban;
  debtor_name = m.debtor_name;
  max_amount = max_amount;
  currency = m.currency;
  region = m.region;
  status = m.status;
  created_at = m.created_at;
  expires_at = m.expires_at;
}

-- the validation of a creation
unfoldable pub check_mandate : Env → CreateMandateRequest → Session (Option ℤ)
check_mandate env body = do
  region_cfg ← region_or_bad_request (get_region body.region)
  raise_if (not (text_eq (upper body.currency) region_cfg.currency)) (bad_request currency_mismatch)
  raise_if (not (is_supported body.currency)) (bad_request currency_mismatch)
  debtor ← or_raise (← gets (select_account env body.debtor_iban)) (not_found account_not_found)
  check_debtor_status debtor.status
  creditor ← gets (select_account env body.creditor_iban)
  raise_if (is_none creditor) (not_found account_not_found)
  read_max_amount body.max_amount

unfoldable pub create_mandate_handler : Env → ℕ → CreateMandateRequest → Session MandateResponse
create_mandate_handler env tenant body = do
  max_amount ← check_mandate env body
  ulid ← draw_id env
  let mandate = new_mandate env ulid tenant body max_amount
  modify (λ d. record d { mandates = d.mandates ++ mandate ∷ [] })
  pure (response_of mandate body.max_amount)

unfoldable pub is_mandate : Env → ℕ → Text → Mandate → Bool
is_mandate env tenant id m =
    visible env m.mock_tenant_id && (text_eq m.id id && m.mock_tenant_id == tenant)

abbrev pub is_active_mandate : MandateStatus → Bool
is_active_mandate active = true
is_active_mandate suspended = false
is_active_mandate expired = false
is_active_mandate cancelled = false

-- `mandate.expires_at and mandate.expires_at < now`
abbrev pub has_expired : ℕ → Option ℕ → Bool
has_expired now none = false
has_expired now (some t) = ltb t now

-- The status is set, and then the exception is raised.
unfoldable pub refuse_expired : Env → ℕ → Text → Bool → Session (Unit {0})
refuse_expired env tenant id false = pure tt
refuse_expired env tenant id true =
    modify (λ d. record d {
      mandates =
          update_where (is_mandate env tenant id) (λ m. record m { status = expired }) d.mandates;
    })
    >> raise (unprocessable mandate_expired)

abbrev pub exceeds : ℤ → Option ℤ → Bool
exceeds units none = false
exceeds units (some limit) = ltb_ℤ limit units

-- the checks of a collection; the amount's number comes back
unfoldable pub check_collection : Env → ℕ → Text → CollectMandateRequest → Mandate → Session ℤ
check_collection env tenant id body mandate = do
  raise_if (not (is_active_mandate mandate.status)) (unprocessable mandate_not_active)
  refuse_expired env tenant id (has_expired env.wall mandate.expires_at)
  raise_if (not (text_eq (upper body.amount.currency) mandate.currency))
      (bad_request currency_mismatch)
  units ← lift (minor_units body.amount)
  raise_if (exceeds units mandate.max_amount) (unprocessable amount_exceeds_limit)
  pure units

unfoldable pub new_collection :
    Env → ℕ → CollectMandateRequest → Mandate → Text → ℤ → PaymentInstruction
new_collection env tenant body mandate rail units = record {
  id = body.end_to_end_id;
  mock_tenant_id = tenant;
  message_id = body.message_id;
  instruction_id = body.instruction_id;
  debtor_iban = mandate.debtor_iban;
  creditor_iban = mandate.creditor_iban;
  creditor_name = mandate.debtor_name;
  amount = units;
  currency = upper body.amount.currency;
  rail = rail;
  sharia_compliant = false;
  remittance_info = body.remittance_info;
  status = accepted;
  reject_reason = none;
  created_at = env.wall;
  settled_at = none;
}

unfoldable pub collect_mandate_handler :
    Env → ℕ → Text → CollectMandateRequest → Session CollectMandateResponse
collect_mandate_handler env tenant id body = do
  mandate ←
      or_raise (← gets (λ d. first (is_mandate env tenant id) d.mandates))
        (not_found mandate_not_found)
  units ← check_collection env tenant id body mandate
  region_cfg ← lift (get_region mandate.region)
  let instr = new_collection env tenant body mandate region_cfg.dd_scheme units
  insert_instruction instr
  schedule_payment_processing env tenant instr region_cfg
  pure (record {
    end_to_end_id = body.end_to_end_id;
    mandate_id = id;
    status = codes "accepted";
    message = codes "Direct debit collection accepted on " ++ region_cfg.dd_scheme;
    created_at = env.wall;
  })

-- a limit as text
abbrev pub shown_limit : Option ℤ → Option Text
shown_limit none = none
shown_limit (some n) = some (str_int n)

unfoldable pub get_mandate_handler : Env → ℕ → Text → Session MandateResponse
get_mandate_handler env tenant id = do
  mandate ←
      or_raise (← gets (λ d. first (is_mandate env tenant id) d.mandates))
        (not_found mandate_not_found)
  pure (response_of mandate (shown_limit mandate.max_amount))
