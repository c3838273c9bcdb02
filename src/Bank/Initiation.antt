-- ===== src/Bank/Initiation.antt =====
-- bank/api.py: the endpoint that initiates a payment. The JSON text of a request's body is a
-- parameter, and a stored response is the record that it was made from.
pub mod Replay
pub mod Again
mod Tests
use mock_sim.Base.{
  ℕ, Bool, true, false, ◌&&◌, not, Option, none, some, List, [], ◌∷◌, ◌++◌, Text, codes, text_eq,
  any_row, is_member, if◌then◌else◌,
}
use mock_sim.Base.Int.{ℤ}
use mock_sim.Errors.{
  python_error, not_found, unprocessable, bad_request, validation_error, account_not_found,
  sharia_violation,
}
use mock_sim.Models.{
  Account, PaymentInstruction, accepted, IdempotencyRecord, money, ResponseBody, payment_body,
  collect_body, mandate_body, account_body, merchant_body, subscription_body,
  PaymentInitiateResponse,
}
use mock_sim.Session.{
  Env, Db, Session, Result, ok, err, pure, raise, gets, or_raise, raise_if, lift, modify, flush,
  ◌>>=◌, ◌>>◌, transaction,
}
use mock_sim.Money.{Money, minor_units}
use mock_sim.Accounts.{select_account}
use mock_sim.Idempotency.{complete_record}
use mock_sim.Idempotency.Endpoint.{endpoint}
use mock_sim.Bank.Regions.{get_region}
use mock_sim.Bank.Payments.{schedule_payment_processing, instant_rails}

pub record PaymentInitiateRequest : Type 0 where
  pub message_id : Text
  pub end_to_end_id : Text
  pub instruction_id : Text
  pub amount : Money
  pub debtor_iban : Text
  pub creditor_iban : Text
  pub creditor_name : Text
  pub rail : Text
  pub sharia_compliant : Bool
  pub remittance_info : Option Text

-- `PaymentInitiateResponse(**cached.response_body)`: a body of a collection has all the fields.
unfoldable pub as_payment : Option ResponseBody → Result PaymentInitiateResponse
as_payment none = err python_error
as_payment (some (payment_body r)) = ok r
as_payment (some (mandate_body r)) = err python_error
as_payment (some (account_body r)) = err python_error
as_payment (some (merchant_body r)) = err python_error
as_payment (some (subscription_body r)) = err python_error
as_payment (some (collect_body r)) = ok (record {
  end_to_end_id = r.end_to_end_id;
  status = r.status;
  message = r.message;
  created_at = r.created_at;
})

unfoldable pub new_instruction : Env → ℕ → PaymentInitiateRequest → ℤ → PaymentInstruction
new_instruction env tenant body units = record {
  id = body.end_to_end_id;
  mock_tenant_id = tenant;
  message_id = body.message_id;
  instruction_id = body.instruction_id;
  debtor_iban = body.debtor_iban;
  creditor_iban = body.creditor_iban;
  creditor_name = body.creditor_name;
  amount = units;
  currency = body.amount.currency;
  rail = body.rail;
  sharia_compliant = body.sharia_compliant;
  remittance_info = body.remittance_info;
  status = accepted;
  reject_reason = none;
  created_at = env.wall;
  settled_at = none;
}

abbrev pub accepted_response : Env → PaymentInitiateRequest → Text → PaymentInitiateResponse
accepted_response env body message = record {
  end_to_end_id = body.end_to_end_id;
  status = codes "accepted";
  message = message;
  created_at = env.wall;
}

-- the insert and its flush, which a primary key that is taken makes fail
unfoldable pub insert_instruction : PaymentInstruction → Session (Unit {0})
insert_instruction instr = do
  taken ← gets (λ d. any_row (λ p. text_eq p.id instr.id) d.payments)
  raise_if taken python_error
  modify (λ d. flush (record d { payments = d.payments ++ instr ∷ [] }))

-- the body for a key that is seen for the first time, with the message of its response
unfoldable pub start_payment :
    Env → Text → PaymentInitiateRequest → Text → ℕ → Session PaymentInitiateResponse
start_payment env key body message tenant = do
  debtor ← or_raise (← gets (select_account env body.debtor_iban)) (not_found account_not_found)
  raise_if (body.sharia_compliant && not debtor.sharia_flag) (unprocessable sharia_violation)
  units ← lift (minor_units body.amount)
  insert_instruction (new_instruction env tenant body units)
  region_cfg ← lift (get_region debtor.region)
  schedule_payment_processing env tenant (new_instruction env tenant body units) region_cfg
  complete_record env tenant key 202 (payment_body (accepted_response env body message))
  pure (accepted_response env body message)

unfoldable pub initiate_payment :
    Env
    → (PaymentInitiateRequest → Text)
    → Text
    → PaymentInitiateRequest
    → Session PaymentInitiateResponse
initiate_payment env dump key body =
    endpoint env key (dump body) money as_payment
      (start_payment env key body (codes "Payment instruction accepted (ACCP)"))

pub record InstantCreditTransferRequest : Type 0 where
  pub message_id : Text
  pub instruction_id : Text
  pub end_to_end_id : Text
  pub uetr : Text
  pub amount : Money
  pub debtor_iban : Text
  pub debtor_name : Text
  pub creditor_iban : Text
  pub creditor_name : Text
  pub rail : Text
  pub sharia_compliant : Bool
  pub remittance_info : Option Text
  pub purpose_code : Option Text

-- The part of an instant transfer that its handler reads.
abbrev pub as_initiation : InstantCreditTransferRequest → PaymentInitiateRequest
as_initiation body = record {
  message_id = body.message_id;
  end_to_end_id = body.end_to_end_id;
  instruction_id = body.instruction_id;
  amount = body.amount;
  debtor_iban = body.debtor_iban;
  creditor_iban = body.creditor_iban;
  creditor_name = body.creditor_name;
  rail = body.rail;
  sharia_compliant = body.sharia_compliant;
  remittance_info = body.remittance_info;
}

abbrev pub instant_message : Text → Text
instant_message rail = codes "Instant transfer accepted on " ++ rail ++ codes " (ACCP)"

unfoldable pub instant_credit_transfer :
    Env
    → (InstantCreditTransferRequest → Text)
    → Text
    → InstantCreditTransferRequest
    → Session PaymentInitiateResponse
instant_credit_transfer env dump key body =
    if is_member body.rail instant_rails
    then endpoint env key (dump body) money as_payment
        (start_payment env key (as_initiation body) (instant_message body.rail))
    else raise (bad_request validation_error)
