-- ===== src/Bank/Initiation/Tests.antt =====
-- Tests and instances for the initiation of a payment.
use mock_sim.Base.{
  ◌≡◌, refl, false, none, Text, codes, text_eq, upper, is_member, is_digit, dict_get,
}
use mock_sim.Errors.{conflict, idempotency_conflict}
use mock_sim.Session.{Env, ok, err, visible}
use mock_sim.Decimal.{int_text, is_digits, all_digits, digits_value}
use mock_sim.Money.{minor_units}
use mock_sim.Accounts.{select_account}
use mock_sim.Scheduler.{schedule_at}
use mock_sim.Idempotency.{get_or_start, start_or_check, complete_record, is_record}
use mock_sim.Idempotency.Endpoint.{endpoint, handle, answer}
use mock_sim.Bank.Regions.{get_region}
use mock_sim.Bank.Payments.{schedule_payment_processing, compute_fire_at}
use mock_sim.Bank.Initiation.{
  PaymentInitiateRequest, accepted_response, initiate_payment, start_payment, insert_instruction,
  new_instruction,
}
use mock_sim.Bank.Initiation.Again.{initiate_payment-again, initiate_payment-conflict}
use mock_sim.Fixtures.{env, db, debtor_iban, creditor_iban}

abbrev request : Text → PaymentInitiateRequest
request id = record {
  message_id = codes "M2";
  end_to_end_id = id;
  instruction_id = codes "I2";
  amount = record { value = codes "100"; currency = codes "PKR" };
  debtor_iban = debtor_iban;
  creditor_iban = creditor_iban;
  creditor_name = codes "Name";
  rail = codes "RAAST";
  sharia_compliant = false;
  remittance_info = none;
}

abbrev dump : PaymentInitiateRequest → Text
dump r = r.end_to_end_id

abbrev accepted_message : Text
accepted_message = codes "Payment instruction accepted (ACCP)"

abbrev later : Env
later = record env { wall = 90 }

accepted_at_first :
    (initiate_payment env dump (codes "K") (request (codes "E2")) db).0
    ≡ ok (accepted_response env (request (codes "E2")) accepted_message)
unfolding initiate_payment endpoint handle get_or_start start_or_check answer start_payment
    select_account visible text_eq minor_units int_text insert_instruction new_instruction
    get_region dict_get upper schedule_payment_processing compute_fire_at is_member complete_record
    is_record schedule_at is_digit is_digits all_digits digits_value
accepted_at_first = refl

initiate_payment-again_example :
    initiate_payment later dump
      (codes "K")
      (request (codes "E2"))
      (initiate_payment env dump (codes "K") (request (codes "E2")) db).1
    ≡ (
      ok (accepted_response env (request (codes "E2")) accepted_message),
      (initiate_payment env dump (codes "K") (request (codes "E2")) db).1,
    )
initiate_payment-again_example =
    initiate_payment-again env later 1 (codes "K") dump (request (codes "E2"))
      (accepted_response env (request (codes "E2")) accepted_message) db refl refl refl refl
      accepted_at_first

initiate_payment-conflict_example :
    initiate_payment later dump
      (codes "K")
      (request (codes "E3"))
      (initiate_payment env dump (codes "K") (request (codes "E2")) db).1
    ≡ (
      err (conflict idempotency_conflict),
      (initiate_payment env dump (codes "K") (request (codes "E2")) db).1,
    )
unfolding text_eq
initiate_payment-conflict_example =
    initiate_payment-conflict env later 1 (codes "K") dump (request (codes "E2"))
      (accepted_response env (request (codes "E2")) accepted_message) db refl refl refl refl
      accepted_at_first (request (codes "E3")) refl
