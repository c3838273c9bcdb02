-- ===== src/Bank/Mandates/Tests.antt =====
-- Tests and instances for bank/mandates.py.
use mock_sim.Base.{
  ◌≡◌, refl, ap, some, none, [], ◌∷◌, ◌++◌, Text, codes, text_eq, upper, is_digit, is_member,
  dict_get, first,
}
use mock_sim.Base.Int.{ℤ, pos}
use mock_sim.Models.{Mandate, PaymentInstruction, active, CollectMandateResponse}
use mock_sim.Session.{Env, Db, ok, visible}
use mock_sim.Decimal.{int_text, is_digits, all_digits, digits_value}
use mock_sim.Money.{minor_units}
use mock_sim.Scheduler.{schedule_at}
use mock_sim.Calendar.{next_business_day, skip_weekend, is_weekend, is_in, isoweekday, date_of}
use mock_sim.Bank.Regions.{BankRegionConfig, get_region}
use mock_sim.Bank.Payments.{schedule_payment_processing, compute_fire_at}
use mock_sim.Bank.Initiation.{insert_instruction}
use mock_sim.Bank.Mandates.{
  CreateMandateRequest, CollectMandateRequest, collect_mandate_handler, new_collection, is_mandate,
  check_collection, refuse_expired,
}
use mock_sim.Bank.Mandates.Collection.{Allows, collect_mandate_handler-ok, IsCollection}
use mock_sim.Fixtures.{env, db, debtor_iban, creditor_iban}

abbrev request : CreateMandateRequest
request = record {
  debtor_iban = debtor_iban;
  creditor_iban = creditor_iban;
  debtor_name = codes "Name";
  max_amount = some (codes "500");
  currency = codes "PKR";
  region = codes "PK";
  expires_at = some 60;
}

abbrev dump : CreateMandateRequest → Text
dump r = r.debtor_name

abbrev mandate : Mandate
mandate = record {
  id = codes "MND-PK-1";
  mock_tenant_id = 1;
  debtor_iban = debtor_iban;
  creditor_iban = creditor_iban;
  debtor_name = codes "Name";
  max_amount = some (pos 500);
  currency = codes "PKR";
  region = codes "PK";
  status = active;
  scenario_name = none;
  created_at = 50;
  expires_at = some 60;
}

abbrev later : Env
later = record env { wall = 90 }

abbrev with_mandate : Db
with_mandate = record db { mandates = mandate ∷ [] }

abbrev collection : CollectMandateRequest
collection = record {
  end_to_end_id = codes "E2";
  instruction_id = codes "I";
  message_id = codes "M";
  amount = record { value = codes "400"; currency = codes "PKR" };
  remittance_info = none;
}

abbrev collected : CollectMandateResponse
collected = record {
  end_to_end_id = codes "E2";
  mandate_id = codes "MND-PK-1";
  status = codes "accepted";
  message = codes "Direct debit collection accepted on 1LINK_DD";
  created_at = 50;
}

is_collected :
    (collect_mandate_handler env 1 (codes "MND-PK-1") collection with_mandate).0 ≡ ok collected
unfolding collect_mandate_handler is_mandate visible text_eq check_collection refuse_expired upper
    minor_units int_text is_digit is_digits all_digits digits_value get_region dict_get
    insert_instruction new_collection schedule_payment_processing schedule_at compute_fire_at
    is_member next_business_day skip_weekend is_weekend is_in isoweekday date_of
is_collected = refl

collect_mandate_handler-ok_example :
    (m : Mandate) × (units : ℤ) × (cfg : BankRegionConfig) × (p : PaymentInstruction) × (first
        (is_mandate env 1 (codes "MND-PK-1"))
        with_mandate.mandates
      ≡ some m)
    × Allows env 1 (codes "MND-PK-1") collection m units
    × (get_region m.region ≡ ok cfg)
    × IsCollection env 1 (codes "MND-PK-1") collection m units cfg.dd_scheme p
    × ((collect_mandate_handler env 1 (codes "MND-PK-1") collection with_mandate).1.payments
        ≡ with_mandate.payments ++ p ∷ [])
collect_mandate_handler-ok_example =
    collect_mandate_handler-ok env 1 (codes "MND-PK-1") collection with_mandate
      (collect_mandate_handler env 1 (codes "MND-PK-1") collection with_mandate).1 collected
      (ap (λ r. (r, (collect_mandate_handler env 1 (codes "MND-PK-1") collection with_mandate).1))
        is_collected)
