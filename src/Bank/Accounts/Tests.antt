-- ===== src/Bank/Accounts/Tests.antt =====
-- Tests and instances for the accounts of bank/api.py.
use mock_sim.Base.{
  ◌*◌, ℕ, ◌≡◌, refl, inl, inr, false, Option, none, some, [], ◌∷◌, map, take, Text, codes, text_eq,
  upper, dict_get, Bool-cases, arith,
}
use mock_sim.Base.Int.{pos, ◌+ℤ◌}
use mock_sim.Models.{AccountStatus, external, AccountResponse}
use mock_sim.Session.{Env, Db, ok, visible}
use mock_sim.Accounts.{select_account}
use mock_sim.Accounts.Booked.{IsBooked}
use mock_sim.Paging.{clamp_limit}
use mock_sim.Paging.Walk.{walk}
use mock_sim.Idempotency.{get_or_start, start_or_check, complete_record, is_record}
use mock_sim.Idempotency.Endpoint.{endpoint, handle, answer}
use mock_sim.Iban.{gen_iban, iban_checksum, assemble, numeric, char_digits, random_digits}
use mock_sim.Decimal.{zero_pad, str_nat, str_int, digits_value}
use mock_sim.Identifiers.{gen_bic}
use mock_sim.Bank.Regions.{get_region}
use mock_sim.Bank.Accounts.{
  CreateAccountRequest, account_response, new_account, insert_account, start_account,
  create_account,
}
use mock_sim.Bank.Accounts.Created.{create_account-IsBooked}
use mock_sim.Bank.Accounts.Again.{create_account-again}
use mock_sim.Bank.Accounts.Statement.{matching_entries, statement_entry}
use mock_sim.Bank.Accounts.Statement.Lost.{fetch, get_statement-lost}
use mock_sim.Calendar.{microseconds_per_second}
use mock_sim.Idempotency.{prune_idempotency_records}
use mock_sim.Fixtures.{
  codec, decodes, env, db, db-IsLedger, debtor_iban, creditor_iban, deposit, account,
}

abbrev request : CreateAccountRequest
request = record {
  account_type = external;
  owner_name = codes "Owner";
  region = codes "PK";
  currency = codes "PKR";
  sharia_flag = false;
  parent_iban = none;
  seed = none;
}

abbrev dump : CreateAccountRequest → Text
dump r = r.owner_name

abbrev zeros : Option Text → ℕ → ℕ
zeros seed n = 0

abbrev later : Env
later = record env { wall = 2 * 24 * 3600 * microseconds_per_second }

db-IsBooked : IsBooked db
unfolding text_eq ◌+ℤ◌
db-IsBooked = record {
  ledger = db-IsLedger;
  known = λ iban h. elim (Bool-cases (text_eq debtor_iban iban)) [
    | inl is_debtor ↦ cc (rw is_debtor at h)
    | inr other ↦ elim (Bool-cases (text_eq creditor_iban iban)) [
      | inl second ↦ cc (rw (other, second) at h)
      | inr neither ↦ rw (other, neither) refl
    ]
  ];
}

create_account-IsBooked_example : IsBooked (create_account env zeros dump (codes "K") request db).1
create_account-IsBooked_example =
    create_account-IsBooked env zeros dump (codes "K") request db db-IsBooked

abbrev new_iban : Text
new_iban = codes "PK46SCBL0000000000000000"

abbrev response : AccountResponse
response = record {
  id = 1;
  iban = new_iban;
  bic = codes "SCBLPKKA";
  account_type = external;
  owner_name = codes "Owner";
  region = codes "PK";
  currency = codes "PKR";
  balance = codes "0";
  available_balance = codes "0";
  status = AccountStatus.active;
  sharia_flag = false;
  parent_iban = none;
  created_at = 50;
}

created : (create_account env zeros dump (codes "K") request db).0 ≡ ok response
unfolding create_account endpoint handle get_or_start start_or_check answer start_account get_region
    dict_get upper text_eq gen_iban assemble iban_checksum insert_account new_account
    account_response complete_record is_record visible gen_bic zero_pad str_nat digits_value numeric
    char_digits random_digits str_int
created = refl

-- A pruning in between, and a request two days later.
abbrev between : Env
between = record env { wall = 70 }

abbrev pruned : Db
pruned =
    (prune_idempotency_records between (create_account env zeros dump (codes "K") request db).1).1

create_account-again_example :
    create_account later zeros dump (codes "K") request pruned ≡ (ok response, pruned)
create_account-again_example =
    create_account-again env later zeros 1 (codes "K") dump request response db refl refl refl refl
      created zeros between refl (omega arith)

abbrev credited : Db
credited = record db {
  entries =
      deposit debtor_iban (pos 3) ∷ deposit debtor_iban (pos 4) ∷ deposit debtor_iban (pos 5) ∷ [];
}

found : select_account env debtor_iban credited ≡ some (account debtor_iban (pos 1000))
unfolding select_account visible text_eq
found = refl

three_entries : matching_entries env debtor_iban none none credited ≡ credited.entries
unfolding matching_entries visible text_eq
three_entries = refl

two_a_page : clamp_limit (pos 2) ≡ 2
unfolding clamp_limit
two_a_page = refl

get_statement-lost_example :
    walk (fetch env codec debtor_iban (pos 2) credited) 5 none
    ≡ map statement_entry
        (take (clamp_limit (pos 2)) (matching_entries env debtor_iban none none credited))
get_statement-lost_example =
    get_statement-lost env codec debtor_iban (pos 2) credited (account debtor_iban (pos 1000)) 0
      found decodes (rw three_entries (refl, (refl, (refl, tt))))
      (rw (three_entries, two_a_page) (omega arith)) 4
