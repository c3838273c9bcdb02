-- ===== src/Fixtures.antt =====
-- Shared test data: an environment, two accounts of one tenant with the entries that explain their
-- balances, and an accepted payment from the one to the other.
pub mod Shop
use mock_sim.Base.{
  ℕ, Option, ◌≡◌, refl, subst, inl, inr, true, false, none, some, [], ◌∷◌, Text, codes, text_eq,
  Bool-cases, arith, ◌+◌, ◌*◌, ◌/◌, ltb, if◌then◌else◌,
}
use mock_sim.Base.Int.{ℤ, pos, ◌+ℤ◌}
use mock_sim.Models.{
  Account, AccountEntry, external, active, crdt, PaymentInstruction, accepted, Merchant,
  PosTransaction, SettlementStatus,
}
use mock_sim.Session.{Env, Db}
use mock_sim.Paging.{Codec, Decodes}
use mock_sim.Calendar.{Date}
use mock_sim.Pos.Random.{Floats, Random}
use mock_sim.Accounts.{row}
use mock_sim.Accounts.Table.{IsKeyed}
use mock_sim.Accounts.Ledger.{IsLedger, IsSound}

abbrev pub env : Env
env = record { tenant = some 1; wall = 50; sim = 0; draw = λ n. n; sha256 = λ t. t }

-- A number is the only character of its text.
abbrev pub decode : Text → Option ℕ
decode [] = none
decode (n ∷ rest) = some n

abbrev pub codec : Codec
codec = record { encode = λ n. n ∷ []; decode = decode; date_of = decode }

pub decodes : Decodes codec
decodes = record { decoded = λ n. refl; shown = λ n e. cc e }

abbrev pub debtor_iban : Text
debtor_iban = codes "D"

abbrev pub creditor_iban : Text
creditor_iban = codes "C"

abbrev pub account : Text → ℤ → Account
account iban balance = record {
  id = 1;
  mock_tenant_id = 1;
  iban = iban;
  bic = codes "MOCKPKKA";
  account_type = external;
  currency = codes "PKR";
  balance = balance;
  available_balance = balance;
  parent_iban = none;
  status = active;
  sharia_flag = false;
  owner_name = codes "Owner";
  region = codes "PK";
  created_at = 0;
  updated_at = 0;
}

abbrev pub deposit : Text → ℤ → AccountEntry
deposit iban amount = record {
  id = 0;
  mock_tenant_id = 1;
  account_iban = iban;
  amount = amount;
  credit_debit = crdt;
  currency = codes "PKR";
  balance_after = amount;
  booking_datetime = 0;
  value_date = 0;
  narration = codes "opening";
  counterparty_name = none;
  counterparty_iban = none;
  transfer_id = none;
  created_at = 0;
}

abbrev pub payment : PaymentInstruction
payment = record {
  id = codes "E2E";
  mock_tenant_id = 1;
  message_id = codes "M";
  instruction_id = codes "I";
  debtor_iban = debtor_iban;
  creditor_iban = creditor_iban;
  creditor_name = codes "Name";
  amount = pos 300;
  currency = codes "PKR";
  rail = codes "RAAST";
  sharia_compliant = false;
  remittance_info = none;
  status = accepted;
  reject_reason = none;
  created_at = 0;
  settled_at = none;
}

abbrev pub db : Db
db = record {
  tenants = [];
  api_keys = [];
  accounts = account debtor_iban (pos 1000) ∷ account creditor_iban (pos 50) ∷ [];
  entries = deposit debtor_iban (pos 1000) ∷ deposit creditor_iban (pos 50) ∷ [];
  payments = payment ∷ [];
  mandates = [];
  subscriptions = [];
  outbox = [];
  jobs = [];
  advance_jobs = [];
  idempotency = [];
  unflushed = [];
  merchants = [];
  transactions = [];
  batches = [];
  scenario_status = [];
  scenario_configs = [];
  draws = 0;
}

pub db-IsKeyed : IsKeyed db.accounts
unfolding text_eq
db-IsKeyed = (refl, (refl, tt))

-- A row of the table is one of the two accounts.
pub db-rows :
    (P : Account → Type 0)
    → P (account debtor_iban (pos 1000))
    → P (account creditor_iban (pos 50))
    → (iban : Text) (a : Account) → row iban db.accounts ≡ some a
    → P a
db-rows P p q iban a e = elim (Bool-cases (text_eq debtor_iban iban)) [
  | inl is_debtor ↦
      let same : some (account debtor_iban (pos 1000)) ≡ some a = rw is_debtor at e in
      let is_a : account debtor_iban (pos 1000) ≡ a = cc in subst P is_a p
  | inr other ↦ elim (Bool-cases (text_eq creditor_iban iban)) [
    | inl second ↦
        let same : some (account creditor_iban (pos 50)) ≡ some a = rw (other, second) at e in
        let is_a : account creditor_iban (pos 50) ≡ a = cc in subst P is_a q
    | inr neither ↦ cc (rw (other, neither) at e)
  ]
]

pub db-IsLedger : IsLedger db
unfolding text_eq ◌+ℤ◌
db-IsLedger = record {
  keyed = db-IsKeyed;
  sound =
      db-rows (IsSound db.entries)
        (record { explained = refl; available = refl; not_negative = omega arith })
        (record { explained = refl; available = refl; not_negative = omega arith });
}
