-- ===== src/Models/Bank.antt =====
-- persistence/models.py: accounts and their entries, payment instructions, mandates.
use mock_sim.Base.{ℕ, Bool, Text, Option}
use mock_sim.Base.Int.{ℤ}

pub data AccountType : Type 0 where
  pool merchant_van external : AccountType

pub data AccountStatus : Type 0 where
  active dormant closed : AccountStatus

pub record Account : Type 0 where
  pub id : ℕ
  pub mock_tenant_id : ℕ
  pub iban : Text
  pub bic : Text
  pub account_type : AccountType
  pub currency : Text
  pub balance : ℤ
  pub available_balance : ℤ
  pub parent_iban : Option Text
  pub status : AccountStatus
  pub sharia_flag : Bool
  pub owner_name : Text
  pub region : Text
  pub created_at : ℕ
  pub updated_at : ℕ

pub data CreditDebit : Type 0 where
  crdt dbit : CreditDebit

pub record AccountEntry : Type 0 where
  pub id : ℕ
  pub mock_tenant_id : ℕ
  pub account_iban : Text
  pub amount : ℤ
  pub credit_debit : CreditDebit
  pub currency : Text
  pub balance_after : ℤ
  pub booking_datetime : ℕ
  pub value_date : ℕ
  pub narration : Text
  pub counterparty_name : Option Text
  pub counterparty_iban : Option Text
  pub transfer_id : Option ℕ
  pub created_at : ℕ

pub data PaymentStatus : Type 0 where
  pending accepted settled rejected : PaymentStatus

pub record PaymentInstruction : Type 0 where
  pub id : Text
  pub mock_tenant_id : ℕ
  pub message_id : Text
  pub instruction_id : Text
  pub debtor_iban : Text
  pub creditor_iban : Text
  pub creditor_name : Text
  pub amount : ℤ
  pub currency : Text
  pub rail : Text
  pub sharia_compliant : Bool
  pub remittance_info : Option Text
  pub status : PaymentStatus
  pub reject_reason : Option Text
  pub created_at : ℕ
  pub settled_at : Option ℕ

pub data MandateStatus : Type 0 where
  active suspended expired cancelled : MandateStatus

pub record Mandate : Type 0 where
  pub id : Text
  pub mock_tenant_id : ℕ
  pub debtor_iban : Text
  pub creditor_iban : Text
  pub debtor_name : Text
  pub max_amount : Option ℤ
  pub currency : Text
  pub region : Text
  pub status : MandateStatus
  pub scenario_name : Option Text
  pub created_at : ℕ
  pub expires_at : Option ℕ

-- the response of bank/mandates.py to a creation
pub record MandateResponse : Type 0 where
  pub id : Text
  pub debtor_iban : Text
  pub creditor_iban : Text
  pub debtor_name : Text
  pub max_amount : Option Text
  pub currency : Text
  pub region : Text
  pub status : MandateStatus
  pub created_at : ℕ
  pub expires_at : Option ℕ

-- the response of bank/api.py about an account
pub record AccountResponse : Type 0 where
  pub id : ℕ
  pub iban : Text
  pub bic : Text
  pub account_type : AccountType
  pub owner_name : Text
  pub region : Text
  pub currency : Text
  pub balance : Text
  pub available_balance : Text
  pub status : AccountStatus
  pub sharia_flag : Bool
  pub parent_iban : Option Text
  pub created_at : ℕ
