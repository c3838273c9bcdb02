-- ===== src/Bank/Queries.antt =====
-- bank/api.py: the endpoints that list the payments and show one.
use mock_sim.Base.{ℕ, min, ◌&&◌, Option, List, map, take, Text, text_eq, first, where_all}
use mock_sim.Errors.{not_found, payment_not_found}
use mock_sim.Models.{PaymentInstruction, PaymentStatus}
use mock_sim.Session.{Env, Session, pure, gets, or_raise, visible, is_own, ◌>>=◌}
use mock_sim.Decimal.{str_int}
use mock_sim.Paging.{latest_first}

pub record PaymentItem : Type 0 where
  pub end_to_end_id : Text
  pub message_id : Text
  pub debtor_iban : Text
  pub creditor_iban : Text
  pub creditor_name : Text
  pub amount : Text
  pub currency : Text
  pub rail : Text
  pub status : PaymentStatus
  pub reject_reason : Option Text
  pub created_at : ℕ
  pub settled_at : Option ℕ

abbrev pub payment_item : PaymentInstruction → PaymentItem
payment_item i = record {
  end_to_end_id = i.id;
  message_id = i.message_id;
  debtor_iban = i.debtor_iban;
  creditor_iban = i.creditor_iban;
  creditor_name = i.creditor_name;
  amount = str_int i.amount;
  currency = i.currency;
  rail = i.rail;
  status = i.status;
  reject_reason = i.reject_reason;
  created_at = i.created_at;
  settled_at = i.settled_at;
}

-- With a limit that is not negative; of a negative one, the database makes an error.
unfoldable pub list_payments : Env → ℕ → Session (List PaymentItem)
list_payments env limit = gets (λ d. map payment_item (
    take (min limit 200) (
      latest_first (λ (i : PaymentInstruction). i.created_at)
        (where_all (λ i. is_own env i.mock_tenant_id) d.payments))))

pub record PaymentState : Type 0 where
  pub end_to_end_id : Text
  pub status : PaymentStatus
  pub created_at : ℕ
  pub settled_at : Option ℕ
  pub reject_reason : Option Text

unfoldable pub payment_status : Env → Text → Session PaymentState
payment_status env e2e_id = do
  instr ←
      or_raise
        (← gets (λ d. first (λ i. visible env i.mock_tenant_id && text_eq i.id e2e_id) d.payments))
        (not_found payment_not_found)
  pure (record {
    end_to_end_id = instr.id;
    status = instr.status;
    created_at = instr.created_at;
    settled_at = instr.settled_at;
    reject_reason = instr.reject_reason;
  })
