-- ===== src/Bank/Accounts/Statement.antt =====
-- bank/api.py: `get_statement`, the pages of an account's entries by their booking time. The times
-- of a request are texts that the codec reads; an empty one counts as none.
pub mod Lost
use mock_sim.Base.{
  ℕ, Bool, true, false, ◌&&◌, Option, none, some, List, [], ◌∷◌, map, length, Text, text_eq,
  where_all, leb,
}
use mock_sim.Base.Int.{ℤ}
use mock_sim.Errors.{not_found, account_not_found}
use mock_sim.Models.{Account, AccountEntry, CreditDebit}
use mock_sim.Session.{
  Env, Db, Session, Result, ok, err, pure, gets, or_raise, lift, draw_id, visible, ◌>>=◌, ◌>>◌,
}
use mock_sim.Decimal.{str_int}
use mock_sim.Accounts.{select_account}
use mock_sim.Paging.{Codec, page, clamp_limit, read_param, map_option}

pub record StatementEntry : Type 0 where
  pub entry_ref : ℕ
  pub amount : Text
  pub currency : Text
  pub credit_debit : CreditDebit
  pub booking_datetime : ℕ
  pub value_date : ℕ
  pub narration : Text
  pub counterparty_name : Option Text
  pub counterparty_iban : Option Text
  pub balance_after : Text

unfoldable pub statement_entry : AccountEntry → StatementEntry
statement_entry e = record {
  entry_ref = e.id;
  amount = str_int e.amount;
  currency = e.currency;
  credit_debit = e.credit_debit;
  booking_datetime = e.booking_datetime;
  value_date = e.value_date;
  narration = e.narration;
  counterparty_name = e.counterparty_name;
  counterparty_iban = e.counterparty_iban;
  balance_after = str_int e.balance_after;
}

pub record StatementPage : Type 0 where
  pub message_id : ℕ
  pub account_iban : Text
  pub account_currency : Text
  pub balance : Text
  pub entries : List StatementEntry
  pub total_in_page : ℕ
  pub next_cursor : Option Text

-- The filters on the date of value.
abbrev pub not_before : Option ℕ → ℕ → Bool
not_before none date = true
not_before (some from) date = leb from date

abbrev pub not_after : Option ℕ → ℕ → Bool
not_after none date = true
not_after (some to) date = leb date to

unfoldable pub matching_entries : Env → Text → Option ℕ → Option ℕ → Db → List AccountEntry
matching_entries env iban from to d =
    where_all
      (λ e.
        visible env e.mock_tenant_id
        && (text_eq e.account_iban iban
            && (not_before from e.value_date && not_after to e.value_date)))
      d.entries

-- What is shown of a page, with the balance of the account.
abbrev pub statement_of : Codec → ℕ → Text → Account → List AccountEntry × Option ℕ → StatementPage
statement_of codec message_id iban account (entries, next) = record {
  message_id = message_id;
  account_iban = iban;
  account_currency = account.currency;
  balance = str_int account.balance;
  entries = map statement_entry entries;
  total_in_page = length entries;
  next_cursor = map_option codec.encode next;
}

unfoldable pub get_statement :
    Env → Codec → Text → Option Text → Option Text → Option Text → ℤ → Session StatementPage
get_statement env codec iban from_date to_date cursor limit = do
  account ← or_raise (← gets (select_account env iban)) (not_found account_not_found)
  from ← lift (read_param codec.date_of from_date)
  to ← lift (read_param codec.date_of to_date)
  after ← lift (read_param codec.decode cursor)
  rows ← gets (λ d.
      page (λ (e : AccountEntry). e.booking_datetime) (clamp_limit limit) after
        (matching_entries env iban from to d))
  message_id ← draw_id env
  pure (statement_of codec message_id iban account rows)
