-- ===== src/Accounts.antt =====
-- core/accounts.py: balance reads, entry writes and the transfer between two accounts. An ORM object
-- that the code holds is its row, found by its key, so two names for one account see the same row.
pub mod Table
pub mod Entry
pub mod Ledger
pub mod Booked
pub mod Total
pub mod Transfer
pub mod Pools
mod Tests
use mock_sim.Base.{
  ℕ, Bool, true, false, ◌&&◌, not, Option, none, some, List, [], ◌∷◌, ◌++◌, map, Text, text_eq,
  first, where_all, update_where, if◌then◌else◌,
}
use mock_sim.Base.Int.{ℤ, pos, ◌+ℤ◌, neg_ℤ, abs_ℤ, ltb_ℤ, eqb_ℤ, sum_ℤ}
use mock_sim.Errors.{
  python_error, bad_request, not_found, unprocessable, internal, account_not_found, account_closed,
  account_dormant, currency_mismatch, insufficient_funds,
}
use mock_sim.Models.{
  Account, AccountEntry, AccountType, pool, merchant_van, external, AccountStatus, active, dormant,
  closed, CreditDebit, crdt, dbit,
}
use mock_sim.Session.{
  Env, Db, Session, visible, pure, gets, or_raise, raise, raise_if, lift, modify, draw_id, ◌>>=◌,
  ◌>>◌,
}
use mock_sim.Money.{Money, minor_units}
use mock_sim.Calendar.{date_of}

-- The row of a key, whoever owns it.
abbrev pub row : Text → List Account → Option Account
row iban = first (λ a. text_eq a.iban iban)

-- `select(Account).where(Account.iban == iban)`, under the tenant filter
unfoldable pub select_account : Env → Text → Db → Option Account
select_account env iban d =
    first (λ a. visible env a.mock_tenant_id && text_eq a.iban iban) d.accounts

unfoldable pub get_account : Env → Text → Session Account
get_account env iban = do
  account ← gets (select_account env iban)
  or_raise account (not_found account_not_found)

unfoldable pub check_status : AccountStatus → Session (Unit {0})
check_status active = pure tt
check_status dormant = raise (unprocessable account_dormant)
check_status closed = raise (unprocessable account_closed)

unfoldable pub assert_account_active : Account → Session (Unit {0})
unfolding check_status
assert_account_active account = check_status account.status

-- What the caller says of an entry beside the amount.
pub record EntryDetails : Type 0 where
  pub narration : Text
  pub counterparty_name : Option Text
  pub counterparty_iban : Option Text
  pub transfer_id : Option ℕ

-- the three assignments to the account
abbrev pub with_balance : ℕ → ℤ → Account → Account
with_balance wall n a = record a { balance = n; available_balance = n; updated_at = wall }

abbrev pub set_balance : ℕ → Text → ℤ → List Account → List Account
set_balance wall iban n = update_where (λ a. text_eq a.iban iban) (with_balance wall n)

abbrev pub signed : CreditDebit → ℤ → ℤ
signed crdt amount = amount
signed dbit amount = neg_ℤ amount

abbrev pub is_debit : CreditDebit → Bool
is_debit crdt = false
is_debit dbit = true

-- `value_date or now.date()`: no caller of the modelled paths passes a value date.
unfoldable pub new_entry :
    Env → ℕ → Account → ℤ → CreditDebit → Text → ℤ → EntryDetails → AccountEntry
new_entry env id account delta credit_debit currency new_balance details = record {
  id = id;
  mock_tenant_id = account.mock_tenant_id;
  account_iban = account.iban;
  amount = abs_ℤ delta;
  credit_debit = credit_debit;
  currency = currency;
  balance_after = new_balance;
  booking_datetime = env.sim;
  value_date = date_of env.sim;
  narration = details.narration;
  counterparty_name = details.counterparty_name;
  counterparty_iban = details.counterparty_iban;
  transfer_id = details.transfer_id;
  created_at = env.wall;
}

unfoldable pub write_entry : Env → Text → Money → CreditDebit → EntryDetails → Session AccountEntry
write_entry env iban amount credit_debit details = do
  account ← or_raise (← gets (λ d. row iban d.accounts)) python_error
  raise_if (not (text_eq amount.currency account.currency)) (bad_request currency_mismatch)
  units ← lift (minor_units amount)
  let delta = signed credit_debit units
  let new_balance = account.balance +ℤ delta
  raise_if (is_debit credit_debit && ltb_ℤ new_balance (pos 0)) (unprocessable insufficient_funds)
  modify (λ d. record d { accounts = set_balance env.wall iban new_balance d.accounts })
  id ← draw_id env
  let entry = new_entry env id account delta credit_debit amount.currency new_balance details
  modify (λ d. record d { entries = d.entries ++ entry ∷ [] })
  pure entry

-- `Account.parent_iban == iban`: a null parent equals nothing.
abbrev pub is_child_of : Text → Account → Bool
is_child_of iban a = elim a.parent_iban [ none ↦ false | some p ↦ text_eq p iban ]

unfoldable pub children_of : Env → Text → List Account → List Account
children_of env iban = where_all (λ a. visible env a.mock_tenant_id && is_child_of iban a)

abbrev pub balances : List Account → List ℤ
balances = map (λ a. a.balance)

abbrev pub is_empty : List Account → Bool
is_empty [] = true
is_empty (a ∷ rest) = false

-- `_check_pool_sum`; the log entry is not modelled.
unfoldable pub check_pool_sum : Env → Account → Session (Unit {0})
unfolding children_of
check_pool_sum env pool_account = do
  children ← gets (λ d. children_of env pool_account.iban d.accounts)
  raise_if (not (is_empty children) && not (eqb_ℤ pool_account.balance (sum_ℤ (balances children))))
      internal

-- The branches of `_assert_pool_invariant`: an absent or empty parent is false.
unfoldable pub check_family : Env → AccountType → Option Text → Account → Session (Unit {0})
check_family env merchant_van none account = pure tt
check_family env merchant_van (some []) account = pure tt
check_family env merchant_van (some (c ∷ parent)) account = do
  pool_account ← get_account env (c ∷ parent)
  check_pool_sum env pool_account
check_family env pool parent account = check_pool_sum env account
check_family env external parent account = pure tt

-- `_assert_pool_invariant`, on an account that the session holds
unfoldable pub assert_pool_invariant : Env → Text → Session (Unit {0})
unfolding check_family
assert_pool_invariant env iban = do
  account ← or_raise (← gets (λ d. row iban d.accounts)) python_error
  check_family env account.account_type account.parent_iban account

-- The transfer in its three parts: the checks, the paired entries, the check of the pools.
unfoldable pub check_transfer : Env → Text → Text → Session (Unit {0})
check_transfer env src_iban dst_iban = do
  src ← get_account env src_iban
  dst ← get_account env dst_iban
  assert_account_active src
  assert_account_active dst
  raise_if (not (text_eq src.currency dst.currency)) (bad_request currency_mismatch)

abbrev pub paired : Text → Text → ℕ → EntryDetails
paired narration counterparty transfer_id = record {
  narration = narration;
  counterparty_name = none;
  counterparty_iban = some counterparty;
  transfer_id = some transfer_id;
}

unfoldable pub write_pair :
    Env → Text → Text → Money → Text → ℕ → Session (AccountEntry × AccountEntry)
write_pair env src_iban dst_iban amount narration transfer_id = do
  debit_entry ← write_entry env src_iban amount dbit (paired narration dst_iban transfer_id)
  credit_entry ← write_entry env dst_iban amount crdt (paired narration src_iban transfer_id)
  pure (debit_entry, credit_entry)

unfoldable pub assert_pool_invariants : Env → Text → Text → Session (Unit {0})
assert_pool_invariants env src_iban dst_iban =
    assert_pool_invariant env src_iban >> assert_pool_invariant env dst_iban

unfoldable pub internal_transfer :
    Env → Text → Text → Money → Text → Session (AccountEntry × AccountEntry)
internal_transfer env src_iban dst_iban amount narration = do
  check_transfer env src_iban dst_iban
  transfer_id ← draw_id env
  entries ← write_pair env src_iban dst_iban amount narration transfer_id
  assert_pool_invariants env src_iban dst_iban
  pure entries
