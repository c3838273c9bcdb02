-- ===== src/Bank/Accounts.antt =====
-- bank/api.py: the endpoints that create, list and show accounts, and the statement of one. The
-- digits of an IBAN are drawn by a generator that the seed of the request decides.
pub mod Statement
pub mod Created
pub mod Again
mod Tests
use mock_sim.Base.{
  ℕ, Bool, true, false, ◌&&◌, not, Option, none, some, List, [], ◌∷◌, ◌++◌, map, Text, codes,
  text_eq, upper, any_row, where_all, ◌==◌, if◌then◌else◌,
}
use mock_sim.Base.Int.{ℤ, pos}
use mock_sim.Errors.{python_error, bad_request, not_found, invalid_iban, account_not_found}
use mock_sim.Models.{
  Account, AccountType, pool, merchant_van, external, AccountStatus, active, AccountResponse,
  non_money, ResponseBody, payment_body, collect_body, mandate_body, account_body, merchant_body,
  subscription_body,
}
use mock_sim.Session.{
  Env, Db, Session, Result, ok, err, pure, gets, or_raise, raise_if, lift, modify, flush, draw_id,
  visible, is_own, ◌>>=◌, ◌>>◌,
}
use mock_sim.Decimal.{str_int}
use mock_sim.Iban.{gen_iban}
use mock_sim.Identifiers.{gen_bic}
use mock_sim.Accounts.{select_account, row}
use mock_sim.Paging.{latest_first}
use mock_sim.Idempotency.{complete_record}
use mock_sim.Idempotency.Endpoint.{endpoint}
use mock_sim.Bank.Regions.{get_region}

pub record CreateAccountRequest : Type 0 where
  pub account_type : AccountType
  pub owner_name : Text
  pub region : Text
  pub currency : Text
  pub sharia_flag : Bool
  pub parent_iban : Option Text
  pub seed : Option Text

-- `AccountResponse(**cached.response_body)`
unfoldable pub as_account : Option ResponseBody → Result AccountResponse
as_account none = err python_error
as_account (some (account_body r)) = ok r
as_account (some (payment_body r)) = err python_error
as_account (some (collect_body r)) = err python_error
as_account (some (mandate_body r)) = err python_error
as_account (some (merchant_body r)) = err python_error
as_account (some (subscription_body r)) = err python_error

-- The response about a row.
unfoldable pub account_response : Account → AccountResponse
account_response a = record {
  id = a.id;
  iban = a.iban;
  bic = a.bic;
  account_type = a.account_type;
  owner_name = a.owner_name;
  region = a.region;
  currency = a.currency;
  balance = str_int a.balance;
  available_balance = str_int a.available_balance;
  status = a.status;
  sharia_flag = a.sharia_flag;
  parent_iban = a.parent_iban;
  created_at = a.created_at;
}

-- `not body.parent_iban`: an empty text counts as none.
abbrev pub has_parent : Option Text → Bool
has_parent none = false
has_parent (some []) = false
has_parent (some (c ∷ s)) = true

abbrev pub needs_parent : AccountType → Bool
needs_parent merchant_van = true
needs_parent pool = false
needs_parent external = false

unfoldable pub new_account : Env → ℕ → ℕ → CreateAccountRequest → Text → Account
new_account env id tenant body iban = record {
  id = id;
  mock_tenant_id = tenant;
  iban = iban;
  bic = gen_bic body.region;
  account_type = body.account_type;
  currency = upper body.currency;
  balance = pos 0;
  available_balance = pos 0;
  parent_iban = body.parent_iban;
  status = active;
  sharia_flag = body.sharia_flag;
  owner_name = body.owner_name;
  region = upper body.region;
  created_at = env.wall;
  updated_at = env.wall;
}

-- Whether the foreign key `parent_iban` fails: the parent may be of any tenant.
abbrev pub is_orphan : Option Text → List Account → Bool
is_orphan none accounts = false
is_orphan (some parent) accounts = not (any_row (λ a. text_eq a.iban parent) accounts)

-- The insert and its flush. An IBAN that is taken, or a parent that is not there, makes it fail.
unfoldable pub insert_account : Account → Session (Unit {0})
insert_account account = do
  taken ← gets (λ d. any_row (λ a. text_eq a.iban account.iban) d.accounts)
  raise_if taken python_error
  orphan ← gets (λ d. is_orphan account.parent_iban d.accounts)
  raise_if orphan python_error
  modify (λ d. flush (record d { accounts = d.accounts ++ account ∷ [] }))

module _ (env : Env) (randint : Option Text → ℕ → ℕ) where
  -- The body for a key that is seen for the first time.
  unfoldable pub start_account : Text → CreateAccountRequest → ℕ → Session AccountResponse
  start_account key body tenant = do
    lift (get_region body.region)
    raise_if (needs_parent body.account_type && not (has_parent body.parent_iban))
        (bad_request invalid_iban)
    iban ← lift (gen_iban body.region (randint body.seed))
    id ← draw_id env
    let account = new_account env id tenant body iban
    insert_account account
    complete_record env tenant key 201 (account_body (account_response account))
    pure (account_response account)

  unfoldable pub create_account :
      (CreateAccountRequest → Text) → Text → CreateAccountRequest → Session AccountResponse
  create_account dump key body =
      endpoint env key (dump body) non_money as_account (start_account key body)

  -- `create_virtual_account`: the type is set before the body is hashed.
  unfoldable pub create_virtual_account :
      (CreateAccountRequest → Text) → Text → CreateAccountRequest → Session AccountResponse
  create_virtual_account dump key body =
      create_account dump key (record body { account_type = merchant_van })

unfoldable pub list_accounts : Env → Session (List AccountResponse)
list_accounts env = gets (λ d. map account_response (
    latest_first (λ (a : Account). a.created_at)
      (where_all (λ a. is_own env a.mock_tenant_id) d.accounts)))

unfoldable pub show_account : Env → Text → Session AccountResponse
show_account env iban = do
  account ← or_raise (← gets (select_account env iban)) (not_found account_not_found)
  pure (account_response account)

pub record Balance : Type 0 where
  pub iban : Text
  pub currency : Text
  pub balance : Text
  pub available_balance : Text
  pub status : AccountStatus

unfoldable pub get_balance : Env → Text → Session Balance
get_balance env iban = do
  account ← or_raise (← gets (select_account env iban)) (not_found account_not_found)
  pure (record {
    iban = iban;
    currency = account.currency;
    balance = str_int account.balance;
    available_balance = str_int account.available_balance;
    status = account.status;
  })
