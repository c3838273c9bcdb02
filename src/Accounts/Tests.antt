-- ===== src/Accounts/Tests.antt =====
-- Tests and instances for core/accounts.py.
use mock_sim.Base.{◌≡◌, refl, codes, arith, some, [], ◌∷◌, Text, inl, text_eq}
use mock_sim.Base.Int.{ℤ, pos, ◌+ℤ◌, neg_ℤ, abs_ℤ, sum_ℤ}
use mock_sim.Models.{Account, AccountEntry, pool, merchant_van}
use mock_sim.Calendar.{date_of}
use mock_sim.Decimal.{int_text}
use mock_sim.Errors.{internal}
use mock_sim.Money.{Money, minor_units}
use mock_sim.Session.{Db, Session, Result, ok, err, transaction, visible}
use mock_sim.Accounts.{
  check_family, internal_transfer, select_account, get_account, assert_account_active, check_status,
  write_entry, new_entry, assert_pool_invariant, check_pool_sum, check_transfer, write_pair,
  children_of, assert_pool_invariants, balances,
}
use mock_sim.Accounts.Pools.{internal_transfer-IsPooled}
use mock_sim.Accounts.Table.{total}
use mock_sim.Accounts.Ledger.{IsLedger}
use mock_sim.Accounts.Transfer.{internal_transfer-total, internal_transfer-IsLedger}
use mock_sim.Fixtures.{
  env, db, db-IsLedger, db-IsKeyed, account, deposit, debtor_iban, creditor_iban,
}

abbrev amount : Money
amount = record { value = codes "300"; currency = codes "PKR" }

internal_transfer-total_example :
    total
      (transaction
        (internal_transfer env debtor_iban creditor_iban amount (codes "Rent"))
        db).1.accounts
    ≡ pos 1050
unfolding ◌+ℤ◌
internal_transfer-total_example =
    internal_transfer-total env debtor_iban creditor_iban amount (codes "Rent") db db-IsKeyed

internal_transfer-IsLedger_example :
    IsLedger
      (transaction (internal_transfer env debtor_iban creditor_iban amount (codes "Rent")) db).1
unfolding minor_units int_text
internal_transfer-IsLedger_example =
    internal_transfer-IsLedger env debtor_iban creditor_iban amount (codes "Rent") db (pos 300) refl
      (omega arith) db-IsLedger

abbrev pool_account : Account
pool_account = record (account (codes "P") (pos 100)) { account_type = pool }

abbrev van : Text → ℤ → Account
van iban balance = record (account iban balance) {
  account_type = merchant_van;
  parent_iban = some (codes "P");
}

abbrev pool_db : Db
pool_db = record db {
  accounts = pool_account ∷ van (codes "V") (pos 60) ∷ van (codes "W") (pos 40) ∷ [];
}

abbrev share : Money
share = record { value = codes "30"; currency = codes "PKR" }

abbrev returned : Result (AccountEntry × AccountEntry) → AccountEntry × AccountEntry
returned (ok p) = p
returned (err e) = (deposit (codes "V") (pos 0), deposit (codes "W") (pos 0))

abbrev sharing : Session (AccountEntry × AccountEntry)
sharing = internal_transfer env (codes "V") (codes "W") share (codes "Share")

internal_transfer-IsPooled_example :
    pos 100 ≡ sum_ℤ (balances (children_of env (codes "P") (sharing pool_db).1.accounts))
unfolding internal_transfer get_account assert_account_active check_status write_entry new_entry
    assert_pool_invariant check_pool_sum check_transfer write_pair assert_pool_invariants
    minor_units int_text ◌+ℤ◌ neg_ℤ text_eq select_account visible abs_ℤ date_of
internal_transfer-IsPooled_example =
    internal_transfer-IsPooled env (codes "V") (codes "W") share (codes "Share") pool_db
      (sharing pool_db).1 (returned (sharing pool_db).0) refl (codes "V") (inl refl)
      (record (van (codes "V") (pos 30)) { updated_at = 50 }) refl refl 80 [] refl pool_account refl
      refl

-- A transfer from a pool to its own merchant account, both balanced before, is refused.
pool-van_refused :
    (internal_transfer env (codes "P") (codes "V") share (codes "Share") pool_db).0 ≡ err internal
unfolding internal_transfer get_account assert_account_active check_status write_entry new_entry
    assert_pool_invariant check_family check_pool_sum check_transfer write_pair children_of
    assert_pool_invariants minor_units int_text ◌+ℤ◌ neg_ℤ text_eq select_account visible abs_ℤ
    date_of
pool-van_refused = refl
