-- ===== src/Accounts/Total.antt =====
-- What one entry (core/accounts.py, `write_entry`) does to the sum of all balances.
use mock_sim.Base.{
  ◌≡◌, refl, sym, ap, ◌∙◌, inl, inr, Bool, ◌&&◌, List, [], ◌∷◌, Text, text_eq, first, update_where,
  is_none, Bool-cases,
}
use mock_sim.Base.Int.{ℤ, ◌+ℤ◌, int_laws, parts_of_eq}
use mock_sim.Models.{Account, AccountEntry, CreditDebit}
use mock_sim.Session.{Env, Db, ok, visible}
use mock_sim.Money.{Money}
use mock_sim.Accounts.{set_balance, with_balance, signed, write_entry, EntryDetails, select_account}
use mock_sim.Accounts.Table.{IsKeyed, set_balance-IsKeyed, total, total-set_balance}
use mock_sim.Accounts.Entry.{Writes, written, write_entry-Outcome}

-- A write that has returned.
pub write_entry-ok :
    (env : Env) (iban : Text) (amount : Money) (cd : CreditDebit) (details : EntryDetails) (d : Db)
    (e : AccountEntry) (d' : Db)
    → write_entry env iban amount cd details d ≡ (ok e, d')
    → (a : Account) × (units : ℤ) × (d' ≡ written env iban amount cd details a units d)
      × Writes env iban amount cd details d a units
write_entry-ok env iban amount cd details d e d' h =
    elim (write_entry-Outcome env iban amount cd details d) [
      | inl (x, raised) ↦ cc (sym raised ∙ h)
      | inr (a, units, w) ↦ (a, units, ap (λ p. p.1) (sym h ∙ w.result), w)
    ]

-- An update that keeps a test keeps whether a row passes it.
first-update_where :
    (p q : Account → Bool) (f : Account → Account) (rows : List Account)
    → ((x : Account) → p (f x) ≡ p x)
    → is_none (first p (update_where q f rows)) ≡ is_none (first p rows)
first-update_where p q f [] h = refl
first-update_where p q f (x ∷ rows) h = elim (Bool-cases (q x)) [
  | inl updated ↦ elim (Bool-cases (p x)) [
    | inl passes ↦ rw (updated, h x, passes)
    | inr fails ↦ rw (updated, h x, fails) (first-update_where p q f rows h)
  ]
  | inr kept ↦ elim (Bool-cases (p x)) [
    | inl passes ↦ rw (kept, passes)
    | inr fails ↦ rw (kept, fails) (first-update_where p q f rows h)
  ]
]

module _ (env : Env) (iban : Text) (amount : Money) (cd : CreditDebit) (details : EntryDetails)
    (d : Db) (a : Account) (units : ℤ) where
  -- A write changes the sum by the signed amount.
  pub written-total :
      IsKeyed d.accounts
      → Writes env iban amount cd details d a units
      → total (written env iban amount cd details a units d).accounts
        ≡ total d.accounts +ℤ signed cd units
  written-total k w =
      let n = a.balance +ℤ signed cd units in
      let changed = total-set_balance env.wall iban n d.accounts a k w.found in
      omega (
        int_laws,
        parts_of_eq (total (set_balance env.wall iban n d.accounts) +ℤ a.balance)
            (total d.accounts +ℤ n) changed,
      )

  pub written-IsKeyed :
      IsKeyed d.accounts → IsKeyed (written env iban amount cd details a units d).accounts
  written-IsKeyed k = set_balance-IsKeyed env.wall iban (a.balance +ℤ signed cd units) d.accounts k

  -- The same accounts are found before and after a write.
  pub select_account-written :
      (j : Text)
      → is_none (select_account env j (written env iban amount cd details a units d))
        ≡ is_none (select_account env j d)
  unfolding select_account
  select_account-written j =
      first-update_where (λ x. visible env x.mock_tenant_id && text_eq x.iban j)
        (λ x. text_eq x.iban iban) (with_balance env.wall (a.balance +ℤ signed cd units)) d.accounts
        (λ x. refl)
