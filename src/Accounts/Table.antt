-- ===== src/Accounts/Table.antt =====
-- The table of accounts: rows found by their key, an update of one row, and the sum of balances.
use mock_sim.Base.{
  ℕ, ◌≡◌, refl, ap, ◌∙◌, true, false, ◌&&◌, none, some, List, [], ◌∷◌, Text, text_eq, text_eq_iff,
  arith, first, first-holds, inl, inr, Bool-cases, Option-cases, ◌⊎◌, if◌then◌else◌, &&_split,
}
use mock_sim.Base.Int.{ℤ, pos, ◌+ℤ◌, int_laws, sum_ℤ, sum_ℤ-cons}
use mock_sim.Models.{Account}
use mock_sim.Session.{Env, visible, Db}
use mock_sim.Accounts.{row, with_balance, set_balance, select_account, balances}

-- No two accounts have one IBAN, as the unique column says.
abbrev pub IsKeyed : List Account → Type 0
IsKeyed [] = Unit {0}
IsKeyed (a ∷ rest) = (row a.iban rest ≡ none) × IsKeyed rest

module _ (wall : ℕ) (iban : Text) (n : ℤ) where
  -- After the update the row of the key has the balance, and every other row is as it was.
  pub row-set_balance :
      (other : Text) (accounts : List Account)
      → row other (set_balance wall iban n accounts) ≡ (
          if text_eq iban other
          then elim (row other accounts) [ none ↦ none | some a ↦ some (with_balance wall n a) ]
          else row other accounts)
  row-set_balance other [] = ground arith
  row-set_balance other (a ∷ rest) = ground (
    arith,
    text_eq_iff iban other,
    text_eq_iff a.iban iban,
    text_eq_iff a.iban other,
    row-set_balance other rest,
  )

  -- Where a row that is found after the update comes from.
  pub row-set_balance-cases :
      (j : Text) (accounts : List Account) (b : Account)
      → row j (set_balance wall iban n accounts) ≡ some b
      → ((iban ≡ j) × (x : Account) × (row j accounts ≡ some x) × (b ≡ with_balance wall n x))
        ⊎ ((text_eq iban j ≡ false) × (row j accounts ≡ some b))
  row-set_balance-cases j accounts b e =
      let stepped = row-set_balance j accounts in
      elim (Bool-cases (text_eq iban j)) [
        | inl same ↦ elim (Option-cases (row j accounts)) [
          | inl missing ↦ cc (rw (same, missing) at stepped)
          | inr (x, found) ↦
              inl ((text_eq_iff iban j).0 same, x, found, cc (rw (same, found) at stepped))
        ]
        | inr other ↦ inr (other, cc (rw other at stepped))
      ]

  pub set_balance-IsKeyed :
      (accounts : List Account) → IsKeyed accounts → IsKeyed (set_balance wall iban n accounts)
  set_balance-IsKeyed [] k = tt
  set_balance-IsKeyed (a ∷ rest) k =
      ground (arith, row-set_balance a.iban rest, set_balance-IsKeyed rest k.1)

  set_balance-none :
      (accounts : List Account)
      → row iban accounts ≡ none
      → set_balance wall iban n accounts ≡ accounts
  set_balance-none [] e = refl
  set_balance-none (a ∷ rest) e = ground (arith, set_balance-none rest)

-- The sum of the balances, as a plain recursion.
abbrev pub total : List Account → ℤ
total [] = pos 0
total (a ∷ rest) = a.balance +ℤ total rest

pub sum_ℤ-balances : (accounts : List Account) → sum_ℤ (balances accounts) ≡ total accounts
sum_ℤ-balances [] = refl
sum_ℤ-balances (a ∷ rest) =
    sum_ℤ-cons a.balance (balances rest) ∙ ap (λ t. a.balance +ℤ t) (sum_ℤ-balances rest)

pub total-set_balance :
    (wall : ℕ) (iban : Text) (n : ℤ) (accounts : List Account) (a : Account)
    → IsKeyed accounts
    → row iban accounts ≡ some a
    → total (set_balance wall iban n accounts) +ℤ a.balance ≡ total accounts +ℤ n
total-set_balance wall iban n [] a k e = cc
total-set_balance wall iban n (x ∷ rest) a k e = elim (Bool-cases (text_eq x.iban iban)) [
  | inl same ↦
      let gone : row iban rest ≡ none = rw ((text_eq_iff x.iban iban).0 same) at k.0 in
      rw (same, set_balance-none wall iban n rest gone) (grind (int_laws, (rw same at e)))
  | inr other ↦
      rw other (grind (int_laws, total-set_balance wall iban n rest a k.1 (rw other at e)))
]

-- A row that is found has the key.
pub row-iban :
    (iban : Text) (accounts : List Account) (a : Account)
    → row iban accounts ≡ some a
    → a.iban ≡ iban
row-iban iban accounts a e =
    (text_eq_iff a.iban iban).0 (first-holds (λ x. text_eq x.iban iban) accounts a e)

module _ (env : Env) (iban : Text) where
  select-head :
      (rest : List Account)
      → IsKeyed rest
      → (a : Account)
      → first (λ x. visible env x.mock_tenant_id && text_eq x.iban iban) rest ≡ some a
      → row iban rest ≡ some a
  select-head [] k a e = cc
  select-head (x ∷ rest) k a e =
      ground (arith, select-head rest k.1 a, text_eq_iff x.iban iban, row-iban iban rest a)

  -- A query by key, under the tenant filter, returns the row of the key, and one that is seen.
  pub select_account-row :
      (d : Db) (a : Account)
      → IsKeyed d.accounts
      → select_account env iban d ≡ some a
      → (row iban d.accounts ≡ some a) × (visible env a.mock_tenant_id ≡ true)
  unfolding select_account
  select_account-row d a k e = (
    select-head d.accounts k a e,
    (&&_split (visible env a.mock_tenant_id) (text_eq a.iban iban)
        (first-holds (λ x. visible env x.mock_tenant_id && text_eq x.iban iban) d.accounts a e)).0,
  )
