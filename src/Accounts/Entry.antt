-- ===== src/Accounts/Entry.antt =====
-- `write_entry` (core/accounts.py): what it does on every branch, and the ledger that it keeps.
use mock_sim.Base.{
  suc, ◌≡◌, refl, ◌⊎◌, inl, inr, true, false, ◌&&◌, none, some, [], ◌∷◌, ◌++◌, Text, text_eq,
  Bool-cases, Option-cases, if◌then◌else◌,
}
use mock_sim.Base.Int.{ℤ, pos, ◌+ℤ◌, ltb_ℤ}
use mock_sim.Errors.{
  Error, python_error, bad_request, unprocessable, currency_mismatch, insufficient_funds,
}
use mock_sim.Models.{Account, AccountEntry, CreditDebit}
use mock_sim.Session.{Env, Db, Result, ok, err}
use mock_sim.Money.{Money, minor_units}
use mock_sim.Accounts.{row, set_balance, signed, is_debit, new_entry, write_entry, EntryDetails}

module _ (env : Env) (iban : Text) (amount : Money) (cd : CreditDebit)
    (details : EntryDetails) where
  -- The entry that is written for an account, and the state with it.
  abbrev pub posted : Account → ℤ → Db → AccountEntry
  posted a units d =
      new_entry env (env.draw d.draws) a (signed cd units) cd amount.currency
        (a.balance +ℤ signed cd units) details

  abbrev pub written : Account → ℤ → Db → Db
  written a units d = record d {
    accounts = set_balance env.wall iban (a.balance +ℤ signed cd units) d.accounts;
    entries = d.entries ++ posted a units d ∷ [];
    draws = suc d.draws;
  }

  -- The outcome of a write: an error and no change, or the new balance and one entry.
  pub record Writes (d : Db) (a : Account) (units : ℤ) : Type 0 where
    pub found : row iban d.accounts ≡ some a
    pub same_currency : text_eq amount.currency a.currency ≡ true
    pub reads : minor_units amount ≡ ok units
    pub covered : (is_debit cd && ltb_ℤ (a.balance +ℤ signed cd units) (pos 0)) ≡ false
    pub result :
        write_entry env iban amount cd details d ≡ (ok (posted a units d), written a units d)

  module _ (d : Db) (a : Account) (units : ℤ) (found : row iban d.accounts ≡ some a) where
    -- On an account that is there, in its currency and with an amount that reads, the guard on the
    -- funds alone decides.
    pub write_entry_lem :
        text_eq amount.currency a.currency ≡ true
        → minor_units amount ≡ ok units
        → write_entry env iban amount cd details d ≡ (
            if is_debit cd && ltb_ℤ (a.balance +ℤ signed cd units) (pos 0)
            then (err (unprocessable insufficient_funds), d)
            else (ok (posted a units d), written a units d))
    unfolding write_entry
    write_entry_lem c m =
        rw (found, c, m, write_entry)
          (elim (Bool-cases (is_debit cd && ltb_ℤ (a.balance +ℤ signed cd units) (pos 0))) [
            | inl short ↦ rw short
            | inr covered ↦ rw covered
          ])

    write_entry-mismatch :
        text_eq amount.currency a.currency ≡ false
        → write_entry env iban amount cd details d ≡ (err (bad_request currency_mismatch), d)
    unfolding write_entry
    write_entry-mismatch c = rw (found, c, write_entry)

    write_entry-unread :
        text_eq amount.currency a.currency ≡ true
        → (e : Error) → minor_units amount ≡ err e
        → write_entry env iban amount cd details d ≡ (err e, d)
    unfolding write_entry
    write_entry-unread c e m = rw (found, c, m, write_entry)

  write_entry-missing :
      (d : Db)
      → row iban d.accounts ≡ none
      → write_entry env iban amount cd details d ≡ (err python_error, d)
  unfolding write_entry
  write_entry-missing d e = rw (e, write_entry)

  -- What the two outcomes of a write are: it raises and changes nothing, or it writes.
  abbrev pub Outcome : Db → Type 0
  Outcome d =
      ((e : Error) × (write_entry env iban amount cd details d ≡ (err e, d)))
      ⊎ ((a : Account) × (units : ℤ) × Writes d a units)

  Outcome-of_found :
      (d : Db) (a : Account) (m : Result ℤ)
      → row iban d.accounts ≡ some a
      → text_eq amount.currency a.currency ≡ true
      → minor_units amount ≡ m
      → Outcome d
  Outcome-of_found d a (err e) found c m = inl (e, write_entry-unread d a (pos 0) found c e m)
  Outcome-of_found d a (ok units) found c m =
      let stepped = write_entry_lem d a units found c m in
      elim (Bool-cases (is_debit cd && ltb_ℤ (a.balance +ℤ signed cd units) (pos 0))) [
        | inl short ↦ inl (unprocessable insufficient_funds, rw short at stepped)
        | inr covered ↦ inr (
          a,
          units,
          record {
            found = found;
            same_currency = c;
            reads = m;
            covered = covered;
            result = rw covered at stepped;
          },
        )
      ]

  pub write_entry-Outcome : (d : Db) → Outcome d
  write_entry-Outcome d = elim (Option-cases (row iban d.accounts)) [
    | inl missing ↦ inl (python_error, write_entry-missing d missing)
    | inr (a, found) ↦ elim (Bool-cases (text_eq amount.currency a.currency)) [
      | inl same ↦ Outcome-of_found d a (minor_units amount) found same refl
      | inr other ↦
          inl (bad_request currency_mismatch, write_entry-mismatch d a (pos 0) found other)
    ]
  ]
