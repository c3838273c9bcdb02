-- ===== src/Accounts/Ledger.antt =====
-- The ledger invariant of core/accounts.py: each balance is the signed sum of the account's entries.
use mock_sim.Base.{
  ◌≡◌, refl, sym, ap, ◌∙◌, inl, inr, false, ◌&&◌, some, List, [], ◌∷◌, ◌++◌, Text, text_eq,
  text_eq_refl, arith, if◌then◌else◌,
}
use mock_sim.Base.Int.{ℤ, pos, ◌+ℤ◌, ◌≤ℤ◌, neg_ℤ, abs_ℤ, ltb_ℤ, int_laws}
use mock_sim.Models.{Account, AccountEntry, CreditDebit, crdt, dbit}
use mock_sim.Session.{Env, Db, ok}
use mock_sim.Money.{Money, minor_units}
use mock_sim.Accounts.{
  row, set_balance, signed, is_debit, new_entry, write_entry, EntryDetails, with_balance,
}
use mock_sim.Accounts.Table.{row-set_balance-cases, row-iban, IsKeyed, set_balance-IsKeyed}
use mock_sim.Accounts.Entry.{Writes, posted, written, write_entry-Outcome}

-- What the entries of one account come to.
abbrev pub journal : Text → List AccountEntry → ℤ
journal iban [] = pos 0
journal iban (e ∷ rest) =
    (if text_eq e.account_iban iban then signed e.credit_debit e.amount else pos 0)
    +ℤ journal iban rest

pub journal-append :
    (iban : Text) (xs ys : List AccountEntry)
    → journal iban (xs ++ ys) ≡ journal iban xs +ℤ journal iban ys
journal-append iban [] ys = omega int_laws
journal-append iban (e ∷ xs) ys = rw (journal-append iban xs ys) (omega int_laws)

-- One account against the entries: the balance is what they come to, it is available, and it is not
-- below zero.
pub record IsSound (entries : List AccountEntry) (a : Account) : Type 0 where
  pub explained : a.balance ≡ journal a.iban entries
  pub available : a.available_balance ≡ a.balance
  pub not_negative : pos 0 ≤ℤ a.balance

pub record IsLedger (d : Db) : Type 0 where
  pub keyed : IsKeyed d.accounts
  pub sound : (iban : Text) (a : Account) → row iban d.accounts ≡ some a → IsSound d.entries a

-- An entry of an amount that is not negative counts as the change of the balance.
signed-abs_ℤ :
    (cd : CreditDebit) (n : ℤ) → pos 0 ≤ℤ n → signed cd (abs_ℤ (signed cd n)) ≡ signed cd n
unfolding abs_ℤ neg_ℤ
signed-abs_ℤ crdt n h = ground arith
signed-abs_ℤ dbit n h = ground arith

nonneg_after :
    (cd : CreditDebit) (b n : ℤ)
    → pos 0 ≤ℤ n
    → pos 0 ≤ℤ b
    → (is_debit cd && ltb_ℤ (b +ℤ signed cd n) (pos 0)) ≡ false
    → pos 0 ≤ℤ b +ℤ signed cd n
nonneg_after crdt b n h k g = omega int_laws
nonneg_after dbit b n h k g = ground arith

module _ (env : Env) (iban : Text) (amount : Money) (cd : CreditDebit) (details : EntryDetails)
    (d : Db) (a : Account) (units : ℤ) (w : Writes env iban amount cd details d a units) where
  abbrev entry : AccountEntry
  entry = posted env iban amount cd details a units d

  journal-entry :
      (j : Text)
      → journal j (d.entries ++ entry ∷ [])
        ≡ journal j d.entries
          +ℤ (if text_eq a.iban j then signed cd (abs_ℤ (signed cd units)) else pos 0)
  unfolding new_entry
  journal-entry j =
      journal-append j d.entries (entry ∷ []) ∙ ap (λ t. journal j d.entries +ℤ t) (omega int_laws)

  -- The account that is written.
  IsSound-self :
      pos 0 ≤ℤ units
      → IsSound d.entries a
      → IsSound (d.entries ++ entry ∷ []) (with_balance env.wall (a.balance +ℤ signed cd units) a)
  IsSound-self h s = record {
    explained =
        rw (journal-entry a.iban, text_eq_refl a.iban, signed-abs_ℤ cd units h, ← s.explained);
    available = refl;
    not_negative = nonneg_after cd a.balance units h s.not_negative w.covered;
  }

  -- Any other account.
  IsSound-other :
      (b : Account)
      → text_eq a.iban b.iban ≡ false
      → IsSound d.entries b
      → IsSound (d.entries ++ entry ∷ []) b
  IsSound-other b ne s = record {
    explained = rw (journal-entry b.iban, ne) (s.explained ∙ omega int_laws);
    available = s.available;
    not_negative = s.not_negative;
  }

  at_row :
      (j : Text) (b : Account)
      → pos 0 ≤ℤ units
      → IsLedger d
      → row j (set_balance env.wall iban (a.balance +ℤ signed cd units) d.accounts) ≡ some b
      → IsSound (d.entries ++ entry ∷ []) b
  at_row j b h l e =
      elim (row-set_balance-cases env.wall iban (a.balance +ℤ signed cd units) j d.accounts b e) [
        | inl (same, x, found, is_b) ↦
            let is_a : some x ≡ some a = sym found ∙ rw same at w.found in
            let x≡a : x ≡ a = cc in rw (is_b, x≡a) (IsSound-self h (l.sound iban a w.found))
        | inr (other, found) ↦
            IsSound-other b
              (rw (row-iban iban d.accounts a w.found, row-iban j d.accounts b found) other)
              (l.sound j b found)
      ]

  -- An entry of an amount that is not negative keeps the ledger: every balance stays the signed sum
  -- of the account's entries, available and not below zero.
  written-IsLedger :
      pos 0 ≤ℤ units → IsLedger d → IsLedger (written env iban amount cd details a units d)
  written-IsLedger h l = record {
    keyed = set_balance-IsKeyed env.wall iban (a.balance +ℤ signed cd units) d.accounts l.keyed;
    sound = λ j b e. at_row j b h l e;
  }

-- `write_entry` keeps the ledger, whether it writes or raises, for an amount that is not negative:
-- every balance is the signed sum of the account's entries, is available, and is not below zero. A
-- raise changes nothing.
pub write_entry-IsLedger :
    (env : Env) (iban : Text) (amount : Money) (cd : CreditDebit) (details : EntryDetails) (d : Db)
    (units : ℤ)
    → minor_units amount ≡ ok units
    → pos 0 ≤ℤ units
    → IsLedger d
    → IsLedger (write_entry env iban amount cd details d).1
write_entry-IsLedger env iban amount cd details d units m h l =
    elim (write_entry-Outcome env iban amount cd details d) [
      | inl (e, raised) ↦ rw raised l
      | inr (a, n, w) ↦
          let same : ok units ≡ ok n = sym m ∙ w.reads in
          let is_n : units ≡ n = cc in
          rw w.result (written-IsLedger env iban amount cd details d a n w (rw is_n at h) l)
    ]
