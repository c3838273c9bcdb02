-- ===== src/Accounts/Booked.antt =====
-- The accounts (core/accounts.py) when one is added: the ledger, with the foreign key of the entries.
use mock_sim.Base.{
  ◌≡◌, refl, sym, subst, ◌∙◌, ◌⊎◌, inl, inr, Bool, false, none, some, List, [], ◌∷◌, ◌++◌, Text,
  text_eq, text_eq_iff, text_eq_refl, any_row, first, Bool-cases, arith,
}
use mock_sim.Base.Int.{pos, int_laws}
use mock_sim.Models.{Account, AccountEntry}
use mock_sim.Session.{Db, flush}
use mock_sim.Accounts.{row}
use mock_sim.Accounts.Table.{IsKeyed}
use mock_sim.Accounts.Ledger.{IsLedger, IsSound, journal}

pub any_row-first :
    (p : Account → Bool) (rows : List Account) → any_row p rows ≡ false → first p rows ≡ none
any_row-first p [] h = refl
any_row-first p (a ∷ rows) h = ground (arith, any_row-first p rows)

row-append-none :
    (iban : Text) (rows : List Account) (a : Account)
    → row iban (rows ++ a ∷ []) ≡ none
    → row iban rows ≡ none
row-append-none iban [] a h = refl
row-append-none iban (x ∷ rows) a h = ground (arith, row-append-none iban rows a)

row-append-fresh :
    (iban : Text) (rows : List Account) (a : Account)
    → row iban rows ≡ none
    → text_eq a.iban iban ≡ false
    → row iban (rows ++ a ∷ []) ≡ none
row-append-fresh iban [] a h other = rw other refl
row-append-fresh iban (x ∷ rows) a h other = ground (arith, row-append-fresh iban rows a)

IsKeyed-append :
    (rows : List Account) (a : Account)
    → IsKeyed rows
    → row a.iban rows ≡ none
    → IsKeyed (rows ++ a ∷ [])
IsKeyed-append [] a k fresh = (refl, tt)
IsKeyed-append (x ∷ rows) a k fresh = elim (Bool-cases (text_eq x.iban a.iban)) [
  | inl same ↦ cc (rw same at fresh)
  | inr other ↦
      let turned : text_eq a.iban x.iban ≡ false =
        ground (arith, text_eq_iff a.iban x.iban, text_eq_iff x.iban a.iban, text_eq_refl a.iban) in
      (row-append-fresh x.iban rows a k.0 turned, IsKeyed-append rows a k.1 (rw other at fresh))
]

row-append-some :
    (iban : Text) (rows : List Account) (a b : Account)
    → row iban (rows ++ a ∷ []) ≡ some b
    → (row iban rows ≡ some b) ⊎ ((row iban rows ≡ none) × (a ≡ b))
row-append-some iban [] a b h = elim (Bool-cases (text_eq a.iban iban)) [
  | inl same ↦ let found : some a ≡ some b = rw same at h in let a≡b : a ≡ b = cc in inr (refl, a≡b)
  | inr other ↦ cc (rw other at h)
]
row-append-some iban (x ∷ rows) a b h = elim (Bool-cases (text_eq x.iban iban)) [
  | inl same ↦ rw same (inl (rw same at h))
  | inr other ↦ rw other (row-append-some iban rows a b (rw other at h))
]

-- Whether there is an entry of the account; without one the entries come to nothing.
abbrev pub has_entry : Text → List AccountEntry → Bool
has_entry iban = any_row (λ e. text_eq e.account_iban iban)

journal-none :
    (iban : Text) (rows : List AccountEntry)
    → has_entry iban rows ≡ false
    → journal iban rows ≡ pos 0
journal-none iban [] h = refl
journal-none iban (e ∷ rows) h = elim (Bool-cases (text_eq e.account_iban iban)) [
  | inl own ↦ cc (rw own at h)
  | inr other ↦
      let rest = journal-none iban rows (rw other at h) in rw (other, rest) (omega int_laws)
]

-- The ledger, and no entry is of an account that is not in the table, which is the foreign key of
-- the entries.
pub record IsBooked (d : Db) : Type 0 where
  pub ledger : IsLedger d
  pub known : (iban : Text) → row iban d.accounts ≡ none → has_entry iban d.entries ≡ false

pub IsBooked-same :
    (d d' : Db) → d'.accounts ≡ d.accounts → d'.entries ≡ d.entries → IsBooked d → IsBooked d'
IsBooked-same d d' a e b = record {
  ledger = record {
    keyed = rw a b.ledger.keyed;
    sound = λ iban x h. rw e (b.ledger.sound iban x (rw a at h));
  };
  known = λ iban h. rw e (b.known iban (rw a at h));
}

-- An account without money, under an IBAN that is free.
pub added-IsBooked :
    (d : Db) (a : Account)
    → row a.iban d.accounts ≡ none
    → (a.balance ≡ pos 0) × (a.available_balance ≡ pos 0)
    → IsBooked d
    → IsBooked (flush (record d { accounts = d.accounts ++ a ∷ [] }))
added-IsBooked d a fresh nothing b = record {
  ledger = record {
    keyed = IsKeyed-append d.accounts a b.ledger.keyed fresh;
    sound = λ iban x h. elim (row-append-some iban d.accounts a x h) [
      | inl there ↦ b.ledger.sound iban x there
      | inr (missing, a≡x) ↦ subst (IsSound d.entries) a≡x (record {
        explained = nothing.0 ∙ sym (journal-none a.iban d.entries (b.known a.iban fresh));
        available = nothing.1 ∙ sym nothing.0;
        not_negative = rw nothing.0 (omega arith);
      })
    ];
  };
  known = λ iban h. b.known iban (row-append-none iban d.accounts a h);
}
