-- ===== src/Bank/Payments/Decision.antt =====
-- What decides a payment (bank/payments.py): the state of the debtor's account.
use mock_sim.Base.{
  ℕ, ◌≡◌, refl, sym, ap, ◌∙◌, inl, inr, true, false, Option, none, some, Text, text_eq, text_eq_iff,
  Bool-cases, arith,
}
use mock_sim.Base.Int.{ℤ, pos, ◌+ℤ◌, neg_ℤ, ltb_ℤ, +ℤ_parts, neg_ℤ_parts}
use mock_sim.Models.{
  Account, AccountStatus, active, dormant, closed, crdt, dbit, PaymentInstruction, PaymentStatus,
  pending, accepted, settled, rejected,
}
use mock_sim.Session.{Env, Db, Session, pure, Result, ok, err, close_session}
use mock_sim.Money.{Money, minor_units, is_supported}
use mock_sim.Money.Laws.{from_minor-minor_units}
use mock_sim.Accounts.{row, write_entry, get_account, select_account}
use mock_sim.Accounts.Table.{IsKeyed, row-iban, select_account-row, row-set_balance-cases}
use mock_sim.Accounts.Entry.{posted, written, write_entry_lem}
use mock_sim.Accounts.Total.{written-IsKeyed}
use mock_sim.Bank.Payments.{
  credit_creditor, book_payment, settle_payment, conclude_payment, decide_payment, run_payment,
  process_payment, load_instruction, check_debtor, debtor_reason, debit_details, credit_details,
  was_settled, PaymentResult, terminal,
}
use mock_sim.Bank.Messages.{load_subscriptions}
use mock_sim.Bank.Payments.Results.{announce_settlement-Yields}

-- The debtor passes the check only with an active account that covers the amount.
debtor_reason-none :
    (o : Option Account) (n : ℤ)
    → debtor_reason o n ≡ none
    → (a : Account) × (o ≡ some a) × (ltb_ℤ a.balance n ≡ false)
unfolding debtor_reason
debtor_reason-none none n e = cc
debtor_reason-none (some a) n e = by_status a.status refl
  where
    by_status :
        (s : AccountStatus)
        → a.status ≡ s
        → (b : Account) × (some a ≡ some b) × (ltb_ℤ b.balance n ≡ false)
    by_status closed h = cc (rw h at e)
    by_status dormant h = cc (rw h at e)
    by_status active h = elim (Bool-cases (ltb_ℤ a.balance n)) [
      | inl short ↦ cc (rw (h, short) at e)
      | inr covered ↦ (a, refl, covered)
    ]

covers : (b n : ℤ) → ltb_ℤ b n ≡ false → ltb_ℤ (b +ℤ neg_ℤ n) (pos 0) ≡ false
covers b n h = ground (arith, +ℤ_parts b (neg_ℤ n), neg_ℤ_parts n)

module _ (env : Env) (instr : PaymentInstruction) (amount : Money) (d : Db) (k : IsKeyed d.accounts)
    (reads : minor_units amount ≡ ok instr.amount) (currency : amount.currency ≡ instr.currency)
    (a : Account) (found : select_account env instr.debtor_iban d ≡ some a)
    (same : a.currency ≡ instr.currency) (covered : ltb_ℤ a.balance instr.amount ≡ false)
    (creditors : (c : Account)
      → row instr.creditor_iban d.accounts ≡ some c
      → c.currency ≡ instr.currency) where
  abbrev debited : Db
  debited = written env a.iban amount dbit (debit_details instr) a instr.amount d

  debit-returns :
      write_entry env a.iban amount dbit (debit_details instr) d
      ≡ (ok (posted env a.iban amount dbit (debit_details instr) a instr.amount d), debited)
  debit-returns =
      let at_iban = (select_account-row env instr.debtor_iban d a k found).0 in
      let at_row : row a.iban d.accounts ≡ some a =
        ap (λ (i : Text). row i d.accounts) (row-iban instr.debtor_iban d.accounts a at_iban)
        ∙ at_iban in
      let matches : text_eq amount.currency a.currency ≡ true =
        (text_eq_iff amount.currency a.currency).1 (currency ∙ sym same) in
      let stepped =
        write_entry_lem env a.iban amount dbit (debit_details instr) d a instr.amount at_row matches
          reads in
      rw (covers a.balance instr.amount covered) at stepped

  credit-returns :
      (o : Option Account)
      → select_account env instr.creditor_iban debited ≡ o
      → (st : Db) × (credit_creditor env instr amount o debited ≡ (ok tt, st))
  unfolding credit_creditor
  credit-returns none e = (debited, refl)
  credit-returns (some c) e =
      let keyed = written-IsKeyed env a.iban amount dbit (debit_details instr) d a instr.amount k in
      let at_iban = (select_account-row env instr.creditor_iban debited c keyed e).0 in
      let at_row : row c.iban debited.accounts ≡ some c =
        ap (λ (i : Text). row i debited.accounts)
          (row-iban instr.creditor_iban debited.accounts c at_iban)
        ∙ at_iban in
      let in_currency : c.currency ≡ instr.currency =
        elim (row-set_balance-cases env.wall a.iban (a.balance +ℤ neg_ℤ instr.amount)
          instr.creditor_iban d.accounts c at_iban) [
            | inl (_, x, there, is_c) ↦ ap (λ (y : Account). y.currency) is_c ∙ creditors x there
            | inr (_, there) ↦ creditors c there
          ] in
      let matches : text_eq amount.currency c.currency ≡ true =
        (text_eq_iff amount.currency c.currency).1 (currency ∙ sym in_currency) in
      let stepped =
        write_entry_lem env c.iban amount crdt (credit_details instr) debited c instr.amount at_row
          matches reads in
      (written env c.iban amount crdt (credit_details instr) c instr.amount debited, rw stepped)

  book_payment-returns :
      (o : Option Account) × (st : Db) × (book_payment env instr amount d ≡ (ok o, st))
  unfolding book_payment get_account
  book_payment-returns =
      let o = select_account env instr.creditor_iban debited in
      let (st, credited) = credit-returns o refl in (o, st, rw (found, debit-returns, credited))

module _ (env : Env) (tenant : ℕ) (id : Text) (instr : PaymentInstruction) (d : Db) where
  to_run :
      (x : PaymentResult)
      → load_instruction env tenant id d ≡ some instr
      → instr.status ≡ accepted
      → (decide_payment env tenant instr d).0 ≡ ok x
      → (process_payment env tenant id d).0 ≡ ok x
  unfolding process_payment run_payment
  to_run x loaded status h =
      let ran : run_payment env tenant (some instr) d ≡ decide_payment env tenant instr d =
        ap (λ (s : PaymentStatus). of_status s d) status in
      rw loaded (
        closed (run_payment env tenant (some instr) d).0 (run_payment env tenant (some instr) d).1
          (ap (λ p. p.0) ran ∙ h))
    where
      of_status : PaymentStatus → Session PaymentResult
      of_status settled = pure (terminal settled)
      of_status rejected = pure (terminal rejected)
      of_status pending = decide_payment env tenant instr
      of_status accepted = decide_payment env tenant instr

      closed : (r : Result PaymentResult) (s : Db) → r ≡ ok x → (close_session r d s).0 ≡ ok x
      closed (ok y) s e = e
      closed (err y) s e = cc

  -- An accepted payment is settled where the debtor passes the check, the currency is one that is
  -- supported, and the debtor's account, and the creditor's if it is one of the program's, are kept
  -- in it.
  pub process_payment-settles :
      load_instruction env tenant id d ≡ some instr
      → instr.status ≡ accepted
      → IsKeyed d.accounts
      → check_debtor env instr d ≡ none
      → is_supported instr.currency ≡ true
      → ((a : Account) → row instr.debtor_iban d.accounts ≡ some a → a.currency ≡ instr.currency)
      → ((c : Account) → row instr.creditor_iban d.accounts ≡ some c → c.currency ≡ instr.currency)
      → (process_payment env tenant id d).0 ≡ ok was_settled
  process_payment-settles loaded status k check supported debtors creditors =
      let (amount, made, reads, currency) =
        from_minor-minor_units instr.amount instr.currency supported in
      let (a, found, covered) =
        debtor_reason-none (select_account env instr.debtor_iban d) instr.amount
          (unfold check_debtor in check) in
      let same = debtors a (select_account-row env instr.debtor_iban d a k found).0 in
      let (o, st, booked) =
        book_payment-returns env instr amount d k reads currency a found same covered creditors in
      to_run was_settled loaded status (
        unfold decide_payment in
        unfold conclude_payment in
        unfold settle_payment in
        rw (check, made, booked)
          ((announce_settlement-Yields env tenant (load_subscriptions env tenant d) instr o).at st))
