-- ===== src/Bank/Payments/Total.antt =====
-- `process_payment` (bank/payments.py) against the sum of all balances.
use mock_sim.Base.{
  ℕ, ◌≡◌, refl, sym, ap, ◌∙◌, inl, inr, true, false, Option, none, some, List, Text, is_none,
  if◌then◌else◌, Bool-cases,
}
use mock_sim.Base.Int.{ℤ, pos, ◌+ℤ◌, neg_ℤ, int_laws, parts_of_eq}
use mock_sim.Models.{
  Account, AccountEntry, crdt, dbit, PaymentInstruction, PaymentStatus, pending, accepted, settled,
  rejected, WebhookSubscription,
}
use mock_sim.Session.{Env, Db, Result, ok, err, pure, close_session}
use mock_sim.Session.Rules.{>>=-eq-ok, >>=-eq-ok_reads, ReadsOnly-lift}
use mock_sim.Money.{Money, minor_units, from_minor}
use mock_sim.Money.Laws.{from_minor-units}
use mock_sim.Accounts.{write_entry, EntryDetails, select_account}
use mock_sim.Accounts.Table.{IsKeyed, total}
use mock_sim.Accounts.Total.{write_entry-ok, written-total, written-IsKeyed, select_account-written}
use mock_sim.Accounts.Transfer.{get_account-ReadsOnly}
use mock_sim.Bank.Payments.{
  credit_creditor, book_payment, settle_payment, decide_payment, conclude_payment, run_payment,
  process_payment, load_instruction, check_debtor, PaymentResult, missing, terminal, was_rejected,
  was_settled, debit_details, credit_details,
}
use mock_sim.Bank.Messages.{load_subscriptions}
use mock_sim.Bank.Payments.Results.{announce_settlement-Yields, reject_payment-Yields}
use mock_sim.Bank.Payments.Quiet.{reject_payment-Quiet, announce_settlement-Quiet}

-- A write that has returned, of an amount that reads as the number.
module _ (env : Env) (iban : Text) (amount : Money) (details : EntryDetails) (n : ℤ)
    (r : minor_units amount ≡ ok n) (d : Db) (k : IsKeyed d.accounts) where
  -- What a returned write leaves.
  record Posted (s : ℤ) (d' : Db) : Type 0 where
    changed : total d'.accounts ≡ total d.accounts +ℤ s
    keyed : IsKeyed d'.accounts
    same_found : (j : Text) → is_none (select_account env j d') ≡ is_none (select_account env j d)

  debit-Posted :
      (e : AccountEntry) (d' : Db)
      → write_entry env iban amount dbit details d ≡ (ok e, d')
      → Posted (neg_ℤ n) d'
  debit-Posted e d' h =
      let (a, units, at, w) = write_entry-ok env iban amount dbit details d e d' h in
      let same : ok units ≡ ok n = sym w.reads ∙ r in
      let is_n : units ≡ n = cc in
      rw (at, sym is_n)
        (record {
          changed = written-total env iban amount dbit details d a units k w;
          keyed = written-IsKeyed env iban amount dbit details d a units k;
          same_found = λ j. select_account-written env iban amount dbit details d a units j;
        })

  credit-Posted :
      (e : AccountEntry) (d' : Db)
      → write_entry env iban amount crdt details d ≡ (ok e, d')
      → Posted n d'
  credit-Posted e d' h =
      let (a, units, at, w) = write_entry-ok env iban amount crdt details d e d' h in
      let same : ok units ≡ ok n = sym w.reads ∙ r in
      let is_n : units ≡ n = cc in
      rw (at, sym is_n)
        (record {
          changed = written-total env iban amount crdt details d a units k w;
          keyed = written-IsKeyed env iban amount crdt details d a units k;
          same_found = λ j. select_account-written env iban amount crdt details d a units j;
        })

-- What leaves the accounts in a settlement: nothing where the creditor's account is one of them.
abbrev pub leaving : Env → PaymentInstruction → Db → ℤ
leaving env instr d =
    if is_none (select_account env instr.creditor_iban d) then instr.amount else pos 0

module _ (env : Env) (instr : PaymentInstruction) (amount : Money) (n : ℤ)
    (r : minor_units amount ≡ ok n) where
  credit_creditor-ok :
      (creditor : Option Account) (d d' : Db)
      → IsKeyed d.accounts
      → credit_creditor env instr amount creditor d ≡ (ok tt, d')
      → (is_none creditor ≡ false → total d'.accounts ≡ total d.accounts +ℤ n)
        × (is_none creditor ≡ true → total d'.accounts ≡ total d.accounts)
  unfolding credit_creditor
  credit_creditor-ok none d d' k h =
      ((λ e. cc), (λ e. ap (λ (p : Result (Unit {0}) × Db). total p.1.accounts) (sym h)))
  credit_creditor-ok (some c) d d' k h =
      let written =
        >>=-eq-ok (write_entry env c.iban amount crdt (credit_details instr)) (λ _. pure tt) d tt d'
          h in
      let p =
        credit-Posted env c.iban amount (credit_details instr) n r d k written.value written.state
          written.head in
      let ended : written.state ≡ d' = ap (λ (q : Result (Unit {0}) × Db). q.1) written.rest in
      ((λ e. rw (sym ended) p.changed), (λ e. cc))

  book_payment-ok :
      (d d' : Db) (creditor : Option Account)
      → IsKeyed d.accounts
      → book_payment env instr amount d ≡ (ok creditor, d')
      → total d'.accounts
          +ℤ (if is_none (select_account env instr.creditor_iban d) then n else pos 0)
        ≡ total d.accounts
  unfolding book_payment
  book_payment-ok d d' creditor k h =
      let (debtor, _, h1) =
        >>=-eq-ok_reads _ _ d creditor d' (get_account-ReadsOnly env instr.debtor_iban) h in
      let debit =
        >>=-eq-ok (write_entry env debtor.iban amount dbit (debit_details instr)) _ d creditor d'
          h1 in
      let p =
        debit-Posted env debtor.iban amount (debit_details instr) n r d k debit.value debit.state
          debit.head in
      let credit =
        >>=-eq-ok
          (credit_creditor env instr amount (select_account env instr.creditor_iban debit.state)) _
          debit.state creditor d' debit.rest in
      let q =
        credit_creditor-ok (select_account env instr.creditor_iban debit.state) debit.state
          credit.state p.keyed credit.head in
      let ended : credit.state ≡ d' = ap (λ (s : Result (Option Account) × Db). s.1) credit.rest in
      let same = p.same_found instr.creditor_iban in
      elim (Bool-cases (is_none (select_account env instr.creditor_iban d))) [
        | inl outside ↦
            rw (sym ended, outside)
              (left (total d.accounts) (total debit.state.accounts) (total credit.state.accounts)
                p.changed (q.1 (same ∙ outside)))
        | inr inside ↦
            rw (sym ended, inside)
              (cancel (total d.accounts) (total debit.state.accounts) (total credit.state.accounts)
                p.changed (q.0 (same ∙ inside)))
      ]
    where
      cancel : (t u v : ℤ) → u ≡ t +ℤ neg_ℤ n → v ≡ u +ℤ n → v +ℤ pos 0 ≡ t
      cancel t u v e f = omega (int_laws, parts_of_eq u (t +ℤ neg_ℤ n) e, parts_of_eq v (u +ℤ n) f)

      left : (t u v : ℤ) → u ≡ t +ℤ neg_ℤ n → v ≡ u → v +ℤ n ≡ t
      left t u v e f = omega (int_laws, parts_of_eq u (t +ℤ neg_ℤ n) e, parts_of_eq v u f)

-- The effect on the balances, by the result.
abbrev pub Effect : Env → PaymentInstruction → Db → Result PaymentResult → Db → Type 0
Effect env instr d (ok was_settled) d' = total d'.accounts +ℤ leaving env instr d ≡ total d.accounts
Effect env instr d (ok missing) d' = d'.accounts ≡ d.accounts
Effect env instr d (ok (terminal s)) d' = d'.accounts ≡ d.accounts
Effect env instr d (ok (was_rejected reason)) d' = d'.accounts ≡ d.accounts
Effect env instr d (err e) d' = d'.accounts ≡ d.accounts

module _ (env : Env) (tenant : ℕ) (instr : PaymentInstruction) where
  settle_payment-Effect :
      (subs : List WebhookSubscription) (d d' : Db) (r : Result PaymentResult)
      → IsKeyed d.accounts
      → settle_payment env tenant subs instr d ≡ (r, d')
      → Effect env instr d r (close_session r d d').1
  unfolding settle_payment
  settle_payment-Effect subs d d' (err e) k h = refl
  settle_payment-Effect subs d d' (ok x) k h =
      let (amount, made, h1) =
        >>=-eq-ok_reads _ _ d x d' (ReadsOnly-lift (from_minor instr.amount instr.currency)) h in
      let book = >>=-eq-ok (book_payment env instr amount) _ d x d' h1 in
      let is_made : from_minor instr.amount instr.currency ≡ ok amount = ap (λ p. p.0) made in
      let reads = (from_minor-units instr.amount instr.currency amount is_made).0 in
      let booked =
        book_payment-ok env instr amount instr.amount reads d book.state book.value k book.head in
      let is_x : ok x ≡ ok was_settled =
        ap (λ p. p.0) (sym book.rest)
        ∙ (announce_settlement-Yields env tenant subs instr book.value).at book.state in
      let x≡settled : x ≡ was_settled = cc in
      let kept : d'.accounts ≡ book.state.accounts =
        ap (λ p. p.1.accounts) (sym book.rest)
        ∙ (announce_settlement-Quiet env tenant subs instr book.value).accounts book.state in
      rw (x≡settled, kept) booked

  conclude_payment-Effect :
      (subs : List WebhookSubscription) (reason : Option Text) (d d' : Db)
      (r : Result PaymentResult)
      → IsKeyed d.accounts
      → conclude_payment env tenant subs instr reason d ≡ (r, d')
      → Effect env instr d r (close_session r d d').1
  unfolding conclude_payment
  conclude_payment-Effect subs none d d' r k h = settle_payment-Effect subs d d' r k h
  conclude_payment-Effect subs (some reason) d d' r k h =
      let is_r : r ≡ ok (was_rejected reason) =
        ap (λ p. p.0) (sym h) ∙ (reject_payment-Yields env tenant subs instr reason).at d in
      rw is_r (
        ap (λ p. p.1.accounts) (sym h)
        ∙ (reject_payment-Quiet env tenant subs instr reason).accounts d)

  terminal-Effect :
      (d d' : Db) (r : Result PaymentResult) (s : PaymentStatus)
      → pure (terminal s) d ≡ (r, d')
      → Effect env instr d r (close_session r d d').1
  terminal-Effect d d' r s h = rw (ap (λ p. p.0) (sym h)) (ap (λ p. p.1.accounts) (sym h))

  run_payment-Effect :
      (status : PaymentStatus) (d d' : Db) (r : Result PaymentResult)
      → instr.status ≡ status
      → IsKeyed d.accounts
      → run_payment env tenant (some instr) d ≡ (r, d')
      → Effect env instr d r (close_session r d d').1
  unfolding run_payment decide_payment
  run_payment-Effect pending d d' r e k h =
      conclude_payment-Effect (load_subscriptions env tenant d) (check_debtor env instr d) d d' r k
        (rw e at h)
  run_payment-Effect accepted d d' r e k h =
      conclude_payment-Effect (load_subscriptions env tenant d) (check_debtor env instr d) d d' r k
        (rw e at h)
  run_payment-Effect settled d d' r e k h = terminal-Effect d d' r settled (rw e at h)
  run_payment-Effect rejected d d' r e k h = terminal-Effect d d' r rejected (rw e at h)

-- Processing a payment makes no money. A settlement leaves the sum of all balances as it was where the
-- creditor's account is one of the program's, and takes the amount out of it where not; with any
-- other result, an exception included, no account is changed.
pub process_payment-Effect :
    (env : Env) (tenant : ℕ) (id : Text) (d : Db) (instr : PaymentInstruction)
    → IsKeyed d.accounts
    → load_instruction env tenant id d ≡ some instr
    → Effect env instr d (process_payment env tenant id d).0 (process_payment env tenant id d).1
unfolding process_payment
process_payment-Effect env tenant id d instr k found = rw found (
    closed (run_payment env tenant (some instr) d).0 (run_payment env tenant (some instr) d).1 refl)
  where
    closed :
        (r : Result PaymentResult) (s : Db)
        → run_payment env tenant (some instr) d ≡ (r, s)
        → Effect env instr d (close_session r d s).0 (close_session r d s).1
    closed (ok x) s h = run_payment-Effect env tenant instr instr.status d s (ok x) refl k h
    closed (err e) s h = run_payment-Effect env tenant instr instr.status d s (err e) refl k h
