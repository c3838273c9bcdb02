-- ===== src/Bank/Payments/Rejection.antt =====
-- A payment that is rejected (bank/payments.py): the reasons, and what is left of it.
use mock_sim.Base.{ℕ, ◌≡◌, refl, true, Option, none, some, Text, codes, text_eq, text_eq_refl}
use mock_sim.Base.Int.{ℤ, ltb_ℤ}
use mock_sim.Models.{Account, active, dormant, closed, PaymentInstruction, accepted, rejected}
use mock_sim.Session.{Env, Db, Session, ok, flush}
use mock_sim.Accounts.{select_account}
use mock_sim.Bank.Payments.{
  decide_payment, conclude_payment, reject_payment, run_payment, process_payment, load_instruction,
  is_instruction, check_debtor, debtor_reason, mark_rejected, was_rejected, PaymentResult,
}
use mock_sim.Bank.Messages.{load_subscriptions}
use mock_sim.Bank.Payments.Results.{reject_payment-Yields}
use mock_sim.Bank.Payments.Instructions.{reject_payment-payments}
use mock_sim.Bank.Payments.Quiet.{reject_payment-Quiet}
use mock_sim.Bank.Payments.Once.{first-updated}

-- Why a debtor, whose account may be missing, cannot pay an amount.
pub data Refusal (debtor : Option Account) (amount : ℤ) (reason : Text) : Type 0 where
  is_missing : debtor ≡ none → reason ≡ codes "ACCOUNT_NOT_FOUND" → Refusal debtor amount reason
  is_closed :
      (a : Account)
      → debtor ≡ some a
      → a.status ≡ closed
      → reason ≡ codes "ACCOUNT_CLOSED"
      → Refusal debtor amount reason
  is_dormant :
      (a : Account)
      → debtor ≡ some a
      → a.status ≡ dormant
      → reason ≡ codes "ACCOUNT_DORMANT"
      → Refusal debtor amount reason
  is_short :
      (a : Account)
      → debtor ≡ some a
      → a.status ≡ active
      → ltb_ℤ a.balance amount ≡ true
      → reason ≡ codes "INSUFFICIENT_FUNDS"
      → Refusal debtor amount reason

Refusal-debtor_reason :
    (debtor : Option Account) (amount : ℤ) (reason : Text)
    → Refusal debtor amount reason
    → debtor_reason debtor amount ≡ some reason
unfolding debtor_reason
Refusal-debtor_reason debtor amount reason (is_missing e r) = rw (e, r)
Refusal-debtor_reason debtor amount reason (is_closed a e s r) = rw (e, s, r)
Refusal-debtor_reason debtor amount reason (is_dormant a e s r) = rw (e, s, r)
Refusal-debtor_reason debtor amount reason (is_short a e s low r) = rw (e, s, low, r)

module _ (env : Env) (tenant : ℕ) (id : Text) (instr : PaymentInstruction) (d : Db) (reason : Text)
    (loaded : load_instruction env tenant id d ≡ some instr) where
  abbrev rejecting : Session PaymentResult
  rejecting = reject_payment env tenant (load_subscriptions env tenant d) instr reason

  run-rejecting :
      instr.status ≡ accepted
      → check_debtor env instr d ≡ some reason
      → run_payment env tenant (some instr) d ≡ rejecting d
  unfolding run_payment decide_payment conclude_payment
  run-rejecting status check = simp (status, check)

  process-rejecting :
      run_payment env tenant (some instr) d ≡ rejecting d
      → process_payment env tenant id d ≡ (ok (was_rejected reason), flush (rejecting d).1)
  unfolding process_payment
  process-rejecting ran = rw (
    loaded,
    ran,
    (reject_payment-Yields env tenant (load_subscriptions env tenant d) instr reason).at d,
  )

  still_loaded :
      load_instruction env tenant id (flush (rejecting d).1) ≡ some (mark_rejected reason instr)
  unfolding load_instruction
  still_loaded =
      rw (reject_payment-payments env tenant (load_subscriptions env tenant d) instr d reason) (
        first-updated (is_instruction env tenant id) (λ p. text_eq p.id instr.id)
          (mark_rejected reason) d.payments instr (λ p. unfold is_instruction in refl) loaded
          (text_eq_refl instr.id))

  -- An accepted payment whose debtor cannot pay, since the account is missing, closed or dormant or
  -- does not cover the amount, is rejected for that reason: the payment is found afterwards as
  -- rejected for it, and no account and no entry has changed.
  pub process_payment-rejects :
      instr.status ≡ accepted
      → Refusal (select_account env instr.debtor_iban d) instr.amount reason
      → ((process_payment env tenant id d).0 ≡ ok (was_rejected reason))
        × (load_instruction env tenant id (process_payment env tenant id d).1
            ≡ some (record instr { status = rejected; reject_reason = some reason }))
        × ((process_payment env tenant id d).1.accounts ≡ d.accounts)
        × ((process_payment env tenant id d).1.entries ≡ d.entries)
  process_payment-rejects status refusal =
      let check : check_debtor env instr d ≡ some reason =
        unfold check_debtor in Refusal-debtor_reason _ instr.amount reason refusal in
      let quiet = reject_payment-Quiet env tenant (load_subscriptions env tenant d) instr reason in
      rw (process-rejecting (run-rejecting status check))
        (refl, still_loaded, quiet.accounts d, quiet.entries d)
