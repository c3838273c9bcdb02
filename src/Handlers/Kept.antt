-- ===== src/Handlers/Kept.antt =====
-- The job handlers of the program lose no job: the steps of a payment (bank/payments.py), of a
-- settlement (pos/settlement.py) and of a merchant's day (pos/generator.py).
use mock_sim.Base.{◌≡◌, refl, ℕ, Option, none, some, List, Text}
use mock_sim.Models.{
  Account, CreditDebit, PaymentInstruction, PaymentStatus, pending, settled, rejected, accepted,
  WebhookSubscription,
}
use mock_sim.Session.{Env}
use mock_sim.Money.{Money}
use mock_sim.Accounts.{get_account, write_entry, EntryDetails}
use mock_sim.Accounts.Transfer.{get_account-ReadsOnly}
use mock_sim.Bank.Payments.Quiet.{announce_settlement-Quiet, reject_payment-Quiet}
use mock_sim.Bank.Payments.{
  reject_payment, credit_creditor, book_payment, settle_payment, conclude_payment, decide_payment,
  run_payment, process_payment,
}
use mock_sim.Handlers.Rules.{ExtendsJobs, jobs_rules, ReadsOnly-ExtendsJobs, Quiet-ExtendsJobs}

get_account-ExtendsJobs : (env : Env) (iban : Text) → ExtendsJobs (get_account env iban)
get_account-ExtendsJobs env iban =
    ReadsOnly-ExtendsJobs (get_account env iban) (get_account-ReadsOnly env iban)

write_entry-ExtendsJobs :
    (env : Env) (iban : Text) (amount : Money) (cd : CreditDebit) (details : EntryDetails)
    → ExtendsJobs (write_entry env iban amount cd details)
unfolding write_entry
write_entry-ExtendsJobs env iban amount cd details = search jobs_rules depth 20

module _ (env : Env) (tenant : ℕ) where
  module _ (instr : PaymentInstruction) where
    credit_creditor-ExtendsJobs :
        (amount : Money) (creditor : Option Account)
        → ExtendsJobs (credit_creditor env instr amount creditor)
    unfolding credit_creditor
    credit_creditor-ExtendsJobs amount none = search jobs_rules
    credit_creditor-ExtendsJobs amount (some c) = search (jobs_rules, write_entry-ExtendsJobs)

    book_payment-ExtendsJobs : (amount : Money) → ExtendsJobs (book_payment env instr amount)
    unfolding book_payment
    book_payment-ExtendsJobs amount =
        search
          (
            jobs_rules, get_account-ExtendsJobs, write_entry-ExtendsJobs,
            credit_creditor-ExtendsJobs,
          )
          depth 20

    conclude_payment-ExtendsJobs :
        (subs : List WebhookSubscription) (reason : Option Text)
        → ExtendsJobs (conclude_payment env tenant subs instr reason)
    unfolding conclude_payment settle_payment
    conclude_payment-ExtendsJobs subs (some reason) =
        Quiet-ExtendsJobs (reject_payment env tenant subs instr reason)
          (reject_payment-Quiet env tenant subs instr reason)
    conclude_payment-ExtendsJobs subs none =
        search (jobs_rules, book_payment-ExtendsJobs, Quiet-ExtendsJobs, announce_settlement-Quiet)
          depth 20

    decide_payment-ExtendsJobs : ExtendsJobs (decide_payment env tenant instr)
    unfolding decide_payment
    decide_payment-ExtendsJobs = search (jobs_rules, conclude_payment-ExtendsJobs)

    of_status :
        (status : PaymentStatus)
        → instr.status ≡ status
        → ExtendsJobs (run_payment env tenant (some instr))
    unfolding run_payment
    of_status pending e = rw e decide_payment-ExtendsJobs
    of_status accepted e = rw e decide_payment-ExtendsJobs
    of_status settled e = rw e (search jobs_rules)
    of_status rejected e = rw e (search jobs_rules)

  run_payment-ExtendsJobs :
      (instr : Option PaymentInstruction) → ExtendsJobs (run_payment env tenant instr)
  run_payment-ExtendsJobs none = unfold run_payment in search jobs_rules
  run_payment-ExtendsJobs (some instr) = of_status instr instr.status refl

  pub process_payment-ExtendsJobs : (id : Text) → ExtendsJobs (process_payment env tenant id)
  unfolding process_payment
  process_payment-ExtendsJobs id = search (jobs_rules, run_payment-ExtendsJobs)
