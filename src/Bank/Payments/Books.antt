-- ===== src/Bank/Payments/Books.antt =====
-- `process_payment` (bank/payments.py) against the ledger of core/accounts.py.
use mock_sim.Base.{ℕ, ◌≡◌, refl, Option, none, some, List, Text}
use mock_sim.Base.Int.{ℤ, pos, ◌≤ℤ◌}
use mock_sim.Models.{
  Account, CreditDebit, PaymentInstruction, PaymentStatus, pending, accepted, settled, rejected,
  WebhookSubscription,
}
use mock_sim.Session.{Env, Db, Session, Result, ok, err, pure, gets, transaction, close_session}
use mock_sim.Session.Rules.{Keeps, Keeps-bind, Keeps-lift, ReadsOnly-Keeps}
use mock_sim.Session.Quiet.{Quiet}
use mock_sim.Money.{Money, minor_units, from_minor}
use mock_sim.Money.Laws.{from_minor-units}
use mock_sim.Accounts.{write_entry, EntryDetails, get_account}
use mock_sim.Accounts.Ledger.{IsLedger, write_entry-IsLedger}
use mock_sim.Accounts.Transfer.{get_account-ReadsOnly}
use mock_sim.Bank.Payments.{
  credit_creditor, book_payment, settle_payment, announce_settlement, decide_payment,
  conclude_payment, run_payment, process_payment, terminal, missing, load_instruction,
  reject_payment,
}
use mock_sim.Bank.Payments.Quiet.{announce_settlement-Quiet, reject_payment-Quiet}

same-IsLedger :
    (d d' : Db) → d'.accounts ≡ d.accounts → d'.entries ≡ d.entries → IsLedger d → IsLedger d'
same-IsLedger d d' a e l = record {
  keyed = rw a l.keyed;
  sound = λ iban row found. rw e (l.sound iban row (rw a at found));
}

Quiet-IsLedger : {A : Type 0} (m : Session A) → Quiet m → Keeps IsLedger m
Quiet-IsLedger m q = record { at = λ d l. same-IsLedger d (m d).1 (q.accounts d) (q.entries d) l }

write_entry-Keeps :
    (env : Env) (iban : Text) (amount : Money) (cd : CreditDebit) (details : EntryDetails)
    (units : ℤ)
    → minor_units amount ≡ ok units
    → pos 0 ≤ℤ units
    → Keeps IsLedger (write_entry env iban amount cd details)
write_entry-Keeps env iban amount cd details units r h = record {
  at = λ d l. write_entry-IsLedger env iban amount cd details d units r h l;
}

Keeps-pure : {A : Type 0} (a : A) → Keeps IsLedger (pure a)
Keeps-pure a = record { at = λ d l. l }

Keeps-gets : {A : Type 0} (f : Db → A) → Keeps IsLedger (gets f)
Keeps-gets f = record { at = λ d l. l }

get_account-Keeps : (env : Env) (iban : Text) → Keeps IsLedger (get_account env iban)
get_account-Keeps env iban =
    ReadsOnly-Keeps IsLedger (get_account env iban) (get_account-ReadsOnly env iban)

ruleset ledger_rules = (Keeps-bind, Keeps-pure, Keeps-gets, get_account-Keeps, write_entry-Keeps)

module _ (env : Env) (instr : PaymentInstruction) (amount : Money) (units : ℤ)
    (r : minor_units amount ≡ ok units) (h : pos 0 ≤ℤ units) where
  credit_creditor-Keeps :
      (creditor : Option Account) → Keeps IsLedger (credit_creditor env instr amount creditor)
  unfolding credit_creditor
  credit_creditor-Keeps none = Keeps-pure tt
  credit_creditor-Keeps (some c) = search ledger_rules

  book_payment-Keeps : Keeps IsLedger (book_payment env instr amount)
  unfolding book_payment
  book_payment-Keeps = search (ledger_rules, credit_creditor-Keeps)

module _ (env : Env) (tenant : ℕ) (instr : PaymentInstruction) (h : pos 0 ≤ℤ instr.amount) where
  settle_payment-Keeps :
      (subs : List WebhookSubscription) → Keeps IsLedger (settle_payment env tenant subs instr)
  unfolding settle_payment
  settle_payment-Keeps subs =
      Keeps-lift IsLedger (from_minor instr.amount instr.currency) _ (λ amount e.
        Keeps-bind IsLedger (book_payment env instr amount) _
          (book_payment-Keeps env instr amount instr.amount
            (from_minor-units instr.amount instr.currency amount e).0 h)
          (λ creditor.
            Quiet-IsLedger (announce_settlement env tenant subs instr creditor)
              (announce_settlement-Quiet env tenant subs instr creditor)))

  conclude_payment-Keeps :
      (subs : List WebhookSubscription) (reason : Option Text)
      → Keeps IsLedger (conclude_payment env tenant subs instr reason)
  unfolding conclude_payment
  conclude_payment-Keeps subs (some reason) =
      Quiet-IsLedger (reject_payment env tenant subs instr reason)
        (reject_payment-Quiet env tenant subs instr reason)
  conclude_payment-Keeps subs none = settle_payment-Keeps subs

  decide_payment-Keeps : Keeps IsLedger (decide_payment env tenant instr)
  unfolding decide_payment
  decide_payment-Keeps = search (ledger_rules, conclude_payment-Keeps)

  run_payment-Keeps :
      (status : PaymentStatus)
      → instr.status ≡ status
      → Keeps IsLedger (run_payment env tenant (some instr))
  unfolding run_payment
  run_payment-Keeps pending e = rw e decide_payment-Keeps
  run_payment-Keeps accepted e = rw e decide_payment-Keeps
  run_payment-Keeps settled e = rw e (Keeps-pure (terminal settled))
  run_payment-Keeps rejected e = rw e (Keeps-pure (terminal rejected))

transaction-Keeps : {A : Type 0} (m : Session A) → Keeps IsLedger m → Keeps IsLedger (transaction m)
transaction-Keeps {A} m k = record { at = λ d l. closed (m d).0 (m d).1 d l (k.at d l) }
  where
    closed : (r : Result A) (s d : Db) → IsLedger d → IsLedger s → IsLedger (close_session r d s).1
    closed (ok a) s d l l' = record { keyed = l'.keyed; sound = l'.sound }
    closed (err e) s d l l' = l

-- Processing a payment of an amount that is not negative keeps the ledger, whether the payment is
-- settled, rejected, terminal, missing or fails: each balance stays the signed sum of the account's
-- entries, available and not below zero.
pub process_payment-IsLedger :
    (env : Env) (tenant : ℕ) (id : Text) (d : Db)
    → ((instr : PaymentInstruction)
        → load_instruction env tenant id d ≡ some instr
        → pos 0 ≤ℤ instr.amount)
    → IsLedger d
    → IsLedger (process_payment env tenant id d).1
unfolding process_payment
process_payment-IsLedger env tenant id d h l =
    (transaction-Keeps (run_payment env tenant (load_instruction env tenant id d))
        (loaded (load_instruction env tenant id d) refl)).at
      d l
  where
    loaded :
        (o : Option PaymentInstruction)
        → load_instruction env tenant id d ≡ o
        → Keeps IsLedger (run_payment env tenant o)
    loaded none e = unfold run_payment in Keeps-pure missing
    loaded (some instr) e = run_payment-Keeps env tenant instr (h instr e) instr.status refl
