-- ===== src/Bank/Payments/Instructions.antt =====
-- The instructions through the steps of a payment (bank/payments.py): one row gets a new status, and
-- nothing else of the table changes.
use mock_sim.Base.{
  ℕ, ◌≡◌, refl, inl, inr, Option, none, some, List, [], ◌∷◌, Text, codes, text_eq, update_where,
  Bool-cases,
}
use mock_sim.Models.{Account, CreditDebit, PaymentInstruction, WebhookSubscription, Payload}
use mock_sim.Session.{Env, Db, pure, gets, ◌>>=◌, ◌>>◌}
use mock_sim.Session.Rules.{Keeps, Keeps-bind, ReadsOnly-Keeps}
use mock_sim.Money.{Money}
use mock_sim.Accounts.{write_entry, EntryDetails, get_account}
use mock_sim.Accounts.Entry.{write_entry-Outcome}
use mock_sim.Accounts.Transfer.{get_account-ReadsOnly}
use mock_sim.Outbox.{enqueue}
use mock_sim.Bank.Payments.{
  set_payment, mark_settled, mark_rejected, notify_creditor, credit_creditor, book_payment,
  announce_settlement, reject_payment, was_rejected, was_settled,
}
use mock_sim.Bank.Messages.{
  build_pacs002_payload, build_camt054_payload, enqueue_all, should_deliver,
}

module _ (X : List PaymentInstruction) where
  -- The instructions are these.
  abbrev pub Has : Db → Type 0
  Has d = d.payments ≡ X

  Has-pure : {A : Type 0} (a : A) → Keeps Has (pure a)
  Has-pure a = record { at = λ d p. p }

  Has-gets : {A : Type 0} (f : Db → A) → Keeps Has (gets f)
  Has-gets f = record { at = λ d p. p }

  write_entry-Has :
      (env : Env) (iban : Text) (amount : Money) (cd : CreditDebit) (details : EntryDetails)
      → Keeps Has (write_entry env iban amount cd details)
  write_entry-Has env iban amount cd details = record {
    at = λ d p. elim (write_entry-Outcome env iban amount cd details d) [
      | inl (e, raised) ↦ rw raised p
      | inr (a, n, w) ↦ rw w.result p
    ];
  }

  get_account-Has : (env : Env) (iban : Text) → Keeps Has (get_account env iban)
  get_account-Has env iban =
      ReadsOnly-Keeps Has (get_account env iban) (get_account-ReadsOnly env iban)

  build_pacs002_payload-Has :
      (env : Env) (instr : PaymentInstruction) (status : Text) (reason : Option Text)
      (at : Option ℕ)
      → Keeps Has (build_pacs002_payload env instr status reason at)
  unfolding build_pacs002_payload
  build_pacs002_payload-Has env instr status reason at = record { at = λ d p. p }

  enqueue_all-Has :
      (env : Env) (tenant : ℕ) (partition event_type : Text) (payload : Payload)
      (subs : List WebhookSubscription)
      → Keeps Has (enqueue_all env tenant partition event_type payload subs)
  unfolding enqueue_all enqueue
  enqueue_all-Has env tenant partition event_type payload [] = Has-pure tt
  enqueue_all-Has env tenant partition event_type payload (sub ∷ subs) =
      let rest = enqueue_all-Has env tenant partition event_type payload subs in
      record {
        at = λ d p. elim (Bool-cases (should_deliver sub event_type)) [
          | inl wanted ↦ rw wanted (rest.at _ p)
          | inr other ↦ rw other (rest.at d p)
        ];
      }

  ruleset has_rules = (
    Keeps-bind, Has-pure, Has-gets, write_entry-Has, get_account-Has, build_pacs002_payload-Has,
    enqueue_all-Has,
  )

  credit_creditor-Has :
      (env : Env) (instr : PaymentInstruction) (amount : Money) (creditor : Option Account)
      → Keeps Has (credit_creditor env instr amount creditor)
  unfolding credit_creditor
  credit_creditor-Has env instr amount none = Has-pure tt
  credit_creditor-Has env instr amount (some c) = search has_rules

  pub book_payment-Has :
      (env : Env) (instr : PaymentInstruction) (amount : Money)
      → Keeps Has (book_payment env instr amount)
  unfolding book_payment
  book_payment-Has env instr amount = search (has_rules, credit_creditor-Has)

  notify_creditor-Has :
      (env : Env) (tenant : ℕ) (subs : List WebhookSubscription) (instr : PaymentInstruction)
      (creditor : Option Account)
      → Keeps Has (notify_creditor env tenant subs instr creditor)
  unfolding notify_creditor build_camt054_payload
  notify_creditor-Has env tenant subs instr none = Has-pure tt
  notify_creditor-Has env tenant subs instr (some c) = record {
    at = λ d p. (enqueue_all-Has env tenant _ _ _ subs).at _ p;
  }

abbrev pub updated :
    Text
    → (PaymentInstruction → PaymentInstruction)
    → List PaymentInstruction
    → List PaymentInstruction
updated id f = update_where (λ p. text_eq p.id id) f

module _ (env : Env) (tenant : ℕ) (subs : List WebhookSubscription) (instr : PaymentInstruction)
    (d : Db) where
  pub announce_settlement-payments :
      (creditor : Option Account)
      → (announce_settlement env tenant subs instr creditor d).1.payments
        ≡ updated instr.id (mark_settled env.wall) d.payments
  unfolding announce_settlement set_payment
  announce_settlement-payments creditor =
      let X = updated instr.id (mark_settled env.wall) d.payments in
      let rest : Keeps (Has X) (
          build_pacs002_payload env instr (codes "ACSC") none (some env.wall) >>= λ payload.
          enqueue_all env tenant instr.debtor_iban (codes "bank.payment.settled") payload subs
          >> (notify_creditor env tenant subs instr creditor >> pure was_settled)) =
        search (has_rules, notify_creditor-Has X) depth 12 in
      rest.at (record d { payments = X }) refl

  pub reject_payment-payments :
      (reason : Text)
      → (reject_payment env tenant subs instr reason d).1.payments
        ≡ updated instr.id (mark_rejected reason) d.payments
  unfolding reject_payment set_payment
  reject_payment-payments reason =
      let X = updated instr.id (mark_rejected reason) d.payments in
      let rest : Keeps (Has X) (
          build_pacs002_payload env instr (codes "RJCT") (some reason) none >>= λ payload.
          enqueue_all env tenant instr.debtor_iban (codes "bank.payment.rejected") payload subs
          >> pure (was_rejected reason)) =
        search has_rules depth 12 in
      rest.at (record d { payments = X }) refl
