-- ===== src/Bank/Payments/Quiet.antt =====
-- The steps of a payment that move no money (bank/payments.py).
use mock_sim.Base.{ℕ, refl, Option, none, some, List, [], ◌∷◌, Text, if◌then◌else◌}
use mock_sim.Models.{
  Account, PaymentInstruction, WebhookSubscription, WebhookFormat, Payload, per_event,
}
use mock_sim.Session.{Env, pure, ◌>>◌}
use mock_sim.Session.Quiet.{Quiet, Quiet-pure, Quiet-if, Quiet-bind, quiet_rules}
use mock_sim.Outbox.{enqueue}
use mock_sim.Bank.Payments.{set_payment, notify_creditor, reject_payment, announce_settlement}
use mock_sim.Bank.Messages.{
  build_pacs002_payload, build_camt054_payload, enqueue_all, should_deliver,
}

pub set_payment-Quiet :
    (id : Text) (f : PaymentInstruction → PaymentInstruction) → Quiet (set_payment id f)
unfolding set_payment
set_payment-Quiet id f = record { accounts = λ d. refl; entries = λ d. refl; jobs = λ d. refl }

pub build_pacs002_payload-Quiet :
    (env : Env) (instr : PaymentInstruction) (status : Text) (reason : Option Text) (at : Option ℕ)
    → Quiet (build_pacs002_payload env instr status reason at)
unfolding build_pacs002_payload
build_pacs002_payload-Quiet env instr status reason at = record {
  accounts = λ d. refl;
  entries = λ d. refl;
  jobs = λ d. refl;
}

build_camt054_payload-Quiet :
    (env : Env) (instr : PaymentInstruction) → Quiet (build_camt054_payload env instr)
unfolding build_camt054_payload
build_camt054_payload-Quiet env instr = record {
  accounts = λ d. refl;
  entries = λ d. refl;
  jobs = λ d. refl;
}

pub enqueue-Quiet :
    (env : Env) (tenant : ℕ) (partition event_type : Text) (payload : Payload) (url secret : Text)
    (format : WebhookFormat) (headers : Option Text)
    → Quiet (enqueue env tenant partition event_type payload url secret format headers)
unfolding enqueue
enqueue-Quiet env tenant partition event_type payload url secret format headers = record {
  accounts = λ d. refl;
  entries = λ d. refl;
  jobs = λ d. refl;
}

pub enqueue_all-Quiet :
    (env : Env) (tenant : ℕ) (partition event_type : Text) (payload : Payload)
    (subs : List WebhookSubscription)
    → Quiet (enqueue_all env tenant partition event_type payload subs)
unfolding enqueue_all
enqueue_all-Quiet env tenant partition event_type payload [] = Quiet-pure tt
enqueue_all-Quiet env tenant partition event_type payload (sub ∷ subs) =
    let event =
      enqueue env tenant partition event_type payload sub.target_url sub.target_secret per_event
        none in
    Quiet-bind (if should_deliver sub event_type then event >> pure tt else pure tt)
      (λ _. enqueue_all env tenant partition event_type payload subs)
      (Quiet-if (should_deliver sub event_type) (event >> pure tt) (pure tt)
        (search (quiet_rules, enqueue-Quiet)) (Quiet-pure tt))
      (λ _. enqueue_all-Quiet env tenant partition event_type payload subs)

pub notify_creditor-Quiet :
    (env : Env) (tenant : ℕ) (subs : List WebhookSubscription) (instr : PaymentInstruction)
    (creditor : Option Account)
    → Quiet (notify_creditor env tenant subs instr creditor)
unfolding notify_creditor
notify_creditor-Quiet env tenant subs instr none = Quiet-pure tt
notify_creditor-Quiet env tenant subs instr (some c) =
    search (quiet_rules, build_camt054_payload-Quiet, enqueue_all-Quiet)

pub reject_payment-Quiet :
    (env : Env) (tenant : ℕ) (subs : List WebhookSubscription) (instr : PaymentInstruction)
    (reason : Text)
    → Quiet (reject_payment env tenant subs instr reason)
unfolding reject_payment
reject_payment-Quiet env tenant subs instr reason =
    search (quiet_rules, set_payment-Quiet, build_pacs002_payload-Quiet, enqueue_all-Quiet)

ruleset still_rules = (
  quiet_rules, set_payment-Quiet, build_pacs002_payload-Quiet, enqueue_all-Quiet,
  notify_creditor-Quiet,
)

module _ (env : Env) (tenant : ℕ) (subs : List WebhookSubscription)
    (instr : PaymentInstruction) where
  pub announce_settlement-Quiet :
      (creditor : Option Account) → Quiet (announce_settlement env tenant subs instr creditor)
  unfolding announce_settlement
  announce_settlement-Quiet creditor = search still_rules depth 12
