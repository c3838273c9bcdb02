-- ===== src/Bank/Payments/Results.antt =====
-- The steps of a payment that cannot fail (bank/payments.py): once the entries are written, or the
-- payment is to be rejected, the status and the events follow.
use mock_sim.Base.{ℕ, refl, Option, none, some, List, [], ◌∷◌, Text, if◌then◌else◌}
use mock_sim.Models.{
  Account, PaymentInstruction, WebhookSubscription, WebhookFormat, Payload, per_event,
}
use mock_sim.Session.{Env, pure, ◌>>◌}
use mock_sim.Session.Returns.{
  Returns, Yields, Returns-pure, Returns-bind, Returns-if, returns_rules,
}
use mock_sim.Outbox.{enqueue}
use mock_sim.Bank.Payments.{
  set_payment, notify_creditor, reject_payment, announce_settlement, was_settled, was_rejected,
}
use mock_sim.Bank.Messages.{
  build_pacs002_payload, build_camt054_payload, enqueue_all, should_deliver,
}

set_payment-Returns :
    (id : Text) (f : PaymentInstruction → PaymentInstruction) → Returns (set_payment id f)
unfolding set_payment
set_payment-Returns id f = record { at = λ d. (tt, refl) }

build_pacs002_payload-Returns :
    (env : Env) (instr : PaymentInstruction) (status : Text) (reason : Option Text) (at : Option ℕ)
    → Returns (build_pacs002_payload env instr status reason at)
unfolding build_pacs002_payload
build_pacs002_payload-Returns env instr status reason at = record { at = λ d. (_, refl) }

build_camt054_payload-Returns :
    (env : Env) (instr : PaymentInstruction) → Returns (build_camt054_payload env instr)
unfolding build_camt054_payload
build_camt054_payload-Returns env instr = record { at = λ d. (_, refl) }

enqueue-Returns :
    (env : Env) (tenant : ℕ) (partition event_type : Text) (payload : Payload) (url secret : Text)
    (format : WebhookFormat) (headers : Option Text)
    → Returns (enqueue env tenant partition event_type payload url secret format headers)
unfolding enqueue
enqueue-Returns env tenant partition event_type payload url secret format headers = record {
  at = λ d. (_, refl);
}

enqueue_all-Returns :
    (env : Env) (tenant : ℕ) (partition event_type : Text) (payload : Payload)
    (subs : List WebhookSubscription)
    → Returns (enqueue_all env tenant partition event_type payload subs)
unfolding enqueue_all
enqueue_all-Returns env tenant partition event_type payload [] = Returns-pure tt
enqueue_all-Returns env tenant partition event_type payload (sub ∷ subs) =
    let event =
      enqueue env tenant partition event_type payload sub.target_url sub.target_secret per_event
        none in
    Returns-bind (if should_deliver sub event_type then event >> pure tt else pure tt)
      (λ _. enqueue_all env tenant partition event_type payload subs)
      (Returns-if (should_deliver sub event_type) (event >> pure tt) (pure tt)
        (search (returns_rules, enqueue-Returns)) (Returns-pure tt))
      (λ _. enqueue_all-Returns env tenant partition event_type payload subs)

notify_creditor-Returns :
    (env : Env) (tenant : ℕ) (subs : List WebhookSubscription) (instr : PaymentInstruction)
    (creditor : Option Account)
    → Returns (notify_creditor env tenant subs instr creditor)
unfolding notify_creditor
notify_creditor-Returns env tenant subs instr none = Returns-pure tt
notify_creditor-Returns env tenant subs instr (some c) =
    search (returns_rules, build_camt054_payload-Returns, enqueue_all-Returns)

ruleset sure_rules = (
  returns_rules, set_payment-Returns, build_pacs002_payload-Returns, enqueue_all-Returns,
  notify_creditor-Returns,
)

module _ (env : Env) (tenant : ℕ) (subs : List WebhookSubscription)
    (instr : PaymentInstruction) where
  pub announce_settlement-Yields :
      (creditor : Option Account)
      → Yields (announce_settlement env tenant subs instr creditor) was_settled
  unfolding announce_settlement
  announce_settlement-Yields creditor = search sure_rules depth 12

  pub reject_payment-Yields :
      (reason : Text) → Yields (reject_payment env tenant subs instr reason) (was_rejected reason)
  unfolding reject_payment
  reject_payment-Yields reason = search sure_rules depth 12
