-- ===== src/Bank/Messages.antt =====
-- bank/payments.py: the subscriptions to the events of a payment, and the payloads of the events.
use mock_sim.Base.{
  ℕ, Bool, true, false, ◌&&◌, Option, none, List, [], ◌∷◌, ◌++◌, Text, codes, is_member, where_all,
  ◌==◌, if◌then◌else◌,
}
use mock_sim.Models.{
  PaymentInstruction, WebhookSubscription, Surface, pos_surface, bank_surface, per_event, Payload,
  pacs002, camt054,
}
use mock_sim.Session.{Env, Db, Session, pure, draw_id, visible, ◌>>=◌, ◌>>◌}
use mock_sim.Decimal.{str_int}
use mock_sim.Calendar.{date_of}
use mock_sim.Outbox.{enqueue}

-- `_load_subscriptions`
abbrev pub is_bank : Surface → Bool
is_bank bank_surface = true
is_bank pos_surface = false

unfoldable pub load_subscriptions : Env → ℕ → Db → List WebhookSubscription
load_subscriptions env tenant d =
    where_all
      (λ s.
        visible env s.mock_tenant_id
        && (s.mock_tenant_id == tenant && (is_bank s.surface && s.is_active)))
      d.subscriptions

-- `_should_deliver`
unfoldable pub should_deliver : WebhookSubscription → Text → Bool
should_deliver sub event_type = elim sub.event_types [
  | [] ↦ true
  | t ∷ ts ↦ is_member event_type (t ∷ ts)
]

-- `_build_pacs002_payload`: the message id is drawn, and only a settlement has a time.
unfoldable pub build_pacs002_payload :
    Env → PaymentInstruction → Text → Option Text → Option ℕ → Session Payload
build_pacs002_payload env instr tx_status reject_reason settled_at = do
  message_id ← draw_id env
  pure (
      pacs002 (record {
        message_id = message_id;
        creation_datetime = env.wall;
        original_message_id = instr.message_id;
        original_instruction_id = instr.instruction_id;
        end_to_end_id = instr.id;
        tx_status = tx_status;
        reject_reason = reject_reason;
        amount = str_int instr.amount;
        currency = instr.currency;
        debtor_iban = instr.debtor_iban;
        creditor_iban = instr.creditor_iban;
        creditor_name = instr.creditor_name;
        rail = instr.rail;
        settled_at = settled_at;
        remittance_info = instr.remittance_info;
      }))

abbrev pub narration_of : PaymentInstruction → Text
narration_of instr = codes "Payment " ++ instr.id ++ codes " via " ++ instr.rail

-- `_build_camt054_payload`; the amount's text is that of the instruction's number
unfoldable pub build_camt054_payload : Env → PaymentInstruction → Session Payload
build_camt054_payload env instr = do
  notification_id ← draw_id env
  pure (
      camt054 (record {
        notification_id = notification_id;
        account_iban = instr.creditor_iban;
        amount = str_int instr.amount;
        currency = instr.currency;
        booking_datetime = env.wall;
        value_date = date_of env.wall;
        rail = instr.rail;
        narration = narration_of instr;
        end_to_end_id = instr.id;
        message_id = instr.message_id;
      }))

-- the loops over the subscriptions: one event for each that wants the type
unfoldable pub enqueue_all :
    Env → ℕ → Text → Text → Payload → List WebhookSubscription → Session (Unit {0})
enqueue_all env tenant partition event_type payload [] = pure tt
enqueue_all env tenant partition event_type payload (sub ∷ subs) =
    (if should_deliver sub event_type
      then enqueue env tenant partition event_type payload sub.target_url sub.target_secret
          per_event none
        >> pure tt
      else pure tt)
    >> enqueue_all env tenant partition event_type payload subs
