-- ===== src/Models/Events.antt =====
-- persistence/models.py: the webhook outbox, with the payloads that the program puts into it.
use mock_sim.Base.{ℕ, Text, Option}
use mock_sim.Base.Int.{ℤ}
use mock_sim.Models.Core.{WebhookFormat}

-- the body of a pacs.002 status report
pub record Pacs002 : Type 0 where
  pub message_id : ℕ
  pub creation_datetime : ℕ
  pub original_message_id : Text
  pub original_instruction_id : Text
  pub end_to_end_id : Text
  pub tx_status : Text
  pub reject_reason : Option Text
  pub amount : Text
  pub currency : Text
  pub debtor_iban : Text
  pub creditor_iban : Text
  pub creditor_name : Text
  pub rail : Text
  pub settled_at : Option ℕ
  pub remittance_info : Option Text

-- the body of a camt.054 credit notification; `value_date` is the date of `booking_datetime`
pub record Camt054 : Type 0 where
  pub notification_id : ℕ
  pub account_iban : Text
  pub amount : Text
  pub currency : Text
  pub booking_datetime : ℕ
  pub value_date : ℕ
  pub rail : Text
  pub narration : Text
  pub end_to_end_id : Text
  pub message_id : Text

pub record NativeSettlement : Type 0 where
  pub notification_id : ℕ
  pub batch_id : ℕ
  pub merchant_id : Text
  pub merchant_name : Text
  pub settlement_date : ℕ
  pub txn_count : ℕ
  pub gross_amount : ℤ
  pub total_mdr : ℤ
  pub total_vat : ℤ
  pub net_amount : ℤ
  pub currency : Text

pub record TrazmoSettlement : Type 0 where
  pub partner_code : Text
  pub acquirer_merchant_id : Text
  pub settlement_date : ℕ
  pub gross_amount_minor : ℤ
  pub currency_code : Text
  pub net_amount_minor : ℤ
  pub transaction_count : ℕ

-- the body of `pos.transaction.authorized`, by the row and the merchant that it is made of
pub record PosSale : Type 0 where
  pub transaction_id : ℕ
  pub merchant_id : Text
  pub merchant_name : Text
  pub mcc : Text
  pub region : Text
  pub event_type : Text
  pub amount : Text
  pub currency : Text
  pub mdr : Text
  pub vat_on_mdr : Text
  pub wht : Text
  pub net_settlement : Text
  pub card_network : Text
  pub card_bin : Text
  pub card_last4 : Text
  pub rrn : Text
  pub stan : Text
  pub auth_code : Text
  pub arn : Text
  pub response_code : Text
  pub expected_settlement_date : Option ℕ
  pub sim_date : ℕ
  pub event_timestamp : ℕ

pub data Payload : Type 0 where
  pacs002 : Pacs002 → Payload
  camt054 : Camt054 → Payload
  native_settlement : NativeSettlement → Payload
  trazmo_batch : TrazmoSettlement → Payload
  pos_sale : PosSale → Payload

pub data OutboxStatus : Type 0 where
  pending in_flight delivered retrying dead_letter : OutboxStatus

pub record WebhookOutbox : Type 0 where
  pub event_id : ℕ
  pub mock_tenant_id : ℕ
  pub partition_key : Text
  pub event_type : Text
  pub payload : Payload
  pub target_url : Text
  pub target_secret : Text
  pub format : WebhookFormat
  pub extra_headers : Option Text
  pub status : OutboxStatus
  pub attempt_count : ℕ
  pub next_attempt_at : Option ℕ
  pub delivered_at : Option ℕ
  pub last_error : Option Text
  pub created_at : ℕ
