-- ===== src/Models/Pos.antt =====
-- persistence/models.py: merchants, POS transactions and settlement batches.
use mock_sim.Base.{ℕ, Bool, Text, Option}
use mock_sim.Base.Int.{ℤ}

pub record Merchant : Type 0 where
  pub id : Text
  pub mock_tenant_id : ℕ
  pub trazmo_tenant_id : Option Text
  pub acquirer_merchant_id : Option Text
  pub external_entity_id : Option Text
  pub region : Text
  pub name : Text
  pub mcc : Text
  pub expected_daily_txns : ℕ
  pub avg_ticket_minor_units : ℤ
  pub currency : Text
  pub risk_tier : Text
  pub is_active : Bool
  pub created_at : ℕ

pub data SettlementStatus : Type 0 where
  pending settled reversed : SettlementStatus

pub record PosTransaction : Type 0 where
  pub id : ℕ
  pub mock_tenant_id : ℕ
  pub merchant_id : Text
  pub region : Text
  pub event_type : Text
  pub amount : ℤ
  pub currency : Text
  pub mdr : ℤ
  pub vat_on_mdr : ℤ
  pub wht : ℤ
  pub net_settlement : ℤ
  pub card_network : Text
  pub card_bin : Text
  pub card_last4 : Text
  pub rrn : Text
  pub stan : Text
  pub auth_code : Text
  pub arn : Text
  pub response_code : Text
  pub settlement_status : SettlementStatus
  pub settlement_batch_id : Option ℕ
  pub expected_settlement_date : Option ℕ
  pub sim_date : ℕ
  pub event_timestamp : ℕ
  pub created_at : ℕ

pub record SettlementBatch : Type 0 where
  pub id : ℕ
  pub mock_tenant_id : ℕ
  pub merchant_id : Text
  pub region : Text
  pub settlement_date : ℕ
  pub txn_count : ℕ
  pub gross_amount : ℤ
  pub total_mdr : ℤ
  pub total_vat : ℤ
  pub net_amount : ℤ
  pub currency : Text
  pub created_at : ℕ

-- the response of pos/api.py about a merchant
pub record MerchantResponse : Type 0 where
  pub id : Text
  pub name : Text
  pub region : Text
  pub mcc : Text
  pub currency : Text
  pub expected_daily_txns : ℕ
  pub avg_ticket_minor_units : ℤ
  pub risk_tier : Text
  pub is_active : Bool
  pub acquirer_merchant_id : Option Text
  pub external_entity_id : Option Text
  pub created_at : ℕ
