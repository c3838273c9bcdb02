-- ===== src/Models/Core.antt =====
-- persistence/models.py: tenants, idempotency records, webhook subscriptions, scheduler jobs and the
-- scenarios; and the bodies that the program puts into its JSON columns.
use mock_sim.Base.{ℕ, Bool, Text, Option, List}
use mock_sim.Errors.{Error}
use mock_sim.Models.Bank.{MandateResponse, AccountResponse}
use mock_sim.Models.Pos.{MerchantResponse}

pub record MockTenant : Type 0 where
  pub id : ℕ
  pub name : Text
  pub partner_code : Option Text
  pub created_at : ℕ

pub data KeyStatus : Type 0 where
  active rotated revoked : KeyStatus

pub record ApiKey : Type 0 where
  pub key_hash : Text
  pub mock_tenant_id : ℕ
  pub name : Text
  pub scopes : List Text
  pub rate_limit_profile : Option Text
  pub status : KeyStatus
  pub created_at : ℕ
  pub rotated_from : Option Text

pub data EndpointClass : Type 0 where
  money non_money : EndpointClass

pub data IdempotencyStatus : Type 0 where
  pending complete conflict : IdempotencyStatus

-- the response of bank/api.py to a payment
pub record PaymentInitiateResponse : Type 0 where
  pub end_to_end_id : Text
  pub status : Text
  pub message : Text
  pub created_at : ℕ

-- the response of bank/mandates.py to a collection
pub record CollectMandateResponse : Type 0 where
  pub end_to_end_id : Text
  pub mandate_id : Text
  pub status : Text
  pub message : Text
  pub created_at : ℕ

pub data Surface : Type 0 where
  pos_surface bank_surface : Surface

pub data WebhookFormat : Type 0 where
  per_event trazmo_settlement : WebhookFormat

-- the response of bank/api.py and pos/api.py to a subscription
pub record WebhookSubscriptionResponse : Type 0 where
  pub id : ℕ
  pub surface : Surface
  pub target_url : Text
  pub event_types : List Text
  pub format : WebhookFormat
  pub is_active : Bool
  pub created_at : ℕ

-- the JSON of a stored response
pub data ResponseBody : Type 0 where
  payment_body : PaymentInitiateResponse → ResponseBody
  collect_body : CollectMandateResponse → ResponseBody
  mandate_body : MandateResponse → ResponseBody
  account_body : AccountResponse → ResponseBody
  merchant_body : MerchantResponse → ResponseBody
  subscription_body : WebhookSubscriptionResponse → ResponseBody

pub record IdempotencyRecord : Type 0 where
  pub id : ℕ
  pub mock_tenant_id : ℕ
  pub idempotency_key : Text
  pub body_hash : Text
  pub endpoint_class : EndpointClass
  pub status : IdempotencyStatus
  pub response_status : Option ℕ
  pub response_body : Option ResponseBody
  pub expires_at : Option ℕ
  pub created_at : ℕ

pub record WebhookSubscription : Type 0 where
  pub id : ℕ
  pub mock_tenant_id : ℕ
  pub trazmo_tenant_id : Option Text
  pub surface : Surface
  pub target_url : Text
  pub target_secret : Text
  pub event_types : List Text
  pub format : WebhookFormat
  pub is_active : Bool

pub data JobPayload : Type 0 where
  process_payment_job : Text → ℕ → JobPayload
  settle_batch_job : Text → ℕ → ℕ → JobPayload
  generate_gmv_job : Text → ℕ → ℕ → JobPayload

pub data JobStatus : Type 0 where
  pending fired failed : JobStatus

-- the text in the column `error`: the type that has no handler, or the exception that was raised
pub data JobError : Type 0 where
  no_handler : Text → JobError
  raised : Error → JobError

pub record SimSchedulerJob : Type 0 where
  pub id : ℕ
  pub mock_tenant_id : Option ℕ
  pub fire_at : ℕ
  pub job_type : Text
  pub payload : JobPayload
  pub status : JobStatus
  pub fired_at : Option ℕ
  pub error : Option JobError
  pub created_at : ℕ

pub data AdvanceStatus : Type 0 where
  pending running complete failed : AdvanceStatus

pub record ClockAdvanceJob : Type 0 where
  pub id : ℕ
  pub mock_tenant_id : ℕ
  pub requested_by : Text
  pub target_sim_time : ℕ
  pub status : AdvanceStatus
  pub slices_total : ℕ
  pub slices_done : ℕ
  pub started_at : Option ℕ
  pub completed_at : Option ℕ
  pub error : Option Error
  pub created_at : ℕ

pub record ScenarioEngineStatus : Type 0 where
  pub id : ℕ
  pub enabled : Bool
  pub updated_at : ℕ
  pub updated_by : Text

-- but for its JSON
pub record ScenarioConfig : Type 0 where
  pub id : ℕ
  pub mock_tenant_id : ℕ
  pub entity_type : Text
  pub entity_id : Text
  pub scenario_name : Text
  pub created_at : ℕ
