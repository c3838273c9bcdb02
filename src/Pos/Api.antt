-- ===== src/Pos/Api.antt =====
-- pos/api.py: the endpoints on merchants, transactions and settlements. A ULID is its number, of 130
-- bits with those of its text, and its first characters are of its time.
pub mod Listing
mod Tests
use mock_sim.Base.{
  ℕ, zero, suc, ◌+◌, ◌*◌, ◌/◌, ◌%◌, ◌^◌, Bool, true, false, ◌&&◌, not, Option, none, some, List, [],
  ◌∷◌, ◌++◌, map, length, get_or, Text, codes, text_eq, upper, first, any_row, where_all, ltb, ◌==◌,
  if◌then◌else◌,
}
use mock_sim.Base.Int.{ℤ, pos}
use mock_sim.Errors.{python_error, not_found, bad_request, validation_error, merchant_not_found}
use mock_sim.Models.{
  Merchant, MerchantResponse, PosTransaction, SettlementBatch, SettlementStatus, non_money,
  ResponseBody, payment_body, collect_body, mandate_body, account_body, merchant_body,
  subscription_body,
}
use mock_sim.Paging.{earliest_first}
use mock_sim.Calendar.{date_of}
use mock_sim.Session.{
  Env, Db, Session, Result, ok, err, pure, gets, or_raise, raise_if, lift, modify, flush, draw_id,
  visible, is_own, ◌>>=◌, ◌>>◌,
}
use mock_sim.Decimal.{str_int}
use mock_sim.Paging.{Codec, page, clamp_limit, read_param, map_option, latest_first}
use mock_sim.Idempotency.{complete_record}
use mock_sim.Idempotency.Endpoint.{endpoint}
use mock_sim.Pos.Random.{Floats}
use mock_sim.Pos.Regions.{PosRegionConfig, get_region}
use mock_sim.Pos.Generator.Day.{schedule_initial_generation}

pub record CreateMerchantRequest (F : Type 0) : Type 0 where
  pub name : Text
  pub region : Text
  pub mcc : Text
  pub expected_daily_txns : ℕ
  pub avg_ticket_major_units : F
  pub risk_tier : Text
  pub acquirer_merchant_id : Option Text
  pub external_entity_id : Option Text

-- `MerchantResponse(**cached.response_body)`
unfoldable pub as_merchant : Option ResponseBody → Result MerchantResponse
as_merchant none = err python_error
as_merchant (some (merchant_body r)) = ok r
as_merchant (some (payment_body r)) = err python_error
as_merchant (some (collect_body r)) = err python_error
as_merchant (some (mandate_body r)) = err python_error
as_merchant (some (account_body r)) = err python_error
as_merchant (some (subscription_body r)) = err python_error

-- The alphabet of a ULID, and the first n of its 26 characters, whose last has the bits from 0 to 4.
abbrev pub crockford : Text
crockford = codes "0123456789ABCDEFGHJKMNPQRSTVWXYZ"

unfoldable pub ulid_chars : ℕ → ℕ → Text
ulid_chars zero n = []
ulid_chars (suc k) n = ulid_chars k (n / 32) ++ get_or crockford (n % 32) b'0' ∷ []

-- `f"MID_{new_ulid()[:8].upper()}"`
unfoldable pub merchant_id_of : ℕ → Text
merchant_id_of ulid = codes "MID_" ++ ulid_chars 8 (ulid / 2 ^ 90)

abbrev pub region_decimals : PosRegionConfig → ℕ
region_decimals cfg = if text_eq cfg.currency (codes "BHD") then 3 else 2

unfoldable pub merchant_response : Merchant → MerchantResponse
merchant_response m = record {
  id = m.id;
  name = m.name;
  region = m.region;
  mcc = m.mcc;
  currency = m.currency;
  expected_daily_txns = m.expected_daily_txns;
  avg_ticket_minor_units = m.avg_ticket_minor_units;
  risk_tier = m.risk_tier;
  is_active = m.is_active;
  acquirer_merchant_id = m.acquirer_merchant_id;
  external_entity_id = m.external_entity_id;
  created_at = m.created_at;
}

-- The insert and its flush, which an id that is taken makes fail.
unfoldable pub insert_merchant : Merchant → Session (Unit {0})
insert_merchant m = do
  taken ← gets (λ d. any_row (λ x. text_eq x.id m.id) d.merchants)
  raise_if taken python_error
  modify (λ d. flush (record d { merchants = d.merchants ++ m ∷ [] }))

module _ {F : Type 0} (fl : Floats F) (env : Env) where
  unfoldable pub new_merchant :
      Option Text → Text → ℕ → CreateMerchantRequest F → PosRegionConfig → Merchant
  new_merchant trazmo_tenant_id mid tenant body cfg = record {
    id = mid;
    mock_tenant_id = tenant;
    trazmo_tenant_id = trazmo_tenant_id;
    acquirer_merchant_id = body.acquirer_merchant_id;
    external_entity_id = body.external_entity_id;
    region = upper body.region;
    name = body.name;
    mcc = body.mcc;
    expected_daily_txns = body.expected_daily_txns;
    avg_ticket_minor_units =
        pos
          (fl.truncate (fl.mul body.avg_ticket_major_units (fl.of_nat (10 ^ region_decimals cfg))));
    currency = cfg.currency;
    risk_tier = body.risk_tier;
    is_active = true;
    created_at = env.wall;
  }

  -- The body for a key that is seen for the first time.
  unfoldable pub start_merchant :
      Option Text → Text → CreateMerchantRequest F → ℕ → Session MerchantResponse
  start_merchant trazmo_tenant_id key body tenant = do
    cfg ← lift (get_region body.region)
    ulid ← draw_id env
    let m = new_merchant trazmo_tenant_id (merchant_id_of ulid) tenant body cfg
    insert_merchant m
    schedule_initial_generation env tenant m.id (date_of env.sim)
    complete_record env tenant key 201 (merchant_body (merchant_response m))
    pure (merchant_response m)

  unfoldable pub create_merchant :
      (CreateMerchantRequest F → Text)
      → Option Text
      → Text
      → CreateMerchantRequest F
      → Session MerchantResponse
  create_merchant dump trazmo_tenant_id key body =
      endpoint env key (dump body) non_money as_merchant (start_merchant trazmo_tenant_id key body)

unfoldable pub list_merchants : Env → Session (List MerchantResponse)
list_merchants env = gets (λ d. map merchant_response (
    latest_first (λ (m : Merchant). m.created_at)
      (where_all (λ m. is_own env m.mock_tenant_id) d.merchants)))

unfoldable pub get_merchant : Env → Text → Session MerchantResponse
get_merchant env mid = do
  merchant ←
      or_raise
        (← gets (λ d. first (λ m. visible env m.mock_tenant_id && text_eq m.id mid) d.merchants))
        (not_found merchant_not_found)
  pure (merchant_response merchant)

unfoldable pub load_batch : Env → ℕ → Db → Option SettlementBatch
load_batch env batch_id d = first (λ b. is_own env b.mock_tenant_id && b.id == batch_id) d.batches

-- `get_settlement`, which shows the row
unfoldable pub get_settlement : Env → ℕ → Session SettlementBatch
get_settlement env batch_id = do
  batch ← gets (load_batch env batch_id)
  or_raise batch (not_found merchant_not_found)

abbrev pub is_batch : ℕ → Option ℕ → Bool
is_batch batch_id none = false
is_batch batch_id (some b) = b == batch_id

-- The earliest first.
unfoldable pub download_settlement_file : Env → ℕ → Session (List PosTransaction)
download_settlement_file env batch_id = do
  batch ← or_raise (← gets (load_batch env batch_id)) (not_found merchant_not_found)
  gets (λ d.
      earliest_first (λ (t : PosTransaction). t.event_timestamp)
        (where_all (λ t. is_own env t.mock_tenant_id && is_batch batch_id t.settlement_batch_id)
          d.transactions))
