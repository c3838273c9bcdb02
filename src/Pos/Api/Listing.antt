-- ===== src/Pos/Api/Listing.antt =====
-- pos/api.py: `list_transactions`, the pages of the transactions by their ids, from the latest. The
-- order of ULIDs as texts is that of their numbers.
pub mod Pages
use mock_sim.Base.{
  ℕ, Bool, true, false, ◌&&◌, ◌==◌, Option, none, some, List, [], ◌∷◌, map, length, Text, codes,
  text_eq, where_all,
}
use mock_sim.Base.Int.{ℤ}
use mock_sim.Models.{PosTransaction, SettlementStatus}
use mock_sim.Session.{Env, Db, Session, pure, gets, lift, is_own, ◌>>=◌}
use mock_sim.Decimal.{str_int}
use mock_sim.Paging.{Codec, page, clamp_limit, read_param, map_option}

pub record TransactionItem : Type 0 where
  pub id : ℕ
  pub merchant_id : Text
  pub region : Text
  pub event_type : Text
  pub amount : Text
  pub currency : Text
  pub mdr : Text
  pub vat_on_mdr : Text
  pub net_settlement : Text
  pub card_network : Text
  pub rrn : Text
  pub auth_code : Text
  pub response_code : Text
  pub settlement_status : SettlementStatus
  pub settlement_batch_id : Option ℕ
  pub expected_settlement_date : Option ℕ
  pub sim_date : ℕ
  pub event_timestamp : ℕ

unfoldable pub transaction_item : PosTransaction → TransactionItem
transaction_item t = record {
  id = t.id;
  merchant_id = t.merchant_id;
  region = t.region;
  event_type = t.event_type;
  amount = str_int t.amount;
  currency = t.currency;
  mdr = str_int t.mdr;
  vat_on_mdr = str_int t.vat_on_mdr;
  net_settlement = str_int t.net_settlement;
  card_network = t.card_network;
  rrn = t.rrn;
  auth_code = t.auth_code;
  response_code = t.response_code;
  settlement_status = t.settlement_status;
  settlement_batch_id = t.settlement_batch_id;
  expected_settlement_date = t.expected_settlement_date;
  sim_date = t.sim_date;
  event_timestamp = t.event_timestamp;
}

abbrev pub status_text : SettlementStatus → Text
status_text SettlementStatus.pending = codes "pending"
status_text SettlementStatus.settled = codes "settled"
status_text SettlementStatus.reversed = codes "reversed"

-- An empty parameter counts as none.
abbrev pub is_equal_to : Option Text → Text → Bool
is_equal_to none s = true
is_equal_to (some []) s = true
is_equal_to (some (c ∷ p)) s = text_eq s (c ∷ p)

abbrev pub is_on : Option ℕ → ℕ → Bool
is_on none date = true
is_on (some d) date = date == d

unfoldable pub matching_transactions :
    Env → Option Text → Option ℕ → Option Text → Db → List PosTransaction
matching_transactions env merchant_id sim_date status d =
    where_all
      (λ t.
        is_own env t.mock_tenant_id
        && (is_equal_to merchant_id t.merchant_id
            && (is_on sim_date t.sim_date && is_equal_to status (status_text t.settlement_status))))
      d.transactions

pub record TransactionPage : Type 0 where
  pub items : List TransactionItem
  pub total_in_page : ℕ
  pub next_cursor : Option Text

abbrev pub listing_of : Codec → List PosTransaction × Option ℕ → TransactionPage
listing_of codec (txns, next) = record {
  items = map transaction_item txns;
  total_in_page = length txns;
  next_cursor = map_option codec.encode next;
}

unfoldable pub list_transactions :
    Env
    → Codec
    → Option Text
    → Option Text
    → Option Text
    → Option Text
    → ℤ
    → Session TransactionPage
list_transactions env codec merchant_id sim_date status cursor limit = do
  date ← lift (read_param codec.date_of sim_date)
  after ← lift (read_param codec.decode cursor)
  rows ← gets (λ d.
      page (λ (t : PosTransaction). t.id) (clamp_limit limit) after
        (matching_transactions env merchant_id date status d))
  pure (listing_of codec rows)
