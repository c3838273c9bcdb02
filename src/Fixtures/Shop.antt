-- ===== src/Fixtures/Shop.antt =====
-- Shared test data: a shop with sales, floats and a generator.
use mock_sim.Base.{ℕ, true, none, some, [], ◌∷◌, Text, codes, ◌+◌, ◌*◌, ◌/◌, ltb, if◌then◌else◌}
use mock_sim.Base.Int.{pos}
use mock_sim.Models.{Merchant, PosTransaction, SettlementStatus}
use mock_sim.Session.{Db}
use mock_sim.Calendar.{Date}
use mock_sim.Pos.Random.{Floats, Random}
use mock_sim.Fixtures.{db}

abbrev pub shop : Text
shop = codes "M1"

abbrev pub merchant : Merchant
merchant = record {
  id = shop;
  mock_tenant_id = 1;
  trazmo_tenant_id = none;
  acquirer_merchant_id = none;
  external_entity_id = none;
  region = codes "PK";
  name = codes "Shop";
  mcc = codes "5411";
  expected_daily_txns = 10;
  avg_ticket_minor_units = pos 100;
  currency = codes "PKR";
  risk_tier = codes "standard";
  is_active = true;
  created_at = 0;
}

-- A sale of the shop, of an amount, to be settled on a date.
abbrev pub sale : ℕ → ℕ → ℕ → PosTransaction
sale id amount date = record {
  id = id;
  mock_tenant_id = 1;
  merchant_id = shop;
  region = codes "PK";
  event_type = codes "sale";
  amount = pos amount;
  currency = codes "PKR";
  mdr = pos 2;
  vat_on_mdr = pos 1;
  wht = pos 0;
  net_settlement = pos 97;
  card_network = codes "VISA";
  card_bin = codes "412345";
  card_last4 = codes "0042";
  rrn = codes "600100000001";
  stan = codes "000001";
  auth_code = codes "A1B2C3";
  arn = codes "74999260010000000000001";
  response_code = codes "00";
  settlement_status = SettlementStatus.pending;
  settlement_batch_id = none;
  expected_settlement_date = some date;
  sim_date = 739617;
  event_timestamp = 0;
  created_at = 0;
}

abbrev pub sales : Db
sales = record db {
  merchants = merchant ∷ [];
  transactions = sale 7 100 20 ∷ sale 8 200 21 ∷ sale 9 300 20 ∷ [];
}

-- Floats that are whole numbers of hundredths, and a generator.
abbrev pub floats : Floats ℕ
floats = record {
  of_nat = λ n. n * 100;
  hundredths = λ h. h;
  lt = ltb;
  add = λ a b. a + b;
  mul = λ a b. a * b / 100;
  div = λ a b. if ltb 0 b then a * 100 / b else 0;
  exp = λ a. a;
  log = λ a. a;
  sqrt = λ a. a;
  neg = λ a. 0;
  truncate = λ a. a / 100;
  round = λ a. pos (a / 100);
}

abbrev pub rng_for : ℕ → Text → Date → Random ℕ
rng_for tenant merchant_id date = record {
  random = λ n. if ltb n 1 then 50 else 0;
  gauss = λ n mu sigma. mu;
  randint = λ n a b. a;
}
