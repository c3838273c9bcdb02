-- ===== src/Pos/Generator/Sale.antt =====
-- pos/generator.py: the fees, the times and the row of a transaction.
use mock_sim.Base.{
  ℕ, zero, suc, ◌+◌, ◌-◌, ◌*◌, ◌/◌, none, some, List, [], ◌∷◌, map, Text, codes, leb, if◌then◌else◌,
}
use mock_sim.Base.Int.{ℤ, pos, ◌-ℤ◌}
use mock_sim.Models.{Merchant, PosTransaction, SettlementStatus, Payload, pos_sale}
use mock_sim.Calendar.{Date, at_hour, microseconds_per_second}
use mock_sim.Decimal.{str_nat, str_int, zero_pad}
use mock_sim.Identifiers.{gen_rrn, gen_stan, gen_auth_code, gen_arn}
use mock_sim.Pos.Random.{Floats, Random, Draw, return, randint, ◌>>=◌}
use mock_sim.Pos.Regions.{PosRegionConfig}
use mock_sim.Pos.Generator.{card_bin_of, lognormal_amount, pick_card_network}

-- `_calc_fees`. The division of an integer by 10,000 is exact in its integer part below 2 ^ 53.
pub record Fees : Type 0 where
  pub mdr : ℕ
  pub vat : ℕ
  pub wht : ℕ
  pub net : ℤ

unfoldable pub calc_fees : {F : Type 0} → Floats F → ℕ → PosRegionConfig → Fees
calc_fees fl amount cfg =
    let mdr = amount * cfg.default_mdr_bps / 10_000 in
    let vat = fl.truncate (fl.mul (fl.of_nat mdr) (fl.hundredths cfg.vat_on_mdr_pct)) in
    let wht = fl.truncate (fl.mul (fl.of_nat amount) (fl.hundredths cfg.wht_pct)) in
    record { mdr = mdr; vat = vat; wht = wht; net = pos amount -ℤ pos mdr -ℤ pos vat -ℤ pos wht }

-- `sorted`, of numbers
unfoldable pub insert_nat : ℕ → List ℕ → List ℕ
insert_nat a [] = a ∷ []
insert_nat a (b ∷ rest) = if leb a b then a ∷ b ∷ rest else b ∷ insert_nat a rest

unfoldable pub sort_nats : List ℕ → List ℕ
unfolding insert_nat
sort_nats [] = []
sort_nats (a ∷ rest) = insert_nat a (sort_nats rest)

abbrev pub start_s : ℕ
start_s = 8 * 3600

abbrev pub end_s : ℕ
end_s = 22 * 3600

module _ {F : Type 0} (rng : Random F) where
  unfoldable pub offsets : ℕ → Draw (List ℕ)
  offsets zero = return []
  offsets (suc count) =
      randint rng 0 (end_s - start_s) >>= λ s. offsets count >>= λ rest. return (s ∷ rest)

  abbrev pub stamp : Date → ℕ → ℕ
  stamp sim_date s = at_hour sim_date 0 + (start_s + s) * microseconds_per_second

  -- `_spread_timestamps`
  unfoldable pub spread_timestamps : Date → ℕ → Draw (List ℕ)
  unfolding offsets sort_nats
  spread_timestamps sim_date count =
      offsets count >>= λ drawn. return (map (stamp sim_date) (sort_nats drawn))

-- `_build_webhook_payload`
unfoldable pub build_webhook_payload : PosTransaction → Merchant → Payload
build_webhook_payload txn merchant = pos_sale (record {
  transaction_id = txn.id;
  merchant_id = txn.merchant_id;
  merchant_name = merchant.name;
  mcc = merchant.mcc;
  region = txn.region;
  event_type = codes "sale";
  amount = str_int txn.amount;
  currency = txn.currency;
  mdr = str_int txn.mdr;
  vat_on_mdr = str_int txn.vat_on_mdr;
  wht = str_int txn.wht;
  net_settlement = str_int txn.net_settlement;
  card_network = txn.card_network;
  card_bin = txn.card_bin;
  card_last4 = txn.card_last4;
  rrn = txn.rrn;
  stan = txn.stan;
  auth_code = txn.auth_code;
  arn = txn.arn;
  response_code = txn.response_code;
  expected_settlement_date = txn.expected_settlement_date;
  sim_date = txn.sim_date;
  event_timestamp = txn.event_timestamp;
})

-- The draws of one transaction, in their order, and its row.
pub record Sale : Type 0 where
  pub amount : ℕ
  pub network : Text
  pub last4 : ℕ
  pub rrn : Text
  pub stan : Text
  pub auth_code : Text
  pub arn : Text

unfoldable pub draw_sale :
    {F : Type 0} → Floats F → Random F → Merchant → PosRegionConfig → Date → Draw Sale
draw_sale fl rng merchant cfg sim_date = do
  amount ← lognormal_amount fl rng merchant.avg_ticket_minor_units
  network ← pick_card_network fl rng cfg
  last4 ← randint rng 0 9999
  rrn ← gen_rrn rng sim_date
  stan ← gen_stan rng
  auth_code ← gen_auth_code rng
  arn ← gen_arn rng sim_date
  return (record {
    amount = amount;
    network = network;
    last4 = last4;
    rrn = rrn;
    stan = stan;
    auth_code = auth_code;
    arn = arn;
  })

unfoldable pub new_transaction :
    {F : Type 0}
    → Floats F
    → Merchant
    → PosRegionConfig
    → ℕ
    → Text
    → Date
    → Date
    → ℕ
    → ℕ
    → ℕ
    → Sale
    → PosTransaction
new_transaction fl merchant cfg tenant merchant_id sim_date settle_date now_wall ts id s =
    let fees = calc_fees fl s.amount cfg in
    record {
      id = id;
      mock_tenant_id = tenant;
      merchant_id = merchant_id;
      region = merchant.region;
      event_type = codes "sale";
      amount = pos s.amount;
      currency = merchant.currency;
      mdr = pos fees.mdr;
      vat_on_mdr = pos fees.vat;
      wht = pos fees.wht;
      net_settlement = fees.net;
      card_network = s.network;
      card_bin = card_bin_of s.network;
      card_last4 = zero_pad 4 (str_nat s.last4);
      rrn = s.rrn;
      stan = s.stan;
      auth_code = s.auth_code;
      arn = s.arn;
      response_code = codes "00";
      settlement_status = SettlementStatus.pending;
      settlement_batch_id = none;
      expected_settlement_date = some settle_date;
      sim_date = sim_date;
      event_timestamp = ts;
      created_at = now_wall;
    }
