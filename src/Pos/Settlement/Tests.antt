-- ===== src/Pos/Settlement/Tests.antt =====
-- Tests and instances for pos/settlement.py.
use mock_sim.Base.{◌≡◌, refl, none, some, codes, text_eq, where_all, arith}
use mock_sim.Base.Int.{pos, ◌+ℤ◌}
use mock_sim.Base.Keys.{HasDistinctKeys}
use mock_sim.Models.{SettlementBatch}
use mock_sim.Session.{ok, visible}
use mock_sim.Pos.Settlement.{
  settle_merchant_day, settle_transactions, settle_batch, is_to_settle, load_merchant, new_batch,
  write_batch, announce_batch, enqueue_all_settled,
}
use mock_sim.Pos.Messages.{load_subscriptions, load_tenant, build_settlement_payload}
use mock_sim.Pos.Settlement.Totals.{IsTotal, is_in_batch}
use mock_sim.Pos.Settlement.Batches.{settle_merchant_day-IsTotal, settle_merchant_day-once}
use mock_sim.Fixtures.{env}
use mock_sim.Fixtures.Shop.{shop, sales}

abbrev batch : SettlementBatch
batch = record {
  id = 0;
  mock_tenant_id = 1;
  merchant_id = shop;
  region = codes "PK";
  settlement_date = 20;
  txn_count = 2;
  gross_amount = pos 400;
  total_mdr = pos 4;
  total_vat = pos 2;
  net_amount = pos 194;
  currency = codes "PKR";
  created_at = 50;
}

the_batch : (settle_merchant_day env 1 shop 20 sales).0 ≡ ok (some batch)
unfolding settle_merchant_day settle_transactions settle_batch is_to_settle load_merchant
    load_subscriptions load_tenant new_batch write_batch announce_batch build_settlement_payload
    enqueue_all_settled visible text_eq ◌+ℤ◌
the_batch = refl

distinct : HasDistinctKeys (λ t. t.id) sales.transactions
distinct k = ground arith

settle_merchant_day-IsTotal_example :
    IsTotal batch
      (where_all (is_in_batch 0) (settle_merchant_day env 1 shop 20 sales).1.transactions)
settle_merchant_day-IsTotal_example =
    settle_merchant_day-IsTotal env 1 shop 20 sales distinct batch (refl, (refl, (refl, tt)))
      the_batch

settle_merchant_day-once_example :
    settle_merchant_day env 1 shop 20 (settle_merchant_day env 1 shop 20 sales).1
    ≡ (ok none, (settle_merchant_day env 1 shop 20 sales).1)
settle_merchant_day-once_example =
    settle_merchant_day-once env 1 shop 20 sales distinct env (some batch) refl the_batch
