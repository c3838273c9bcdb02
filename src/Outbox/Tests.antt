-- ===== src/Outbox/Tests.antt =====
-- Tests and instances for core/outbox.py, on a table of three rows: one new, one on its last attempt
-- and one that a dispatcher has left in flight.
use mock_sim.Base.{
  ℕ, ◌≤◌, ◌≡◌, refl, true, false, Option, none, some, List, [], ◌∷◌, map, codes, text_eq, All,
  first, length, arith,
}
use mock_sim.Models.{
  WebhookOutbox, OutboxStatus, Payload, native_settlement, per_event, pending, in_flight, retrying,
  dead_letter,
}
use mock_sim.Base.Int.{pos}
use mock_sim.Session.{Env, Db, ok}
use mock_sim.Outbox.{
  Post, dispatch_batch, due_rows, is_due, has_id, deliver_all, deliver, take_batch, after_post,
  row_leb,
}
use mock_sim.Outbox.Rows.{IsDistinct, after_batch, dispatch_batch_lem}
use mock_sim.Outbox.Order.{IsOrdered, due_rows-IsOrdered}
use mock_sim.Outbox.Lifecycle.{IsFitting, dispatch_batch-IsFitting, dispatch_batch-rest}
use mock_sim.Fixtures.{db}

abbrev env : Env
env = record { tenant = none; wall = 50; sim = 0; draw = λ n. n; sha256 = λ t. t }

abbrev notice : Payload
notice = native_settlement (record {
  notification_id = 1;
  batch_id = 2;
  merchant_id = codes "M1";
  merchant_name = codes "Shop";
  settlement_date = 739617;
  txn_count = 1;
  gross_amount = pos 100;
  total_mdr = pos 2;
  total_vat = pos 0;
  net_amount = pos 98;
  currency = codes "PKR";
})

abbrev event : ℕ → OutboxStatus → ℕ → Option ℕ → ℕ → WebhookOutbox
event id status attempts next created = record {
  event_id = id;
  mock_tenant_id = 1;
  partition_key = codes "M1";
  event_type = codes "settlement";
  payload = notice;
  target_url = codes "https://host";
  target_secret = codes "s";
  format = per_event;
  extra_headers = none;
  status = status;
  attempt_count = attempts;
  next_attempt_at = next;
  delivered_at = none;
  last_error = none;
  created_at = created;
}

abbrev rows : List WebhookOutbox
rows =
    event 1 pending 0 none 20
    ∷ event 2 retrying 6 (some 40) 10
    ∷ event 3 in_flight 2 (some 30) 5
    ∷ []

abbrev events : Db
events = record db { outbox = rows }

abbrev refuses : Post
refuses r = (false, some (codes "HTTP 500"))

the_older_first : map (λ (r : WebhookOutbox). r.event_id) (due_rows 50 50 rows) ≡ 2 ∷ 1 ∷ []
unfolding due_rows is_due row_leb text_eq
the_older_first = refl

the_statuses :
    map {B = OutboxStatus × ℕ}
      (λ (r : WebhookOutbox). (r.status, r.attempt_count))
      (dispatch_batch env (λ _. env) refuses 50 events).1.outbox
    ≡ (retrying, 1) ∷ (dead_letter, 7) ∷ (in_flight, 2) ∷ []
unfolding dispatch_batch take_batch due_rows is_due row_leb text_eq deliver_all deliver after_post
the_statuses = refl

distinct : IsDistinct rows
distinct id = ground arith

dispatch_batch_lem_example :
    ((dispatch_batch env (λ _. env) refuses 50 events).0 ≡ ok tt)
    × ((dispatch_batch env (λ _. env) refuses 50 events).1.outbox
        ≡ map (after_batch (λ _. env) refuses (due_rows 50 50 rows)) rows)
dispatch_batch_lem_example = dispatch_batch_lem env (λ _. env) refuses 50 events distinct

rows-IsFitting : All IsFitting rows
rows-IsFitting = (refl, ((omega arith, omega arith, refl), (omega arith, tt)))

dispatch_batch-IsFitting_example :
    All IsFitting (dispatch_batch env (λ _. env) refuses 50 events).1.outbox
dispatch_batch-IsFitting_example =
    dispatch_batch-IsFitting env (λ _. env) refuses 50 events distinct rows-IsFitting

dispatch_batch-rest_example :
    first (has_id 3) (dispatch_batch env (λ _. env) refuses 50 events).1.outbox
    ≡ some (event 3 in_flight 2 (some 30) 5)
unfolding is_due
dispatch_batch-rest_example =
    dispatch_batch-rest env (λ _. env) refuses 50 events distinct 3
      (event 3 in_flight 2 (some 30) 5) refl refl

due_rows-IsOrdered_example :
    (length (due_rows 50 50 rows) ≤ 50)
    × IsOrdered (due_rows 50 50 rows)
    × All (λ r. is_due 50 r ≡ true) (due_rows 50 50 rows)
due_rows-IsOrdered_example = due_rows-IsOrdered 50 50 rows
