-- ===== src/Outbox.antt =====
-- core/outbox.py: the webhook outbox. An event is a row that the business transaction adds; a batch
-- marks the rows that are due and then delivers each in a transaction of its own. The dispatcher
-- runs in the background, where no tenant is set, so its queries see every row; the rows that another
-- worker has locked are not modelled.
pub mod Order
pub mod Rows
pub mod Lifecycle
mod Tests
use mock_sim.Base.{
  ℕ, zero, suc, ◌+◌, ◌-◌, ◌*◌, min, Bool, true, false, ◌&&◌, ◌||◌, Option, none, some, List, [],
  ◌∷◌, ◌++◌, Text, text_eq, length, take, get_or, first, where_all, any_row, update_where, ltb, leb,
  ◌==◌, if◌then◌else◌,
}
use mock_sim.Models.{
  Payload, WebhookFormat, per_event, WebhookOutbox, OutboxStatus, pending, in_flight, delivered,
  retrying, dead_letter,
}
use mock_sim.Calendar.{microseconds_per_second}
use mock_sim.Session.{Env, Db, Session, pure, gets, modify, draw_id, ◌>>=◌, ◌>>◌, transaction}

-- `_MAX_ATTEMPTS`
abbrev pub max_attempts : ℕ
max_attempts = 7

-- `settings.webhook_retry_schedule`, in seconds (config.py)
abbrev pub webhook_retry_schedule : List ℕ
webhook_retry_schedule = 60 ∷ 300 ∷ 900 ∷ 3600 ∷ 21600 ∷ 86400 ∷ 86400 ∷ []

-- `_backoff`; the callers pass 1 or more
unfoldable pub backoff : ℕ → ℕ
backoff attempt =
    let schedule = webhook_retry_schedule in
    let idx = min (attempt - 1) (length schedule - 1) in get_or schedule idx 0

unfoldable pub new_event :
    Env → ℕ → ℕ → Text → Text → Payload → Text → Text → WebhookFormat → Option Text → WebhookOutbox
new_event env id tenant partition_key event_type payload url secret format headers = record {
  event_id = id;
  mock_tenant_id = tenant;
  partition_key = partition_key;
  event_type = event_type;
  payload = payload;
  target_url = url;
  target_secret = secret;
  format = format;
  extra_headers = headers;
  status = pending;
  attempt_count = 0;
  next_attempt_at = none;
  delivered_at = none;
  last_error = none;
  created_at = env.wall;
}

unfoldable pub enqueue :
    Env
    → ℕ
    → Text
    → Text
    → Payload
    → Text
    → Text
    → WebhookFormat
    → Option Text
    → Session WebhookOutbox
enqueue env tenant partition_key event_type payload url secret format headers = do
  id ← draw_id env
  let event = new_event env id tenant partition_key event_type payload url secret format headers
  modify (λ d. record d { outbox = d.outbox ++ event ∷ [] })
  pure event

abbrev pub is_waiting : OutboxStatus → Bool
is_waiting pending = true
is_waiting retrying = true
is_waiting in_flight = false
is_waiting delivered = false
is_waiting dead_letter = false

-- the `where` of `dispatch_batch`
unfoldable pub is_due : ℕ → WebhookOutbox → Bool
is_due now r = is_waiting r.status && (elim r.next_attempt_at [ none ↦ true | some t ↦ leb t now ])

-- the order of texts, and of the rows in a batch: the partition key, then the time of creation
unfoldable pub text_leb : Text → Text → Bool
text_leb [] t = true
text_leb (c ∷ s) [] = false
text_leb (c ∷ s) (d ∷ t) = if c == d then text_leb s t else ltb c d

unfoldable pub row_leb : WebhookOutbox → WebhookOutbox → Bool
row_leb a b =
    if text_eq a.partition_key b.partition_key
    then leb a.created_at b.created_at
    else text_leb a.partition_key b.partition_key

abbrev pub insert_row : WebhookOutbox → List WebhookOutbox → List WebhookOutbox
insert_row a [] = a ∷ []
insert_row a (b ∷ rest) = if row_leb a b then a ∷ b ∷ rest else b ∷ insert_row a rest

abbrev pub order_rows : List WebhookOutbox → List WebhookOutbox
order_rows [] = []
order_rows (a ∷ rest) = insert_row a (order_rows rest)

-- the query of `dispatch_batch`
unfoldable pub due_rows : ℕ → ℕ → List WebhookOutbox → List WebhookOutbox
due_rows now batch_size rows = take batch_size (order_rows (where_all (is_due now) rows))

abbrev pub has_id : ℕ → WebhookOutbox → Bool
has_id id r = r.event_id == id

abbrev pub is_among : List WebhookOutbox → WebhookOutbox → Bool
is_among rows r = any_row (has_id r.event_id) rows

abbrev pub mark_in_flight : WebhookOutbox → WebhookOutbox
mark_in_flight r = record r { status = in_flight }

-- the first transaction of `dispatch_batch`: the rows that are due, in flight
unfoldable pub take_batch : Env → ℕ → Session (List WebhookOutbox)
take_batch env batch_size = do
  rows ← gets (λ d. due_rows env.wall batch_size d.outbox)
  modify (λ d. record d { outbox = update_where (is_among rows) mark_in_flight d.outbox })
  pure rows

-- What `post_webhook` (core/webhook.py) answers: success, and the error if there is one.
abbrev pub Post : Type 0
Post = WebhookOutbox → Bool × Option Text

-- `_deliver` after the post: the assignments to the row
unfoldable pub after_post : ℕ → Bool × Option Text → WebhookOutbox → WebhookOutbox
after_post now (true, error) r = record r {
  attempt_count = suc r.attempt_count;
  status = delivered;
  delivered_at = some now;
}
after_post now (false, error) r =
    if leb max_attempts (suc r.attempt_count)
    then record r { attempt_count = suc r.attempt_count; status = dead_letter }
    else record r {
      attempt_count = suc r.attempt_count;
      status = retrying;
      next_attempt_at = some (now + backoff (suc r.attempt_count) * microseconds_per_second);
      last_error = error;
    }

-- `_deliver`: a row that is no longer there is left out.
unfoldable pub deliver : Env → Post → WebhookOutbox → Session (Unit {0})
deliver env post row = modify (λ d. record d {
  outbox = update_where (has_id row.event_id) (λ r. after_post env.wall (post r) r) d.outbox;
})

-- the loop of `dispatch_batch`; each delivery has a clock of its own
unfoldable pub deliver_all : (ℕ → Env) → Post → List WebhookOutbox → Session (Unit {0})
deliver_all later post [] = pure tt
deliver_all later post (row ∷ rows) =
    transaction (deliver (later row.event_id) post row) >> deliver_all later post rows

unfoldable pub dispatch_batch : Env → (ℕ → Env) → Post → ℕ → Session (Unit {0})
dispatch_batch env later post batch_size =
    transaction (take_batch env batch_size) >>= λ rows. deliver_all later post rows
