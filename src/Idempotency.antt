-- ===== src/Idempotency.antt =====
-- core/idempotency.py: the store of requests by their key. A query does not see a record that the
-- session has added and not flushed; the lock on the row is not modelled.
pub mod Keys
pub mod Lookup
pub mod Endpoint
pub mod Replay
mod Tests
use mock_sim.Base.{
  ℕ, ◌+◌, ◌*◌, Bool, true, false, ◌&&◌, ◌||◌, not, Option, none, some, List, [], ◌∷◌, ◌++◌, Text,
  codes, text_eq, first, update_where, delete_where, length, ltb, leb, ◌==◌, if◌then◌else◌,
}
use mock_sim.Errors
use mock_sim.Errors.{bad_request, idempotency_conflict, idempotency_key_required}
use mock_sim.Models.{
  IdempotencyRecord, IdempotencyStatus, pending, complete, conflict, EndpointClass, money,
  non_money, ResponseBody,
}
use mock_sim.Session.{
  Env, Db, Session, Result, ok, err, pure, raise, gets, modify, draw_id, visible, transaction,
  ◌>>=◌, ◌>>◌,
}
use mock_sim.Calendar.{microseconds_per_second}

-- `_body_hash`
unfoldable pub body_hash : Env → Text → Text
body_hash env body = env.sha256 body

-- the `where` of both queries
unfoldable pub is_record : Env → ℕ → Text → IdempotencyRecord → Bool
is_record env tenant key r =
    visible env r.mock_tenant_id && (r.mock_tenant_id == tenant && text_eq r.idempotency_key key)

-- Only a record of another class than money expires.
unfoldable pub expiry : EndpointClass → ℕ → Option ℕ
expiry money now = none
expiry non_money now = some (now + 24 * 3600 * microseconds_per_second)

unfoldable pub new_record : Env → ℕ → ℕ → Text → Text → EndpointClass → IdempotencyRecord
new_record env id tenant key hash endpoint_class = record {
  id = id;
  mock_tenant_id = tenant;
  idempotency_key = key;
  body_hash = hash;
  endpoint_class = endpoint_class;
  status = pending;
  response_status = none;
  response_body = none;
  expires_at = expiry endpoint_class env.wall;
  created_at = env.wall;
}

abbrev pub is_complete : IdempotencyStatus → Bool
is_complete complete = true
is_complete pending = false
is_complete conflict = false

-- the branches of `get_or_start`, on what its query returns
unfoldable pub start_or_check :
    Env
    → ℕ
    → Text
    → Text
    → EndpointClass
    → Option IdempotencyRecord
    → Session (Option IdempotencyRecord)
start_or_check env tenant key hash endpoint_class none = do
  id ← draw_id env
  modify (λ d. record d {
    unflushed = d.unflushed ++ new_record env id tenant key hash endpoint_class ∷ [];
  })
  pure none
start_or_check env tenant key hash endpoint_class (some existing) =
    if not (text_eq existing.body_hash hash)
    then raise (Errors.conflict idempotency_conflict)
    else if is_complete existing.status
    then pure (some existing)
    else raise (Errors.conflict idempotency_conflict)

unfoldable pub get_or_start :
    Env → ℕ → Text → Text → EndpointClass → Session (Option IdempotencyRecord)
get_or_start env tenant key body endpoint_class = do
  existing ← gets (λ d. first (is_record env tenant key) d.idempotency)
  start_or_check env tenant key (body_hash env body) endpoint_class existing

abbrev pub completed : ℕ → ResponseBody → IdempotencyRecord → IdempotencyRecord
completed response_status body r = record r {
  status = complete;
  response_status = some response_status;
  response_body = some body;
}

-- `complete`: nothing where the query finds no record
unfoldable pub complete_record : Env → ℕ → Text → ℕ → ResponseBody → Session (Unit {0})
complete_record env tenant key response_status body = modify (λ d. record d {
  idempotency =
      update_where (is_record env tenant key) (completed response_status body) d.idempotency;
})

-- `str.strip`, on the white space of ASCII
unfoldable pub is_space : ℕ → Bool
is_space c = c == 32 || (ltb 8 c && ltb c 14) || (ltb 27 c && ltb c 32)

abbrev pub lstrip : Text → Text
lstrip [] = []
lstrip (c ∷ s) = if is_space c then lstrip s else c ∷ s

abbrev pub rstrip : Text → Text
rstrip [] = []
rstrip (c ∷ s) =
    let rest = rstrip s in
    elim rest [ [] ↦ (if is_space c then [] else c ∷ []) | d ∷ t ↦ c ∷ d ∷ t ]

unfoldable pub strip : Text → Text
strip s = rstrip (lstrip s)

-- The length of a key, which is counted in code points.
unfoldable pub check_key : Text → Result Text
check_key [] = err (bad_request idempotency_key_required)
check_key (c ∷ s) =
    if ltb 255 (length (c ∷ s)) then err (bad_request idempotency_key_required) else ok (c ∷ s)

-- `require_idempotency_key`, on the header if there is one
unfoldable pub require_idempotency_key : Option Text → Result Text
require_idempotency_key none = err (bad_request idempotency_key_required)
require_idempotency_key (some header) = check_key (strip header)

abbrev pub is_non_money : EndpointClass → Bool
is_non_money non_money = true
is_non_money money = false

abbrev pub has_come : ℕ → Option ℕ → Bool
has_come now none = false
has_come now (some t) = leb t now

-- Whether a record is of the class that expires, and its time has come.
abbrev pub is_prunable : ℕ → IdempotencyRecord → Bool
is_prunable now r = is_non_money r.endpoint_class && has_come now r.expires_at

-- `_prune_idempotency_records` of core/scheduler.py, which runs daily
unfoldable pub prune_idempotency_records : Env → Session (Unit {0})
prune_idempotency_records env =
    transaction
      (modify (λ d. record d { idempotency = delete_where (is_prunable env.wall) d.idempotency }))
