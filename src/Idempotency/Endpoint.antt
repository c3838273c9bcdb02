-- ===== src/Idempotency/Endpoint.antt =====
-- core/idempotency.py as bank/api.py and pos/api.py use it: what every endpoint does that takes a
-- key. A stored response is the record that it was made from.
use mock_sim.Base.{ℕ, Option, none, some, Text}
use mock_sim.Errors.{python_error}
use mock_sim.Models.{IdempotencyRecord, EndpointClass, ResponseBody}
use mock_sim.Session.{Env, Session, Result, raise, lift, ◌>>=◌, transaction}
use mock_sim.Idempotency.{get_or_start}

module _ {A : Type 0} where
  -- `if cached: return Response(**cached.response_body)`, and what comes after it.
  unfoldable pub answer :
      (Option ResponseBody → Result A) → Session A → Option IdempotencyRecord → Session A
  answer read start (some cached) = lift (read cached.response_body)
  answer read start none = start

  -- The body of the handler, under the tenant of the request: `assert tenant_id is not None`.
  unfoldable pub handle :
      Env
      → Text
      → Text
      → EndpointClass
      → (Option ResponseBody → Result A)
      → (ℕ → Session A)
      → Option ℕ
      → Session A
  handle env key dumped endpoint_class read start none = raise python_error
  handle env key dumped endpoint_class read start (some tenant) =
      get_or_start env tenant key dumped endpoint_class >>= answer read (start tenant)

  -- The endpoint, in its session: the JSON text of the body, how a stored response is read, and what
  -- is done for a key that is seen for the first time.
  unfoldable pub endpoint :
      Env
      → Text
      → Text
      → EndpointClass
      → (Option ResponseBody → Result A)
      → (ℕ → Session A)
      → Session A
  endpoint env key dumped endpoint_class read start =
      transaction (handle env key dumped endpoint_class read start env.tenant)
