-- ===== src/Bank/Mandates/Endpoints.antt =====
-- bank/api.py: the endpoints create_mandate and collect_mandate, over the handlers of bank/mandates.py.
use mock_sim.Base.{ℕ, Option, none, some, Text}
use mock_sim.Errors.{python_error}
use mock_sim.Models.{
  MandateResponse, IdempotencyRecord, money, non_money, ResponseBody, payment_body, collect_body,
  mandate_body, account_body, merchant_body, subscription_body, CollectMandateResponse,
}
use mock_sim.Session.{Env, Session, Result, ok, err, pure, lift, ◌>>=◌, ◌>>◌, transaction}
use mock_sim.Idempotency.{get_or_start, complete_record}
use mock_sim.Idempotency.Endpoint.{endpoint}
use mock_sim.Bank.Mandates.{
  CreateMandateRequest, CollectMandateRequest, create_mandate_handler, collect_mandate_handler,
}

-- `MandateResponse(**cached.response_body)`
unfoldable pub as_mandate : Option ResponseBody → Result MandateResponse
as_mandate none = err python_error
as_mandate (some (mandate_body r)) = ok r
as_mandate (some (payment_body r)) = err python_error
as_mandate (some (collect_body r)) = err python_error
as_mandate (some (account_body r)) = err python_error
as_mandate (some (merchant_body r)) = err python_error
as_mandate (some (subscription_body r)) = err python_error

-- The endpoint does not flush before it completes the record.
unfoldable pub answer_mandate :
    Env → ℕ → Text → CreateMandateRequest → Option IdempotencyRecord → Session MandateResponse
answer_mandate env tenant key body (some cached) = lift (as_mandate cached.response_body)
answer_mandate env tenant key body none = do
  resp ← create_mandate_handler env tenant body
  complete_record env tenant key 201 (mandate_body resp)
  pure resp

-- `create_mandate` of bank/api.py, under the tenant of the request
unfoldable pub create_mandate :
    Env → (CreateMandateRequest → Text) → ℕ → Text → CreateMandateRequest → Session MandateResponse
create_mandate env dump tenant key body =
    transaction
      (get_or_start env tenant key (dump body) non_money >>= answer_mandate env tenant key body)

-- `CollectMandateResponse(**cached.response_body)`
unfoldable pub as_collection : Option ResponseBody → Result CollectMandateResponse
as_collection none = err python_error
as_collection (some (collect_body r)) = ok r
as_collection (some (payment_body r)) = err python_error
as_collection (some (mandate_body r)) = err python_error
as_collection (some (account_body r)) = err python_error
as_collection (some (merchant_body r)) = err python_error
as_collection (some (subscription_body r)) = err python_error

-- `collect_mandate` of bank/api.py, which the insert of the handler flushes
unfoldable pub start_collection :
    Env → Text → Text → CollectMandateRequest → ℕ → Session CollectMandateResponse
start_collection env key id body tenant = do
  resp ← collect_mandate_handler env tenant id body
  complete_record env tenant key 202 (collect_body resp)
  pure resp

unfoldable pub collect_mandate :
    Env
    → (CollectMandateRequest → Text)
    → Text
    → Text
    → CollectMandateRequest
    → Session CollectMandateResponse
collect_mandate env dump key id body =
    endpoint env key (dump body) money as_collection (start_collection env key id body)
