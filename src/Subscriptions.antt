-- ===== src/Subscriptions.antt =====
-- `create_webhook_subscription`, which bank/api.py and pos/api.py both have, each for its surface.
mod Tests
use mock_sim.Base.{ℕ, Bool, true, Option, none, some, List, [], ◌∷◌, ◌++◌, Text}
use mock_sim.Errors.{Error, python_error, unprocessable, invalid_target_url}
use mock_sim.Models.{
  WebhookSubscription, WebhookSubscriptionResponse, Surface, WebhookFormat, non_money, ResponseBody,
  payment_body, collect_body, mandate_body, account_body, merchant_body, subscription_body,
}
use mock_sim.Session.{
  Env, Db, Session, Result, ok, err, pure, raise, modify, flush, draw_id, ◌>>=◌, ◌>>◌,
}
use mock_sim.Idempotency.{complete_record}
use mock_sim.Idempotency.Endpoint.{endpoint}
use mock_sim.Webhook.{Addresses, validate_target_url}

pub record WebhookSubscriptionRequest : Type 0 where
  pub url : Text
  pub secret : Text
  pub event_types : List Text
  pub format : WebhookFormat

-- `WebhookSubscriptionResponse(**cached.response_body)`
unfoldable pub as_subscription : Option ResponseBody → Result WebhookSubscriptionResponse
as_subscription none = err python_error
as_subscription (some (subscription_body r)) = ok r
as_subscription (some (payment_body r)) = err python_error
as_subscription (some (collect_body r)) = err python_error
as_subscription (some (mandate_body r)) = err python_error
as_subscription (some (account_body r)) = err python_error
as_subscription (some (merchant_body r)) = err python_error

-- `except ValueError`
abbrev pub or_invalid_url : Result (Unit {0}) → Session (Unit {0})
or_invalid_url (ok u) = pure u
or_invalid_url (err e) = raise (unprocessable invalid_target_url)

unfoldable pub new_subscription :
    Surface → Option Text → ℕ → ℕ → WebhookSubscriptionRequest → WebhookSubscription
new_subscription surface trazmo_tenant_id id tenant body = record {
  id = id;
  mock_tenant_id = tenant;
  trazmo_tenant_id = trazmo_tenant_id;
  surface = surface;
  target_url = body.url;
  target_secret = body.secret;
  event_types = body.event_types;
  format = body.format;
  is_active = true;
}

unfoldable pub subscription_response :
    Env → Surface → ℕ → WebhookSubscriptionRequest → WebhookSubscriptionResponse
subscription_response env surface id body = record {
  id = id;
  surface = surface;
  target_url = body.url;
  event_types = body.event_types;
  format = body.format;
  is_active = true;
  created_at = env.wall;
}

module _ (env : Env) (addresses : Addresses) (allow_http : Bool) (surface : Surface)
    (trazmo_tenant_id : Option Text) where
  -- The body for a key that is seen for the first time: the insert is flushed.
  unfoldable pub start_subscription :
      Text → WebhookSubscriptionRequest → ℕ → Session WebhookSubscriptionResponse
  start_subscription key body tenant = do
    or_invalid_url (validate_target_url addresses allow_http body.url)
    id ← draw_id env
    let sub = new_subscription surface trazmo_tenant_id id tenant body
    modify (λ d. flush (record d { subscriptions = d.subscriptions ++ sub ∷ [] }))
    complete_record env tenant key 201
        (subscription_body (subscription_response env surface id body))
    pure (subscription_response env surface id body)

  unfoldable pub create_webhook_subscription :
      (WebhookSubscriptionRequest → Text)
      → Text
      → WebhookSubscriptionRequest
      → Session WebhookSubscriptionResponse
  create_webhook_subscription dump key body =
      endpoint env key (dump body) non_money as_subscription (start_subscription key body)
