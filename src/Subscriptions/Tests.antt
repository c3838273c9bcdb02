-- ===== src/Subscriptions/Tests.antt =====
-- Tests of the subscriptions of bank/api.py and pos/api.py.
use mock_sim.Base.{◌≡◌, refl, true, false, none, some, [], codes, text_eq, lower, is_member}
use mock_sim.Errors.{unprocessable, invalid_target_url}
use mock_sim.Models.{per_event, pos_surface}
use mock_sim.Session.{err, visible}
use mock_sim.Idempotency.{get_or_start, start_or_check, is_record}
use mock_sim.Idempotency.Endpoint.{endpoint, handle, answer}
use mock_sim.Webhook.{Addresses, validate_target_url, check_url, check_host}
use mock_sim.Subscriptions.{
  WebhookSubscriptionRequest, start_subscription, create_webhook_subscription,
}
use mock_sim.Fixtures.{env, db}

-- Every address is one of the loopback, under HTTPS.
abbrev loopback : Addresses
loopback = record {
  urlparse = λ t. some (record { scheme = codes "https"; hostname = some (codes "127.0.0.1") });
  ip_address = λ t. some (record {
    is_loopback = true;
    is_private = true;
    is_link_local = false;
    is_unspecified = false;
  });
}

abbrev request : WebhookSubscriptionRequest
request = record {
  url = codes "https://127.0.0.1/";
  secret = codes "0123456789abcdef";
  event_types = [];
  format = per_event;
}

-- A subscription of a loopback address is refused, and nothing is stored.
loopback_refused :
    create_webhook_subscription env loopback false pos_surface none
      (λ r. r.url)
      (codes "K")
      request
      db
    ≡ (err (unprocessable invalid_target_url), db)
unfolding create_webhook_subscription endpoint handle get_or_start start_or_check answer
    start_subscription validate_target_url check_url check_host is_member text_eq lower is_record
    visible
loopback_refused = refl
