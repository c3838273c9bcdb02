-- ===== src/Bank/Initiation/Again.antt =====
-- A second request for a payment (bank/api.py) under a key: the stored response, or a conflict.
use mock_sim.Base.{ℕ, ◌≡◌, false, some, [], Text, codes, text_eq}
use mock_sim.Errors.{idempotency_conflict, conflict}
use mock_sim.Models.{PaymentInitiateResponse, money}
use mock_sim.Session.{Env, Db, ok, err}
use mock_sim.Idempotency.Replay.{endpoint-again, endpoint-conflict}
use mock_sim.Bank.Initiation.{PaymentInitiateRequest, as_payment, start_payment, initiate_payment}
use mock_sim.Bank.Initiation.Replay.{start_payment-Stores}

module _ (env env' : Env) (tenant : ℕ) (key : Text) (dump : PaymentInitiateRequest → Text)
    (body : PaymentInitiateRequest) (resp : PaymentInitiateResponse) (d : Db)
    (at : env.tenant ≡ some tenant) (at' : env'.tenant ≡ some tenant)
    (same_sha : env'.sha256 ≡ env.sha256) (clean : d.unflushed ≡ [])
    (first_response : (initiate_payment env dump key body d).0 ≡ ok resp) where
  abbrev accepted_message : Text
  accepted_message = codes "Payment instruction accepted (ACCP)"

  -- A request that has been answered is answered the same when it is sent again under its key by the
  -- same tenant, at any time: the stored response comes back, and nothing is written or scheduled.
  pub initiate_payment-again :
      initiate_payment env' dump key body (initiate_payment env dump key body d).1
      ≡ (ok resp, (initiate_payment env dump key body d).1)
  unfolding initiate_payment
  initiate_payment-again =
      endpoint-again as_payment money tenant key (dump body) env
        (start_payment env key body accepted_message) at
        (start_payment-Stores env key body accepted_message tenant) env' at' same_sha resp d clean
        first_response (start_payment env' key body accepted_message)

  -- Another request under the key of one that has been answered is refused with a conflict, where
  -- the hashes of the two bodies differ, and nothing changes.
  pub initiate_payment-conflict :
      (other : PaymentInitiateRequest)
      → text_eq (env.sha256 (dump body)) (env.sha256 (dump other)) ≡ false
      → initiate_payment env' dump key other (initiate_payment env dump key body d).1
        ≡ (err (conflict idempotency_conflict), (initiate_payment env dump key body d).1)
  unfolding initiate_payment
  initiate_payment-conflict other differs =
      endpoint-conflict as_payment money tenant key (dump body) env
        (start_payment env key body accepted_message) at
        (start_payment-Stores env key body accepted_message tenant) env' at' same_sha resp d clean
        first_response (start_payment env' key other accepted_message) (dump other) differs
