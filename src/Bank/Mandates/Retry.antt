-- ===== src/Bank/Mandates/Retry.antt =====
-- A request for a mandate that is sent again (`create_mandate` of bank/api.py).
use mock_sim.Base.{ℕ, ◌≡◌, none, some, [], Text, first}
use mock_sim.Models.{IdempotencyRecord, MandateResponse, non_money}
use mock_sim.Session.{Env, Db, ok}
use mock_sim.Idempotency.{is_record, body_hash, new_record}
use mock_sim.Bank.Mandates.{CreateMandateRequest}
use mock_sim.Bank.Mandates.Endpoints.{create_mandate}

module _ (env env' : Env) (tenant : ℕ) (key : Text) (dump : CreateMandateRequest → Text)
    (body : CreateMandateRequest) (resp : MandateResponse) (d : Db) (at : env.tenant ≡ some tenant)
    (at' : env'.tenant ≡ some tenant) (same_sha : env'.sha256 ≡ env.sha256)
    (clean : d.unflushed ≡ []) (unknown_key : first (is_record env tenant key) d.idempotency ≡ none)
    (first_response : (create_mandate env dump tenant key body d).0 ≡ ok resp) where
  abbrev pending_record : IdempotencyRecord
  pending_record =
      new_record env (env.draw d.draws) tenant key (body_hash env (dump body)) non_money
