-- ===== src/Idempotency/Replay.antt =====
-- A request that is sent again under its key (core/idempotency.py): the stored response or a
-- conflict, for each endpoint that completes its own record where it returns.
use mock_sim.Base.{
  ℕ, suc, ◌≡◌, refl, sym, ap, ◌∙◌, inl, inr, true, Option, none, some, List, [], ◌∷◌, ◌++◌, Text,
  text_eq, text_eq_refl, text_eq_iff, first, update_where, delete_where, false, ◌&&◌, Bool-cases,
}
use mathlib.Core.List.{append-nil}
use mock_sim.Errors.{idempotency_conflict, conflict}
use mock_sim.Models.{IdempotencyRecord, EndpointClass, ResponseBody}
use mock_sim.Session.{Env, Db, Session, Result, ok, err, visible, flush, transaction, ◌>>=◌}
use mock_sim.Session.Rules.{transaction-ok, flush-flush}
use mock_sim.Idempotency.{
  expiry, is_non_money, has_come, is_prunable, prune_idempotency_records, is_record, body_hash,
  new_record, start_or_check, get_or_start, is_complete, completed,
}
use mock_sim.Idempotency.Lookup.{
  first-append, first-delete_where, first-completed, new_record-is_record,
}
use mock_sim.Idempotency.Endpoint.{answer, handle, endpoint}

-- What a first request leaves in the store: its own record, completed with its response.
pub record Stores {A : Type 0} (env : Env) (tenant : ℕ) (key : Text)
    (read : Option ResponseBody → Result A) (resp : A) (d s : Db) : Type 0 where
  pub code : ℕ
  pub body : ResponseBody
  pub readable : read (some body) ≡ ok resp
  pub stored :
      s.idempotency
      ≡ update_where (is_record env tenant key) (completed code body) (d.idempotency ++ d.unflushed)
  pub flushed : s.unflushed ≡ []

module _ {A : Type 0} (read : Option ResponseBody → Result A) (endpoint_class : EndpointClass)
    (tenant : ℕ) (key dumped : Text) where
  -- A stored record answers the request.
  pub record Answers (env : Env) (resp : A) (r : IdempotencyRecord) : Type 0 where
    pub same_body : text_eq r.body_hash (body_hash env dumped) ≡ true
    pub done : is_complete r.status ≡ true
    pub stored : read r.response_body ≡ ok resp

  -- The record of a request that was sent for the first time.
  abbrev IsNew : Env → IdempotencyRecord → Type 0
  IsNew env r =
      (r.endpoint_class ≡ endpoint_class) × (r.expires_at ≡ expiry endpoint_class env.wall)

  under_tenant :
      (env : Env) (start : ℕ → Session A)
      → env.tenant ≡ some tenant
      → (s : Db)
      → endpoint env key dumped endpoint_class read start s
        ≡ transaction (handle env key dumped endpoint_class read start (some tenant)) s
  unfolding endpoint
  under_tenant env start at s =
      ap (λ o. transaction (handle env key dumped endpoint_class read start o) s) at

  replayed :
      (env : Env) (start : ℕ → Session A)
      → env.tenant ≡ some tenant
      → (resp : A) (r : IdempotencyRecord) (s : Db)
      → first (is_record env tenant key) s.idempotency ≡ some r
      → Answers env resp r
      → endpoint env key dumped endpoint_class read start s ≡ (ok resp, flush s)
  replayed env start at resp r s found a = under_tenant env start at s ∙ stored_run
    where
      stored_run :
          transaction (handle env key dumped endpoint_class read start (some tenant)) s
          ≡ (ok resp, flush s)
      stored_run =
          unfold handle in
          unfold get_or_start in
          unfold start_or_check in unfold answer in rw (found, a.same_body, a.done, a.stored)

  module _ (env : Env) (start : ℕ → Session A) (at : env.tenant ≡ some tenant)
      (stores : (resp : A) (d s : Db)
        → start tenant d ≡ (ok resp, s)
        → Stores env tenant key read resp d s) where
    -- What a first run has left: a record that answers, its own or the one that was there.
    first_run :
        (resp : A) (d s : Db) (existing : Option IdempotencyRecord)
        → first (is_record env tenant key) d.idempotency ≡ existing
        → d.unflushed ≡ []
        → (start_or_check env tenant key (body_hash env dumped) endpoint_class existing
              >>= answer read (start tenant))
            d
          ≡ (ok resp, s)
        → (r : IdempotencyRecord) × (first (is_record env tenant key) (flush s).idempotency
            ≡ some r)
          × Answers env resp r
          × (existing ≡ none → IsNew env r)
    unfolding start_or_check answer
    first_run resp d s (some r) found clean h =
        elim (Bool-cases (text_eq r.body_hash (body_hash env dumped))) [
          | inr other ↦ cc (rw other at h)
          | inl same ↦ elim (Bool-cases (is_complete r.status)) [
            | inr running ↦ cc (rw (same, running) at h)
            | inl done ↦
                let cached : (read r.response_body, d) ≡ (ok resp, s) = rw (same, done) at h in
                let is_d : s ≡ d = ap (λ p. p.1) (sym cached) in
                (
                  r,
                  rw (is_d, clean, append-nil d.idempotency) found,
                  record { same_body = same; done = done; stored = ap (λ p. p.0) cached },
                  λ e. cc e,
                )
          ]
        ]
    first_run resp d s none missing clean h =
        let record_of =
          new_record env (env.draw d.draws) tenant key (body_hash env dumped) endpoint_class in
        let st =
          stores resp (record d { unflushed = d.unflushed ++ record_of ∷ []; draws = suc d.draws })
            s h in
        let done = completed st.code st.body in
        let appended : first (is_record env tenant key) (d.idempotency ++ record_of ∷ [])
            ≡ some record_of =
          first-append (is_record env tenant key) d.idempotency record_of missing (
            new_record-is_record env tenant key at (env.draw d.draws) (body_hash env dumped)
              endpoint_class) in
        (
          done record_of,
          rw (st.flushed, append-nil s.idempotency, st.stored, clean)
              (first-completed (is_record env tenant key) done (d.idempotency ++ record_of ∷ [])
                record_of (λ x. unfold is_record in refl) appended),
          record {
            same_body = unfold new_record in text_eq_refl (body_hash env dumped);
            done = refl;
            stored = st.readable;
          },
          λ e. unfold new_record in (refl, refl),
        )

    -- The state after a first request that was answered, and the record in it that answers.
    first_state :
        (resp : A) (d : Db)
        → d.unflushed ≡ []
        → (endpoint env key dumped endpoint_class read start d).0 ≡ ok resp
        → (s : Db) × ((endpoint env key dumped endpoint_class read start d).1 ≡ flush s)
          × ((r : IdempotencyRecord) × (first (is_record env tenant key) (flush s).idempotency
                ≡ some r)
              × Answers env resp r
              × (first (is_record env tenant key) d.idempotency ≡ none → IsNew env r))
    first_state resp d clean first_response =
        let run = handle env key dumped endpoint_class read start (some tenant) in
        let began : (transaction run d).0 ≡ ok resp =
          ap (λ (p : Result A × Db). p.0) (sym (under_tenant env start at d)) ∙ first_response in
        let (s, ran, ended) = transaction-ok run d resp began in
        (
          s,
          ap (λ (p : Result A × Db). p.1) (under_tenant env start at d ∙ ended),
          first_run resp d s (first (is_record env tenant key) d.idempotency) refl clean
              (unfold handle in unfold get_or_start in ran),
        )

    module _ (env' : Env) (at' : env'.tenant ≡ some tenant) (same_sha : env'.sha256 ≡ env.sha256)
        (resp : A) (d : Db) (clean : d.unflushed ≡ [])
        (first_response : (endpoint env key dumped endpoint_class read start d).0 ≡ ok resp) where
      same_lookup :
          (rows : List IdempotencyRecord)
          → first (is_record env' tenant key) rows ≡ first (is_record env tenant key) rows
      unfolding is_record visible
      same_lookup rows = rw (at', at)

      pub endpoint-again :
          (start' : ℕ → Session A)
          → endpoint env' key dumped endpoint_class read start'
              (endpoint env key dumped endpoint_class read start d).1
            ≡ (ok resp, (endpoint env key dumped endpoint_class read start d).1)
      endpoint-again start' =
          let (s, is_s, (r, found, a, new)) = first_state resp d clean first_response in
          let same_body : text_eq r.body_hash (body_hash env' dumped) ≡ true =
            unfold body_hash in
            ap (λ (sha : Text → Text). text_eq r.body_hash (sha dumped)) same_sha ∙ a.same_body in
          rw is_s (
            replayed env' start' at' resp r (flush s) (same_lookup (flush s).idempotency ∙ found)
              (record { same_body = same_body; done = a.done; stored = a.stored })
            ∙ ap (λ (t : Db). (ok resp, t)) (flush-flush s))

      -- The same for a new key, after a pruning of the store that spares the new record.
      pub endpoint-again_pruned :
          (start' : ℕ → Session A) (pruner : Env)
          → first (is_record env tenant key) d.idempotency ≡ none
          → (is_non_money endpoint_class && has_come pruner.wall (expiry endpoint_class env.wall))
            ≡ false
          → let s =
              (prune_idempotency_records pruner
                (endpoint env key dumped endpoint_class read start d).1).1 in
            endpoint env' key dumped endpoint_class read start' s ≡ (ok resp, s)
      unfolding prune_idempotency_records
      endpoint-again_pruned start' pruner fresh early =
          let (s, is_s, (r, found, a, new)) = first_state resp d clean first_response in
          let left = delete_where (is_prunable pruner.wall) (flush s).idempotency in
          let t : Db = flush (record (flush s) { idempotency = left }) in
          let (of_class, expires) = new fresh in
          let spared : is_prunable pruner.wall r ≡ false = rw (of_class, expires) early in
          let there : first (is_record env tenant key) t.idempotency ≡ some r =
            ap (λ rows. first (is_record env tenant key) rows) (append-nil left)
            ∙ first-delete_where (is_record env tenant key) (is_prunable pruner.wall)
                (flush s).idempotency r found spared in
          let same_body : text_eq r.body_hash (body_hash env' dumped) ≡ true =
            unfold body_hash in
            ap (λ (sha : Text → Text). text_eq r.body_hash (sha dumped)) same_sha ∙ a.same_body in
          rw is_s (
            replayed env' start' at' resp r t (same_lookup t.idempotency ∙ there)
              (record { same_body = same_body; done = a.done; stored = a.stored })
            ∙ ap (λ (u : Db). (ok resp, u)) (flush-flush (record (flush s) { idempotency = left })))

      refused :
          (start' : ℕ → Session A) (other : Text)
          → text_eq (env.sha256 dumped) (env.sha256 other) ≡ false
          → (s : Db) (r : IdempotencyRecord)
          → first (is_record env tenant key) (flush s).idempotency ≡ some r
          → Answers env resp r
          → transaction (handle env' key other endpoint_class read start' (some tenant)) (flush s)
            ≡ (err (conflict idempotency_conflict), flush s)
      refused start' other differs s r found a =
          let lookup = same_lookup (flush s).idempotency ∙ found in
          let hash : r.body_hash ≡ body_hash env dumped =
            (text_eq_iff r.body_hash (body_hash env dumped)).0 a.same_body in
          let mismatch : text_eq r.body_hash (body_hash env' other) ≡ false =
            ap (λ h. text_eq h (body_hash env' other)) hash
            ∙ (unfold body_hash in
                ap (λ (sha : Text → Text). text_eq (env.sha256 dumped) (sha other)) same_sha
                ∙ differs) in
          unfold handle in unfold get_or_start in unfold start_or_check in rw (lookup, mismatch)

      pub endpoint-conflict :
          (start' : ℕ → Session A) (other : Text)
          → text_eq (env.sha256 dumped) (env.sha256 other) ≡ false
          → endpoint env' key other endpoint_class read start'
              (endpoint env key dumped endpoint_class read start d).1
            ≡ (
              err (conflict idempotency_conflict),
              (endpoint env key dumped endpoint_class read start d).1,
            )
      unfolding endpoint
      endpoint-conflict start' other differs =
          let (s, is_s, (r, found, a, new)) = first_state resp d clean first_response in
          rw is_s (
            ap (λ o. transaction (handle env' key other endpoint_class read start' o) (flush s)) at'
            ∙ refused start' other differs s r found a)
