-- ===== src/Bank/Accounts/Again.antt =====
-- A request for an account (bank/api.py) that is sent again under its key.
use mock_sim.Base.{
  ℕ, suc, ◌+◌, ◌*◌, ◌<◌, none, first, arith, ◌≡◌, sym, ap, ◌∙◌, ◌&&◌, not, Option, some, [], ◌++◌,
  Text, text_eq, any_row, update_where,
}
use mock_sim.Errors.{python_error, bad_request, invalid_iban}
use mock_sim.Models.{Account, AccountResponse, non_money, account_body}
use mock_sim.Session.{Env, Db, ok, raise_if}
use mock_sim.Session.Rules.{ReadsOnly-lift, ReadsOnly-raise_if, >>=-eq-ok, >>=-eq-ok_reads}
use mock_sim.Iban.{gen_iban}
use mock_sim.Calendar.{microseconds_per_second}
use mock_sim.Idempotency.{expiry, prune_idempotency_records, is_record, completed, complete_record}
use mock_sim.Idempotency.Replay.{Stores, endpoint-again_pruned}
use mock_sim.Bank.Regions.{get_region}
use mock_sim.Bank.Accounts.{
  CreateAccountRequest, as_account, account_response, new_account, needs_parent, has_parent,
  is_orphan, insert_account, start_account, create_account,
}

insert_account-ok :
    (a : Account) (d s : Db)
    → insert_account a d ≡ (ok tt, s)
    → (s.idempotency ≡ d.idempotency ++ d.unflushed) × (s.unflushed ≡ [])
unfolding insert_account
insert_account-ok a d s h =
    let taken = any_row (λ (x : Account). text_eq x.iban a.iban) d.accounts in
    let orphan = is_orphan a.parent_iban d.accounts in
    let (_, _, free) =
      >>=-eq-ok_reads (raise_if taken python_error) _ d tt s (ReadsOnly-raise_if taken python_error)
        h in
    let (_, _, rest) =
      >>=-eq-ok_reads (raise_if orphan python_error) _ d tt s
        (ReadsOnly-raise_if orphan python_error) free in
    (ap (λ p. p.1.idempotency) (sym rest), ap (λ p. p.1.unflushed) (sym rest))

module _ (env : Env) (randint : Option Text → ℕ → ℕ) (key : Text)
    (body : CreateAccountRequest) where
  start_account-Stores :
      (tenant : ℕ) (resp : AccountResponse) (d s : Db)
      → start_account env randint key body tenant d ≡ (ok resp, s)
      → Stores env tenant key as_account resp d s
  unfolding start_account complete_record
  start_account-Stores tenant resp d s h =
      let (_, _, h1) = >>=-eq-ok_reads _ _ d resp s (ReadsOnly-lift (get_region body.region)) h in
      let (_, _, h2) =
        >>=-eq-ok_reads _ _ d resp s
          (ReadsOnly-raise_if (needs_parent body.account_type && not (has_parent body.parent_iban))
            (bad_request invalid_iban))
          h1 in
      let (iban, _, h3) =
        >>=-eq-ok_reads _ _ d resp s (ReadsOnly-lift (gen_iban body.region (randint body.seed)))
          h2 in
      let account = new_account env (env.draw d.draws) tenant body iban in
      let drawn = record d { draws = suc d.draws } in
      let inserted = >>=-eq-ok (insert_account account) _ drawn resp s h3 in
      let i = insert_account-ok account drawn inserted.state inserted.head in
      let written = account_body (account_response account) in
      record {
        code = 201;
        body = written;
        readable = unfold as_account in ap (λ p. p.0) inserted.rest;
        stored =
            ap (λ p. p.1.idempotency) (sym inserted.rest)
            ∙ ap (λ rows. update_where (is_record env tenant key) (completed 201 written) rows) i.0;
        flushed = ap (λ p. p.1.unflushed) (sym inserted.rest) ∙ i.1;
      }

module _ (env env' : Env) (randint : Option Text → ℕ → ℕ) (tenant : ℕ) (key : Text)
    (dump : CreateAccountRequest → Text) (body : CreateAccountRequest) (resp : AccountResponse)
    (d : Db) (at : env.tenant ≡ some tenant) (at' : env'.tenant ≡ some tenant)
    (same_sha : env'.sha256 ≡ env.sha256) (clean : d.unflushed ≡ [])
    (first_response : (create_account env randint dump key body d).0 ≡ ok resp) where
  -- A request for an account under a new key that has been answered is answered the same when it is
  -- sent again under the key by the same tenant, and no second account is made: at any time, whatever
  -- digits are drawn, and after a pruning of the store that has run within 24 hours of the first
  -- request. A later pruning deletes the record.
  pub create_account-again :
      (randint' : Option Text → ℕ → ℕ) (pruner : Env)
      → first (is_record env tenant key) d.idempotency ≡ none
      → pruner.wall < env.wall + 24 * 3600 * microseconds_per_second
      → let s =
          (prune_idempotency_records pruner (create_account env randint dump key body d).1).1 in
        create_account env' randint' dump key body s ≡ (ok resp, s)
  unfolding create_account expiry
  create_account-again randint' pruner fresh early =
      endpoint-again_pruned as_account non_money tenant key (dump body) env
        (start_account env randint key body) at (start_account-Stores env randint key body tenant)
        env' at' same_sha resp d clean first_response (start_account env' randint' key body) pruner
        fresh (ground arith)
