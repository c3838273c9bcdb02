-- ===== src/Bank/Accounts/Created.antt =====
-- An account that bank/api.py creates, and the ledger.
use mock_sim.Base.{
  ℕ, suc, ◌≡◌, refl, inl, inr, Bool, true, false, Option, none, some, Text, text_eq, any_row, first,
  if◌then◌else◌, Bool-cases,
}
use mock_sim.Base.Int.{pos}
use mock_sim.Errors.{Error}
use mock_sim.Models.{Account, IdempotencyRecord, EndpointClass, ResponseBody, non_money}
use mock_sim.Session.{
  Env, Db, Session, Result, ok, err, pure, raise, lift, raise_if, draw_id, flush, close_session,
}
use mock_sim.Session.Rules.{Keeps, Keeps-bind, ReadsOnly-Keeps, ReadsOnly-lift, ReadsOnly-raise_if}
use mock_sim.Accounts.Booked.{IsBooked, IsBooked-same, added-IsBooked, any_row-first}
use mock_sim.Idempotency.{is_record, body_hash, complete_record, get_or_start, start_or_check}
use mock_sim.Idempotency.Endpoint.{endpoint, handle, answer}
use mock_sim.Bank.Accounts.{
  CreateAccountRequest, as_account, new_account, is_orphan, insert_account, start_account,
  create_account,
}

module _ (a : Account) (nothing : (a.balance ≡ pos 0) × (a.available_balance ≡ pos 0)) where
  inserted-IsBooked : (d : Db) → IsBooked d → IsBooked (insert_account a d).1
  unfolding insert_account
  inserted-IsBooked d b = elim (Bool-cases (any_row (λ x. text_eq x.iban a.iban) d.accounts)) [
    | inl taken ↦ rw taken b
    | inr free ↦ elim (Bool-cases (is_orphan a.parent_iban d.accounts)) [
      | inl orphan ↦ rw (free, orphan) b
      | inr child ↦
          rw (free, child)
            (added-IsBooked d a (any_row-first (λ x. text_eq x.iban a.iban) d.accounts free) nothing
              b)
    ]
  ]

  insert_account-Keeps : Keeps IsBooked (insert_account a)
  insert_account-Keeps = record { at = inserted-IsBooked }

Keeps-lift_any : {A : Type 0} (r : Result A) → Keeps IsBooked (lift r)
Keeps-lift_any r = ReadsOnly-Keeps IsBooked (lift r) (ReadsOnly-lift r)

Keeps-raise_if : (c : Bool) (e : Error) → Keeps IsBooked (raise_if c e)
Keeps-raise_if c e = ReadsOnly-Keeps IsBooked (raise_if c e) (ReadsOnly-raise_if c e)

Keeps-draw_id : (env : Env) → Keeps IsBooked (draw_id env)
Keeps-draw_id env = record {
  at = λ d b. IsBooked-same d (record d { draws = suc d.draws }) refl refl b;
}

Keeps-pure : {A : Type 0} (a : A) → Keeps IsBooked (pure a)
Keeps-pure a = record { at = λ d b. b }

Keeps-raise : {A : Type 0} (e : Error) → Keeps IsBooked (raise {A = A} e)
Keeps-raise e = record { at = λ d b. b }

Keeps-if :
    {A : Type 0} (c : Bool) (m k : Session A)
    → Keeps IsBooked m
    → Keeps IsBooked k
    → Keeps IsBooked (if c then m else k)
Keeps-if true m k h g = h
Keeps-if false m k h g = g

complete_record-Keeps :
    (env : Env) (tenant : ℕ) (key : Text) (code : ℕ) (body : ResponseBody)
    → Keeps IsBooked (complete_record env tenant key code body)
unfolding complete_record
complete_record-Keeps env tenant key code body = record {
  at = λ d b. IsBooked-same d (complete_record env tenant key code body d).1 refl refl b;
}

ruleset booked_rules = (
  Keeps-bind, Keeps-lift_any, Keeps-raise_if, Keeps-draw_id, Keeps-pure, Keeps-raise, Keeps-if,
  complete_record-Keeps,
)

module _ (env : Env) (randint : Option Text → ℕ → ℕ) (key : Text)
    (body : CreateAccountRequest) where
  new_account-Keeps :
      (id tenant : ℕ) (iban : Text)
      → Keeps IsBooked (insert_account (new_account env id tenant body iban))
  unfolding new_account
  new_account-Keeps id tenant iban =
      insert_account-Keeps (new_account env id tenant body iban) (refl, refl)

  start_account-Keeps : (tenant : ℕ) → Keeps IsBooked (start_account env randint key body tenant)
  unfolding start_account
  start_account-Keeps tenant = search (booked_rules, new_account-Keeps) depth 14

start_or_check-Keeps :
    (env : Env) (tenant : ℕ) (key hash : Text) (c : EndpointClass)
    (existing : Option IdempotencyRecord)
    → Keeps IsBooked (start_or_check env tenant key hash c existing)
unfolding start_or_check
start_or_check-Keeps env tenant key hash c none = record {
  at = λ d b. IsBooked-same d (start_or_check env tenant key hash c none d).1 refl refl b;
}
start_or_check-Keeps env tenant key hash c (some existing) = search booked_rules

get_or_start-Keeps :
    (env : Env) (tenant : ℕ) (key dumped : Text) (c : EndpointClass)
    → Keeps IsBooked (get_or_start env tenant key dumped c)
unfolding get_or_start
get_or_start-Keeps env tenant key dumped c = record {
  at = λ d b.
      (start_or_check-Keeps env tenant key (body_hash env dumped) c
          (first (is_record env tenant key) d.idempotency)).at
        d b;
}

module _ {A : Type 0} (env : Env) where
  answer-Keeps :
      (read : Option ResponseBody → Result A) (start : Session A)
      → Keeps IsBooked start
      → (existing : Option IdempotencyRecord) → Keeps IsBooked (answer read start existing)
  unfolding answer
  answer-Keeps read start k (some cached) = Keeps-lift_any (read cached.response_body)
  answer-Keeps read start k none = k

  handle-Keeps :
      (key dumped : Text) (c : EndpointClass) (read : Option ResponseBody → Result A)
      (start : ℕ → Session A)
      → ((tenant : ℕ) → Keeps IsBooked (start tenant))
      → (tenant : Option ℕ) → Keeps IsBooked (handle env key dumped c read start tenant)
  unfolding handle
  handle-Keeps key dumped c read start k none = record { at = λ d b. b }
  handle-Keeps key dumped c read start k (some tenant) =
      Keeps-bind IsBooked (get_or_start env tenant key dumped c) (answer read (start tenant))
        (get_or_start-Keeps env tenant key dumped c) (answer-Keeps read (start tenant) (k tenant))

  closed-IsBooked :
      (r : Result A) (d d' : Db) → IsBooked d → IsBooked d' → IsBooked (close_session r d d').1
  closed-IsBooked (ok a) d d' b b' = IsBooked-same d' (flush d') refl refl b'
  closed-IsBooked (err e) d d' b b' = b

  endpoint-Keeps :
      (key dumped : Text) (c : EndpointClass) (read : Option ResponseBody → Result A)
      (start : ℕ → Session A)
      → ((tenant : ℕ) → Keeps IsBooked (start tenant))
      → Keeps IsBooked (endpoint env key dumped c read start)
  unfolding endpoint
  endpoint-Keeps key dumped c read start k = record {
    at = λ d b.
        let m = handle env key dumped c read start env.tenant in
        closed-IsBooked (m d).0 d (m d).1 b
          ((handle-Keeps key dumped c read start k env.tenant).at d b);
  }

module _ (env : Env) (randint : Option Text → ℕ → ℕ) (dump : CreateAccountRequest → Text)
    (key : Text) (body : CreateAccountRequest) where
  -- A request to create an account keeps the ledger, and that there is no entry of an account that is
  -- not in the table, whether it returns or raises.
  pub create_account-IsBooked :
      (d : Db) → IsBooked d → IsBooked (create_account env randint dump key body d).1
  unfolding create_account
  create_account-IsBooked d b =
      (endpoint-Keeps env key (dump body) non_money as_account (start_account env randint key body)
          (start_account-Keeps env randint key body)).at
        d b
