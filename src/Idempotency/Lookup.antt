-- ===== src/Idempotency/Lookup.antt =====
-- What a query of the idempotency store (core/idempotency.py) finds after a write.
use mock_sim.Base.{
  ℕ, ◌≡◌, refl, ap, inl, inr, Bool, true, false, ◌∙◌, delete_where, none, some, List, [], ◌∷◌, ◌++◌,
  Text, text_eq_refl, first, update_where, ==_refl, Bool-cases,
}
use mock_sim.Models.{IdempotencyRecord, EndpointClass}
use mock_sim.Session.{Env, visible}
use mock_sim.Idempotency.{is_record, new_record}

pub first-append :
    (p : IdempotencyRecord → Bool) (xs : List IdempotencyRecord) (r : IdempotencyRecord)
    → first p xs ≡ none
    → p r ≡ true
    → first p (xs ++ r ∷ []) ≡ some r
first-append p [] r e h = rw h
first-append p (x ∷ xs) r e h = elim (Bool-cases (p x)) [
  | inl passes ↦ cc (rw passes at e)
  | inr fails ↦ rw fails (first-append p xs r (rw fails at e) h)
]

pub first-completed :
    (p : IdempotencyRecord → Bool) (f : IdempotencyRecord → IdempotencyRecord)
    (xs : List IdempotencyRecord) (r : IdempotencyRecord)
    → ((x : IdempotencyRecord) → p (f x) ≡ p x)
    → first p xs ≡ some r
    → first p (update_where p f xs) ≡ some (f r)
first-completed p f [] r h e = cc
first-completed p f (x ∷ xs) r h e = elim (Bool-cases (p x)) [
  | inl passes ↦
      let same : some x ≡ some r = rw passes at e in
      let x≡r : x ≡ r = cc in
      rw (passes, h x, passes) (ap (λ (y : IdempotencyRecord). some (f y)) x≡r)
  | inr fails ↦ rw (fails, fails) (first-completed p f xs r h (rw fails at e))
]

pub first-completed_none :
    (p : IdempotencyRecord → Bool) (f : IdempotencyRecord → IdempotencyRecord)
    (xs : List IdempotencyRecord)
    → first p xs ≡ none
    → first p (update_where p f xs) ≡ none
first-completed_none p f [] e = refl
first-completed_none p f (x ∷ xs) e = elim (Bool-cases (p x)) [
  | inl passes ↦ cc (rw passes at e)
  | inr fails ↦ rw (fails, fails) (first-completed_none p f xs (rw fails at e))
]

-- A record that is added for a tenant is found by it.
pub new_record-is_record :
    (env : Env) (tenant : ℕ) (key : Text)
    → env.tenant ≡ some tenant
    → (id : ℕ) (hash : Text) (endpoint_class : EndpointClass)
    → is_record env tenant key (new_record env id tenant key hash endpoint_class) ≡ true
unfolding is_record new_record visible
new_record-is_record env tenant key at id hash endpoint_class =
    rw (at, ==_refl tenant, text_eq_refl key)

-- A row that is found and not deleted is still found.
pub first-delete_where :
    (p q : IdempotencyRecord → Bool) (rows : List IdempotencyRecord) (r : IdempotencyRecord)
    → first p rows ≡ some r
    → q r ≡ false
    → first p (delete_where q rows) ≡ some r
first-delete_where p q [] r e kept = cc
first-delete_where p q (x ∷ rows) r e kept = elim (Bool-cases (p x)) [
  | inl passes ↦
      let same : some x ≡ some r = rw passes at e in
      let x≡r : x ≡ r = cc in let stays : q x ≡ false = ap q x≡r ∙ kept in rw (stays, passes) same
  | inr fails ↦ elim (Bool-cases (q x)) [
    | inl goes ↦ rw goes (first-delete_where p q rows r (rw fails at e) kept)
    | inr stays ↦ rw (stays, fails) (first-delete_where p q rows r (rw fails at e) kept)
  ]
]
