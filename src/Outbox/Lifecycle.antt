-- ===== src/Outbox/Lifecycle.antt =====
-- The life of an outbox row (core/outbox.py): which rows a batch touches, and the number of attempts
-- that each status goes with.
use mock_sim.Base.{
  ℕ, suc, ◌≤◌, ◌<◌, ◌≡◌, refl, sym, ap, ◌∙◌, ◌⊎◌, inl, inr, Bool, true, false, Option, some, List,
  [], ◌∷◌, map, All, take, first, where_all, leb, ◌==◌, ==_refl, Bool-cases, is_none, &&_split,
  arith,
}
use mock_sim.Models.{
  WebhookOutbox, OutboxStatus, pending, in_flight, delivered, retrying, dead_letter,
}
use mock_sim.Session.{Env, Db}
use mock_sim.Outbox.{
  Post, after_post, dispatch_batch, due_rows, order_rows, is_due, is_waiting, has_id, is_among,
  mark_in_flight,
}
use mock_sim.Outbox.Rows.{
  count_id, IsDistinct, after_post-event_id, after_batch, dispatch_batch_lem, count_id-order,
  count_id-take, among-count, count_id-where,
}

-- The attempts and the times that a status goes with.
abbrev pub StatusFits : OutboxStatus → WebhookOutbox → Type 0
StatusFits pending r = r.attempt_count ≡ 0
StatusFits in_flight r = r.attempt_count < 7
StatusFits retrying r =
    (1 ≤ r.attempt_count) × (r.attempt_count < 7) × (is_none r.next_attempt_at ≡ false)
StatusFits delivered r =
    (1 ≤ r.attempt_count) × (r.attempt_count ≤ 7) × (is_none r.delivered_at ≡ false)
StatusFits dead_letter r = r.attempt_count ≡ 7

abbrev pub IsFitting : WebhookOutbox → Type 0
IsFitting r = StatusFits r.status r

abbrev pub In : WebhookOutbox → List WebhookOutbox → Type 0
In r [] = ⊥
In r (x ∷ rows) = (x ≡ r) ⊎ In r rows

count_id-In :
    (r : WebhookOutbox) (rows : List WebhookOutbox) → In r rows → 1 ≤ count_id r.event_id rows
count_id-In r [] i = elim i [ ]
count_id-In r (x ∷ rows) (inl e) = rw (e, ==_refl r.event_id) (omega arith)
count_id-In r (x ∷ rows) (inr i) = omega (arith, count_id-In r rows i)

-- A row that fails the test is not counted among those that pass.
count_id-failed :
    (p : WebhookOutbox → Bool) (r : WebhookOutbox) (rows : List WebhookOutbox)
    → In r rows
    → p r ≡ false
    → suc (count_id r.event_id (where_all p rows)) ≤ count_id r.event_id rows
count_id-failed p r [] i h = elim i [ ]
count_id-failed p r (x ∷ rows) (inl e) h =
    rw (e, h, ==_refl r.event_id) (omega (arith, count_id-where r.event_id p rows))
count_id-failed p r (x ∷ rows) (inr i) h = elim (Bool-cases (p x)) [
  | inl held ↦ rw held (omega (arith, count_id-failed p r rows i h))
  | inr failed ↦ rw failed (omega (arith, count_id-failed p r rows i h))
]

-- The rows that a batch takes are due.
among-due :
    (now n : ℕ) (r : WebhookOutbox) (rows : List WebhookOutbox)
    → IsDistinct rows
    → In r rows
    → is_among (due_rows now n rows) r ≡ true
    → is_due now r ≡ true
unfolding due_rows
among-due now n r rows h i among = elim (Bool-cases (is_due now r)) [
  | inl due ↦ due
  | inr other ↦ absurd (
      omega (
        arith,
        h r.event_id,
        count_id-failed (is_due now) r rows i other,
        count_id-order r.event_id (where_all (is_due now) rows),
        count_id-take r.event_id n (order_rows (where_all (is_due now) rows)),
        (among-count (take n (order_rows (where_all (is_due now) rows))) r).0 among,
      ))
]

due-attempts :
    (now : ℕ) (r : WebhookOutbox) → IsFitting r → is_due now r ≡ true → r.attempt_count < 7
unfolding is_due
due-attempts now r f h = due_status r.status f (&&_split (is_waiting r.status) _ h).0
  where
    due_status : (s : OutboxStatus) → StatusFits s r → is_waiting s ≡ true → r.attempt_count < 7
    due_status pending f w = omega arith
    due_status in_flight f w = f
    due_status retrying f w = f.1
    due_status delivered f w = cc
    due_status dead_letter f w = cc

after_post-IsFitting :
    (now : ℕ) (answer : Bool × Option (List ℕ)) (r : WebhookOutbox)
    → r.attempt_count < 7
    → IsFitting (after_post now answer r)
unfolding after_post
after_post-IsFitting now (true, e) r h = (omega arith, omega arith, refl)
after_post-IsFitting now (false, e) r h = elim (Bool-cases (leb 7 (suc r.attempt_count))) [
  | inl last ↦ rw last (ground arith)
  | inr more ↦ rw more (ground arith)
]

All-map :
    (f : WebhookOutbox → WebhookOutbox) (rows : List WebhookOutbox)
    → All IsFitting rows
    → ((r : WebhookOutbox) → In r rows → IsFitting r → IsFitting (f r))
    → All IsFitting (map f rows)
All-map f [] a h = tt
All-map f (x ∷ rows) a h = (h x (inl refl) a.0, All-map f rows a.1 (λ r i. h r (inr i)))

first-map :
    (f : WebhookOutbox → WebhookOutbox) (id : ℕ) (rows : List WebhookOutbox)
    → ((x : WebhookOutbox) → (f x).event_id ≡ x.event_id)
    → (r : WebhookOutbox) → first (has_id id) rows ≡ some r
    → first (has_id id) (map f rows) ≡ some (f r)
first-map f id [] h r e = cc
first-map f id (x ∷ rows) h r e = elim (Bool-cases (has_id id x)) [
  | inl found ↦
      let is_r : some x ≡ some r = rw found at e in
      let same : x ≡ r = cc in rw (ap (λ i. i == id) (h x) ∙ found) (ap some (ap f same))
  | inr other ↦ rw (ap (λ i. i == id) (h x) ∙ other) (first-map f id rows h r (rw other at e))
]

first-In :
    (id : ℕ) (rows : List WebhookOutbox) (r : WebhookOutbox)
    → first (has_id id) rows ≡ some r
    → In r rows
first-In id [] r e = cc
first-In id (x ∷ rows) r e = elim (Bool-cases (has_id id x)) [
  | inl found ↦ let is_r : some x ≡ some r = rw found at e in inl cc
  | inr other ↦ inr (first-In id rows r (rw other at e))
]

module _ (env : Env) (later : ℕ → Env) (post : Post) (n : ℕ) (d : Db)
    (h : IsDistinct d.outbox) where
  abbrev taken : List WebhookOutbox
  taken = due_rows env.wall n d.outbox

  after_batch-event_id :
      (r : WebhookOutbox) → (after_batch later post taken r).event_id ≡ r.event_id
  after_batch-event_id r = elim (Bool-cases (is_among taken r)) [
    | inl among ↦
        rw among
          (after_post-event_id (later r.event_id).wall (post (mark_in_flight r)) (mark_in_flight r))
    | inr out ↦ rw out
  ]

  -- A batch keeps every row's count of attempts and its times in step with its status: no attempt
  -- before the first, one to six while it is retried, with a next time set, one to seven when it is
  -- delivered, with the time set, and seven exactly when it is given up.
  pub dispatch_batch-IsFitting :
      All IsFitting d.outbox → All IsFitting (dispatch_batch env later post n d).1.outbox
  dispatch_batch-IsFitting a =
      rw ((dispatch_batch_lem env later post n d h).1)
        (All-map (after_batch later post taken) d.outbox a one)
    where
      one :
          (r : WebhookOutbox)
          → In r d.outbox
          → IsFitting r
          → IsFitting (after_batch later post taken r)
      one r i f = elim (Bool-cases (is_among taken r)) [
        | inl among ↦ rw among (
            after_post-IsFitting (later r.event_id).wall (post (mark_in_flight r))
              (mark_in_flight r)
              (due-attempts env.wall r f (among-due env.wall n r d.outbox h i among)))
        | inr out ↦ rw out f
      ]

  -- A row that is not due is left as it is by a batch. So are the rows that are in flight when the
  -- batch starts: nothing takes them up again when a dispatcher has stopped between the two steps.
  pub dispatch_batch-rest :
      (id : ℕ) (r : WebhookOutbox)
      → first (has_id id) d.outbox ≡ some r
      → is_due env.wall r ≡ false
      → first (has_id id) (dispatch_batch env later post n d).1.outbox ≡ some r
  dispatch_batch-rest id r found out = rw ((dispatch_batch_lem env later post n d h).1) (
      first-map (after_batch later post taken) id d.outbox after_batch-event_id r found
      ∙ ap some kept)
    where
      kept : after_batch later post taken r ≡ r
      kept = elim (Bool-cases (is_among taken r)) [
        | inl among ↦
            cc (sym out ∙ among-due env.wall n r d.outbox h (first-In id d.outbox r found) among)
        | inr other ↦ rw other
      ]
