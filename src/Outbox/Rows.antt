-- ===== src/Outbox/Rows.antt =====
-- `dispatch_batch` (core/outbox.py) seen from one row: what a batch does to each row of the table.
use mock_sim.Base.{
  ℕ, zero, suc, ◌+◌, ◌≤◌, ◌≡◌, refl, ap, ◌∙◌, inl, inr, Bool, true, false, Option, List, [], ◌∷◌,
  map, take, where_all, update_where, leb, ◌==◌, ==_iff, if◌then◌else◌, Bool-cases, arith,
}
use mock_sim.Models.{WebhookOutbox}
use mock_sim.Session.{Env, Db, ok, flush}
use mock_sim.Outbox.{
  Post, after_post, deliver, deliver_all, dispatch_batch, take_batch, due_rows, order_rows,
  insert_row, is_due, has_id, is_among, mark_in_flight, row_leb,
}

-- How many of the rows have the id.
abbrev pub count_id : ℕ → List WebhookOutbox → ℕ
count_id id [] = 0
count_id id (r ∷ rows) = (if has_id id r then 1 else 0) + count_id id rows

-- The event ids of the table are distinct.
abbrev pub IsDistinct : List WebhookOutbox → Type 0
IsDistinct rows = (id : ℕ) → count_id id rows ≤ 1

count_id-insert :
    (id : ℕ) (a : WebhookOutbox) (rows : List WebhookOutbox)
    → count_id id (insert_row a rows) ≡ count_id id (a ∷ rows)
count_id-insert id a [] = refl
count_id-insert id a (b ∷ rows) = elim (Bool-cases (row_leb a b)) [
  | inl before ↦ rw before
  | inr after ↦ rw after (omega (arith, count_id-insert id a rows))
]

pub count_id-order :
    (id : ℕ) (rows : List WebhookOutbox) → count_id id (order_rows rows) ≡ count_id id rows
count_id-order id [] = refl
count_id-order id (a ∷ rows) =
    count_id-insert id a (order_rows rows) ∙ omega (arith, count_id-order id rows)

pub count_id-take :
    (id n : ℕ) (rows : List WebhookOutbox) → count_id id (take n rows) ≤ count_id id rows
count_id-take id zero rows = omega arith
count_id-take id (suc n) [] = omega arith
count_id-take id (suc n) (a ∷ rows) = omega (arith, count_id-take id n rows)

pub count_id-where :
    (id : ℕ) (p : WebhookOutbox → Bool) (rows : List WebhookOutbox)
    → count_id id (where_all p rows) ≤ count_id id rows
count_id-where id p [] = omega arith
count_id-where id p (a ∷ rows) = elim (Bool-cases (p a)) [
  | inl held ↦ rw held (omega (arith, count_id-where id p rows))
  | inr failed ↦ rw failed (omega (arith, count_id-where id p rows))
]

due_rows-IsDistinct :
    (now n : ℕ) (rows : List WebhookOutbox) → IsDistinct rows → IsDistinct (due_rows now n rows)
unfolding due_rows
due_rows-IsDistinct now n rows h id = omega (
  arith,
  h id,
  count_id-take id n (order_rows (where_all (is_due now) rows)),
  count_id-order id (where_all (is_due now) rows),
  count_id-where id (is_due now) rows,
)

update_where-map :
    (p : WebhookOutbox → Bool) (f : WebhookOutbox → WebhookOutbox) (rows : List WebhookOutbox)
    → update_where p f rows ≡ map (λ x. if p x then f x else x) rows
update_where-map p f [] = refl
update_where-map p f (x ∷ rows) = rw (update_where-map p f rows)

map-map :
    (f g : WebhookOutbox → WebhookOutbox) (rows : List WebhookOutbox)
    → map g (map f rows) ≡ map (λ x. g (f x)) rows
map-map f g [] = refl
map-map f g (x ∷ rows) = rw (map-map f g rows)

pub map_same :
    (f g : WebhookOutbox → WebhookOutbox) (rows : List WebhookOutbox)
    → ((x : WebhookOutbox) → f x ≡ g x)
    → map f rows ≡ map g rows
map_same f g [] h = refl
map_same f g (x ∷ rows) h = rw (h x, map_same f g rows h)

pub after_post-event_id :
    (now : ℕ) (answer : Bool × Option (List ℕ)) (r : WebhookOutbox)
    → (after_post now answer r).event_id ≡ r.event_id
unfolding after_post
after_post-event_id now (true, e) r = refl
after_post-event_id now (false, e) r = elim (Bool-cases (leb 7 (suc r.attempt_count))) [
  | inl last ↦ rw last
  | inr more ↦ rw more
]

module _ (later : ℕ → Env) (post : Post) where
  -- One delivery.
  abbrev pub attempt : WebhookOutbox → WebhookOutbox
  attempt r = after_post (later r.event_id).wall (post r) r

  -- What the deliveries of a batch do to a row, in their order.
  abbrev deliveries : List WebhookOutbox → WebhookOutbox → WebhookOutbox
  deliveries [] r = r
  deliveries (row ∷ rows) r = deliveries rows (if has_id row.event_id r then attempt r else r)

  one_delivery :
      (row r : WebhookOutbox)
      → (if has_id row.event_id r then after_post (later row.event_id).wall (post r) r else r)
        ≡ (if has_id row.event_id r then attempt r else r)
  one_delivery row r = elim (Bool-cases (has_id row.event_id r)) [
    | inl same ↦ rw (same, (==_iff r.event_id row.event_id).0 same)
    | inr other ↦ rw other
  ]

  deliver_all-deliveries :
      (rows : List WebhookOutbox) (d : Db)
      → ((deliver_all later post rows d).0 ≡ ok tt)
        × ((deliver_all later post rows d).1.outbox ≡ map (deliveries rows) d.outbox)
  unfolding deliver_all deliver
  deliver_all-deliveries [] d = (refl, map_id d.outbox)
    where
      map_id : (rows : List WebhookOutbox) → rows ≡ map (λ r. r) rows
      map_id [] = refl
      map_id (x ∷ rows) = ap (λ t. x ∷ t) (map_id rows)
  deliver_all-deliveries (row ∷ rows) d =
      let (returned, rest) = deliver_all-deliveries rows (
        flush (record d {
          outbox =
              update_where (has_id row.event_id)
                (λ r. after_post (later row.event_id).wall (post r) r) d.outbox;
        })) in
      (
        returned,
        rest
            ∙ (rw
                (
                  update_where-map (has_id row.event_id)
                      (λ r. after_post (later row.event_id).wall (post r) r) d.outbox,
                  map-map
                      (λ r.
                        if has_id row.event_id r
                        then after_post (later row.event_id).wall (post r) r
                        else r)
                      (deliveries rows) d.outbox,
                )
                (map_same
                  (λ r. deliveries rows (
                    if has_id row.event_id r
                    then after_post (later row.event_id).wall (post r) r
                    else r))
                  (deliveries (row ∷ rows)) d.outbox
                  (λ r. ap (deliveries rows) (one_delivery row r)))),
      )

  deliveries-none :
      (rows : List WebhookOutbox) (r : WebhookOutbox)
      → count_id r.event_id rows ≡ 0
      → deliveries rows r ≡ r
  deliveries-none [] r h = refl
  deliveries-none (row ∷ rows) r h = elim (Bool-cases (has_id row.event_id r)) [
    | inl same ↦
        let one : (row.event_id == r.event_id) ≡ true = ground arith in
        absurd (omega (arith, (rw one at h)))
    | inr other ↦
        let zero : (row.event_id == r.event_id) ≡ false = ground arith in
        rw other (deliveries-none rows r (omega (arith, (rw zero at h))))
  ]

  deliveries-one :
      (rows : List WebhookOutbox) (r : WebhookOutbox)
      → count_id r.event_id rows ≡ 1
      → deliveries rows r ≡ attempt r
  deliveries-one [] r h = absurd (omega arith)
  deliveries-one (row ∷ rows) r h = elim (Bool-cases (has_id row.event_id r)) [
    | inl same ↦
        let one : (row.event_id == r.event_id) ≡ true = ground arith in
        let left : count_id r.event_id rows ≡ 0 = omega (arith, (rw one at h)) in
        let kept = after_post-event_id (later r.event_id).wall (post r) r in
        rw same (deliveries-none rows (attempt r) (ap (λ id. count_id id rows) kept ∙ left))
    | inr other ↦
        let zero : (row.event_id == r.event_id) ≡ false = ground arith in
        rw other (deliveries-one rows r (omega (arith, (rw zero at h))))
  ]

  -- What a batch does to a row of the table: the rows that it took are attempted, in flight.
  abbrev pub after_batch : List WebhookOutbox → WebhookOutbox → WebhookOutbox
  after_batch rows r = if is_among rows r then attempt (mark_in_flight r) else r

pub among-count :
    (rows : List WebhookOutbox) (r : WebhookOutbox)
    → (is_among rows r ≡ true → 1 ≤ count_id r.event_id rows)
      × (is_among rows r ≡ false → count_id r.event_id rows ≡ 0)
among-count [] r = ground arith
among-count (row ∷ rows) r = elim (Bool-cases (has_id r.event_id row)) [
  | inl same ↦ rw same ((λ h. omega arith), (λ h. absurd (ground arith)))
  | inr other ↦
      let rest = among-count rows r in
      rw other ((λ h. omega (arith, rest.0 h)), (λ h. omega (arith, rest.1 h)))
]

module _ (env : Env) (later : ℕ → Env) (post : Post) (n : ℕ) (d : Db) where
  abbrev taken : List WebhookOutbox
  taken = due_rows env.wall n d.outbox

  one_row :
      IsDistinct d.outbox
      → (r : WebhookOutbox)
      → deliveries later post taken (if is_among taken r then mark_in_flight r else r)
        ≡ after_batch later post taken r
  one_row h r =
      let distinct = due_rows-IsDistinct env.wall n d.outbox h r.event_id in
      elim (Bool-cases (is_among taken r)) [
        | inl among ↦ rw among (
            deliveries-one later post taken (mark_in_flight r)
              (omega (arith, distinct, (among-count taken r).0 among)))
        | inr out ↦ rw out (deliveries-none later post taken r ((among-count taken r).1 out))
      ]

  -- Where the event ids are distinct, a batch returns, and its effect on the table is row by row:
  -- each row that was taken is marked in flight and attempted once, and every other row stays.
  pub dispatch_batch_lem :
      IsDistinct d.outbox
      → ((dispatch_batch env later post n d).0 ≡ ok tt)
        × ((dispatch_batch env later post n d).1.outbox
            ≡ map (after_batch later post (due_rows env.wall n d.outbox)) d.outbox)
  unfolding dispatch_batch take_batch
  dispatch_batch_lem h =
      let (returned, rest) =
        deliver_all-deliveries later post taken
          (flush (record d { outbox = update_where (is_among taken) mark_in_flight d.outbox })) in
      (
        returned,
        rest
            ∙ (rw
                (
                  update_where-map (is_among taken) mark_in_flight d.outbox,
                  map-map (λ r. if is_among taken r then mark_in_flight r else r)
                      (deliveries later post taken) d.outbox,
                )
                (map_same
                  (λ r.
                    deliveries later post taken (if is_among taken r then mark_in_flight r else r))
                  (after_batch later post taken) d.outbox (one_row h))),
      )
