-- ===== src/Outbox/Order.antt =====
-- The order of a batch (core/outbox.py, `due_rows`): the partitions one after the other, each by the
-- time of creation.
use mock_sim.Base.{
  ℕ, zero, suc, ◌≤◌, ◌≡◌, refl, sym, inl, inr, Bool, true, false, List, [], ◌∷◌, Text, text_eq,
  text_eq_iff, text_eq_refl, All, take, length, length-take-le, where_all, Bool-cases, arith,
}
use mock_sim.Models.{WebhookOutbox}
use mock_sim.Outbox.{due_rows, order_rows, insert_row, is_due, row_leb, text_leb}

text_leb-total : (s t : Text) → text_leb s t ≡ false → text_leb t s ≡ true
unfolding text_leb
text_leb-total [] t h = cc
text_leb-total (c ∷ s) [] h = refl
text_leb-total (c ∷ s) (d ∷ t) h = ground (arith, text_leb-total s t)

row_leb-total : (a b : WebhookOutbox) → row_leb a b ≡ false → row_leb b a ≡ true
unfolding row_leb
row_leb-total a b h = elim (Bool-cases (text_eq a.partition_key b.partition_key)) [
  | inl same ↦
      let e = (text_eq_iff a.partition_key b.partition_key).0 same in
      rw (sym e, text_eq_refl a.partition_key) (ground (arith, (rw same at h)))
  | inr other ↦
      let turned : text_eq b.partition_key a.partition_key ≡ false = ground (
        arith,
        text_eq_iff a.partition_key b.partition_key,
        text_eq_iff b.partition_key a.partition_key,
        text_eq_refl a.partition_key,
      ) in
      rw turned (text_leb-total a.partition_key b.partition_key (rw other at h))
]

-- Each row is followed by one that may follow it.
abbrev pub IsOrdered : List WebhookOutbox → Type 0
IsOrdered [] = Unit
IsOrdered (a ∷ []) = Unit
IsOrdered (a ∷ b ∷ rest) = (row_leb a b ≡ true) × IsOrdered (b ∷ rest)

insert_row-IsOrdered :
    (a : WebhookOutbox) (rows : List WebhookOutbox) → IsOrdered rows → IsOrdered (insert_row a rows)
insert_row-IsOrdered a [] o = tt
insert_row-IsOrdered a (b ∷ []) o = elim (Bool-cases (row_leb a b)) [
  | inl before ↦ rw before (before, tt)
  | inr after ↦ rw after (row_leb-total a b after, tt)
]
insert_row-IsOrdered a (b ∷ c ∷ rest) o = elim (Bool-cases (row_leb a b)) [
  | inl before ↦ rw before (before, o)
  | inr after ↦ elim (Bool-cases (row_leb a c)) [
    | inl before ↦ rw (after, before) (row_leb-total a b after, (before, o.1))
    | inr later ↦ rw (after, later) (o.0, (rw later at (insert_row-IsOrdered a (c ∷ rest) o.1)))
  ]
]

order_rows-IsOrdered : (rows : List WebhookOutbox) → IsOrdered (order_rows rows)
order_rows-IsOrdered [] = tt
order_rows-IsOrdered (a ∷ rows) =
    insert_row-IsOrdered a (order_rows rows) (order_rows-IsOrdered rows)

take-IsOrdered : (n : ℕ) (rows : List WebhookOutbox) → IsOrdered rows → IsOrdered (take n rows)
take-IsOrdered zero rows o = tt
take-IsOrdered (suc n) [] o = tt
take-IsOrdered (suc zero) (a ∷ []) o = tt
take-IsOrdered (suc (suc n)) (a ∷ []) o = tt
take-IsOrdered (suc zero) (a ∷ b ∷ rows) o = tt
take-IsOrdered (suc (suc n)) (a ∷ b ∷ rows) o = (o.0, take-IsOrdered (suc n) (b ∷ rows) o.1)

module _ (p : WebhookOutbox → Bool) where
  insert_row-All :
      (a : WebhookOutbox) (rows : List WebhookOutbox)
      → p a ≡ true
      → All (λ r. p r ≡ true) rows
      → All (λ r. p r ≡ true) (insert_row a rows)
  insert_row-All a [] h k = (h, tt)
  insert_row-All a (b ∷ rows) h k = elim (Bool-cases (row_leb a b)) [
    | inl before ↦ rw before (h, k)
    | inr after ↦ rw after (k.0, insert_row-All a rows h k.1)
  ]

  order_rows-All :
      (rows : List WebhookOutbox)
      → All (λ r. p r ≡ true) rows
      → All (λ r. p r ≡ true) (order_rows rows)
  order_rows-All [] k = tt
  order_rows-All (a ∷ rows) k = insert_row-All a (order_rows rows) k.0 (order_rows-All rows k.1)

  take-All :
      (n : ℕ) (rows : List WebhookOutbox)
      → All (λ r. p r ≡ true) rows
      → All (λ r. p r ≡ true) (take n rows)
  take-All zero rows k = tt
  take-All (suc n) [] k = tt
  take-All (suc n) (a ∷ rows) k = (k.0, take-All n rows k.1)

  where_all-All : (rows : List WebhookOutbox) → All (λ r. p r ≡ true) (where_all p rows)
  where_all-All [] = tt
  where_all-All (a ∷ rows) = elim (Bool-cases (p a)) [
    | inl held ↦ rw held (held, where_all-All rows)
    | inr failed ↦ rw failed (where_all-All rows)
  ]

-- A batch has at most its size of rows, all of them due, ordered by the partition key and then by
-- the time of creation.
pub due_rows-IsOrdered :
    (now n : ℕ) (rows : List WebhookOutbox)
    → (length (due_rows now n rows) ≤ n)
      × IsOrdered (due_rows now n rows)
      × All (λ r. is_due now r ≡ true) (due_rows now n rows)
unfolding due_rows
due_rows-IsOrdered now n rows =
    let due = where_all (is_due now) rows in
    (
      length-take-le n (order_rows due),
      take-IsOrdered n (order_rows due) (order_rows-IsOrdered due),
      take-All (is_due now) n (order_rows due)
          (order_rows-All (is_due now) due (where_all-All (is_due now) rows)),
    )
