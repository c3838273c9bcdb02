-- ===== src/Pos/Settlement/Batches.antt =====
-- What a settlement (pos/settlement.py) leaves in the tables, and what a second one finds.
use mock_sim.Base.{
  ℕ, ◌≡◌, refl, sym, ap, subst, ◌∙◌, inl, inr, false, Option, none, some, List, [], ◌∷◌, map, All,
  Text, length, where_all, ==_refl, Bool-cases, suc,
}
use mock_sim.Base.Int.{ℤ, sum_ℤ}
use mock_sim.Base.Keys.{HasDistinctKeys}
use mock_sim.Models.{Merchant, PosTransaction, SettlementBatch}
use mock_sim.Session.{Env, Db, Result, ok, visible, flush}
use mock_sim.Session.Rules.{transaction-ok, flush-flush}
use mock_sim.Calendar.{Date}
use mock_sim.Pos.Settlement.{
  is_to_settle, load_merchant, mark_settled, settle_transactions, settle_merchant_day,
}
use mock_sim.Pos.Settlement.Totals.{
  is_in_batch, IsTotal, into_batch, due, settle_transactions-Settles, settle_batch_lem,
}

module _ (f : PosTransaction → ℤ) (id : ℕ)
    (h : (t : PosTransaction) → f (mark_settled id t) ≡ f t) where
  map-mark : (txns : List PosTransaction) → map f (map (mark_settled id) txns) ≡ map f txns
  map-mark [] = refl
  map-mark (t ∷ txns) = rw (h t, map-mark txns)

length-mark :
    (id : ℕ) (txns : List PosTransaction) → length (map (mark_settled id) txns) ≡ length txns
length-mark id [] = refl
length-mark id (t ∷ txns) = ap suc (length-mark id txns)

-- Marking changes no amount.
IsTotal-mark :
    (batch : SettlementBatch) (id : ℕ) (txns : List PosTransaction)
    → IsTotal batch txns
    → IsTotal batch (map (mark_settled id) txns)
IsTotal-mark batch id txns t = record {
  txn_count = t.txn_count ∙ sym (length-mark id txns);
  gross_amount = t.gross_amount ∙ ap sum_ℤ (sym (map-mark (λ x. x.amount) id (λ x. refl) txns));
  total_mdr = t.total_mdr ∙ ap sum_ℤ (sym (map-mark (λ x. x.mdr) id (λ x. refl) txns));
  total_vat = t.total_vat ∙ ap sum_ℤ (sym (map-mark (λ x. x.vat_on_mdr) id (λ x. refl) txns));
  net_amount = t.net_amount ∙ ap sum_ℤ (sym (map-mark (λ x. x.net_settlement) id (λ x. refl) txns));
}

module _ (env : Env) (tenant : ℕ) (merchant_id : Text) (date : Date) where
  -- A transaction that is marked is not settled again.
  pub is_to_settle-marked :
      (id : ℕ) (t : PosTransaction)
      → is_to_settle env tenant merchant_id date (mark_settled id t) ≡ false
  unfolding is_to_settle
  is_to_settle-marked id t = refl

  in_batch-into :
      (id : ℕ) (rows : List PosTransaction)
      → All (λ t. is_in_batch id t ≡ false) rows
      → where_all (is_in_batch id) (into_batch env tenant merchant_id date id rows)
        ≡ map (mark_settled id) (where_all (is_to_settle env tenant merchant_id date) rows)
  in_batch-into id [] a = refl
  in_batch-into id (t ∷ rows) a = elim (Bool-cases (is_to_settle env tenant merchant_id date t)) [
    | inl due ↦ rw (due, ==_refl id, in_batch-into id rows a.1)
    | inr other ↦ rw (other, a.0) (in_batch-into id rows a.1)
  ]

  pub none_left :
      (id : ℕ) (rows : List PosTransaction)
      → where_all
          (is_to_settle env tenant merchant_id date)
          (into_batch env tenant merchant_id date id rows)
        ≡ []
  none_left id [] = refl
  none_left id (t ∷ rows) = elim (Bool-cases (is_to_settle env tenant merchant_id date t)) [
    | inl due ↦ rw (due, is_to_settle-marked id t) (none_left id rows)
    | inr other ↦ rw (other, other) (none_left id rows)
  ]

  module _ (d : Db) (distinct : HasDistinctKeys (λ t. t.id) d.transactions) where
    ended :
        (r : Option SettlementBatch)
        → (settle_merchant_day env tenant merchant_id date d).0 ≡ ok r
        → (st : Db) × (settle_transactions env tenant merchant_id date
              (due env tenant merchant_id date d distinct)
              (load_merchant env tenant merchant_id d)
              d
            ≡ (ok r, st))
          × (settle_merchant_day env tenant merchant_id date d ≡ (ok r, flush st))
    unfolding settle_merchant_day
    ended r h =
        transaction-ok
          (λ s.
            settle_transactions env tenant merchant_id date
              (where_all (is_to_settle env tenant merchant_id date) s.transactions)
              (load_merchant env tenant merchant_id s) s)
          d r h

    -- A run that returns a batch has written its transactions: where the ids of the transactions
    -- are distinct and the new id is on none of them, the batch's count and its four totals are
    -- those of the transactions that carry its id afterwards.
    pub settle_merchant_day-IsTotal :
        (batch : SettlementBatch)
        → All (λ t. is_in_batch (env.draw d.draws) t ≡ false) d.transactions
        → (settle_merchant_day env tenant merchant_id date d).0 ≡ ok (some batch)
        → IsTotal batch (
            where_all
              (is_in_batch batch.id)
              (settle_merchant_day env tenant merchant_id date d).1.transactions)
    settle_merchant_day-IsTotal batch fresh h =
        let (st, ran, returned) = ended (some batch) h in
        let s =
          settle_transactions-Settles env tenant merchant_id date d distinct
            (due env tenant merchant_id date d distinct) (load_merchant env tenant merchant_id d)
            batch st refl ran in
        let at_id = λ (i : ℕ). λ (rows : List PosTransaction). where_all (is_in_batch i) rows in
        let rows =
          ap (λ i. at_id i (settle_merchant_day env tenant merchant_id date d).1.transactions) s.id
          ∙ ap
              (λ (p : Result (Option SettlementBatch) × Db).
                at_id (env.draw d.draws) p.1.transactions)
              returned
          ∙ ap (at_id (env.draw d.draws)) s.marked
          ∙ in_batch-into (env.draw d.draws) d.transactions fresh in
        subst (IsTotal batch) (sym rows) (
          IsTotal-mark batch (env.draw d.draws) (due env tenant merchant_id date d distinct)
            s.total)

    nothing_again :
        (env' : Env) (txns : List PosTransaction) (merchant : Option Merchant) (st d' : Db)
        → settle_transactions env tenant merchant_id date txns merchant d ≡ (ok none, st)
        → (st ≡ d)
          × (settle_transactions env' tenant merchant_id date txns merchant d' ≡ (ok none, d'))
    unfolding settle_transactions
    nothing_again env' [] merchant st d' h = (ap (λ p. p.1) (sym h), refl)
    nothing_again env' (t ∷ ts) none st d' h = (ap (λ p. p.1) (sym h), refl)
    nothing_again env' (t ∷ ts) (some merchant) st d' h = cc (
        sym (settle_batch_lem env tenant merchant_id date d distinct t ts merchant)
        ∙ ap (λ p. p.0) h)

    same_due :
        (env' : Env) (rows : List PosTransaction)
        → env'.tenant ≡ env.tenant
        → where_all (is_to_settle env' tenant merchant_id date) rows
          ≡ where_all (is_to_settle env tenant merchant_id date) rows
    unfolding is_to_settle visible
    same_due env' rows e = rw e

    same_merchant :
        (env' : Env) (s : Db)
        → env'.tenant ≡ env.tenant
        → load_merchant env' tenant merchant_id s ≡ load_merchant env tenant merchant_id s
    unfolding load_merchant visible
    same_merchant env' s e = rw e

    second_run :
        (env' : Env) (s : Db)
        → settle_transactions env' tenant merchant_id date
            (where_all (is_to_settle env' tenant merchant_id date) s.transactions)
            (load_merchant env' tenant merchant_id s)
            s
          ≡ (ok none, s)
        → settle_merchant_day env' tenant merchant_id date s ≡ (ok none, flush s)
    unfolding settle_merchant_day
    second_run env' s h = rw h

    -- A day is settled once: whatever a run has returned, another one, at any time, returns none and
    -- changes nothing.
    pub settle_merchant_day-once :
        (env' : Env) (r : Option SettlementBatch)
        → env'.tenant ≡ env.tenant
        → (settle_merchant_day env tenant merchant_id date d).0 ≡ ok r
        → settle_merchant_day env' tenant merchant_id date
            (settle_merchant_day env tenant merchant_id date d).1
          ≡ (ok none, (settle_merchant_day env tenant merchant_id date d).1)
    settle_merchant_day-once env' r same h =
        let (st, ran, returned) = ended r h in
        rw (ap (λ (p : Result (Option SettlementBatch) × Db). p.1) returned) (
          second_run env' (flush st) (again r st ran)
          ∙ ap (λ (s : Db). (ok none, s)) (flush-flush st))
      where
        again :
            (r : Option SettlementBatch) (st : Db)
            → settle_transactions env tenant merchant_id date
                (due env tenant merchant_id date d distinct)
                (load_merchant env tenant merchant_id d)
                d
              ≡ (ok r, st)
            → settle_transactions env' tenant merchant_id date
                (where_all (is_to_settle env' tenant merchant_id date) (flush st).transactions)
                (load_merchant env' tenant merchant_id (flush st))
                (flush st)
              ≡ (ok none, flush st)
        again none st ran =
            let (is_d, nothing) =
              nothing_again env' (due env tenant merchant_id date d distinct)
                (load_merchant env tenant merchant_id d) st (flush d) ran in
            rw (is_d, same_due env' d.transactions same, same_merchant env' (flush d) same)
              (unfold load_merchant in nothing)
        again (some batch) st ran =
            let s =
              settle_transactions-Settles env tenant merchant_id date d distinct
                (due env tenant merchant_id date d distinct)
                (load_merchant env tenant merchant_id d) batch st refl ran in
            rw
              (
                same_due env' st.transactions same,
                s.marked,
                none_left (env.draw d.draws) d.transactions,
              )
              (unfold settle_transactions in refl)
