-- ===== src/Pos/Settlement/Chain.antt =====
-- A settlement of one merchant's day (pos/settlement.py) in a chain of them: which transactions are left
-- to be settled on which date.
use mock_sim.Base.{
  ℕ, ◌≡◌, refl, sym, ◌∙◌, inl, inr, Bool, true, false, Option, none, some, List, [], ◌∷◌, ◌&&◌,
  ◌||◌, Text, where_all, ◌==◌, if◌then◌else◌, Bool-cases, ==_iff, arith,
}
use mock_sim.Base.Keys.{HasDistinctKeys, count_key}
use mock_sim.Models.{Merchant, PosTransaction, SettlementBatch}
use mock_sim.Session.{Env, Db, Result, ok, err, flush, close_session}
use mock_sim.Calendar.{Date}
use mock_sim.Pos.Settlement.{
  is_to_settle, is_date, load_merchant, settle_batch, settle_transactions, settle_merchant_day,
}
use mock_sim.Pos.Settlement.Totals.{
  into_batch, due, settle_batch_lem, settle_batch-transactions, settle_batch-merchants,
}
use mock_sim.Pos.Settlement.Batches.{is_to_settle-marked, none_left}

module _ (env : Env) (tenant : ℕ) (merchant_id : Text) where
  abbrev pub to_settle : Date → Db → List PosTransaction
  to_settle date d = where_all (is_to_settle env tenant merchant_id date) d.transactions

  date_other :
      (date e : Date) (o : Option Date)
      → is_date date o ≡ true
      → (e == date) ≡ false
      → is_date e o ≡ false
  date_other date e none h n = refl
  date_other date e (some x) h n = ground arith

  and_other :
      (a b b' c : Bool)
      → (a && (b && c)) ≡ true
      → (b ≡ true → b' ≡ false)
      → (a && (b' && c)) ≡ false
  and_other a b b' c h k = ground (arith, k)

  -- A transaction is due on one date only.
  is_to_settle-other :
      (date e : Date) (t : PosTransaction)
      → is_to_settle env tenant merchant_id date t ≡ true
      → (e == date) ≡ false
      → is_to_settle env tenant merchant_id e t ≡ false
  unfolding is_to_settle
  is_to_settle-other date e t h n =
      and_other _ (is_date date t.expected_settlement_date) (is_date e t.expected_settlement_date) _
        h (λ due. date_other date e t.expected_settlement_date due n)

  -- A settlement of one date leaves the transactions of the others.
  others_left :
      (date e : Date) (id : ℕ) (rows : List PosTransaction)
      → (e == date) ≡ false
      → where_all
          (is_to_settle env tenant merchant_id e)
          (into_batch env tenant merchant_id date id rows)
        ≡ where_all (is_to_settle env tenant merchant_id e) rows
  others_left date e id [] n = refl
  others_left date e id (t ∷ rows) n =
      elim (Bool-cases (is_to_settle env tenant merchant_id date t)) [
        | inl due ↦
            rw
              (
                due,
                is_to_settle-marked env tenant merchant_id e id t,
                is_to_settle-other date e t due n,
              )
              (others_left date e id rows n)
        | inr other ↦ rw (other, others_left date e id rows n)
      ]

  ids_kept :
      (date : Date) (id k : ℕ) (rows : List PosTransaction)
      → count_key (λ t. t.id) k (into_batch env tenant merchant_id date id rows)
        ≡ count_key (λ t. t.id) k rows
  ids_kept date id k [] = refl
  ids_kept date id k (t ∷ rows) = elim (Bool-cases (is_to_settle env tenant merchant_id date t)) [
    | inl due ↦ rw (due, ids_kept date id k rows)
    | inr other ↦ rw (other, ids_kept date id k rows)
  ]

  -- The state after the dates that `done` names have been settled.
  pub record IsSettled (done : Date → Bool) (merchant : Merchant) (d d' : Db) : Type 0 where
    pub distinct : HasDistinctKeys (λ t. t.id) d'.transactions
    pub loaded : load_merchant env tenant merchant_id d' ≡ some merchant
    pub rows : (e : Date) → to_settle e d' ≡ (if done e then [] else to_settle e d)

  same_loaded :
      (merchant : Merchant) (d d' : Db)
      → d'.merchants ≡ d.merchants
      → load_merchant env tenant merchant_id d ≡ some merchant
      → load_merchant env tenant merchant_id d' ≡ some merchant
  unfolding load_merchant
  same_loaded merchant d d' same h = rw same h

  module _ (merchant : Merchant) (date : Date) (d : Db)
      (distinct : HasDistinctKeys (λ t. t.id) d.transactions)
      (loaded : load_merchant env tenant merchant_id d ≡ some merchant) where
    day_rows :
        (e : Date) (rows : List PosTransaction)
        → rows ≡ into_batch env tenant merchant_id date (env.draw d.draws) d.transactions
        → where_all (is_to_settle env tenant merchant_id e) rows
          ≡ (if e == date then [] else to_settle e d)
    day_rows e rows h = elim (Bool-cases (e == date)) [
      | inl same ↦
          rw (h, same, (==_iff e date).0 same)
            (none_left env tenant merchant_id date (env.draw d.draws) d.transactions)
      | inr other ↦ rw (h, other) (others_left date e (env.draw d.draws) d.transactions other)
    ]

    empty_day :
        (e : Date)
        → to_settle date d ≡ []
        → to_settle e d ≡ (if e == date then [] else to_settle e d)
    empty_day e none_due = elim (Bool-cases (e == date)) [
      | inl same ↦ rw (same, (==_iff e date).0 same) none_due
      | inr other ↦ rw other
    ]

    transactions-IsSettled :
        (txns : List PosTransaction)
        → due env tenant merchant_id date d distinct ≡ txns
        → (r : Option SettlementBatch) × ((settle_transactions env tenant merchant_id date txns
              (some merchant)
              d).0
            ≡ ok r)
          × IsSettled
              (λ e. e == date)
              merchant
              d
              (flush (settle_transactions env tenant merchant_id date txns (some merchant) d).1)
    unfolding settle_transactions
    transactions-IsSettled [] none_due = (
      none,
      refl,
      record {
        distinct = distinct;
        loaded = same_loaded merchant d (flush d) refl loaded;
        rows = λ e. empty_day e none_due;
      },
    )
    transactions-IsSettled (t ∷ ts) is_due =
        let d' = (settle_batch env tenant merchant_id date t ts merchant d).1 in
        let marked =
          settle_batch-transactions env tenant merchant_id date d distinct t ts merchant is_due in
        (
          some _,
          settle_batch_lem env tenant merchant_id date d distinct t ts merchant,
          record {
            distinct =
                λ k. rw (marked, ids_kept date (env.draw d.draws) k d.transactions) (distinct k);
            loaded =
                same_loaded merchant d (flush d')
                  (settle_batch-merchants env tenant merchant_id date d distinct t ts merchant)
                  loaded;
            rows = λ e. day_rows e (flush d').transactions marked;
          },
        )

    pub settle_merchant_day-IsSettled :
        (r : Option SettlementBatch) × ((settle_merchant_day env tenant merchant_id date d).0
          ≡ ok r)
        × IsSettled
            (λ e. e == date)
            merchant
            d
            (settle_merchant_day env tenant merchant_id date d).1
    unfolding settle_merchant_day
    settle_merchant_day-IsSettled =
        let (r, ended, settled) =
          transactions-IsSettled (due env tenant merchant_id date d distinct) refl in
        let whole = closed _ _ r ended settled in rw loaded (r, whole.0, whole.1)
      where
        closed :
            (res : Result (Option SettlementBatch)) (s : Db) (r : Option SettlementBatch)
            → res ≡ ok r
            → IsSettled (λ e. e == date) merchant d (flush s)
            → ((close_session res d s).0 ≡ ok r)
              × IsSettled (λ e. e == date) merchant d (close_session res d s).1
        closed (ok a) s r h k = (h, k)
        closed (err e) s r h k = cc

  module _ (merchant : Merchant) (d : Db) where
    pub IsSettled-none :
        (p : Date → Bool)
        → HasDistinctKeys (λ t. t.id) d.transactions
        → load_merchant env tenant merchant_id d ≡ some merchant
        → ((e : Date) → p e ≡ false)
        → IsSettled p merchant d d
    IsSettled-none p distinct loaded h = record {
      distinct = distinct;
      loaded = loaded;
      rows = λ e. rw (h e);
    }

    pub IsSettled-same :
        (p q : Date → Bool) (d' : Db)
        → ((e : Date) → p e ≡ q e)
        → IsSettled p merchant d d'
        → IsSettled q merchant d d'
    IsSettled-same p q d' h s = record {
      distinct = s.distinct;
      loaded = s.loaded;
      rows = λ e. rw (sym (h e)) (s.rows e);
    }

    pub IsSettled-then :
        (p q : Date → Bool) (d1 d2 : Db)
        → IsSettled p merchant d d1
        → IsSettled q merchant d1 d2
        → IsSettled (λ e. q e || p e) merchant d d2
    IsSettled-then p q d1 d2 s u = record {
      distinct = u.distinct;
      loaded = u.loaded;
      rows = λ e. u.rows e ∙ either (q e) (p e) (to_settle e d) (to_settle e d1) (s.rows e);
    }
      where
        either :
            (a b : Bool) (rows rows' : List PosTransaction)
            → rows' ≡ (if b then [] else rows)
            → (if a then [] else rows') ≡ (if a || b then [] else rows)
        either true b rows rows' h = refl
        either false b rows rows' h = h
