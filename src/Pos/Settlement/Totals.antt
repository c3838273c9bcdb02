-- ===== src/Pos/Settlement/Totals.antt =====
-- A settlement (pos/settlement.py) against the transactions of its batch.
use mock_sim.Base.{
  ℕ, suc, ◌≡◌, refl, sym, ap, subst, ◌∙◌, inl, inr, Bool, false, Option, none, some, List, [], ◌∷◌,
  map, Text, length, where_all, update_where, ◌==◌, if◌then◌else◌, Bool-cases, Option-cases, codes,
}
use mock_sim.Base.Int.{sum_ℤ}
use mock_sim.Base.Keys.{HasDistinctKeys, update_where-chosen, shares_key}
use mock_sim.Models.{
  MockTenant, Merchant, PosTransaction, SettlementBatch, WebhookSubscription, Payload,
}
use mock_sim.Session.{Env, Db, ok}
use mock_sim.Calendar.{Date}
use mock_sim.Outbox.{enqueue}
use mock_sim.Pos.Settlement.{
  is_to_settle, new_batch, mark_settled, enqueue_settled, enqueue_all_settled, announce_batch,
  write_batch, settle_batch, settle_transactions,
}
use mock_sim.Pos.Messages.{
  load_subscriptions, load_tenant, build_settlement_payload, settlement_payload, should_deliver,
  is_trazmo, trazmo_payload, present, partner_code_of,
}

-- The transactions of a batch, and what they come to.
abbrev pub is_in_batch : ℕ → PosTransaction → Bool
is_in_batch id t = elim t.settlement_batch_id [ none ↦ false | some b ↦ b == id ]

pub record IsTotal (batch : SettlementBatch) (txns : List PosTransaction) : Type 0 where
  pub txn_count : batch.txn_count ≡ length txns
  pub gross_amount : batch.gross_amount ≡ sum_ℤ (map (λ t. t.amount) txns)
  pub total_mdr : batch.total_mdr ≡ sum_ℤ (map (λ t. t.mdr) txns)
  pub total_vat : batch.total_vat ≡ sum_ℤ (map (λ t. t.vat_on_mdr) txns)
  pub net_amount : batch.net_amount ≡ sum_ℤ (map (λ t. t.net_settlement) txns)

-- The transactions, the merchants and the jobs are as they were.
abbrev pub LeavesShop : Db → Db → Type 0
LeavesShop d d' =
    (d'.transactions ≡ d.transactions) × (d'.merchants ≡ d.merchants) × (d'.jobs ≡ d.jobs)

module _ (env : Env) (tenant : ℕ) (tenant_row : Option MockTenant) (merchant : Merchant)
    (batch : SettlementBatch) (native : Payload) where
  enqueue_settled_lem :
      (sub : WebhookSubscription) (d : Db)
      → ((enqueue_settled env tenant tenant_row merchant batch native sub d).0 ≡ ok tt)
        × LeavesShop d (enqueue_settled env tenant tenant_row merchant batch native sub d).1
  unfolding enqueue_settled enqueue
  enqueue_settled_lem sub d = elim (Bool-cases (should_deliver sub (codes "pos.batch.settled"))) [
    | inr other ↦ rw other (refl, (refl, refl, refl))
    | inl wanted ↦ elim (Bool-cases (is_trazmo sub.format)) [
      | inr native_format ↦ rw (wanted, native_format) (refl, (refl, refl, refl))
      | inl trazmo ↦
          elim (Option-cases (
            trazmo_payload (present merchant.acquirer_merchant_id) (partner_code_of tenant_row)
              batch)) [
                | inl unmapped ↦ rw (wanted, trazmo, unmapped) (refl, (refl, refl, refl))
                | inr (payload, mapped) ↦ rw (wanted, trazmo, mapped) (refl, (refl, refl, refl))
              ]
    ]
  ]

  enqueue_all_settled_lem :
      (subs : List WebhookSubscription) (d : Db)
      → ((enqueue_all_settled env tenant tenant_row merchant batch native subs d).0 ≡ ok tt)
        × LeavesShop d (enqueue_all_settled env tenant tenant_row merchant batch native subs d).1
  unfolding enqueue_all_settled
  enqueue_all_settled_lem [] d = (refl, (refl, refl, refl))
  enqueue_all_settled_lem (sub ∷ subs) d =
      let one = enqueue_settled_lem sub d in
      let rest =
        enqueue_all_settled_lem subs
          (enqueue_settled env tenant tenant_row merchant batch native sub d).1 in
      rw one.0 (rest.0, (rest.1.0 ∙ one.1.0, rest.1.1 ∙ one.1.1, rest.1.2 ∙ one.1.2))

pub announce_batch_lem :
    (env : Env) (tenant : ℕ) (subs : List WebhookSubscription) (tenant_row : Option MockTenant)
    (merchant : Merchant) (batch : SettlementBatch) (d : Db)
    → ((announce_batch env tenant subs tenant_row merchant batch d).0 ≡ ok (some batch))
      × LeavesShop d (announce_batch env tenant subs tenant_row merchant batch d).1
unfolding announce_batch build_settlement_payload
announce_batch_lem env tenant subs tenant_row merchant batch d =
    let all =
      enqueue_all_settled_lem env tenant tenant_row merchant batch
        (settlement_payload (env.draw d.draws) batch merchant) subs
        (record d { draws = suc d.draws }) in
    rw all.0 (refl, all.1)

-- The transactions after a settlement into the batch.
abbrev pub into_batch : Env → ℕ → Text → Date → ℕ → List PosTransaction → List PosTransaction
into_batch env tenant merchant_id date id =
    map (λ t. if is_to_settle env tenant merchant_id date t then mark_settled id t else t)

module _ (env : Env) (tenant : ℕ) (merchant_id : Text) (date : Date) (d : Db)
    (distinct : HasDistinctKeys (λ t. t.id) d.transactions) where
  abbrev pub due : List PosTransaction
  due = where_all (is_to_settle env tenant merchant_id date) d.transactions

  pub settle_batch_lem :
      (t : PosTransaction) (ts : List PosTransaction) (merchant : Merchant)
      → (settle_batch env tenant merchant_id date t ts merchant d).0
        ≡ ok (
            some (
              new_batch env
                (env.draw d.draws)
                tenant
                merchant_id
                date
                merchant
                t.currency
                (t ∷ ts)))
  unfolding settle_batch write_batch
  settle_batch_lem t ts merchant =
      (announce_batch_lem env tenant (load_subscriptions env tenant d)
        (load_tenant tenant (load_subscriptions env tenant d) d) merchant _ _).0

  pub settle_batch-merchants :
      (t : PosTransaction) (ts : List PosTransaction) (merchant : Merchant)
      → (settle_batch env tenant merchant_id date t ts merchant d).1.merchants ≡ d.merchants
  unfolding settle_batch write_batch
  settle_batch-merchants t ts merchant =
      (announce_batch_lem env tenant (load_subscriptions env tenant d)
        (load_tenant tenant (load_subscriptions env tenant d) d) merchant _ _).1.1

  pub settle_batch-transactions :
      (t : PosTransaction) (ts : List PosTransaction) (merchant : Merchant)
      → due ≡ t ∷ ts
      → (settle_batch env tenant merchant_id date t ts merchant d).1.transactions
        ≡ into_batch env tenant merchant_id date (env.draw d.draws) d.transactions
  unfolding settle_batch write_batch new_batch
  settle_batch-transactions t ts merchant e =
      (announce_batch_lem env tenant (load_subscriptions env tenant d)
        (load_tenant tenant (load_subscriptions env tenant d) d) merchant _ _).1.0
      ∙ (ap
            (λ (rows : List PosTransaction).
              update_where (shares_key (λ x. x.id) rows) (mark_settled (env.draw d.draws))
                d.transactions)
            (sym e)
          ∙ update_where-chosen (λ x. x.id) (is_to_settle env tenant merchant_id date)
              (mark_settled (env.draw d.draws)) d.transactions distinct)

  -- What a run has done: nothing, or a batch for the transactions that are due.
  pub record Settles (batch : SettlementBatch) (d' : Db) : Type 0 where
    pub id : batch.id ≡ env.draw d.draws
    pub total : IsTotal batch due
    pub marked :
        d'.transactions ≡ into_batch env tenant merchant_id date (env.draw d.draws) d.transactions

  pub settle_transactions-Settles :
      (txns : List PosTransaction) (merchant : Option Merchant) (batch : SettlementBatch) (d' : Db)
      → due ≡ txns
      → settle_transactions env tenant merchant_id date txns merchant d ≡ (ok (some batch), d')
      → Settles batch d'
  unfolding settle_transactions
  settle_transactions-Settles [] merchant batch d' e h = cc
  settle_transactions-Settles (t ∷ ts) none batch d' e h = cc
  settle_transactions-Settles (t ∷ ts) (some merchant) batch d' e h =
      let made =
        new_batch env (env.draw d.draws) tenant merchant_id date merchant t.currency (t ∷ ts) in
      let same : ok (some made) ≡ ok (some batch) =
        sym (settle_batch_lem t ts merchant) ∙ ap (λ p. p.0) h in
      let is_batch : made ≡ batch = cc in
      subst (λ b. Settles b d') is_batch
        (record {
          id = unfold new_batch in refl;
          total = rw e (
              unfold new_batch in
              record {
                txn_count = refl;
                gross_amount = refl;
                total_mdr = refl;
                total_vat = refl;
                net_amount = refl;
              });
          marked = ap (λ p. p.1.transactions) (sym h) ∙ settle_batch-transactions t ts merchant e;
        })
