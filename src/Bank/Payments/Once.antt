-- ===== src/Bank/Payments/Once.antt =====
-- A payment is processed once (bank/payments.py): what a run that has settled or rejected it leaves for
-- the next one.
use mock_sim.Base.{
  ℕ, ◌≡◌, refl, sym, ap, ◌∙◌, inl, inr, Bool, true, Option, none, some, List, [], ◌∷◌, Text,
  text_eq, text_eq_refl, first, update_where, Bool-cases, Option-cases,
}
use mock_sim.Models.{
  PaymentInstruction, PaymentStatus, pending, accepted, settled, rejected, WebhookSubscription,
}
use mock_sim.Session.{Env, Db, Result, ok, flush, visible}
use mock_sim.Session.Rules.{>>=-eq-ok, >>=-eq-ok_reads, ReadsOnly-lift, transaction-ok, flush-flush}
use mock_sim.Money.{from_minor}
use mock_sim.Bank.Payments.{
  is_instruction, load_instruction, mark_settled, mark_rejected, book_payment, settle_payment,
  conclude_payment, decide_payment, run_payment, process_payment, check_debtor, PaymentResult,
  missing, terminal, was_rejected, was_settled,
}
use mock_sim.Bank.Messages.{load_subscriptions}
use mock_sim.Bank.Payments.Results.{announce_settlement-Yields, reject_payment-Yields}
use mock_sim.Bank.Payments.Instructions.{
  updated, book_payment-Has, announce_settlement-payments, reject_payment-payments,
}

-- What a run that decides writes into its instruction.
abbrev pub decided : ℕ → PaymentResult → Option (PaymentInstruction → PaymentInstruction)
decided now was_settled = some (mark_settled now)
decided now (was_rejected reason) = some (mark_rejected reason)
decided now missing = none
decided now (terminal s) = none

module _ (env : Env) (tenant : ℕ) (instr : PaymentInstruction) where
  conclude_payment-payments :
      (subs : List WebhookSubscription) (reason : Option Text) (d d' : Db) (x : PaymentResult)
      → conclude_payment env tenant subs instr reason d ≡ (ok x, d')
      → (f : PaymentInstruction → PaymentInstruction) × (decided env.wall x ≡ some f)
        × (d'.payments ≡ updated instr.id f d.payments)
  unfolding conclude_payment settle_payment
  conclude_payment-payments subs (some reason) d d' x h =
      let is_x : ok x ≡ ok (was_rejected reason) =
        ap (λ p. p.0) (sym h) ∙ (reject_payment-Yields env tenant subs instr reason).at d in
      let x≡rejected : x ≡ was_rejected reason = cc in
      (
        mark_rejected reason,
        ap (decided env.wall) x≡rejected,
        ap (λ p. p.1.payments) (sym h) ∙ reject_payment-payments env tenant subs instr d reason,
      )
  conclude_payment-payments subs none d d' x h =
      let (amount, _, h1) =
        >>=-eq-ok_reads _ _ d x d' (ReadsOnly-lift (from_minor instr.amount instr.currency)) h in
      let book = >>=-eq-ok (book_payment env instr amount) _ d x d' h1 in
      let is_x : ok x ≡ ok was_settled =
        ap (λ p. p.0) (sym book.rest)
        ∙ (announce_settlement-Yields env tenant subs instr book.value).at book.state in
      let x≡settled : x ≡ was_settled = cc in
      let before : book.state.payments ≡ d.payments =
        ap (λ p. p.1.payments) (sym book.head)
        ∙ (book_payment-Has d.payments env instr amount).at d refl in
      (
        mark_settled env.wall,
        ap (decided env.wall) x≡settled,
        ap (λ p. p.1.payments) (sym book.rest)
            ∙ announce_settlement-payments env tenant subs instr book.state book.value
            ∙ ap (λ ps. updated instr.id (mark_settled env.wall) ps) before,
      )

  run_payment-payments :
      (status : PaymentStatus) (d d' : Db) (x : PaymentResult)
      (f : PaymentInstruction → PaymentInstruction)
      → instr.status ≡ status
      → run_payment env tenant (some instr) d ≡ (ok x, d')
      → decided env.wall x ≡ some f
      → d'.payments ≡ updated instr.id f d.payments
  unfolding run_payment decide_payment
  run_payment-payments pending d d' x f e h k =
      let (g, is_g, at) =
        conclude_payment-payments (load_subscriptions env tenant d) (check_debtor env instr d) d d'
          x (rw e at h) in
      let same : some g ≡ some f = sym is_g ∙ k in
      let g≡f : g ≡ f = cc in at ∙ ap (λ u. updated instr.id u d.payments) g≡f
  run_payment-payments accepted d d' x f e h k =
      let (g, is_g, at) =
        conclude_payment-payments (load_subscriptions env tenant d) (check_debtor env instr d) d d'
          x (rw e at h) in
      let same : some g ≡ some f = sym is_g ∙ k in
      let g≡f : g ≡ f = cc in at ∙ ap (λ u. updated instr.id u d.payments) g≡f
  run_payment-payments settled d d' x f e h k =
      let is_x : ok (terminal settled) ≡ ok x = ap (λ p. p.0) (rw e at h) in
      let same : terminal settled ≡ x = cc in cc (rw (sym same) at k)
  run_payment-payments rejected d d' x f e h k =
      let is_x : ok (terminal rejected) ≡ ok x = ap (λ p. p.0) (rw e at h) in
      let same : terminal rejected ≡ x = cc in cc (rw (sym same) at k)

-- The status of an instruction that a run has decided.
abbrev pub final : PaymentResult → Option PaymentStatus
final was_settled = some settled
final (was_rejected reason) = some rejected
final missing = none
final (terminal s) = none

-- The decision as an update of rows: it sets the status, and the row is still found.
record Decides (env : Env) (tenant : ℕ) (id : Text) (now : ℕ) (x : PaymentResult)
    (s : PaymentStatus) : Type 0 where
  update : PaymentInstruction → PaymentInstruction
  is_update : decided now x ≡ some update
  sets : (p : PaymentInstruction) → (update p).status ≡ s
  finds :
      (p : PaymentInstruction)
      → is_instruction env tenant id (update p) ≡ is_instruction env tenant id p

final-Decides :
    (env : Env) (tenant : ℕ) (id : Text) (now : ℕ) (x : PaymentResult) (s : PaymentStatus)
    → final x ≡ some s
    → Decides env tenant id now x s
unfolding is_instruction
final-Decides env tenant id now was_settled s e =
    let same : settled ≡ s = cc in
    record { update = mark_settled now; is_update = refl; sets = λ p. same; finds = λ p. refl }
final-Decides env tenant id now (was_rejected reason) s e =
    let same : rejected ≡ s = cc in
    record { update = mark_rejected reason; is_update = refl; sets = λ p. same; finds = λ p. refl }
final-Decides env tenant id now missing s e = cc
final-Decides env tenant id now (terminal t) s e = cc

pub first-updated :
    (p q : PaymentInstruction → Bool) (f : PaymentInstruction → PaymentInstruction)
    (rows : List PaymentInstruction) (r : PaymentInstruction)
    → ((x : PaymentInstruction) → p (f x) ≡ p x)
    → first p rows ≡ some r
    → q r ≡ true
    → first p (update_where q f rows) ≡ some (f r)
first-updated p q f [] r h e t = cc
first-updated p q f (x ∷ rows) r h e t = elim (Bool-cases (p x)) [
  | inl passes ↦
      let same : some x ≡ some r = rw passes at e in
      let x≡r : x ≡ r = cc in
      rw (ap q x≡r ∙ t, h x, passes) (ap (λ (y : PaymentInstruction). some (f y)) x≡r)
  | inr fails ↦ elim (Bool-cases (q x)) [
    | inl updates ↦ rw (updates, h x, fails) (first-updated p q f rows r h (rw fails at e) t)
    | inr keeps ↦ rw (keeps, fails) (first-updated p q f rows r h (rw fails at e) t)
  ]
]

same_tenant :
    (env env' : Env) (tenant : ℕ) (id : Text) (d : Db)
    → env'.tenant ≡ env.tenant
    → load_instruction env' tenant id d ≡ load_instruction env tenant id d
unfolding load_instruction is_instruction visible
same_tenant env env' tenant id d e = rw e

-- A run on an instruction with a final status returns it and writes nothing.
on_final :
    (env : Env) (tenant : ℕ) (id : Text) (d : Db) (instr : PaymentInstruction) (x : PaymentResult)
    (s : PaymentStatus)
    → load_instruction env tenant id d ≡ some instr
    → instr.status ≡ s
    → final x ≡ some s
    → process_payment env tenant id d ≡ (ok (terminal s), flush d)
unfolding process_payment run_payment
on_final env tenant id d instr was_settled s found e f =
    let same : settled ≡ s = cc in
    let status : instr.status ≡ settled = e ∙ sym same in rw (found, status, sym same)
on_final env tenant id d instr (was_rejected reason) s found e f =
    let same : rejected ≡ s = cc in
    let status : instr.status ≡ rejected = e ∙ sym same in rw (found, status, sym same)
on_final env tenant id d instr missing s found e f = cc
on_final env tenant id d instr (terminal t) s found e f = cc

module _ (env env' : Env) (tenant : ℕ) (id : Text) (d : Db) (x : PaymentResult) (s : PaymentStatus)
    (same : env'.tenant ≡ env.tenant) (f : final x ≡ some s) where
  reloaded :
      (instr : PaymentInstruction) (st : Db)
      → load_instruction env tenant id d ≡ some instr
      → run_payment env tenant (some instr) d ≡ (ok x, st)
      → process_payment env' tenant id (flush st) ≡ (ok (terminal s), flush st)
  reloaded instr st found h =
      let u = final-Decides env tenant id env.wall x s f in
      let rows : st.payments ≡ updated instr.id u.update d.payments =
        run_payment-payments env tenant instr instr.status d st x u.update refl h u.is_update in
      let again : load_instruction env' tenant id (flush st) ≡ some (u.update instr) =
        same_tenant env env' tenant id (flush st) same
        ∙ (unfold load_instruction in
            ap (first (is_instruction env tenant id)) rows
            ∙ first-updated (is_instruction env tenant id) (λ p. text_eq p.id instr.id) u.update
                d.payments instr u.finds found (text_eq_refl instr.id)) in
      on_final env' tenant id (flush st) (u.update instr) x s again (u.sets instr) f
      ∙ ap (λ (t : Db). (ok (terminal s), t)) (flush-flush st)

  -- A payment is processed once: after a run that has settled or rejected it, another run, at any
  -- time, returns the final status and changes nothing.
  pub process_payment-once :
      (process_payment env tenant id d).0 ≡ ok x
      → process_payment env' tenant id (process_payment env tenant id d).1
        ≡ (ok (terminal s), (process_payment env tenant id d).1)
  process_payment-once e =
      let (st, ran, returned) = ended in
      rw (ap (λ (p : Result PaymentResult × Db). p.1) returned)
        (elim (Option-cases (load_instruction env tenant id d)) [
          | inl none_found ↦
              let is_x : ok missing ≡ ok x =
                unfold run_payment in ap (λ p. p.0) (rw none_found at ran) in
              let x≡missing : missing ≡ x = cc in cc (rw (sym x≡missing) at f)
          | inr (instr, found) ↦ reloaded instr st found (rw found at ran)
        ])
    where
      ended :
          (st : Db) × (run_payment env tenant (load_instruction env tenant id d) d ≡ (ok x, st))
          × (process_payment env tenant id d ≡ (ok x, flush st))
      ended =
          unfold process_payment in
          transaction-ok (run_payment env tenant (load_instruction env tenant id d)) d x e
