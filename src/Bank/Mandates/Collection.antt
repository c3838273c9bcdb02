-- ===== src/Bank/Mandates/Collection.antt =====
-- A collection against a mandate (bank/mandates.py): what has been checked where it is accepted.
use mock_sim.Base.{
  ℕ, ◌≤◌, text_eq_iff, arith, ◌≡◌, refl, sym, ap, ◌∙◌, Bool, true, false, not, Option, none, some,
  [], ◌∷◌, ◌++◌, Text, text_eq, upper, first, any_row,
}
use mock_sim.Base.Int.{ℤ, ◌≤ℤ◌}
use mock_sim.Errors.{Error, python_error, not_found, mandate_not_found}
use mock_sim.Models.{
  Mandate, MandateStatus, active, suspended, expired, cancelled, accepted, PaymentInstruction,
  CollectMandateResponse,
}
use mock_sim.Session.{Env, Db, ok, or_raise, raise_if}
use mock_sim.Session.Rules.{
  >>=-eq-ok, >>=-eq-ok_reads, ReadsOnly-or_raise, ReadsOnly-raise_if, ReadsOnly-lift,
}
use mock_sim.Money.{minor_units}
use mock_sim.Scheduler.{schedule_at}
use mock_sim.Bank.Regions.{BankRegionConfig, get_region}
use mock_sim.Bank.Payments.{schedule_payment_processing, compute_fire_at}
use mock_sim.Bank.Initiation.{insert_instruction}
use mock_sim.Bank.Mandates.{
  CollectMandateRequest, is_mandate, is_active_mandate, has_expired, exceeds, refuse_expired,
  check_collection, new_collection, collect_mandate_handler,
}

raise_if-ok :
    (c : Bool) (e : Error) (d : Db) (u : Unit {0}) → raise_if c e d ≡ (ok u, d) → c ≡ false
raise_if-ok true e d u h = cc
raise_if-ok false e d u h = refl

raise_if-not-ok :
    (c : Bool) (e : Error) (d : Db) (u : Unit {0}) → raise_if (not c) e d ≡ (ok u, d) → c ≡ true
raise_if-not-ok true e d u h = refl
raise_if-not-ok false e d u h = cc

refuse_expired-ok :
    (env : Env) (tenant : ℕ) (id : Text) (b : Bool) (d s : Db)
    → refuse_expired env tenant id b d ≡ (ok tt, s)
    → (b ≡ false) × (s ≡ d)
unfolding refuse_expired
refuse_expired-ok env tenant id true d s h = cc
refuse_expired-ok env tenant id false d s h = (refl, ap (λ p. p.1) (sym h))

or_raise-ok :
    {A : Type 0} (o : Option A) (e : Error) (d : Db) (a : A)
    → or_raise o e d ≡ (ok a, d)
    → o ≡ some a
or_raise-ok none e d a h = cc
or_raise-ok (some b) e d a h = let same : ok b ≡ ok a = ap (λ p. p.0) h in ap some cc

insert-payments :
    (instr : PaymentInstruction) (d s : Db)
    → insert_instruction instr d ≡ (ok tt, s)
    → s.payments ≡ d.payments ++ instr ∷ []
unfolding insert_instruction
insert-payments instr d s h =
    let (_, _, rest) =
      >>=-eq-ok_reads (raise_if (any_row (λ p. text_eq p.id instr.id) d.payments) python_error) _ d
        tt s (ReadsOnly-raise_if (any_row (λ p. text_eq p.id instr.id) d.payments) python_error)
        h in
    ap (λ p. p.1.payments) (sym rest)

schedule-payments :
    (env : Env) (tenant : ℕ) (instr : PaymentInstruction) (cfg : BankRegionConfig) (d s : Db)
    → schedule_payment_processing env tenant instr cfg d ≡ (ok tt, s)
    → s.payments ≡ d.payments
unfolding schedule_payment_processing schedule_at
schedule-payments env tenant instr cfg d s h =
    let (_, _, rest) =
      >>=-eq-ok_reads (or_raise (compute_fire_at env.sim instr.rail cfg) python_error) _ d tt s
        (ReadsOnly-or_raise (compute_fire_at env.sim instr.rail cfg) python_error) h in
    ap (λ p. p.1.payments) (sym rest)

module _ (env : Env) (tenant : ℕ) (id : Text) (body : CollectMandateRequest) where
  -- What has been checked of a mandate and an amount.
  pub record Allows (mandate : Mandate) (units : ℤ) : Type 0 where
    pub in_force : mandate.status ≡ active
    pub in_time : (t : ℕ) → mandate.expires_at ≡ some t → env.wall ≤ t
    pub in_currency : upper body.amount.currency ≡ mandate.currency
    pub reads : minor_units body.amount ≡ ok units
    pub within : (limit : ℤ) → mandate.max_amount ≡ some limit → units ≤ℤ limit

  -- The payment of a collection: of the amount, in the mandate's currency, between the mandate's
  -- accounts, on a rail, accepted and not settled.
  pub record IsCollection (mandate : Mandate) (units : ℤ) (scheme : Text) (p : PaymentInstruction)
      : Type 0 where
    pub end_to_end_id : p.id ≡ body.end_to_end_id
    pub message : p.message_id ≡ body.message_id
    pub instruction : p.instruction_id ≡ body.instruction_id
    pub owner : p.mock_tenant_id ≡ tenant
    pub debtor : p.debtor_iban ≡ mandate.debtor_iban
    pub creditor : p.creditor_iban ≡ mandate.creditor_iban
    pub amount : p.amount ≡ units
    pub currency : p.currency ≡ mandate.currency
    pub rail : p.rail ≡ scheme
    pub status : p.status ≡ accepted
    pub unsettled : p.settled_at ≡ none

  not_expired :
      (expires_at : Option ℕ)
      → has_expired env.wall expires_at ≡ false
      → (t : ℕ) → expires_at ≡ some t
      → env.wall ≤ t
  not_expired none h t e = cc
  not_expired (some s) h t e = let same : s ≡ t = cc in rw (sym same) (ground arith)

  not_exceeded :
      (units : ℤ) (max_amount : Option ℤ)
      → exceeds units max_amount ≡ false
      → (limit : ℤ) → max_amount ≡ some limit
      → units ≤ℤ limit
  not_exceeded units none h limit e = cc
  not_exceeded units (some s) h limit e = let same : s ≡ limit = cc in rw (sym same) (ground arith)

  is_active_mandate-eq : (s : MandateStatus) → is_active_mandate s ≡ true → s ≡ active
  is_active_mandate-eq active h = refl
  is_active_mandate-eq suspended h = cc
  is_active_mandate-eq expired h = cc
  is_active_mandate-eq cancelled h = cc

  new_collection-IsCollection :
      (mandate : Mandate) (units : ℤ) (rail : Text)
      → upper body.amount.currency ≡ mandate.currency
      → IsCollection mandate units rail (new_collection env tenant body mandate rail units)
  unfolding new_collection
  new_collection-IsCollection mandate units rail in_currency = record {
    end_to_end_id = refl;
    message = refl;
    instruction = refl;
    owner = refl;
    debtor = refl;
    creditor = refl;
    amount = refl;
    currency = in_currency;
    rail = refl;
    status = refl;
    unsettled = refl;
  }

  check_collection-ok :
      (mandate : Mandate) (units : ℤ) (d s : Db)
      → check_collection env tenant id body mandate d ≡ (ok units, s)
      → (s ≡ d) × Allows mandate units
  unfolding check_collection
  check_collection-ok mandate units d s h =
      let (u1, e1, h1) =
        >>=-eq-ok_reads _ _ d units s
          (ReadsOnly-raise_if (not (is_active_mandate mandate.status)) _) h in
      let refused =
        >>=-eq-ok (refuse_expired env tenant id (has_expired env.wall mandate.expires_at)) _ d units
          s h1 in
      let (in_time, same) =
        refuse_expired-ok env tenant id (has_expired env.wall mandate.expires_at) d refused.state
          refused.head in
      let (u3, e3, h3) =
        >>=-eq-ok_reads _ _ refused.state units s
          (ReadsOnly-raise_if (not (text_eq (upper body.amount.currency) mandate.currency)) _)
          refused.rest in
      let (n, e4, h4) =
        >>=-eq-ok_reads _ _ refused.state units s (ReadsOnly-lift (minor_units body.amount)) h3 in
      let (u5, e5, h5) =
        >>=-eq-ok_reads _ _ refused.state units s
          (ReadsOnly-raise_if (exceeds n mandate.max_amount) _) h4 in
      let is_units : n ≡ units = inj n units (ap (λ p. p.0) h5) in
      (
        ap (λ p. p.1) (sym h5) ∙ same,
        record {
          in_force =
              is_active_mandate-eq mandate.status
                (raise_if-not-ok (is_active_mandate mandate.status) _ d u1 e1);
          in_time = not_expired mandate.expires_at in_time;
          in_currency = (text_eq_iff (upper body.amount.currency) mandate.currency).0 (
              raise_if-not-ok (text_eq (upper body.amount.currency) mandate.currency) _
                refused.state u3 e3);
          reads = ap (λ p. p.0) e4 ∙ ap ok is_units;
          within = not_exceeded units mandate.max_amount (
              ap (λ m. exceeds m mandate.max_amount) (sym is_units)
              ∙ raise_if-ok (exceeds n mandate.max_amount) _ refused.state u5 e5);
        },
      )
    where
      inj : (a b : ℤ) → ok a ≡ ok b → a ≡ b
      inj a b e = cc

  -- A collection that returns has found a mandate that is active, not expired, of the amount's
  -- currency and with a limit, if any, that covers the amount; it adds one payment, which is accepted
  -- and not settled, has the request's ids, and is of the amount, from the mandate's debtor to its
  -- creditor, on the direct debit rail of the mandate's region.
  pub collect_mandate_handler-ok :
      (d s : Db) (resp : CollectMandateResponse)
      → collect_mandate_handler env tenant id body d ≡ (ok resp, s)
      → (mandate : Mandate) × (units : ℤ) × (cfg : BankRegionConfig) × (p : PaymentInstruction)
        × (first (is_mandate env tenant id) d.mandates ≡ some mandate)
        × Allows mandate units
        × (get_region mandate.region ≡ ok cfg)
        × IsCollection mandate units cfg.dd_scheme p
        × (s.payments ≡ d.payments ++ p ∷ [])
  unfolding collect_mandate_handler
  collect_mandate_handler-ok d s resp h =
      let found = first (is_mandate env tenant id) d.mandates in
      let (mandate, e1, h1) =
        >>=-eq-ok_reads (or_raise found (not_found mandate_not_found)) _ d resp s
          (ReadsOnly-or_raise found (not_found mandate_not_found)) h in
      let checked = >>=-eq-ok (check_collection env tenant id body mandate) _ d resp s h1 in
      let (same, allows) = check_collection-ok mandate checked.value d checked.state checked.head in
      let (cfg, e3, h3) =
        >>=-eq-ok_reads _ _ checked.state resp s (ReadsOnly-lift (get_region mandate.region))
          checked.rest in
      let instr = new_collection env tenant body mandate cfg.dd_scheme checked.value in
      let inserted = >>=-eq-ok (insert_instruction instr) _ checked.state resp s h3 in
      let scheduled =
        >>=-eq-ok (schedule_payment_processing env tenant instr cfg) _ inserted.state resp s
          inserted.rest in
      (
        mandate,
        checked.value,
        cfg,
        instr,
        or_raise-ok found (not_found mandate_not_found) d mandate e1,
        allows,
        ap (λ p. p.0) e3,
        new_collection-IsCollection mandate checked.value cfg.dd_scheme allows.in_currency,
        ap (λ p. p.1.payments) (sym scheduled.rest)
            ∙ schedule-payments env tenant instr cfg inserted.state scheduled.state scheduled.head
            ∙ insert-payments instr checked.state inserted.state inserted.head
            ∙ ap (λ (t : Db). t.payments ++ instr ∷ []) same,
      )
