-- ===== src/Bank/Initiation/Replay.antt =====
-- What a payment that is accepted (bank/api.py) leaves in the idempotency store.
use mock_sim.Base.{ℕ, ◌≡◌, sym, ap, ◌∙◌, ◌&&◌, not, [], ◌++◌, Text, text_eq, update_where, any_row}
use mock_sim.Errors.{python_error}
use mock_sim.Models.{PaymentInstruction, PaymentInitiateResponse, payment_body}
use mock_sim.Session.{Env, Db, ok, or_raise, raise_if}
use mock_sim.Session.Rules.{
  >>=-eq-ok, >>=-eq-ok_reads, ReadsOnly-or_raise, ReadsOnly-raise_if, ReadsOnly-lift,
}
use mock_sim.Money.{minor_units}
use mock_sim.Accounts.{select_account}
use mock_sim.Idempotency.{is_record, completed, complete_record}
use mock_sim.Idempotency.Replay.{Stores}
use mock_sim.Scheduler.{schedule_at}
use mock_sim.Bank.Regions.{BankRegionConfig, get_region}
use mock_sim.Bank.Payments.{schedule_payment_processing, compute_fire_at}
use mock_sim.Bank.Initiation.{
  PaymentInitiateRequest, as_payment, accepted_response, new_instruction, insert_instruction,
  start_payment,
}

-- An insert that has returned has flushed.
insert_instruction-ok :
    (instr : PaymentInstruction) (d s : Db)
    → insert_instruction instr d ≡ (ok tt, s)
    → (s.idempotency ≡ d.idempotency ++ d.unflushed) × (s.unflushed ≡ [])
unfolding insert_instruction
insert_instruction-ok instr d s h =
    let (_, _, rest) =
      >>=-eq-ok_reads (raise_if (any_row (λ p. text_eq p.id instr.id) d.payments) python_error) _ d
        tt s (ReadsOnly-raise_if (any_row (λ p. text_eq p.id instr.id) d.payments) python_error)
        h in
    (ap (λ p. p.1.idempotency) (sym rest), ap (λ p. p.1.unflushed) (sym rest))

schedule-ok :
    (env : Env) (tenant : ℕ) (instr : PaymentInstruction) (cfg : BankRegionConfig) (d s : Db)
    → schedule_payment_processing env tenant instr cfg d ≡ (ok tt, s)
    → (s.idempotency ≡ d.idempotency) × (s.unflushed ≡ d.unflushed)
unfolding schedule_payment_processing schedule_at
schedule-ok env tenant instr cfg d s h =
    let (_, _, rest) =
      >>=-eq-ok_reads (or_raise (compute_fire_at env.sim instr.rail cfg) python_error) _ d tt s
        (ReadsOnly-or_raise (compute_fire_at env.sim instr.rail cfg) python_error) h in
    (ap (λ p. p.1.idempotency) (sym rest), ap (λ p. p.1.unflushed) (sym rest))

pub start_payment-Stores :
    (env : Env) (key : Text) (body : PaymentInitiateRequest) (message : Text) (tenant : ℕ)
    (resp : PaymentInitiateResponse) (d s : Db)
    → start_payment env key body message tenant d ≡ (ok resp, s)
    → Stores env tenant key as_payment resp d s
unfolding start_payment complete_record
start_payment-Stores env key body message tenant resp d s h =
    let (debtor, _, h1) =
      >>=-eq-ok_reads _ _ d resp s (ReadsOnly-or_raise (select_account env body.debtor_iban d) _)
        h in
    let (_, _, h2) =
      >>=-eq-ok_reads _ _ d resp s
        (ReadsOnly-raise_if (body.sharia_compliant && not debtor.sharia_flag) _) h1 in
    let (units, _, h3) =
      >>=-eq-ok_reads _ _ d resp s (ReadsOnly-lift (minor_units body.amount)) h2 in
    let instr = new_instruction env tenant body units in
    let inserted = >>=-eq-ok (insert_instruction instr) _ d resp s h3 in
    let (cfg, _, h4) =
      >>=-eq-ok_reads _ _ inserted.state resp s (ReadsOnly-lift (get_region debtor.region))
        inserted.rest in
    let scheduled =
      >>=-eq-ok (schedule_payment_processing env tenant instr cfg) _ inserted.state resp s h4 in
    let i = insert_instruction-ok instr d inserted.state inserted.head in
    let j = schedule-ok env tenant instr cfg inserted.state scheduled.state scheduled.head in
    let written = payment_body (accepted_response env body message) in
    record {
      code = 202;
      body = written;
      readable = unfold as_payment in ap (λ p. p.0) scheduled.rest;
      stored =
          ap (λ p. p.1.idempotency) (sym scheduled.rest)
          ∙ ap (λ rows. update_where (is_record env tenant key) (completed 202 written) rows)
              (j.0 ∙ i.0);
      flushed = ap (λ p. p.1.unflushed) (sym scheduled.rest) ∙ j.1 ∙ i.1;
    }
