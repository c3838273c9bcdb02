-- ===== src/Bank/Payments.antt =====
-- bank/payments.py: the life of a payment instruction, from the scheduled job to its settlement or
-- rejection. `process_payment` has a session of its own.
pub mod Quiet
pub mod Results
pub mod Instructions
pub mod Once
pub mod Books
pub mod Decision
pub mod Rejection
pub mod Total
pub mod Timing
mod Tests
use mock_sim.Base.{
  ℕ, ◌+◌, ◌*◌, Bool, true, false, ◌&&◌, ◌||◌, Option, none, some, List, [], ◌∷◌, ◌++◌, Text, codes,
  text_eq, is_member, first, where_all, update_where, ◌==◌, if◌then◌else◌,
}
use mock_sim.Base.Int.{ℤ, ltb_ℤ}
use mock_sim.Models.{
  Account, AccountStatus, active, dormant, closed, crdt, dbit, PaymentInstruction, PaymentStatus,
  pending, accepted, settled, rejected, WebhookSubscription, Surface, pos_surface, bank_surface,
  per_event, Payload, pacs002, camt054, JobPayload, process_payment_job, SimSchedulerJob,
}
use mock_sim.Session.{
  Env, Db, Session, pure, gets, lift, or_raise, modify, draw_id, visible, ◌>>=◌, ◌>>◌, transaction,
}
use mock_sim.Decimal.{str_int}
use mock_sim.Money.{Money, from_minor}
use mock_sim.Calendar.{date_of, at_hour, next_business_day, microseconds_per_second}
use mock_sim.Accounts.{get_account, write_entry, select_account, EntryDetails}
use mock_sim.Outbox.{enqueue}
use mock_sim.Scheduler.{schedule_at}
use mock_sim.Errors.{python_error}
use mock_sim.Bank.Regions.{BankRegionConfig}
use mock_sim.Bank.Messages.{
  is_bank, load_subscriptions, should_deliver, build_pacs002_payload, narration_of,
  build_camt054_payload, enqueue_all,
}

-- `_INSTANT_RAILS` and `_RTGS_RAILS`
abbrev pub instant_rails : List Text
instant_rails =
    codes "RAAST"
    ∷ codes "Aani"
    ∷ codes "IPS"
    ∷ codes "BENEFIT_Pay"
    ∷ codes "BENEFIT"
    ∷ codes "InstaPay"
    ∷ codes "FAWRI+"
    ∷ []

abbrev pub rtgs_rails : List Text
rtgs_rails = codes "PRISM" ∷ codes "Sarie" ∷ codes "UAEFTS" ∷ codes "RTGS_CBE" ∷ codes "EFTS" ∷ []

-- `_compute_fire_at`; none stands for a search for a business day that does not end.
unfoldable pub compute_fire_at : ℕ → Text → BankRegionConfig → Option ℕ
compute_fire_at now rail region_cfg =
    if is_member rail instant_rails
    then some (now + 30 * microseconds_per_second)
    else elim (next_business_day (date_of now) region_cfg.weekend_days) [
      | some next_biz ↦ some (
          at_hour next_biz
            (if is_member rail rtgs_rails then region_cfg.settlement_cutoff_hour else 9))
      | none ↦ none
    ]

-- `_load_instruction`
unfoldable pub is_instruction : Env → ℕ → Text → PaymentInstruction → Bool
is_instruction env tenant id p =
    visible env p.mock_tenant_id && (text_eq p.id id && p.mock_tenant_id == tenant)

unfoldable pub load_instruction : Env → ℕ → Text → Db → Option PaymentInstruction
unfolding is_instruction
load_instruction env tenant id d = first (is_instruction env tenant id) d.payments

-- `_check_debtor`, on the account that its query returns
unfoldable pub debtor_reason : Option Account → ℤ → Option Text
debtor_reason none amount = some (codes "ACCOUNT_NOT_FOUND")
debtor_reason (some debtor) amount = elim debtor.status [
  | closed ↦ some (codes "ACCOUNT_CLOSED")
  | dormant ↦ some (codes "ACCOUNT_DORMANT")
  | active ↦ if ltb_ℤ debtor.balance amount then some (codes "INSUFFICIENT_FUNDS") else none
]

unfoldable pub check_debtor : Env → PaymentInstruction → Db → Option Text
check_debtor env instr d = debtor_reason (select_account env instr.debtor_iban d) instr.amount

-- the assignments to the instruction
unfoldable pub set_payment : Text → (PaymentInstruction → PaymentInstruction) → Session (Unit {0})
set_payment id f =
    modify (λ d. record d { payments = update_where (λ p. text_eq p.id id) f d.payments })

abbrev pub mark_rejected : Text → PaymentInstruction → PaymentInstruction
mark_rejected reason p = record p { status = rejected; reject_reason = some reason }

abbrev pub mark_settled : ℕ → PaymentInstruction → PaymentInstruction
mark_settled now p = record p { status = settled; settled_at = some now }

-- the dict that `process_payment` returns
pub data PaymentResult : Type 0 where
  missing : PaymentResult
  terminal : PaymentStatus → PaymentResult
  was_rejected : Text → PaymentResult
  was_settled : PaymentResult

unfoldable pub reject_payment :
    Env → ℕ → List WebhookSubscription → PaymentInstruction → Text → Session PaymentResult
reject_payment env tenant subs instr reason = do
  set_payment instr.id (mark_rejected reason)
  payload ← build_pacs002_payload env instr (codes "RJCT") (some reason) none
  enqueue_all env tenant instr.debtor_iban (codes "bank.payment.rejected") payload subs
  pure (was_rejected reason)

-- what the two entries say beside the amount; the reference codes are not modelled
abbrev pub debit_details : PaymentInstruction → EntryDetails
debit_details instr = record {
  narration = narration_of instr;
  counterparty_name = some instr.creditor_name;
  counterparty_iban = some instr.creditor_iban;
  transfer_id = none;
}

abbrev pub credit_details : PaymentInstruction → EntryDetails
credit_details instr = record {
  narration = narration_of instr;
  counterparty_name = none;
  counterparty_iban = some instr.debtor_iban;
  transfer_id = none;
}

-- the credit, if the creditor's account is one of the program's
unfoldable pub credit_creditor :
    Env → PaymentInstruction → Money → Option Account → Session (Unit {0})
credit_creditor env instr amount none = pure tt
credit_creditor env instr amount (some creditor) =
    write_entry env creditor.iban amount crdt (credit_details instr) >> pure tt

-- the two entries of a settlement; the creditor's account comes back
unfoldable pub book_payment : Env → PaymentInstruction → Money → Session (Option Account)
book_payment env instr amount = do
  debtor ← get_account env instr.debtor_iban
  write_entry env debtor.iban amount dbit (debit_details instr)
  creditor ← gets (select_account env instr.creditor_iban)
  credit_creditor env instr amount creditor
  pure creditor

-- the credit notification
unfoldable pub notify_creditor :
    Env → ℕ → List WebhookSubscription → PaymentInstruction → Option Account → Session (Unit {0})
notify_creditor env tenant subs instr none = pure tt
notify_creditor env tenant subs instr (some _) = build_camt054_payload env instr >>= λ payload.
    enqueue_all env tenant instr.creditor_iban (codes "bank.camt054.credit") payload subs

-- the end of a settlement: the status, and the events
unfoldable pub announce_settlement :
    Env → ℕ → List WebhookSubscription → PaymentInstruction → Option Account → Session PaymentResult
announce_settlement env tenant subs instr creditor = do
  set_payment instr.id (mark_settled env.wall)
  payload ← build_pacs002_payload env instr (codes "ACSC") none (some env.wall)
  enqueue_all env tenant instr.debtor_iban (codes "bank.payment.settled") payload subs
  notify_creditor env tenant subs instr creditor
  pure was_settled

unfoldable pub settle_payment :
    Env → ℕ → List WebhookSubscription → PaymentInstruction → Session PaymentResult
settle_payment env tenant subs instr = do
  amount ← lift (from_minor instr.amount instr.currency)
  creditor ← book_payment env instr amount
  announce_settlement env tenant subs instr creditor

unfoldable pub conclude_payment :
    Env → ℕ → List WebhookSubscription → PaymentInstruction → Option Text → Session PaymentResult
conclude_payment env tenant subs instr (some reason) = reject_payment env tenant subs instr reason
conclude_payment env tenant subs instr none = settle_payment env tenant subs instr

-- the body for an instruction that is not terminal
unfoldable pub decide_payment : Env → ℕ → PaymentInstruction → Session PaymentResult
decide_payment env tenant instr = do
  subs ← gets (load_subscriptions env tenant)
  reject_reason ← gets (check_debtor env instr)
  conclude_payment env tenant subs instr reject_reason

unfoldable pub run_payment : Env → ℕ → Option PaymentInstruction → Session PaymentResult
run_payment env tenant none = pure missing
run_payment env tenant (some instr) = elim instr.status [
  | settled ↦ pure (terminal settled)
  | rejected ↦ pure (terminal rejected)
  | pending ↦ decide_payment env tenant instr
  | accepted ↦ decide_payment env tenant instr
]

unfoldable pub process_payment : Env → ℕ → Text → Session PaymentResult
process_payment env tenant id =
    transaction (gets (load_instruction env tenant id) >>= run_payment env tenant)

-- `schedule_payment_processing`
unfoldable pub schedule_payment_processing :
    Env → ℕ → PaymentInstruction → BankRegionConfig → Session (Unit {0})
schedule_payment_processing env tenant instr region_cfg = do
  fire_at ← or_raise (compute_fire_at env.sim instr.rail region_cfg) python_error
  schedule_at env (some tenant) fire_at (codes "bank.process_payment")
      (process_payment_job instr.id tenant)
