-- ===== src/Bank/Payments/Tests.antt =====
-- Tests and instances for bank/payments.py.
use mock_sim.Base.{
  ℕ, ◌+◌, ◌*◌, ◌<◌, ◌≡◌, refl, sym, subst, ◌∙◌, true, some, [], ◌∷◌, codes, text_eq, map, is_member,
  is_digit, dict_get, upper, arith, not, ◌||◌,
}
use mock_sim.Base.Int.{pos, negsuc, ◌+ℤ◌, neg_ℤ, abs_ℤ, ◌≤ℤ◌}
use mock_sim.Models.{Account, PaymentInstruction, rejected, dormant}
use mock_sim.Session.{Env, Db, ok, visible}
use mock_sim.Money.{is_supported, decimals_of, from_minor, make_money, validate_fields, minor_units}
use mock_sim.Decimal.{
  all_digits, digits_value, str_nat, to_digits, is_digits, lstrip_minus, str_int, int_text,
}
use mock_sim.Accounts.{select_account, get_account, write_entry, new_entry}
use mock_sim.Accounts.Ledger.{IsLedger}
use mock_sim.Calendar.{date_of, is_weekend, microseconds_per_day}
use mock_sim.Bank.Regions.{pakistan, get_region}
use mock_sim.Bank.Payments.{
  process_payment, load_instruction, is_instruction, check_debtor, debtor_reason, run_payment,
  decide_payment, conclude_payment, settle_payment, book_payment, credit_creditor,
  announce_settlement, set_payment, notify_creditor, compute_fire_at, instant_rails, was_settled,
  was_rejected, terminal,
}
use mock_sim.Bank.Messages.{
  build_pacs002_payload, enqueue_all, build_camt054_payload, load_subscriptions,
}
use mock_sim.Bank.Payments.Once.{process_payment-once}
use mock_sim.Bank.Payments.Books.{process_payment-IsLedger}
use mock_sim.Bank.Payments.Total.{process_payment-Effect, Effect}
use mock_sim.Bank.Payments.Decision.{process_payment-settles}
use mock_sim.Bank.Payments.Rejection.{is_dormant, is_short, process_payment-rejects}
use mock_sim.Bank.Payments.Timing.{compute_fire_at_lem}
use mock_sim.Fixtures.{
  env, db, payment, account, debtor_iban, creditor_iban, db-IsKeyed, db-IsLedger, db-rows,
}

loaded : load_instruction env 1 (codes "E2E") db ≡ some payment
unfolding load_instruction is_instruction visible text_eq
loaded = refl

abbrev later : Env
later = record env { wall = 90 }

nonneg :
    (instr : PaymentInstruction)
    → load_instruction env 1 (codes "E2E") db ≡ some instr
    → pos 0 ≤ℤ instr.amount
nonneg instr e =
    let same : some payment ≡ some instr = sym loaded ∙ e in
    let is_payment : payment ≡ instr = cc in subst (λ p. pos 0 ≤ℤ p.amount) is_payment (omega arith)

process_payment-settles_example : (process_payment env 1 (codes "E2E") db).0 ≡ ok was_settled
unfolding check_debtor debtor_reason select_account visible text_eq is_supported decimals_of
    dict_get
process_payment-settles_example =
    process_payment-settles env 1 (codes "E2E") payment db loaded refl db-IsKeyed refl refl
      (db-rows (λ a. a.currency ≡ payment.currency) refl refl debtor_iban)
      (db-rows (λ a. a.currency ≡ payment.currency) refl refl creditor_iban)

abbrev poor : Db
poor = record db { accounts = account debtor_iban (pos 299) ∷ [] }

abbrev dormant_debtor : Db
dormant_debtor = record db {
  accounts = record (account debtor_iban (pos 1000)) { status = dormant } ∷ [];
}

process_payment-rejects_example :
    ((process_payment env 1 (codes "E2E") dormant_debtor).0
      ≡ ok (was_rejected (codes "ACCOUNT_DORMANT")))
    × (load_instruction env 1 (codes "E2E") (process_payment env 1 (codes "E2E") dormant_debtor).1
        ≡ some
            (record payment { status = rejected; reject_reason = some (codes "ACCOUNT_DORMANT") }))
    × ((process_payment env 1 (codes "E2E") dormant_debtor).1.accounts ≡ dormant_debtor.accounts)
    × ((process_payment env 1 (codes "E2E") dormant_debtor).1.entries ≡ dormant_debtor.entries)
unfolding load_instruction is_instruction select_account visible text_eq
process_payment-rejects_example =
    process_payment-rejects env 1 (codes "E2E") payment dormant_debtor (codes "ACCOUNT_DORMANT")
      refl refl
      (is_dormant (record (account debtor_iban (pos 1000)) { status = dormant }) refl refl refl)

poor_is_rejected :
    (process_payment env 1 (codes "E2E") poor).0 ≡ ok (was_rejected (codes "INSUFFICIENT_FUNDS"))
unfolding load_instruction is_instruction select_account visible text_eq
poor_is_rejected =
    (process_payment-rejects env 1 (codes "E2E") payment poor (codes "INSUFFICIENT_FUNDS") refl refl
      (is_short (account debtor_iban (pos 299)) refl refl refl refl)).0

process_payment-once_example :
    process_payment later 1 (codes "E2E") (process_payment env 1 (codes "E2E") poor).1
    ≡ (ok (terminal rejected), (process_payment env 1 (codes "E2E") poor).1)
process_payment-once_example =
    process_payment-once env later 1 (codes "E2E") poor (was_rejected (codes "INSUFFICIENT_FUNDS"))
      rejected refl refl poor_is_rejected

process_payment-IsLedger_example : IsLedger (process_payment env 1 (codes "E2E") db).1
process_payment-IsLedger_example =
    process_payment-IsLedger env 1 (codes "E2E") db nonneg db-IsLedger

process_payment-Effect_example :
    Effect env payment db
      (process_payment env 1 (codes "E2E") db).0
      (process_payment env 1 (codes "E2E") db).1
process_payment-Effect_example =
    process_payment-Effect env 1 (codes "E2E") db payment db-IsKeyed loaded

-- A negative amount takes the money from the creditor, below zero too.
abbrev refund : Db
refund = record db { payments = record payment { amount = negsuc 99 } ∷ [] }

creditor_overdrawn :
    map (λ (a : Account). a.balance) (process_payment env 1 (codes "E2E") refund).1.accounts
    ≡ pos 1100 ∷ negsuc 49 ∷ []
unfolding process_payment run_payment load_instruction visible text_eq decide_payment
    conclude_payment check_debtor debtor_reason select_account settle_payment from_minor make_money
    validate_fields is_supported decimals_of dict_get get_account new_entry write_entry
    announce_settlement book_payment build_camt054_payload build_pacs002_payload credit_creditor
    enqueue_all is_instruction load_subscriptions notify_creditor set_payment abs_ℤ neg_ℤ ◌+ℤ◌
    is_digit date_of all_digits digits_value int_text is_digits lstrip_minus str_int str_nat
    to_digits minor_units
creditor_overdrawn = refl

compute_fire_at_lem_example :
    (t : ℕ) × (compute_fire_at 1000 (codes "PRISM") pakistan ≡ some t)
    × (1000 < t)
    × (t < 1000 + 8 * microseconds_per_day)
    × ((is_member (codes "PRISM") instant_rails || not (is_weekend (6 ∷ 7 ∷ []) (date_of t)))
        ≡ true)
unfolding get_region dict_get text_eq upper
compute_fire_at_lem_example = compute_fire_at_lem (codes "pk") pakistan 1000 (codes "PRISM") refl
