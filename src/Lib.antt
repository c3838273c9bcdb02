-- ===== src/Lib.antt =====
-- MockSim is a service that plays a bank and a card acquirer for another system's tests: it keeps
-- accounts, processes payments in simulated time, settles card transactions into batches, and sends
-- webhooks about all of it. Its state is the tables of one database; operations run in sessions, which
-- are transactions, and reach each other through the tables: a payment or a settlement is a job of the
-- scheduler, writes entries through the accounts, and puts its events into the outbox, from which the
-- dispatcher delivers them.
--
-- Files, and the code that each is about:
-- - Base: lists, text as code points, and integers over the native numbers, shared by all.
-- - Errors (src/mocksim/core/errors.py): status and code of an error; no messages.
-- - Models (src/mocksim/persistence/models.py): a record for each table that is used.
-- - Session (src/mocksim/persistence/database.py): a session as a function of the database that
--   returns or raises; `transaction` commits or rolls back, and `visible` is the tenant filter. Its
--   child modules have the rules for sessions that keep a property, only read, or cannot fail.
-- - Decimal, Money (src/mocksim/core/money.py): amounts as decimal text.
-- - Iban (src/mocksim/core/identifiers.py): generation and validation of IBANs.
-- - Calendar: dates as ordinals; `_next_business_day` of src/mocksim/bank/payments.py and
--   `_expected_settlement_date` of src/mocksim/pos/generator.py.
-- - Accounts (src/mocksim/core/accounts.py): get_account, write_entry, internal_transfer and the
--   pool checks under their own names; child modules on the table, the ledger, transfers and pools.
-- - Outbox (src/mocksim/core/outbox.py): enqueue, dispatch_batch and _deliver; what the HTTP post
--   answers is a parameter.
-- - Webhook (src/mocksim/core/webhook.py): the signature and its check, the headers and the outcome of a
--   post, the guard on a target. Subscriptions: create_webhook_subscription of src/mocksim/bank/api.py
--   and src/mocksim/pos/api.py.
-- - Clock (src/mocksim/clock.py), Scheduler (src/mocksim/core/sim_scheduler.py): the registry,
--   schedule_at and _run_one_slice, on a state of the clock and the database; Scheduler.Advance:
--   advance (as advance_by) and _run_advance_async. The wall clock's budget and the failures of the
--   database are parameters.
-- - Bank.Regions (src/mocksim/bank/regions.py), Bank.Payments (src/mocksim/bank/payments.py):
--   process_payment with its helpers, cut at the comments of its body; Bank.Messages has the payloads
--   of its events.
-- - Idempotency (src/mocksim/core/idempotency.py): get_or_start, complete (as complete_record) and
--   the check of the key, and the pruning of the records, _prune_idempotency_records of
--   src/mocksim/core/scheduler.py; Idempotency.Endpoint is what each endpoint does that takes a key.
-- - Paging: the pages of the listings, and a client that follows their cursors.
-- - Bank.Initiation: initiate_payment and instant_credit_transfer of src/mocksim/bank/api.py.
--   Bank.Accounts: its endpoints on accounts, get_account as show_account, and get_statement.
--   Bank.Queries: list_payments and payment_status. Bank.Mandates
--   (src/mocksim/bank/mandates.py): the three handlers; Bank.Mandates.Endpoints: create_mandate and
--   collect_mandate of src/mocksim/bank/api.py.
-- - Tenancy (src/mocksim/core/tenancy.py): the middleware under its functions' names; the hash of a key
--   and the parsing of a UUID are fields of its gate.
-- - Identifiers (src/mocksim/core/identifiers.py): the numbers of a card transaction, as draws.
-- - Pos.Regions (src/mocksim/pos/regions.py), Pos.Generator (src/mocksim/pos/generator.py): the
--   statistics of a merchant, Pos.Generator.Sale for a row, Pos.Generator.Day for
--   generate_merchant_day and the scheduling; Pos.Random has the floats and the draws.
-- - Pos.Api (src/mocksim/pos/api.py): its endpoints on merchants, transactions and settlements.
-- - Pos.Settlement (src/mocksim/pos/settlement.py): settle_merchant_day with its helpers; Pos.Messages
--   has the payloads of its events.
-- - Admin (src/mocksim/admin/api.py): the clock, tenants, resets and replays; Admin.Clock is about the
--   jobs under its advance, which runs under the tenant zero; Admin.Views the lists and
--   the statistics, Admin.Switch the switch of the scenarios, with the row that src/mocksim/main.py adds
--   at the start, and Admin.GeneratePos generate_pos_for_merchants. Scenarios
--   (src/mocksim/core/scenarios.py): which failure a request asks for, and what the middleware answers.
-- - Handlers: the job handlers of src/mocksim/bank/payments.py, src/mocksim/pos/settlement.py and
--   src/mocksim/pos/generator.py, and the registry that src/mocksim/main.py makes of them.
-- - Fixtures and the modules called Tests: data, runs and instances.
--
-- The random source and the clocks are fields of an environment, so that any ids and times are
-- covered; an id is the number drawn for it. SHA-256 and the JSON text of a request are parameters, of
-- which nothing is assumed. The texts of cursors and dates are read by a codec, of which it is assumed
-- that it decodes what it encoded. Amounts are unbounded integers, as in Python. A search for
-- a business day takes fuel for a week, or for a week per settlement day, which is enough for every
-- weekend that leaves a working day; the region table has only such weekends. The loops over the
-- slices of an advance take one more than what remains, since each slice takes time off it. The loop
-- that draws a Poisson number takes fuel that is a parameter, since no bound holds for every generator:
-- the theorem on a merchant's day asks for a count that was reached. A float is an element of any
-- type with the operations that the code applies; a rate is kept as its number of hundredths, and an
-- amount times basis points over 10,000 is a division of integers, as the code's is below 2 ^ 53.
--
-- Foreign keys between the tables are not checked, but for the parent of an account, so the order of the
-- deletes of a reset makes no difference here; the code's order is the one that the keys ask for.
--
-- Not modelled: row locks and concurrent sessions, log entries, the texts of errors, FastAPI's
-- routing and parsing, HTTP, HMAC and the parsing of addresses, and the other parts of the repository,
-- such as the onboarding across programs, the operators' login and the front end.
pub mod Base
pub mod Errors
pub mod Models
pub mod Session
pub mod Fixtures
pub mod Decimal
pub mod Money
pub mod Iban
pub mod Calendar
pub mod Clock
pub mod Paging
pub mod Webhook
pub mod Accounts
pub mod Outbox
pub mod Scheduler
pub mod Idempotency
pub mod Subscriptions
pub mod Identifiers
pub mod Tenancy
pub mod Bank
pub mod Pos
pub mod Scenarios
pub mod Admin
pub mod Handlers
