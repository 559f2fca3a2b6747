-- ===== src/Lib.antt =====
-- Verification of SplitSaathi's core: shared expenses, an append-only ledger of balanced postings,
-- and settlements between participants.
--
-- The parts and how they interact. A command (an expense, a settlement) computes postings and appends
-- events to an event store (apps/api/src/modules/ledger/event-store.ts) by way of the ledger service,
-- which hands the new events to projectors. The store refuses a batch whose postings do not sum to zero
-- in each currency (packages/domain/src/ledger.ts), a wrong expected version of the stream, and another
-- payload under a known idempotency key. The balance projector adds the postings up by participant and
-- currency, and the optimizer suggests payments from the balances. Amounts of expenses are split among
-- the participants by weights, with a remainder handed out unit by unit.
--
-- Where each part stands:
--   Common: lists, results, integers, texts, maps, totals by key and sorting, of the language.
--   StateMachine: packages/domain/src/settlement-state-machine.ts (transitions, transition, can), and the
--     loop assertTransitionsAllowed (run).
--   Postings: packages/domain/src/ledger.ts (BalancedPostingSet.create).
--   Balances: apps/api/src/modules/ledger/balance.projector.ts.
--   Events, EventStore: apps/api/src/modules/ledger/ledger.types.ts and event-store.ts (the store in
--     memory: append, loadStream, replay, getVersion, getLastGlobalPosition, getIdempotencyRecord, clear).
--   Ledger: apps/api/src/modules/ledger/ledger.service.ts and projection-runner.ts.
--   Rounding: packages/domain/src/rounding.ts (stableHash, RoundingAllocator.allocate).
--   Splits: packages/domain/src/split-strategies.ts (the three strategies).
--   Expenses: apps/api/src/modules/expenses, with Allocation for expense-allocation.service.ts, and
--     Commands and Service for expense-command.service.ts (createExpense, reviseExpense, voidExpense), and
--     Projection for apps/api/src/modules/ledger/expense.projector.ts. Lived of Expenses.Lifecycle is the
--     relation of the projections and postings that the events of an expense lead to.
--   Optimizer: packages/domain/src/settlement-optimizer.ts (GreedySettlementOptimizer.suggest).
--   Settlements: apps/api/src/modules/settlements, with Projection for settlement.projector.ts and
--     Commands for settlement-command.service.ts (confirm, reverse, refund and the single transitions),
--     Requests, Starting, Evidence and Requesting for the others (createIntent, markUpiOpened,
--     regenerateUpiIntent, submitProof, recordGatewayPayment), and Upi for packages/domain/src/upi-uri.ts
--     and the ports.
--   Suggestions: apps/api/src/modules/settlements/settlement-suggestion.service.ts.
--   Money: packages/domain/src/money.ts, decimalToMinor of apps/api/src/modules/imports-exports/csv.ts, and
--     parseAmountToMinor of apps/mobile/src/utils/money.ts.
--   Csv: apps/api/src/modules/imports-exports/csv.ts (parseCsv, toCsv).
--   OfflineSync: apps/api/src/modules/offline-sync/offline-command-sync.service.ts.
--   Outbox: apps/mobile/src/offline/outbox.ts. Reach of Outbox.Keeping is the relation of the tables that
--     entries, flushes with any answers, failures and kills of the app lead to.
--   Recurring: apps/api/src/modules/recurring, with Projection for recurring.projector.ts and Service for
--     recurring-expense.service.ts.
--   Imports: apps/api/src/modules/imports-exports, with Projection for imports-exports.projector.ts, and
--     Rows, Bank, Files and Committing for splitwise-import.service.ts.
--   Exports: apps/api/src/modules/imports-exports/csv-export.service.ts, with Creating for createExport.
--   Activity: apps/api/src/modules/ledger/activity.projector.ts (listGroupActivity, search).
--   PostgresStore: apps/api/src/modules/ledger/postgres-event-store.ts, on tables that are lists of rows.
--   Permissions: packages/domain/src/authorization-policy.ts, and under apps/api/src/modules the tables of
--     groups/policies/group-permissions.ts and ledger/financial-authorization.ts.
--
-- How state is modelled. The store, the balances and the ledger are records; an operation takes the state
-- and returns the next one, or the error that the code throws, as a value of Result. Optional fields are
-- Option. Texts are lists of UTF-16 units, so that comparing, trimming, joining and hashing are executable.
-- Maps keep the order of insertion. Reach of Ledger.Runs is the relation of the ledgers that any sequence
-- of calls and restarts, which rebuild the projection, reaches from the empty store. Each call is one step:
-- calls of appendAndProject that interleave, between the read of the last position and the append, are not
-- in it (append_and_project_at and a test of Ledger.Tests show what a retry does then). Its projectors take
-- every event: what a projector that throws leaves, after the events are stored, is not in it either.
--
-- Bounds and fuel. Amounts are integers without a bound, so that the guards Number.isInteger hold; the
-- theorems on rounding ask for products below 2^53 where double arithmetic enters. Hashes are 32-bit, with
-- the wrap-around written out. The loop of the optimizer runs on fuel for every debtor and creditor of a
-- currency, since each round settles one of them. All other loops are structural.
--
-- Parameters. The clock, randomUUID, the query encoding of URLSearchParams, the UPI provider, the
-- SHA-256 hash of payloads and localeCompare are arguments of the definitions that use them, and so
-- are the order in which a database lists rows that its query leaves open, the number of bytes, base64
-- and JSON of exports, and, for recurring expenses, imports and offline batches, the services that
-- they call. Double arithmetic is the record Doubles, and IsExact of Rounding.Exact states what IEEE
-- 754 says of whole numbers below 2^53; Rounding.Fractions is an instance made of fractions. Event
-- metadata is left out, since no code reads it.
--
-- Not modelled: the texts of activities, controllers, the database entities, sign-in, groups, friends,
-- receipts, jobs, notifications, reports, the administration, and the screens of the mobile app, which
-- call these parts or surround them with input and output.
pub mod Common
pub mod StateMachine
pub mod Postings
pub mod Events
pub mod Balances
pub mod EventStore
pub mod PostgresStore
pub mod Ledger
pub mod Rounding
pub mod Splits
pub mod Expenses
pub mod Optimizer
pub mod Settlements
pub mod Permissions
pub mod Suggestions
pub mod OfflineSync
pub mod Outbox
pub mod Recurring
pub mod Csv
pub mod Activity
pub mod Imports
pub mod Exports
pub mod Money
