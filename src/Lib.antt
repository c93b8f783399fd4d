-- ===== src/Lib.antt =====
-- FlightNotify's Worker: a verification library for the TypeScript program under worker/src.
--
-- The program tracks fares. A Cron tick or a manual check takes a lease, reserves calls of the fare
-- provider within a monthly and an hourly allowance, compares the fares that it finds with a
-- tracker's threshold and its lowest fare so far, and sends Telegram alerts. Everything is stored in
-- a SQLite database (D1), whose single statements are atomic.
--
-- The modules, and the code that they model:
--
-- - Common: the shared names; lists and integers over the native numbers (Lists, Int), thrown
--   errors as values (Results), JavaScript strings as lists of code units and the digits of a number
--   (Text), tables with a text key (Table) and tables as lists of rows (Rows).
-- - Time: worker/src/time.ts, as far as the quota keys need it. A Date is its milliseconds.
-- - Money: worker/src/domain/money.ts (divideHalfUp is divide_half_up, and so on, with the source's
--   names in snake case). Cents are integers with the code's own safe-integer check, so the
--   arithmetic of doubles is exact wherever the code goes on.
-- - Repo.Usage: the statements of worker/src/db/repo.ts on the quota tables, as functions on a
--   store; a WHERE clause is a Boolean test on the row, a SET clause a function on it.
-- - Quota: QuotaManager of worker/src/services/quota.ts, each method from a store to its answer and
--   the new store. Quota.Cap interleaves the statements of any number of invocations;
--   a synchronisation is two of them, its read and its write.
-- - Evaluation: worker/src/domain/evaluation.ts.
-- - Leases: the conditional updates of worker/src/db/repo.ts that lock a tracker or the scheduler.
--   LeaseTable is their common interface: operations with laws, which the two tables fill.
-- - Repo.Alerts, Repo.Alerts.Claims: the alert_events statements of worker/src/db/repo.ts.
-- - Alerts: AlertService of worker/src/services/alerts.ts. Its state is the table and the messages
--   handed to Telegram; what `sendMessage` answers is a parameter, and the clock is read anew at the
--   insert, at the cooldown check and after the send. Alerts.Life interleaves the invocations
--   that deal with one row.
-- - Enums, Notes: enumerations of worker/src/domain/enums.ts, and the sentences of a check as
--   constructors.
-- - Repo.Candidates: the queue of date pairs and their markets, from worker/src/db/repo.ts.
-- - Tracker: worker/src/services/tracker.ts. A tracker's settings that define its series are a record
--   of their own; the fingerprint of a series is a parameter.
-- - Search: SearchService of worker/src/services/search.ts. Offers is the choice of the offers
--   that are stored; Store the tables that a check writes; Execute, Persist and Units one unit
--   (openRun, persistOffers, executeLive, executeCached); Finalize and Finish the end of a check;
--   Run and Check runTracker. A Check pairs the tracker in memory with the tables, since the code
--   updates the two separately. What planUnits plans, what the cache holds and what the provider
--   answers are parameters.
-- - Cron: runScheduledTick of worker/src/scheduled.ts, with its leases and its budget. The checks are an
--   interface, CheckRunner, over any tables of their own; Search.Calls has the law about calls that
--   Cron.Budget asks of it, for the loop over a check's units.
-- - Provider: the transport of worker/src/providers/serpapi.ts, the loop of request as structural
--   recursion on the attempts that are left. What fetch answers and the parsers are parameters.
-- - Dates: bisectionOrder, orderedPairs and flexiblePresetMonth of worker/src/domain/dates.ts, and
--   its generatePairs (Dates.Window), where a date is its day number since 1970 and a length of
--   stay a natural number.
--
-- Bounds and fuel: `digits` writes a number n with fuel n + 1, and a number has fewer digits than
-- that; `bisect` makes one round per index, so the number of indices is its fuel, and it gives
-- `none` if the queue is not empty by then; `scale` doubles a by at most 52 + b times to reach
-- 2^52 * b. Nothing else takes fuel. Money.Double is the one place where the code divides doubles
-- (normalizedColumns). Counts are natural numbers: the provider's figures are taken as not
-- negative. Timestamps are compared as numbers, since their stored texts have one fixed width. One
-- moment stands for all readings of the clock in one call of the quota guard, of a statement, or
-- of a tracker's check. A sentence that the code builds for the operator is a constructor with the
-- values that it shows, but for evaluate, whose sentences are modelled too.
--
-- Not modelled: the HTTP services and the runtime (WebCrypto, fetch, Intl), which are outside the
-- repository; the pages and the router under worker/src/web; the deletes of the daily cleanup, the
-- planning of a check's units and the encoding of cached answers, the trackers' form,
-- authentication, the Telegram client and bot, the parsers of the provider's offers, the planner,
-- canonical JSON and the configuration; and the Python application, which is the earlier
-- implementation that the Worker ports.
pub mod Common
pub mod Time
pub mod Money
pub mod Repo
pub mod Quota
pub mod Evaluation
pub mod Leases
pub mod Alerts
pub mod Dates
pub mod Enums
pub mod Notes
pub mod Tracker
pub mod Search
pub mod Cron
pub mod Provider
