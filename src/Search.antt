-- ===== src/Search.antt =====
-- The search service, worker/src/services/search.ts: which offers count (Offers), the tables (Store),
-- a check of one tracker (Execute, Finalize, Run), and what holds of them.
pub mod Offers
pub mod Kept
pub mod Best
pub mod Store
pub mod Execute
pub mod Persist
pub mod Units
pub mod Finalize
pub mod Finish
pub mod Run
pub mod Check
pub mod Ledger
pub mod Spent
pub mod Calls
pub mod Parking
pub mod Failing
pub mod Columns
pub mod Lows
pub mod Series
mod Trial
mod Examples
