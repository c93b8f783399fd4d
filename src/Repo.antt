-- ===== src/Repo.antt =====
-- The D1 statements of worker/src/db/repo.ts, one child for each group of tables. A statement is a
-- function on the table that it reads or writes: SQLite runs each one as a whole.
pub mod Usage
pub mod Alerts
pub mod Candidates
