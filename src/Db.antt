-- ===== src/Db.antt =====
-- The tables that the repositories read and write, and the SQL statements of
-- internal/repositories/*/gen as functions on them: db/schema/schema.sql gives the columns and
-- constraints. A nullable column is an `Option`. A statement returns the new tables, or the error of
-- a violated constraint, which leaves them as they were.
pub mod Rows
pub mod Sessions
pub mod Withdrawals
pub mod Balances
pub mod Transactions
pub mod Frame
pub mod Pages
pub mod Auth
