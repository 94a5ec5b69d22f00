-- ===== src/Repo.antt =====
-- internal/repositories/*repo: what the service layer calls. A repository method is an action; the
-- lines that only log are left out.
pub mod Sessions
pub mod Withdrawals
pub mod Balances
pub mod Transactions
pub mod Keeps
pub mod Auth
