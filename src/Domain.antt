-- ===== src/Domain.antt =====
-- internal/domain: the records that the layers pass to one another. A time is a number of
-- nanoseconds since Go's zero time, which is 0; raw JSON is its text, with `none` for nil.
pub mod Session
pub mod Withdrawal
pub mod Transaction
pub mod Balance
pub mod Solana
pub mod Auth
