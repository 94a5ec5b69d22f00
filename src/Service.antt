-- ===== src/Service.antt =====
-- internal/application/verificationservice/verification_service_impl.go. The Ethereum and Tron
-- processors only log, and so does the branch for a chain without a processor.
pub mod Rules
pub mod Guards
pub mod Failure
pub mod Deposit
pub mod Withdrawal
pub mod SessionCheck
pub mod WithdrawalCheck
pub mod Poll
pub mod System
