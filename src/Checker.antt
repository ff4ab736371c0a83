-- ===== src/Checker.antt =====
-- src/jobs/transaction-status-checker/transaction-status-checker.service.ts: the cycle that settles
-- pending transactions against Horizon and applies their effects to the loans.
pub mod Types
pub mod Horizon
pub mod Metadata
pub mod FollowUp
pub mod Notice
pub mod Cycle
pub mod Retries
pub mod LoanWrites
pub mod Settlement
pub mod Isolation
pub mod Once
pub mod Progress
mod Tests
