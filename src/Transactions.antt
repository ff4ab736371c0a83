-- ===== src/Transactions.antt =====
-- src/modules/transactions/transactions.service.ts: the submission of signed transactions and their
-- status.
pub mod Types
pub mod Allowlist
pub mod Failures
pub mod Records
pub mod Service
pub mod Checks
pub mod RecordRules
pub mod Outcomes
pub mod Accepted
pub mod Replay
pub mod Status
mod Tests
