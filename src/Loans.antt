-- ===== src/Loans.antt =====
-- src/modules/loans: quotes, creation, repayment and assessment of loans.
pub mod Types
pub mod Terms
pub mod Schedule
pub mod Service
pub mod Creation
pub mod Portfolio
pub mod Accounts
pub mod Repayment
pub mod Assessment
mod Tests
