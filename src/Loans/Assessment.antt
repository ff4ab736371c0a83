-- ===== src/Loans/Assessment.antt =====
-- The status changes of `assessLoan` in src/modules/loans/loans.service.ts.
use step_fi_api.Common.{
  ◌≡◌, subst, ◌⊎◌, inl, inr, String, true, some, arith, returns, eq_iff, Option-cases,
}
use step_fi_api.Credit.{Decision, approved, manual_review, rejected as declined}
use step_fi_api.Loans.Types.{LoanStatus, pending, under_review, rejected, LoanRow}
use step_fi_api.Loans.Service.{LoansEnv, AssessLoanResponse, assess_loan, status_after}

-- The moves that an assessment may make.
pub data Reassessed : LoanStatus → LoanStatus → Decision → Type 0 where
  to_pending : {s : LoanStatus} → (s ≡ pending) ⊎ (s ≡ under_review) → Reassessed s pending approved
  to_review :
      {s : LoanStatus}
      → (s ≡ pending) ⊎ (s ≡ under_review)
      → Reassessed s under_review manual_review
  to_rejected :
      {s : LoanStatus} → (s ≡ pending) ⊎ (s ≡ under_review) → Reassessed s rejected declined

status_after-Reassessed :
    (s : LoanStatus) (d : Decision)
    → (s ≡ pending) ⊎ (s ≡ under_review)
    → Reassessed s (status_after d) d
status_after-Reassessed s approved h = to_pending h
status_after-Reassessed s manual_review h = to_review h
status_after-Reassessed s declined h = to_rejected h

module _ {S : Type 0} (env : LoansEnv S) (wallet loan_id : String) where
  -- An answered assessment was of the wallet's own loan, pending or under review, and its last
  -- write stored the status that follows from the decision.
  pub assess_loan-Reassessed :
      (s s' : S) (resp : AssessLoanResponse)
      → assess_loan env wallet loan_id s ≡ returns resp s'
      → (loan : LoanRow) × (before : S) × (env.find_loan loan_id s ≡ some loan)
        × (loan.user_wallet ≡ wallet)
        × Reassessed loan.status resp.current_status resp.assessment.decision
        × (env.update_status loan_id resp.current_status before ≡ (true, s'))
  unfolding assess_loan
  assess_loan-Reassessed s s' resp h = elim (Option-cases (env.find_loan loan_id s)) [
    | inl missing ↦ absurd (ground arith)
    | inr (loan, found) ↦
        let open_status : (loan.status ≡ pending) ⊎ (loan.status ≡ under_review) = ground arith in
        let stored : status_after resp.assessment.decision ≡ resp.current_status = ground arith in
        (
          loan,
          (env.reputation wallet s).1,
          found,
          ground (arith, eq_iff loan.user_wallet wallet),
          subst (λ x. Reassessed loan.status x resp.assessment.decision) stored
              (status_after-Reassessed loan.status resp.assessment.decision open_status),
          ground arith,
        )
  ]
