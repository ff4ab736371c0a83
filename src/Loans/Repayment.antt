-- ===== src/Loans/Repayment.antt =====
-- When `buildRepaymentXdr` and `repayLoan` answer, and what the preview promises
-- (src/modules/loans/loans.service.ts).
use step_fi_api.Common.{
  ℕ, ◌+◌, ◌≤◌, ◌≡◌, ◌≢◌, ◌↔◌, String, true, some, arith, returns, throws, eq_iff, Option-cases, inl,
  inr,
}
use step_fi_api.Loans.Types.{LoanRow, active, LoanError, LoanPaymentResponse, contract_failed}
use step_fi_api.Loans.Service.{LoansEnv, build_repayment_xdr, repay_loan}

module _ {S : Type 0} (env : LoansEnv S) (wallet loan_id : String) (amount : ℕ) where
  -- The checks of `buildRepaymentXdr`, all passed.
  pub record Payable (s : S) (loan : LoanRow) : Type 0 where
    pub found : env.find_loan loan_id s ≡ some loan
    pub owned : loan.user_wallet ≡ wallet
    pub running : loan.status ≡ active
    pub covered : amount ≤ loan.remaining_balance

  build_repayment_xdr-Payable :
      (s t : S) (xdr : String)
      → build_repayment_xdr env wallet loan_id amount s ≡ returns xdr t
      → (loan : LoanRow) × Payable s loan
        × (env.build_repay_loan wallet loan.loan_id amount s ≡ (some xdr, t))
  unfolding build_repayment_xdr
  build_repayment_xdr-Payable s t xdr h = elim (Option-cases (env.find_loan loan_id s)) [
    | inl missing ↦ absurd (ground arith)
    | inr (loan, found) ↦ (
      loan,
      record {
        found = found;
        owned = ground (arith, eq_iff loan.user_wallet wallet);
        running = ground arith;
        covered = ground arith;
      },
      ground arith,
    )
  ]

  Payable-build_repayment_xdr :
      (s t : S) (xdr : String) (loan : LoanRow)
      → Payable s loan
      → env.build_repay_loan wallet loan.loan_id amount s ≡ (some xdr, t)
      → build_repayment_xdr env wallet loan_id amount s ≡ returns xdr t
  unfolding build_repayment_xdr
  Payable-build_repayment_xdr s t xdr loan p h = ground (arith, eq_iff loan.user_wallet wallet)

  -- A repayment transaction is built exactly when the loan exists, belongs to the wallet, is active
  -- and owes at least the amount, and the contract client answers.
  pub build_repayment_xdr_iff :
      (s t : S) (xdr : String)
      → (build_repayment_xdr env wallet loan_id amount s ≡ returns xdr t) ↔ (
          (loan : LoanRow) × Payable s loan
          × (env.build_repay_loan wallet loan.loan_id amount s ≡ (some xdr, t)))
  build_repayment_xdr_iff s t xdr =
      (build_repayment_xdr-Payable s t xdr, λ r. Payable-build_repayment_xdr s t xdr r.0 r.1 r.2)

  -- The preview of a repayment: paying takes the current balance of the wallet's own active loan
  -- to the new one, and it completes the loan exactly when the whole balance is paid.
  pub repay_loan-preview :
      (s t : S) (resp : LoanPaymentResponse)
      → repay_loan env wallet loan_id amount s ≡ returns resp t
      → (loan : LoanRow) × Payable s loan
        × (resp.preview.current_balance ≡ loan.remaining_balance)
        × (resp.preview.new_balance + amount ≡ loan.remaining_balance)
        × ((resp.preview.will_complete ≡ true) ↔ (amount ≡ loan.remaining_balance))
  unfolding repay_loan
  repay_loan-preview s t resp h = elim (Option-cases (env.find_loan loan_id s)) [
    | inl missing ↦ absurd (ground arith)
    | inr (loan, found) ↦
        let p : Payable s loan = record {
          found = found;
          owned = ground (arith, eq_iff loan.user_wallet wallet);
          running = ground arith;
          covered = ground arith;
        } in
        (loan, p, ground arith, ground arith, ground arith)
  ]

  -- A repayment that is refused with any error but that of the contract client writes nothing.
  pub repay_loan_refused :
      (s t : S) (e : LoanError)
      → repay_loan env wallet loan_id amount s ≡ throws e t
      → e ≢ contract_failed
      → t ≡ s
  unfolding repay_loan
  repay_loan_refused s t e h ne = ground arith
