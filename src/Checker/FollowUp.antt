-- ===== src/Checker/FollowUp.antt =====
-- `applyFollowUpActions`, `activatePendingLoan` and `applyLoanRepayment` of the
-- transaction status checker.
use step_fi_api.Common.{ℕ, ◌-◌, ◌==◌, String, Bool, true, false, Option, none, some, if◌then◌else◌}
use step_fi_api.Loans.Types.{LoanStatus, pending, active, completed}
use step_fi_api.Loans.Terms.{round_currency}
use step_fi_api.Loans.Service.{balance_or_zero}
use step_fi_api.Loans.Portfolio.{is_completed}
use step_fi_api.Checker.Types.{
  TransactionType, loan_create, loan_repay, PendingTransaction, FinalStatus, success, failed,
  TransactionMetadata, FollowUpResult, CheckerEnv, truthy,
}
use step_fi_api.Checker.Metadata.{parse_transaction_metadata}

abbrev pub no_follow_up : FollowUpResult
no_follow_up = record { loan_id = none; remaining_balance = none; loan_status = none }

abbrev pub only_loan : String → FollowUpResult
only_loan id = record { loan_id = some id; remaining_balance = none; loan_status = none }

abbrev pub is_pending : LoanStatus → Bool
is_pending pending = true
is_pending _ = false

-- `Math.max(0, Math.round((currentBalance - amount) * 100) / 100)`: `-` stops at 0, which rounds
-- to 0.
unfoldable pub updated_balance : ℕ → ℕ → ℕ
updated_balance current amount = round_currency (current - amount)

abbrev pub updated_status : LoanStatus → ℕ → LoanStatus
updated_status status balance = if balance == 0 then completed else status

-- The status in the payload: only if it changes.
abbrev pub status_write : LoanStatus → ℕ → Option LoanStatus
status_write status balance =
    if balance == 0 then (if is_completed status then none else some completed) else none

-- The answer to the write that activates a loan.
unfoldable pub activated : {S : Type 0} → String → Bool × S → FollowUpResult × S
activated loan_id (true, t) =
    (record { loan_id = some loan_id; remaining_balance = none; loan_status = some active }, t)
activated loan_id (false, t) = (only_loan loan_id, t)

module _ {S : Type 0} (env : CheckerEnv S) where
  unfoldable pub activate_pending_loan : String → String → S → FollowUpResult × S
  unfolding activated
  activate_pending_loan loan_id wallet s = elim (env.find_loan loan_id wallet s) [
    | none ↦ (only_loan loan_id, s)
    | some loan ↦
        if is_pending loan.status then activated loan_id (env.activate_loan loan_id wallet s) else (
          record {
            loan_id = some loan_id;
            remaining_balance = none;
            loan_status = some loan.status;
          },
          s,
        )
  ]

  unfoldable pub apply_loan_repayment : String → String → ℕ → S → FollowUpResult × S
  apply_loan_repayment loan_id wallet amount s = elim (env.find_loan loan_id wallet s) [
    | none ↦ (only_loan loan_id, s)
    | some loan ↦
        let balance = updated_balance (balance_or_zero loan.remaining_balance) amount in
        let (stored, t) =
          env.write_balance loan_id wallet balance (status_write loan.status balance) s in
        (
          if stored
              then record {
                loan_id = some loan_id;
                remaining_balance = some balance;
                loan_status = some (updated_status loan.status balance);
              }
              else only_loan loan_id,
          t,
        )
  ]

  -- The branches on the type, once the loan is known.
  unfoldable pub follow_up_on :
      TransactionType → String → String → Option ℕ → S → FollowUpResult × S
  follow_up_on loan_create loan_id wallet amount s = activate_pending_loan loan_id wallet s
  follow_up_on loan_repay loan_id wallet (some amount) s =
      apply_loan_repayment loan_id wallet amount s
  follow_up_on _ loan_id wallet amount s = (only_loan loan_id, s)

  -- `if (!metadata?.loanId) return {}`
  unfoldable pub follow_up_with :
      PendingTransaction → Option TransactionMetadata → S → FollowUpResult × S
  follow_up_with tx none s = (no_follow_up, s)
  follow_up_with tx (some m) s = elim (truthy m.loan_id) [
    | none ↦ (no_follow_up, s)
    | some loan_id ↦ follow_up_on tx.kind loan_id tx.user_wallet m.amount s
  ]

  unfoldable pub apply_follow_up_actions : PendingTransaction → FinalStatus → S → FollowUpResult × S
  apply_follow_up_actions tx failed s = (no_follow_up, s)
  apply_follow_up_actions tx success s =
      follow_up_with tx (parse_transaction_metadata env.spell env.decode tx.xdr) s
