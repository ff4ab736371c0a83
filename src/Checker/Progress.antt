-- ===== src/Checker/Progress.antt =====
-- That a confirmed loan gets activated: the whole way of a transaction through
-- `processTransaction` of the transaction status checker.
use step_fi_api.Common.{
  ℕ, zero, suc, ◌≤◌, ◌≡◌, ◌≢◌, ap, ◌∙◌, String, Bool, true, Option, none, some, arith, returns,
}
use step_fi_api.Loans.Types.{pending, active, CreateLoanParams}
use step_fi_api.Checker.Types.{
  loan_create, PendingTransaction, success, HorizonReply, response, FollowUpResult, LoanView,
  claimed, CheckerEnv, truthy,
}
use step_fi_api.Checker.Horizon.{
  is_successful, max_attempts, attempts, check_transaction_status, Calls, last, again,
}
use step_fi_api.Checker.Metadata.{create_loan_call}
use step_fi_api.Checker.FollowUp.{activated, activate_pending_loan}
use step_fi_api.Checker.Notice.{notification_of}
use step_fi_api.Checker.Cycle.{
  create_notification, after_claim, finalize_transaction, settle_found, settle, process_transaction,
}
use step_fi_api.Checker.LoanWrites.{create_loan_call-activates}

-- The follow-up of an activated loan.
abbrev pub activation : String → FollowUpResult
activation id = record { loan_id = some id; remaining_balance = none; loan_status = some active }

module _ {S : Type 0} (env : CheckerEnv S) where
  Calls-positive :
      (hash : String) (n : ℕ) (s t : S) (r : HorizonReply) → Calls env hash n s r t → 1 ≤ n
  Calls-positive hash n s t r (last e) = omega arith
  Calls-positive hash n s t r (again e known transient rest) = omega arith

  activated-pending :
      (id wallet : String) (u v : S) (loan : LoanView)
      → env.find_loan id wallet u ≡ some loan
      → loan.status ≡ pending
      → env.activate_loan id wallet u ≡ (true, v)
      → activate_pending_loan env id wallet u ≡ (activation id, v)
  unfolding activate_pending_loan activated
  activated-pending id wallet u v loan found waiting written = ground arith

  -- A reply within the attempts is what the loop returns.
  attempts-answered :
      (hash : String) (n left : ℕ) (s t : S) (ok : Option Bool) (message : Option String)
      → Calls env hash n s (response ok message) t
      → n ≤ left
      → attempts env hash left s
        ≡ returns
            (some (record { successful = some (is_successful ok); error_message = message }))
            t
  unfolding attempts
  attempts-answered hash n zero s t ok message (last e) h = ground arith
  attempts-answered hash n zero s t ok message (again e known transient rest) h = ground arith
  attempts-answered hash n (suc left) s t ok message (last e) h = ground arith
  attempts-answered hash n (suc left) s t ok message (again {n = m} {t = u} e known transient rest)
        h =
      let some_left = Calls-positive hash m u t (response ok message) rest in
      let later = attempts-answered hash m left u t ok message rest (omega (arith, h)) in
      ground arith

  -- Take a transaction that was sent to create a loan: its XDR decodes to the call of
  -- `buildCreateLoanTransaction`. Let Horizon confirm it within three calls, after transient errors
  -- at most, the claim on the row succeed, and the loan be the wallet's own and pending then. If the
  -- write that activates it succeeds, the run ends with the loan activated and with one
  -- notification, which says so.
  pub process_transaction-activates :
      (tx : PendingTransaction) (x : String) (p : CreateLoanParams) (n : ℕ) (s t u v : S)
      (message : Option String) (loan : LoanView)
      → tx.kind ≡ loan_create
      → tx.xdr ≡ some x
      → x ≢ ""
      → env.decode x ≡ create_loan_call p
      → p.loan_id ≢ ""
      → Calls env tx.transaction_hash n s (response (some true) message) t
      → n ≤ max_attempts
      → env.claim_transaction tx.transaction_hash success (truthy message) t ≡ (claimed, u)
      → env.find_loan p.loan_id tx.user_wallet u ≡ some loan
      → loan.status ≡ pending
      → env.activate_loan p.loan_id tx.user_wallet u ≡ (true, v)
      → process_transaction env tx s
        ≡ returns tt
            (env.insert_notification
              (notification_of env.to_fixed_2 tx success message (activation p.loan_id))
              v).1
  unfolding process_transaction settle settle_found finalize_transaction after_claim
      create_notification check_transaction_status
  process_transaction-activates tx x p n s t u v message loan kind there ne call_p named confirmed
        few claim found waiting written =
      let status =
        attempts-answered tx.transaction_hash n max_attempts s t (some true) message confirmed
          few in
      let follow = create_loan_call-activates env tx x p u kind there ne call_p named in
      let done_loan = activated-pending p.loan_id tx.user_wallet u v loan found waiting written in
      let noticed : create_notification env tx success message u
          ≡ (env.insert_notification
              (notification_of env.to_fixed_2 tx success message (activation p.loan_id)) v).1 =
        ap
          (λ q.
            (env.insert_notification (notification_of env.to_fixed_2 tx success message q.0) q.1).1)
          (follow ∙ done_loan) in
      rw (status, claim) (ap (λ w. returns tt w) noticed)
