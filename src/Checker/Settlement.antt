-- ===== src/Checker/Settlement.antt =====
-- Who settles a transaction, and what its owner is told: `finalizeTransaction` and
-- `createNotification`.
use Prim.Native.String.{◌++◌}
use step_fi_api.Common.{
  ◌≡◌, ◌≢◌, refl, ap, eq_iff, String, false, Option, none, some, arith, returns, final,
}
use step_fi_api.Loans.Types.{pending}
use step_fi_api.Checker.Types.{
  loan_create, PendingTransaction, FinalStatus, success, failed, TransactionMetadata, LoanView,
  Claim, claim_error, no_row, claimed, CheckerEnv, truthy, Notification,
}
use step_fi_api.Checker.Metadata.{parse_transaction_metadata}
use step_fi_api.Checker.FollowUp.{
  only_loan, no_follow_up, activated, activate_pending_loan, follow_up_on, follow_up_with,
  apply_follow_up_actions,
}
use step_fi_api.Checker.Notice.{
  notification_of, build_notification_payload, success_payload, loan_active_message,
}
use step_fi_api.Checker.Cycle.{create_notification, finalize_transaction}

truthy_again : (o : Option String) (id : String) → truthy o ≡ some id → truthy (some id) ≡ some id
truthy_again none id h = cc
truthy_again (some s) id h = ground (arith, eq_iff s "", eq_iff id "")

module _ {S : Type 0} (env : CheckerEnv S) (tx : PendingTransaction) where
  -- Let the update of the still pending row answer `claim` and end in the state `t`. Without the
  -- claim `finalizeTransaction` leaves `t` as it is; with it, it applies the follow-up actions and
  -- then inserts one notification about them.
  pub finalize_transaction-once :
      (status : FinalStatus) (error : Option String) (s t : S) (claim : Claim)
      → env.claim_transaction tx.transaction_hash status (truthy error) s ≡ (claim, t)
      → let (follow_up, u) = apply_follow_up_actions env tx status t in
        (claim ≢ claimed → final (finalize_transaction env tx status error s) ≡ t)
        × (claim ≡ claimed
            → finalize_transaction env tx status error s
              ≡ returns tt
                  (env.insert_notification
                    (notification_of env.to_fixed_2 tx status error follow_up)
                    u).1)
  unfolding finalize_transaction create_notification
  finalize_transaction-once status error s t claim_error h = (λ _. ground arith, λ e. cc)
  finalize_transaction-once status error s t no_row h = (λ _. ground arith, λ e. cc)
  finalize_transaction-once status error s t claimed h = (λ ne. absurd (ne refl), λ _. rw h)

  -- A failed transaction writes nothing to the loans: only its notification is inserted, of the
  -- kind `transaction_failed`.
  pub failed_leaves_loans :
      (error : Option String) (s : S)
      → (n : Notification) × (create_notification env tx failed error s
          ≡ (env.insert_notification n s).1)
        × (n.kind ≡ "transaction_failed")
  unfolding create_notification notification_of build_notification_payload apply_follow_up_actions
  failed_leaves_loans error s =
      (notification_of env.to_fixed_2 tx failed error no_follow_up, refl, refl)

  module _ (m : TransactionMetadata) (id : String) (loan : LoanView) (s t : S)
      (created : tx.kind ≡ loan_create)
      (parsed : parse_transaction_metadata env.spell env.decode tx.xdr ≡ some m)
      (named : truthy m.loan_id ≡ some id) (found : env.find_loan id tx.user_wallet s ≡ some loan)
      (waiting : loan.status ≡ pending)
      (unstored : env.activate_loan id tx.user_wallet s ≡ (false, t)) where
    activation_fails : activate_pending_loan env id tx.user_wallet s ≡ (only_loan id, t)
    unfolding activate_pending_loan activated
    activation_fails = ground arith

    follow_up_fails : apply_follow_up_actions env tx success s ≡ (only_loan id, t)
    unfolding apply_follow_up_actions follow_up_with follow_up_on
    follow_up_fails = rw (parsed, named, follow_up_with) (rw created activation_fails)

    active_message :
        (error : Option String)
        → (notification_of env.to_fixed_2 tx success error (only_loan id)).message
          ≡ "Your loan " ++ id ++ " is now active after Stellar confirmation."
    unfolding notification_of build_notification_payload
    active_message error =
        rw (created, success_payload) (rw (truthy_again m.loan_id id named, loan_active_message))

    -- Take a confirmed `loan_create` transaction whose metadata name a pending loan of its wallet.
    -- If the write that activates the loan fails, the notification still says that the loan is now
    -- active.
    pub activation_failure_hidden :
        (error : Option String)
        → (n : Notification) × (create_notification env tx success error s
            ≡ (env.insert_notification n t).1)
          × (n.message ≡ "Your loan " ++ id ++ " is now active after Stellar confirmation.")
    unfolding create_notification
    activation_failure_hidden error = (
      notification_of env.to_fixed_2 tx success error (only_loan id),
      ap
          (λ r.
            (env.insert_notification (notification_of env.to_fixed_2 tx success error r.0) r.1).1)
          follow_up_fails,
      active_message error,
    )
