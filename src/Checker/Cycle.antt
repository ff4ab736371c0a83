-- ===== src/Checker/Cycle.antt =====
-- `finalizeTransaction`, `cleanupOldTransactions` and the cycle `checkTransactions` of the
-- transaction status checker.
use step_fi_api.Common.{
  String, Bool, true, false, List, [], ◌∷◌, Option, none, some, Act, returns, throws, final, ◌>>=◌,
  call,
}
use step_fi_api.Checker.Types.{
  PendingTransaction, FinalStatus, success, failed, StatusResult, Claim, claim_error, no_row,
  claimed, CheckerError, update_failed, CheckerEnv, truthy,
}
use step_fi_api.Checker.Horizon.{check_transaction_status}
use step_fi_api.Checker.FollowUp.{apply_follow_up_actions}
use step_fi_api.Checker.Notice.{notification_of}

module _ {S : Type 0} (env : CheckerEnv S) where
  -- `createNotification`: a failed insert is only logged.
  unfoldable pub create_notification : PendingTransaction → FinalStatus → Option String → S → S
  create_notification tx status error s =
      let (follow_up, t) = apply_follow_up_actions env tx status s in
      (env.insert_notification (notification_of env.to_fixed_2 tx status error follow_up) t).1

  unfoldable pub after_claim :
      PendingTransaction → FinalStatus → Option String → Claim → Act S CheckerError (Unit {0})
  after_claim tx status error claim_error s = throws update_failed s
  after_claim tx status error no_row s = returns tt s
  after_claim tx status error claimed s = returns tt (create_notification tx status error s)

  unfoldable pub finalize_transaction :
      PendingTransaction → FinalStatus → Option String → Act S CheckerError (Unit {0})
  unfolding after_claim
  finalize_transaction tx status error = do
    claim ← call (env.claim_transaction tx.transaction_hash status (truthy error))
    after_claim tx status error claim

  -- The branches on `status.successful`. The last, for a status without the flag, is never reached: the
  -- check sets it for every response.
  unfoldable pub settle_found :
      PendingTransaction → Option String → Option Bool → Act S CheckerError (Unit {0})
  settle_found tx error (some true) s = finalize_transaction tx success error s
  settle_found tx error (some false) s = finalize_transaction tx failed error s
  settle_found tx error none s = returns tt s

  -- What follows a status check: `none` leaves the transaction pending.
  unfoldable pub settle : PendingTransaction → Option StatusResult → Act S CheckerError (Unit {0})
  unfolding settle_found
  settle tx none s = returns tt s
  settle tx (some r) s = settle_found tx r.error_message r.successful s

  unfoldable pub process_transaction : PendingTransaction → Act S CheckerError (Unit {0})
  process_transaction tx = do
    status ← check_transaction_status env tx.transaction_hash
    settle tx status

  -- The loop: an error is logged, and the next transaction follows.
  unfoldable pub process_all : List PendingTransaction → S → S
  process_all [] s = s
  process_all (tx ∷ txs) s = process_all txs (final (process_transaction tx s))

  -- `cleanupOldTransactions`: a failed delete is only logged.
  abbrev pub cleanup_old_transactions : S → S
  cleanup_old_transactions s = (env.delete_old s).1

  -- The body of the outer `try`.
  unfoldable pub run_cycle : Option (List PendingTransaction) → S → S
  run_cycle none s = s
  run_cycle (some []) s = cleanup_old_transactions s
  run_cycle (some (tx ∷ txs)) s = process_all (tx ∷ txs) s

  -- `checkTransactions`: the flag `isRunning` before and after, the guard on it, the body and the
  -- `finally` block.
  unfoldable pub check_transactions : Bool → S → Bool × S
  unfolding run_cycle
  check_transactions true s = (true, s)
  check_transactions false s = (false, cleanup_old_transactions (run_cycle (env.fetch_pending s) s))
