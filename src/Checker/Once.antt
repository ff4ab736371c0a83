-- ===== src/Checker/Once.antt =====
-- Two workers that settle one transaction: `finalizeTransaction` of the transaction status checker.
use step_fi_api.Common.{ℕ, ◌≡◌, ◌≢◌, subst, sym, refl, String, Option, final}
use step_fi_api.Loans.Types.{LoanStatus}
use step_fi_api.Checker.Types.{
  PendingTransaction, FinalStatus, Notification, claimed, CheckerEnv, truthy,
}
use step_fi_api.Checker.Cycle.{create_notification, finalize_transaction}
use step_fi_api.Checker.LoanWrites.{
  LoanWrite, untouched, activates, repays, apply_follow_up_actions-LoanWrite,
}
use step_fi_api.Checker.Settlement.{finalize_transaction-once}

module _ {S : Type 0} (env : CheckerEnv S) (tx : PendingTransaction) (Locked : S → Type 0)
    (locks : (status : FinalStatus) (error : Option String) (s t : S)
      → env.claim_transaction tx.transaction_hash status error s ≡ (claimed, t)
      → Locked t)
    (refuses : (status : FinalStatus) (error : Option String) (s : S)
      → Locked s
      → (env.claim_transaction tx.transaction_hash status error s).0 ≢ claimed)
    (keep_notice : (n : Notification) (s : S) → Locked s → Locked (env.insert_notification n s).1)
    (keep_activate : (id wallet : String) (s : S)
      → Locked s
      → Locked (env.activate_loan id wallet s).1)
    (keep_balance : (id wallet : String) (balance : ℕ) (status : Option LoanStatus) (s : S)
      → Locked s
      → Locked (env.write_balance id wallet balance status s).1) where
  LoanWrite-Locked : (s t : S) → LoanWrite env tx s t → Locked s → Locked t
  LoanWrite-Locked s t (untouched e) p = subst Locked (sym e) p
  LoanWrite-Locked s t (activates id loan _ _ _ e) p = subst Locked (sym e) (keep_activate id _ s p)
  LoanWrite-Locked s t (repays id loan amount _ _ e) p =
      subst Locked (sym e) (keep_balance id _ _ _ s p)

  finalize_transaction-Locked :
      (status : FinalStatus) (error : Option String) (s t : S)
      → env.claim_transaction tx.transaction_hash status (truthy error) s ≡ (claimed, t)
      → Locked (final (finalize_transaction env tx status error s))
  unfolding finalize_transaction create_notification
  finalize_transaction-Locked status error s t h =
      let moved =
        LoanWrite-Locked t _ (apply_follow_up_actions-LoanWrite env tx status t)
          (locks status (truthy error) s t h) in
      rw h (keep_notice _ _ moved)

  -- Take a database that gives the claim on a transaction at most once: a claim locks its row, a
  -- locked row refuses further claims, and notifications and loan writes leave it locked. After a
  -- worker that got the claim, a second worker with any outcome writes nothing but its
  -- refused claim: no loan is written twice, and no second notification is inserted.
  pub finalize_transaction-twice :
      (status other : FinalStatus) (error later : Option String) (s t : S)
      → env.claim_transaction tx.transaction_hash status (truthy error) s ≡ (claimed, t)
      → let u = final (finalize_transaction env tx status error s) in
        final (finalize_transaction env tx other later u)
        ≡ (env.claim_transaction tx.transaction_hash other (truthy later) u).1
  finalize_transaction-twice status other error later s t h =
      let u = final (finalize_transaction env tx status error s) in
      let (claim, v) = env.claim_transaction tx.transaction_hash other (truthy later) u in
      (finalize_transaction-once env tx other later u v claim refl).0
        (refuses other (truthy later) u (finalize_transaction-Locked status error s t h))
