-- ===== src/Checker/Isolation.antt =====
-- What a cycle of the transaction status checker cannot reach: `checkTransactions`.
use step_fi_api.Common.{
  ℕ, zero, suc, ◌≡◌, ◌≢◌, refl, subst, sym, String, Bool, Option, none, some, List, [], ◌∷◌, All,
  arith, final, returns, throws, Run, true, false, Ends, Ends->>=,
}
use step_fi_api.Loans.Types.{LoanStatus}
use step_fi_api.Checker.Types.{
  PendingTransaction, FinalStatus, StatusResult, Notification, Claim, claim_error, no_row, claimed,
  CheckerError, CheckerEnv,
}
use step_fi_api.Checker.Horizon.{attempts, check_transaction_status}
use step_fi_api.Checker.Cycle.{
  create_notification, after_claim, finalize_transaction, settle_found, settle, process_transaction,
  process_all, run_cycle, check_transactions,
}
use step_fi_api.Checker.LoanWrites.{
  LoanWrite, untouched, activates, repays, apply_follow_up_actions-LoanWrite,
}

module _ {S : Type 0} (env : CheckerEnv S) (wallet : String) (P : S → Type 0)
    (keep_horizon : (hash : String) (s : S) → P s → P (env.horizon hash s).1)
    (keep_claim : (hash : String) (status : FinalStatus) (error : Option String) (s : S)
      → P s
      → P (env.claim_transaction hash status error s).1)
    (keep_notice : (n : Notification) (s : S) → P s → P (env.insert_notification n s).1)
    (keep_delete : (s : S) → P s → P (env.delete_old s).1)
    (keep_activate : (id other : String) (s : S)
      → other ≢ wallet
      → P s
      → P (env.activate_loan id other s).1)
    (keep_balance : (id other : String) (balance : ℕ) (status : Option LoanStatus) (s : S)
      → other ≢ wallet
      → P s
      → P (env.write_balance id other balance status s).1) where
  LoanWrite_frame :
      (tx : PendingTransaction) (s t : S)
      → tx.user_wallet ≢ wallet
      → LoanWrite env tx s t
      → P s
      → P t
  LoanWrite_frame tx s t ne (untouched e) p = subst P (sym e) p
  LoanWrite_frame tx s t ne (activates id loan _ _ _ e) p =
      subst P (sym e) (keep_activate id tx.user_wallet s ne p)
  LoanWrite_frame tx s t ne (repays id loan amount _ _ e) p =
      subst P (sym e) (keep_balance id tx.user_wallet _ _ s ne p)

  create_notification_frame :
      (tx : PendingTransaction) (status : FinalStatus) (error : Option String) (s : S)
      → tx.user_wallet ≢ wallet
      → P s
      → P (create_notification env tx status error s)
  unfolding create_notification
  create_notification_frame tx status error s ne p =
      keep_notice _ _
        (LoanWrite_frame tx s _ ne (apply_follow_up_actions-LoanWrite env tx status s) p)

  abbrev Kept : {A : Type 0} → Run S CheckerError A → Type 0
  Kept r = Ends (λ _ t. P t) (λ _ t. P t) r

  attempts_frame : (hash : String) (left : ℕ) (s : S) → P s → Kept (attempts env hash left s)
  unfolding attempts
  attempts_frame hash zero s p = p
  attempts_frame hash (suc left) s p =
      let q = keep_horizon hash s p in
      let later = attempts_frame hash left (env.horizon hash s).1 q in ground (arith, q, later)

  after_claim_frame :
      (tx : PendingTransaction) (status : FinalStatus) (error : Option String) (claim : Claim)
      (s : S)
      → tx.user_wallet ≢ wallet
      → P s
      → Kept (after_claim env tx status error claim s)
  unfolding after_claim
  after_claim_frame tx status error claim_error s ne p = p
  after_claim_frame tx status error no_row s ne p = p
  after_claim_frame tx status error claimed s ne p =
      create_notification_frame tx status error s ne p

  settle_found_frame :
      (tx : PendingTransaction) (error : Option String) (o : Option Bool) (s : S)
      → tx.user_wallet ≢ wallet
      → P s
      → Kept (settle_found env tx error o s)
  unfolding settle_found finalize_transaction
  settle_found_frame tx error none s ne p = p
  settle_found_frame tx error (some true) s ne p =
      after_claim_frame tx _ _ _ _ ne (keep_claim tx.transaction_hash _ _ s p)
  settle_found_frame tx error (some false) s ne p =
      after_claim_frame tx _ _ _ _ ne (keep_claim tx.transaction_hash _ _ s p)

  settle_frame :
      (tx : PendingTransaction) (o : Option StatusResult) (s : S)
      → tx.user_wallet ≢ wallet
      → P s
      → Kept (settle env tx o s)
  unfolding settle
  settle_frame tx none s ne p = p
  settle_frame tx (some r) s ne p = settle_found_frame tx r.error_message r.successful s ne p

  process_transaction_frame :
      (tx : PendingTransaction) (s : S)
      → tx.user_wallet ≢ wallet
      → P s
      → Kept (process_transaction env tx s)
  unfolding process_transaction check_transaction_status
  process_transaction_frame tx s ne p =
      Ends->>= (λ _ t. P t) (λ _ t. P t) (λ _ t. P t)
        (check_transaction_status env tx.transaction_hash) (settle env tx) s
        (attempts_frame tx.transaction_hash 3 s p) (λ o t q. settle_frame tx o t ne q)

  final-Kept : {A : Type 0} (r : Run S CheckerError A) → Kept r → P (final r)
  final-Kept (returns a t) p = p
  final-Kept (throws e t) p = p

  process_all_frame :
      (txs : List PendingTransaction) (s : S)
      → All (λ (tx : PendingTransaction). tx.user_wallet ≢ wallet) txs
      → P s
      → P (process_all env txs s)
  unfolding process_all
  process_all_frame [] s h p = p
  process_all_frame (tx ∷ txs) s (ne, later) p =
      process_all_frame txs _ later
        (final-Kept (process_transaction env tx s) (process_transaction_frame tx s ne p))

  -- Take a property `P` of the world that Horizon calls, claims, notifications, the deletion of old
  -- transactions and the loan writes of other wallets keep. If none of the fetched
  -- transactions is of the wallet, a whole cycle keeps `P`.
  pub check_transactions_frame :
      (is_running : Bool) (s : S)
      → ((txs : List PendingTransaction)
          → env.fetch_pending s ≡ some txs
          → All (λ (tx : PendingTransaction). tx.user_wallet ≢ wallet) txs)
      → P s
      → P (check_transactions env is_running s).1
  unfolding check_transactions run_cycle
  check_transactions_frame true s others p = p
  check_transactions_frame false s others p = keep_delete _ (go (env.fetch_pending s) refl)
    where
      go : (o : Option (List PendingTransaction)) → env.fetch_pending s ≡ o → P (run_cycle env o s)
      go none e = p
      go (some []) e = keep_delete s p
      go (some (tx ∷ txs)) e = process_all_frame (tx ∷ txs) s (others (tx ∷ txs) e) p
