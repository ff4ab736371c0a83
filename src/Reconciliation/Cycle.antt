-- ===== src/Reconciliation/Cycle.antt =====
-- `reconcile` and `runScheduled` of src/jobs/state-reconciliation/state-reconciliation.processor.ts, one
-- after the other. The logs are left out.
use step_fi_api.Common.{
  ℕ, ◌==◌, Bool, true, false, List, [], ◌∷◌, ◌++◌, map, length, count_of, Act, ◌>>=◌, ◌>>◌, done,
  read, or_throw, call, final,
}
use step_fi_api.Reconciliation.{
  DriftType, missing_loan_row, stale_loan_status, provisional_loan_id, orphaned_pending_transaction,
  missing_transaction_row, stale_liquidity_position, stale_reputation, DriftItem,
  ReconciliationError, read_loans_failed, read_transactions_failed, ReconciliationEnv,
}
use step_fi_api.Reconciliation.Reader.{read_state}
use step_fi_api.Reconciliation.Service.{with_hash, reconcile_loans, reconcile_transactions}
use step_fi_api.Reconciliation.Wallets.{reconcile_liquidity, reconcile_reputation}

-- The times are left out.
pub record DriftReport : Type 0 where
  pub drift_count : ℕ
  pub repaired_count : ℕ
  pub by_type : List (DriftType × ℕ)
  pub items : List DriftItem

abbrev pub drift_types : List DriftType
drift_types =
    missing_loan_row ∷ stale_loan_status ∷ provisional_loan_id ∷ orphaned_pending_transaction
    ∷ missing_transaction_row ∷ stale_liquidity_position ∷ stale_reputation ∷ []

abbrev pub index_of : DriftType → ℕ
index_of missing_loan_row = 0
index_of stale_loan_status = 1
index_of provisional_loan_id = 2
index_of orphaned_pending_transaction = 3
index_of missing_transaction_row = 4
index_of stale_liquidity_position = 5
index_of stale_reputation = 6

abbrev pub same_type : DriftType → DriftType → Bool
same_type a b = index_of a == index_of b

-- `byType[type]` after the loop over the items
abbrev pub count_type : List DriftItem → DriftType → ℕ
count_type items t = count_of (λ item. same_type item.drift_type t) items

unfoldable pub report_of : List DriftItem → DriftReport
report_of items = record {
  drift_count = length items;
  repaired_count = count_of (λ item. item.repaired) items;
  by_type = map (λ t. (t, count_type items t)) drift_types;
  items = items;
}

module _ {S : Type 0} (env : ReconciliationEnv S) where
  abbrev pub set_drifts : List (DriftType × ℕ) → S → S
  set_drifts [] s = s
  set_drifts ((t, n) ∷ rest) s = set_drifts rest (env.set_drift t n s)

  unfoldable pub reconcile : Act S ReconciliationError DriftReport
  reconcile = do
    chain ← read_state env
    loan_reply ← read env.loans
    loans ← or_throw loan_reply read_loans_failed
    transaction_reply ← read env.transactions
    rows ← or_throw transaction_reply read_transactions_failed
    a ← reconcile_loans env chain.loans loans
    b ← reconcile_transactions env chain.transaction_hashes (with_hash rows)
    c ← reconcile_liquidity env chain.liquidity_positions
    d ← reconcile_reputation env chain.reputations
    let report = report_of (a ++ (b ++ (c ++ d)))
    call (λ s. (tt, set_drifts report.by_type s))
    done report

  -- `isRunning` and the world outside; an error is only logged.
  unfoldable pub run_scheduled : Bool × S → Bool × S
  run_scheduled (true, s) = (true, s)
  run_scheduled (false, s) = (false, final (reconcile s))
