-- ===== src/Reconciliation/Tests.antt =====
-- Runs of the reconciliation on small tables.
use step_fi_api.Common.{
  ℕ, ◌+◌, ◌<◌, ◌≡◌, refl, String, Bool, true, false, List, [], ◌∷◌, none, some, str_eq, eq_iff,
  if◌then◌else◌, arith, returns, All, Ends,
}
use step_fi_api.Reconciliation.{
  AuthoritativeLoan, AuthoritativeReputation, LiquidityPosition, ReconciliationLoanRow,
  ReconciliationTransaction, LiquidityRow, ReputationRow, ReputationHistoryRow, TransactionChange,
  succeeded, orphaned, ReconciliationEnv, DriftItem, stale_reputation, of_score, score_without_row,
  stale_liquidity_position, of_amount,
}
use step_fi_api.Reconciliation.Reader.{state_of}
use step_fi_api.Reconciliation.Service.{reconcile_transactions, reconcile_loans}
use step_fi_api.Reconciliation.Wallets.{reconcile_position, reconcile_liquidity}
use step_fi_api.Reconciliation.Sync.{Distinct}
use step_fi_api.Reconciliation.Convergence.{
  TableLaws, PositionSettled, position_view, reconcile_liquidity-again,
}
use step_fi_api.Reconciliation.Report.{state_of_lem}
use step_fi_api.Reconciliation.Totals.{has_position, amount_of, indexed_score, latest_score}
use step_fi_api.Reconciliation.Orphans.{
  reconcile_transactions_frame, resolved_item, reconcile_loans_clash,
}

-- The score and the amount of the wallet "GA", and whether a transaction has been failed.
abbrev Tables : Type 0
Tables = ℕ × ℕ × Bool

abbrev score_row : ℕ → ReputationRow
score_row n = record { wallet_address = "GA"; score = n }

abbrev position_row : ℕ → LiquidityRow
position_row n = record { id = "p1"; provider_wallet = "GA"; deposited_amount = n }

abbrev after_change : TransactionChange → Bool → Bool
after_change succeeded failed = failed
after_change orphaned failed = true

abbrev env : ReconciliationEnv Tables
env = record {
  now = λ s. 2_000_000;
  parse_date = λ text. some 1_000_000;
  lower = λ text. text;
  loan_index = λ s. some [];
  investments_index = λ s. some [];
  reputation_history = λ s. some [];
  payment_index = λ s. some [];
  loans = λ s. some [];
  update_status = λ id status s. (true, s);
  resolve_id = λ id loan_id status s. (true, s);
  transactions = λ s. some [];
  update_transaction = λ id change s. (true, (s.0, s.1, after_change change s.2));
  backfill = λ hash s. (true, s);
  positions = λ s. some (position_row s.1 ∷ []);
  update_position =
      λ id p s. if str_eq p.user_wallet "GA" then (true, (s.0, p.amount, s.2)) else (false, s);
  insert_position = λ p s. (false, s);
  reputation_cache = λ s. some (score_row s.0 ∷ []);
  update_score = λ w n s. if str_eq w "GA" then (true, (n, s.1, s.2)) else (false, s);
  set_drift = λ t n s. s;
}

laws : TableLaws env
laws = record {
  scores = λ s. score_row s.0 ∷ [];
  scores_read = λ s. refl;
  score_updated = λ w n s t row there wrote. (
    (score_row n, ground (arith, eq_iff w "GA", eq_iff "GA" w), refl),
    λ k ne. ground (arith, eq_iff w "GA", eq_iff "GA" w, eq_iff "GA" k),
  );
  positions = λ s. position_row s.1 ∷ [];
  positions_read = λ s. refl;
  position_updated = λ p s t row there wrote. (
    (
      position_row p.amount,
      ground (arith, eq_iff p.user_wallet "GA", eq_iff "GA" p.user_wallet),
      refl,
    ),
    λ k ne. ground (arith, eq_iff p.user_wallet "GA", eq_iff "GA" p.user_wallet, eq_iff "GA" k),
  );
  position_inserted = λ p s t missing wrote. cc;
}

abbrev scores : List AuthoritativeReputation
scores = record { wallet = "GA"; score = 80 } ∷ record { wallet = "GB"; score = 60 } ∷ []

abbrev score_item : DriftItem
score_item = record {
  drift_type = stale_reputation;
  key = "GA";
  repaired = true;
  details = of_score 80;
}

abbrev missing_item : DriftItem
missing_item = record {
  drift_type = stale_reputation;
  key = "GB";
  repaired = false;
  details = score_without_row 60;
}

abbrev chain_positions : List LiquidityPosition
chain_positions = record { user_wallet = "GA"; amount = 9 } ∷ []

abbrev position_item : DriftItem
position_item = record {
  drift_type = stale_liquidity_position;
  key = "GA";
  repaired = true;
  details = of_amount 9;
}

reconcile_liquidity-again_example :
    All
      (λ p. PositionSettled p (position_view env laws p.user_wallet (70, 9, false)))
      chain_positions
    × (reconcile_liquidity env chain_positions (70, 9, false) ≡ returns [] (70, 9, false))
unfolding reconcile_liquidity reconcile_position
reconcile_liquidity-again_example =
    reconcile_liquidity-again env laws chain_positions (70, 5, false) (70, 9, false)
      (position_item ∷ []) (tt, tt) refl

abbrev transaction : ReconciliationTransaction
transaction = record { id = "t1"; hash = "h1"; status = "pending"; submitted_at = "long ago" }

-- A pending transaction that is not on the chain is too young to be failed.
reconcile_transactions_frame_example :
    Ends
      (λ _ t. t.2 ≡ false)
      (λ _ t. t.2 ≡ false)
      (reconcile_transactions env ("h2" ∷ []) (transaction ∷ []) (70, 5, false))
reconcile_transactions_frame_example =
    reconcile_transactions_frame env (λ s. s.2 ≡ false) ("h2" ∷ []) (transaction ∷ [])
      (λ hash s p. p) (λ id s p. p) (λ row u s m q orphan p. absurd (too_young row orphan.old))
      (70, 5, false) refl
  where
    too_young :
        (row : ReconciliationTransaction)
        → (at : ℕ) × (some 1_000_000 ≡ some at) × (at + 1_800_000 < 2_000_000)
        → ⊥
    too_young row (at, e, young) = let same : 1_000_000 ≡ at = cc in omega arith

abbrev loan : String → ℕ → AuthoritativeLoan
loan id amount = record {
  loan_id = id;
  user_wallet = "GA";
  status = "active";
  principal_amount = amount;
  transaction_hash = none;
}

abbrev provisional : ReconciliationLoanRow
provisional = record {
  id = "1";
  loan_id = "pending_1";
  user_wallet = "GA";
  amount = 500;
  status = "pending";
}

-- The tables with the loan id and the status of the one row before them.
abbrev Row : Type 0
Row = String × String

abbrev row_env : ReconciliationEnv Row
row_env = record {
  now = λ s. 2_000_000;
  parse_date = λ text. some 1_000_000;
  lower = λ text. text;
  loan_index = λ s. some [];
  investments_index = λ s. some [];
  reputation_history = λ s. some [];
  payment_index = λ s. some [];
  loans = λ s. some (record provisional { loan_id = s.0; status = s.1 } ∷ []);
  update_status = λ id status s. (true, (s.0, status));
  resolve_id = λ id loan_id status s. (true, (loan_id, status));
  transactions = λ s. some [];
  update_transaction = λ id change s. (true, s);
  backfill = λ hash s. (true, s);
  positions = λ s. some [];
  update_position = λ id p s. (false, s);
  insert_position = λ p s. (false, s);
  reputation_cache = λ s. some [];
  update_score = λ w n s. (false, s);
  set_drift = λ t n s. s;
}

reconcile_loans_clash_example :
    reconcile_loans row_env
      (loan "7" 400 ∷ loan "8" 9_000 ∷ [])
      (provisional ∷ [])
      ("pending_1", "pending")
    ≡ returns
        (resolved_item row_env provisional (loan "7" 400)
          ∷ resolved_item row_env provisional (loan "8" 9_000)
          ∷ [])
        ("8", "active")
reconcile_loans_clash_example =
    reconcile_loans_clash row_env provisional (loan "7" 400) (loan "8" 9_000)
      ("pending_1", "pending") ("7", "active") ("8", "active") refl refl refl
      (λ e. cc ((eq_iff "pending_1" "7").1 e)) (λ e. cc ((eq_iff "pending_1" "8").1 e)) refl refl

abbrev invested : List LiquidityPosition
invested =
    record { user_wallet = "GA"; amount = 5 }
    ∷ record { user_wallet = "GB"; amount = 1 }
    ∷ record { user_wallet = "GA"; amount = 4 }
    ∷ []

abbrev past_scores : List ReputationHistoryRow
past_scores =
    record { user_wallet = "GA"; new_score = 70; transaction_hash = none }
    ∷ record { user_wallet = "GB"; new_score = 50; transaction_hash = none }
    ∷ record { user_wallet = "GA"; new_score = 60; transaction_hash = none }
    ∷ []

state_of_lem_example :
    let chain = state_of [] invested past_scores [] in
    Distinct (λ p. p.user_wallet) chain.liquidity_positions
    × ((k : String) → has_position k chain.liquidity_positions ≡ has_position k invested)
    × All (λ p. p.amount ≡ amount_of p.user_wallet invested) chain.liquidity_positions
    × Distinct (λ r. r.wallet) chain.reputations
    × ((k : String) → indexed_score k chain.reputations ≡ latest_score k past_scores)
state_of_lem_example = state_of_lem [] invested past_scores []
