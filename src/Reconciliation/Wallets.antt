-- ===== src/Reconciliation/Wallets.antt =====
-- `reconcileLiquidity` and `reconcileReputation` of
-- src/jobs/state-reconciliation/state-reconciliation.processor.ts.
use step_fi_api.Common.{
  ℕ, ◌==◌, Bool, true, false, List, [], ◌∷◌, Option, none, some, str_eq, if◌then◌else◌, Act, ◌>>=◌,
  ◌>>◌, done, require, read, or_throw, call,
}
use step_fi_api.Reconciliation.{
  LiquidityPosition, AuthoritativeReputation, LiquidityRow, ReputationRow, stale_liquidity_position,
  stale_reputation, of_amount, of_score, score_without_row, DriftItem, ReconciliationError,
  read_positions_failed, write_position_failed, read_scores_failed, write_score_failed,
  ReconciliationEnv, each, last_match,
}

module _ {S : Type 0} (env : ReconciliationEnv S) where
  abbrev pub write_position :
      Option LiquidityRow → LiquidityPosition → Act S ReconciliationError (List DriftItem)
  write_position row position = do
    written ← call (elim row [
      | some r ↦ env.update_position r.id position
      | none ↦ env.insert_position position
    ])
    require written write_position_failed
    done (
        record {
          drift_type = stale_liquidity_position;
          key = position.user_wallet;
          repaired = true;
          details = of_amount position.amount;
        }
        ∷ [])

  abbrev pub same_amount : Option LiquidityRow → ℕ → Bool
  same_amount none amount = false
  same_amount (some row) amount = row.deposited_amount == amount

  abbrev pub reconcile_found_position :
      Option LiquidityRow → LiquidityPosition → Act S ReconciliationError (List DriftItem)
  reconcile_found_position row position =
      if same_amount row position.amount then done [] else write_position row position

  unfoldable pub reconcile_position :
      List LiquidityRow → LiquidityPosition → Act S ReconciliationError (List DriftItem)
  reconcile_position rows position =
      reconcile_found_position
        (last_match (λ row. str_eq row.provider_wallet position.user_wallet) rows) position

  unfoldable pub reconcile_liquidity :
      List LiquidityPosition → Act S ReconciliationError (List DriftItem)
  reconcile_liquidity positions = do
    reply ← read env.positions
    rows ← or_throw reply read_positions_failed
    each (reconcile_position rows) positions

  abbrev pub reconcile_found_score :
      Option ReputationRow → AuthoritativeReputation → Act S ReconciliationError (List DriftItem)
  reconcile_found_score none reputation = done (
      record {
        drift_type = stale_reputation;
        key = reputation.wallet;
        repaired = false;
        details = score_without_row reputation.score;
      }
      ∷ [])
  reconcile_found_score (some row) reputation =
      if row.score == reputation.score then done [] else (do
        updated ← call (env.update_score reputation.wallet reputation.score)
        require updated write_score_failed
        done (
            record {
              drift_type = stale_reputation;
              key = reputation.wallet;
              repaired = true;
              details = of_score reputation.score;
            }
            ∷ []))

  unfoldable pub reconcile_score :
      List ReputationRow → AuthoritativeReputation → Act S ReconciliationError (List DriftItem)
  reconcile_score rows reputation =
      reconcile_found_score (last_match (λ row. str_eq row.wallet_address reputation.wallet) rows)
        reputation

  unfoldable pub reconcile_reputation :
      List AuthoritativeReputation → Act S ReconciliationError (List DriftItem)
  reconcile_reputation reputations = do
    reply ← read env.reputation_cache
    rows ← or_throw reply read_scores_failed
    each (reconcile_score rows) reputations
