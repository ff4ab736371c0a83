-- ===== src/Reconciliation/Reader.antt =====
-- `read` of src/indexer/authoritative-state.reader.ts. A JavaScript Map is the list of its entries in
-- the order in which their keys came, a Set the list of its elements.
use step_fi_api.Common.{
  ◌+◌, String, List, [], ◌∷◌, ◌++◌, map, Option, none, some, str_eq, if◌then◌else◌, Act, ◌>>=◌,
  done, read, or_throw,
}
use step_fi_api.Checker.Types.{truthy}
use step_fi_api.Access.Roles.{includes}
use step_fi_api.Reconciliation.{
  AuthoritativeLoan, LiquidityPosition, AuthoritativeReputation, AuthoritativeState,
  ReputationHistoryRow, ReconciliationError, indexed_state_failed, ReconciliationEnv,
}

-- The first row of a wallet is its latest.
unfoldable pub add_latest :
    List AuthoritativeReputation → ReputationHistoryRow → List AuthoritativeReputation
add_latest latest row =
    if includes (map (λ r. r.wallet) latest) row.user_wallet
    then latest
    else latest ++ record { wallet = row.user_wallet; score = row.new_score } ∷ []

unfoldable pub latest_reputation :
    List AuthoritativeReputation → List ReputationHistoryRow → List AuthoritativeReputation
latest_reputation latest [] = latest
latest_reputation latest (row ∷ rows) = latest_reputation (add_latest latest row) rows

unfoldable pub add_amount : List LiquidityPosition → LiquidityPosition → List LiquidityPosition
add_amount [] row = row ∷ []
add_amount (p ∷ ps) row =
    let rest = add_amount ps row in
    if str_eq p.user_wallet row.user_wallet
    then record p { amount = p.amount + row.amount } ∷ ps
    else p ∷ rest

unfoldable pub liquidity_by_wallet :
    List LiquidityPosition → List LiquidityPosition → List LiquidityPosition
liquidity_by_wallet totals [] = totals
liquidity_by_wallet totals (row ∷ rows) = liquidity_by_wallet (add_amount totals row) rows

abbrev pub add_new : List String → String → List String
add_new set hash = if includes set hash then set else set ++ hash ∷ []

abbrev pub add_hash : List String → Option String → List String
add_hash set none = set
add_hash set (some hash) = add_new set hash

unfoldable pub add_hashes : List String → List (Option String) → List String
add_hashes set [] = set
add_hashes set (hash ∷ hashes) = add_hashes (add_hash set (truthy hash)) hashes

unfoldable pub state_of :
    List AuthoritativeLoan
    → List LiquidityPosition
    → List ReputationHistoryRow
    → List String
    → AuthoritativeState
state_of loans investments history payments = record {
  loans = loans;
  liquidity_positions = liquidity_by_wallet [] investments;
  reputations = latest_reputation [] history;
  transaction_hashes =
      add_hashes
        (add_hashes (add_hashes [] (map (λ l. l.transaction_hash) loans))
          (map (λ r. r.transaction_hash) history))
        (map some payments);
}

module _ {S : Type 0} (env : ReconciliationEnv S) where
  unfoldable pub read_state : Act S ReconciliationError AuthoritativeState
  read_state = do
    loan_reply ← read env.loan_index
    loans ← or_throw loan_reply indexed_state_failed
    investment_reply ← read env.investments_index
    investments ← or_throw investment_reply indexed_state_failed
    history_reply ← read env.reputation_history
    history ← or_throw history_reply indexed_state_failed
    payment_reply ← read env.payment_index
    payments ← or_throw payment_reply indexed_state_failed
    done (state_of loans investments history payments)
