-- ===== src/Reconciliation/Report.antt =====
-- The report of src/jobs/state-reconciliation/state-reconciliation.processor.ts and the state that
-- src/indexer/authoritative-state.reader.ts hands it.
use mathlib.Core.Path.{fun_ext, subst}
use step_fi_api.Common.{
  ℕ, ◌+◌, ◌≤◌, ◌≡◌, ◌≢◌, inl, inr, refl, String, false, List, [], ◌∷◌, ◌++◌, map, str_eq, eq_iff,
  ne-str_eq, arith, length, count_of-le-length, All, Bool-cases,
}
use step_fi_api.Access.Roles.{includes}
use step_fi_api.Reconciliation.{
  DriftType, missing_loan_row, stale_loan_status, provisional_loan_id, orphaned_pending_transaction,
  missing_transaction_row, stale_liquidity_position, stale_reputation, DriftItem, AuthoritativeLoan,
  LiquidityPosition, AuthoritativeReputation, ReputationHistoryRow,
}
use step_fi_api.Reconciliation.Reader.{
  state_of, add_amount, liquidity_by_wallet, add_latest, latest_reputation,
}
use step_fi_api.Reconciliation.Sync.{Distinct, All-append}
use step_fi_api.Reconciliation.Totals.{
  amount_of, has_position, amount_of-liquidity_by_wallet, has_position-liquidity_by_wallet,
  amount_of-Distinct, indexed_score, latest_score, indexed_score-latest_reputation,
}
use step_fi_api.Reconciliation.Cycle.{drift_types, count_type, report_of}

abbrev pub total_of : List (DriftType × ℕ) → ℕ
total_of [] = 0
total_of ((t, n) ∷ rest) = n + total_of rest

count_types-length :
    (items : List DriftItem)
    → total_of (map (λ t. (t, count_type items t)) drift_types) ≡ length items
count_types-length [] = refl
count_types-length (x ∷ xs) = go x.drift_type refl (count_types-length xs)
  where
    go :
        (t : DriftType)
        → x.drift_type ≡ t
        → total_of (map (λ t. (t, count_type xs t)) drift_types) ≡ length xs
        → total_of (map (λ t. (t, count_type (x ∷ xs) t)) drift_types) ≡ length (x ∷ xs)
    go missing_loan_row e ih = rw e (omega (arith, ih))
    go stale_loan_status e ih = rw e (omega (arith, ih))
    go provisional_loan_id e ih = rw e (omega (arith, ih))
    go orphaned_pending_transaction e ih = rw e (omega (arith, ih))
    go missing_transaction_row e ih = rw e (omega (arith, ih))
    go stale_liquidity_position e ih = rw e (omega (arith, ih))
    go stale_reputation e ih = rw e (omega (arith, ih))

-- The report counts every item once: the counts of the seven types add up to the number of items,
-- and the repaired items are no more.
pub report_of_balanced :
    (items : List DriftItem)
    → let r = report_of items in
      (total_of r.by_type ≡ r.drift_count)
      × (r.repaired_count ≤ r.drift_count)
      × (r.drift_count ≡ length r.items)
unfolding report_of
report_of_balanced items =
    (count_types-length items, count_of-le-length (λ item. item.repaired) items, refl)

-- A wallet that the list does not have.
add_amount-other :
    (k : String) (ps : List LiquidityPosition) (row : LiquidityPosition)
    → k ≢ row.user_wallet
    → All (λ p. k ≢ p.user_wallet) ps
    → All (λ p. k ≢ p.user_wallet) (add_amount ps row)
unfolding add_amount
add_amount-other k [] row ne all = (ne, tt)
add_amount-other k (p ∷ ps) row ne all = elim (Bool-cases (str_eq p.user_wallet row.user_wallet)) [
  | inl same ↦ rw same all
  | inr other ↦ rw other (all.0, add_amount-other k ps row ne all.1)
]

add_amount-Distinct :
    (ps : List LiquidityPosition) (row : LiquidityPosition)
    → Distinct (λ p. p.user_wallet) ps
    → Distinct (λ p. p.user_wallet) (add_amount ps row)
unfolding add_amount
add_amount-Distinct [] row d = (tt, tt)
add_amount-Distinct (p ∷ ps) row d = elim (Bool-cases (str_eq p.user_wallet row.user_wallet)) [
  | inl same ↦ rw same d
  | inr other ↦ rw other (
    add_amount-other p.user_wallet ps row (ne-str_eq p.user_wallet row.user_wallet other) d.0,
    add_amount-Distinct ps row d.1,
  )
]

liquidity_by_wallet-Distinct :
    (totals rows : List LiquidityPosition)
    → Distinct (λ p. p.user_wallet) totals
    → Distinct (λ p. p.user_wallet) (liquidity_by_wallet totals rows)
unfolding liquidity_by_wallet
liquidity_by_wallet-Distinct totals [] d = d
liquidity_by_wallet-Distinct totals (row ∷ rows) d =
    liquidity_by_wallet-Distinct (add_amount totals row) rows (add_amount-Distinct totals row d)

wallets_differ :
    (k : String) (xs : List AuthoritativeReputation)
    → includes (map (λ r. r.wallet) xs) k ≡ false
    → All (λ r. r.wallet ≢ k) xs
unfolding includes
wallets_differ k [] h = tt
wallets_differ k (x ∷ xs) h =
    (ground (arith, eq_iff x.wallet k), wallets_differ k xs (ground arith))

append-Distinct :
    (xs : List AuthoritativeReputation) (y : AuthoritativeReputation)
    → Distinct (λ r. r.wallet) xs
    → All (λ r. r.wallet ≢ y.wallet) xs
    → Distinct (λ r. r.wallet) (xs ++ y ∷ [])
append-Distinct [] y d other = (tt, tt)
append-Distinct (x ∷ xs) y d other = (
  All-append (λ r. x.wallet ≢ r.wallet) xs (y ∷ []) d.0 (other.0, tt),
  append-Distinct xs y d.1 other.1,
)

latest_reputation-Distinct :
    (latest : List AuthoritativeReputation) (rows : List ReputationHistoryRow)
    → Distinct (λ r. r.wallet) latest
    → Distinct (λ r. r.wallet) (latest_reputation latest rows)
unfolding latest_reputation add_latest
latest_reputation-Distinct latest [] d = d
latest_reputation-Distinct latest (row ∷ rows) d =
    latest_reputation-Distinct (add_latest latest row) rows
      (elim (Bool-cases (includes (map (λ r. r.wallet) latest) row.user_wallet)) [
        | inl old ↦ rw old d
        | inr new ↦ rw new (append-Distinct latest _ d (wallets_differ row.user_wallet latest new))
      ])

-- In the state that the reader makes of the index each wallet has one position at most and one score
-- at most. A wallet has a position just when it has an investment, and the amount of the position is the
-- sum of the wallet's investments; and its score is the one of its first row in the history, none
-- when it has no row.
pub state_of_lem :
    (loans : List AuthoritativeLoan) (investments : List LiquidityPosition)
    (history : List ReputationHistoryRow) (payments : List String)
    → let chain = state_of loans investments history payments in
      Distinct (λ p. p.user_wallet) chain.liquidity_positions
      × ((k : String) → has_position k chain.liquidity_positions ≡ has_position k investments)
      × All (λ p. p.amount ≡ amount_of p.user_wallet investments) chain.liquidity_positions
      × Distinct (λ r. r.wallet) chain.reputations
      × ((k : String) → indexed_score k chain.reputations ≡ latest_score k history)
unfolding state_of includes
state_of_lem loans investments history payments =
    let positions = liquidity_by_wallet [] investments in
    let once = liquidity_by_wallet-Distinct [] investments tt in
    (
      once,
      λ k. has_position-liquidity_by_wallet k [] investments,
      subst (λ f. All (λ p. p.amount ≡ f p.user_wallet) positions)
          (fun_ext (λ w. omega (arith, amount_of-liquidity_by_wallet w [] investments)))
          (amount_of-Distinct positions once),
      latest_reputation-Distinct [] history tt,
      λ k. indexed_score-latest_reputation k [] history,
    )
