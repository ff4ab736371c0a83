-- ===== src/Reconciliation.antt =====
-- src/jobs/state-reconciliation/state-reconciliation.processor.ts, src/indexer/authoritative-state.reader.ts
-- and the parts of src/modules/loans/loans.repository.ts and
-- src/modules/transactions/transactions.repository.ts that it calls: the data, and what it reads and
-- writes. Amounts are stroops. The update times that the writes set are the tables' own.
pub mod Reader
pub mod Service
pub mod Wallets
pub mod Cycle
pub mod Sync
pub mod Convergence
pub mod Report
pub mod Totals
pub mod Orphans
mod Tests
use step_fi_api.Common.{
  ℕ, ◌+◌, ◌-◌, ◌*◌, String, Bool, List, [], ◌∷◌, ◌++◌, Option, none, some, Act, ◌>>=◌, done,
  if◌then◌else◌,
}

pub record AuthoritativeLoan : Type 0 where
  pub loan_id : String
  pub user_wallet : String
  pub status : String
  pub principal_amount : ℕ
  pub transaction_hash : Option String

pub record LiquidityPosition : Type 0 where
  pub user_wallet : String
  pub amount : ℕ

pub record AuthoritativeReputation : Type 0 where
  pub wallet : String
  pub score : ℕ

pub record AuthoritativeState : Type 0 where
  pub loans : List AuthoritativeLoan
  pub liquidity_positions : List LiquidityPosition
  pub reputations : List AuthoritativeReputation
  pub transaction_hashes : List String

pub record ReputationHistoryRow : Type 0 where
  pub user_wallet : String
  pub new_score : ℕ
  pub transaction_hash : Option String

pub record ReconciliationLoanRow : Type 0 where
  pub id : String
  pub loan_id : String
  pub user_wallet : String
  pub amount : ℕ
  pub status : String

pub record TransactionRow : Type 0 where
  pub id : String
  pub transaction_hash : Option String
  pub hash : Option String
  pub status : String
  pub submitted_at : String

pub record ReconciliationTransaction : Type 0 where
  pub id : String
  pub hash : String
  pub status : String
  pub submitted_at : String

pub record LiquidityRow : Type 0 where
  pub id : String
  pub provider_wallet : String
  pub deposited_amount : ℕ

pub record ReputationRow : Type 0 where
  pub wallet_address : String
  pub score : ℕ

pub data DriftType : Type 0 where
  missing_loan_row stale_loan_status provisional_loan_id : DriftType
  orphaned_pending_transaction missing_transaction_row : DriftType
  stale_liquidity_position stale_reputation : DriftType

pub data DriftDetails : Type 0 where
  no_details : DriftDetails
  status_change : (from to : String) → DriftDetails
  chain_loan_id : String → DriftDetails
  of_wallet : String → DriftDetails
  resolution : String → DriftDetails
  of_amount : ℕ → DriftDetails
  of_score : ℕ → DriftDetails
  score_without_row : ℕ → DriftDetails

pub record DriftItem : Type 0 where
  pub drift_type : DriftType
  pub key : String
  pub repaired : Bool
  pub details : DriftDetails

pub data ReconciliationError : Type 0 where
  indexed_state_failed read_loans_failed read_transactions_failed : ReconciliationError
  update_status_failed resolve_id_failed : ReconciliationError
  backfill_failed update_transaction_failed : ReconciliationError
  read_positions_failed write_position_failed : ReconciliationError
  read_scores_failed write_score_failed : ReconciliationError

-- What `update` of a transaction sets.
pub data TransactionChange : Type 0 where
  succeeded orphaned : TransactionChange

-- The tables, the clock and the metrics. A read gives `none` for an error, a write `false`.
pub record ReconciliationEnv (S : Type 0) : Type 0 where
  pub now : S → ℕ
  -- `Date.parse`; `none` for NaN
  pub parse_date : String → Option ℕ
  pub lower : String → String
  pub loan_index : S → Option (List AuthoritativeLoan)
  pub investments_index : S → Option (List LiquidityPosition)
  -- the rows with the highest ledger first
  pub reputation_history : S → Option (List ReputationHistoryRow)
  pub payment_index : S → Option (List String)
  pub loans : S → Option (List ReconciliationLoanRow)
  pub update_status : String → String → S → Bool × S
  pub resolve_id : String → String → String → S → Bool × S
  pub transactions : S → Option (List TransactionRow)
  pub update_transaction : String → TransactionChange → S → Bool × S
  pub backfill : String → S → Bool × S
  pub positions : S → Option (List LiquidityRow)
  pub update_position : String → LiquidityPosition → S → Bool × S
  pub insert_position : LiquidityPosition → S → Bool × S
  pub reputation_cache : S → Option (List ReputationRow)
  pub update_score : String → ℕ → S → Bool × S
  pub set_drift : DriftType → ℕ → S → S

-- `for (const x of xs)`, with the items that the rounds push.
abbrev pub each : {S E A B : Type 0} → (A → Act S E (List B)) → List A → Act S E (List B)
each f [] = done []
each f (x ∷ xs) = do first ← f x; rest ← each f xs; done (first ++ rest)

-- `new Map(xs.map((x) => [key(x), x])).get(k)`: the last match.
abbrev pub last_match : {A : Type 0} → (A → Bool) → List A → Option A
last_match p [] = none
last_match p (x ∷ xs) = elim (last_match p xs) [
  | some y ↦ some y
  | none ↦ if p x then some x else none
]
