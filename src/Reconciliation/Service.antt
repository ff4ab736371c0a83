-- ===== src/Reconciliation/Service.antt =====
-- The cycle of src/jobs/state-reconciliation/state-reconciliation.processor.ts. The three reads at its
-- start run concurrently; the error of the first that fails in this order is taken.
use text.Mathlib.Text.{starts_with}
use step_fi_api.Common.{
  ℕ, ◌+◌, ◌-◌, ◌*◌, ltb, String, Bool, true, false, not, ◌&&◌, ◌||◌, List, [], ◌∷◌, ◌++◌, Option,
  none, some, str_eq, if◌then◌else◌, find_first, Act, ◌>>=◌, ◌>>◌, done, require, read, call,
}
use step_fi_api.Checker.Types.{truthy}
use step_fi_api.Access.Roles.{includes}
use step_fi_api.Reconciliation.{
  AuthoritativeLoan, ReconciliationLoanRow, TransactionRow, ReconciliationTransaction, DriftType,
  missing_loan_row, stale_loan_status, provisional_loan_id, orphaned_pending_transaction,
  missing_transaction_row, no_details, status_change, chain_loan_id, of_wallet, resolution,
  DriftItem, ReconciliationError, update_status_failed, resolve_id_failed, backfill_failed,
  update_transaction_failed, TransactionChange, succeeded, orphaned, ReconciliationEnv, each,
  last_match,
}
use step_fi_api.Reconciliation.Reader.{add_new}

abbrev pub is_provisional : ReconciliationLoanRow → Bool
is_provisional row =
    starts_with row.loan_id "loan_"
    || starts_with row.loan_id "pending_"
    || starts_with row.loan_id "pending-"

abbrev pub abs_diff : ℕ → ℕ → ℕ
abs_diff a b = (a - b) + (b - a)

-- 0.000001 is ten stroops; the second line is in tenths of a stroop.
unfoldable pub amounts_match : ReconciliationLoanRow → AuthoritativeLoan → Bool
amounts_match candidate loan =
    ltb (abs_diff candidate.amount loan.principal_amount) 10
    || ltb (abs_diff (8 * candidate.amount) (10 * loan.principal_amount)) 100

abbrev pub filter_by : {A : Type 0} → (A → Bool) → List A → List A
filter_by p [] = []
filter_by p (x ∷ xs) = let rest = filter_by p xs in if p x then x ∷ rest else rest

-- `candidates.length === 1 ? candidates[0] : undefined`
abbrev pub only_one : {A : Type 0} → List A → Option A
only_one [] = none
only_one (x ∷ []) = some x
only_one (x ∷ y ∷ ys) = none

unfoldable pub provisional_match :
    List ReconciliationLoanRow → AuthoritativeLoan → Option ReconciliationLoanRow
unfolding amounts_match
provisional_match provisional loan =
    let candidates = filter_by (λ c. str_eq c.user_wallet loan.user_wallet) provisional in
    elim (find_first (λ c. amounts_match c loan) candidates) [
      | some row ↦ some row
      | none ↦ only_one candidates
    ]

-- `transaction_hash ?? hash`, without the rows that have none
abbrev pub hash_of : TransactionRow → Option String
hash_of row = elim row.transaction_hash [ some h ↦ truthy (some h) | none ↦ truthy row.hash ]

abbrev pub with_hash : List TransactionRow → List ReconciliationTransaction
with_hash [] = []
with_hash (row ∷ rows) = elim (hash_of row) [
  | none ↦ with_hash rows
  | some h ↦
      record { id = row.id; hash = h; status = row.status; submitted_at = row.submitted_at }
      ∷ with_hash rows
]

abbrev pub is_older : Option ℕ → ℕ → Bool
is_older none now = false
is_older (some submitted) now = ltb (submitted + 1_800_000) now

module _ {S : Type 0} (env : ReconciliationEnv S) where
  unfoldable pub update_status : String → String → Act S ReconciliationError (Unit {0})
  update_status id status = do
    updated ← call (env.update_status id status)
    require updated update_status_failed

  unfoldable pub resolve_provisional_id :
      String → AuthoritativeLoan → Act S ReconciliationError (Unit {0})
  resolve_provisional_id id loan = do
    updated ← call (env.resolve_id id loan.loan_id loan.status)
    require updated resolve_id_failed

  abbrev pub reconcile_without_row :
      Option ReconciliationLoanRow → AuthoritativeLoan → Act S ReconciliationError (List DriftItem)
  reconcile_without_row none loan = done (
      record {
        drift_type = missing_loan_row;
        key = loan.loan_id;
        repaired = false;
        details = of_wallet loan.user_wallet;
      }
      ∷ [])
  reconcile_without_row (some row) loan = do
    resolve_provisional_id row.id loan
    done (
        record {
          drift_type = provisional_loan_id;
          key = row.loan_id;
          repaired = true;
          details = chain_loan_id loan.loan_id;
        }
        ∷ [])

  abbrev pub reconcile_row :
      ReconciliationLoanRow → AuthoritativeLoan → Act S ReconciliationError (List DriftItem)
  reconcile_row row loan = if str_eq row.status loan.status then done [] else (do
    update_status row.id loan.status
    done (
        record {
          drift_type = stale_loan_status;
          key = loan.loan_id;
          repaired = true;
          details = status_change row.status loan.status;
        }
        ∷ []))

  unfoldable pub reconcile_loan :
      List ReconciliationLoanRow → AuthoritativeLoan → Act S ReconciliationError (List DriftItem)
  unfolding provisional_match
  reconcile_loan rows loan = elim (last_match (λ row. str_eq row.loan_id loan.loan_id) rows) [
    | some row ↦ reconcile_row row loan
    | none ↦ reconcile_without_row (provisional_match (filter_by is_provisional rows) loan) loan
  ]

  unfoldable pub reconcile_loans :
      List AuthoritativeLoan
      → List ReconciliationLoanRow
      → Act S ReconciliationError (List DriftItem)
  reconcile_loans loans rows = each (reconcile_loan rows) loans

  -- `markSucceeded` and `markOrphaned`
  unfoldable pub mark_transaction :
      String → TransactionChange → Act S ReconciliationError (Unit {0})
  mark_transaction id change = do
    updated ← call (env.update_transaction id change)
    require updated update_transaction_failed

  unfoldable pub backfill : String → Act S ReconciliationError (Unit {0})
  backfill hash = do stored ← call (env.backfill hash); require stored backfill_failed

  abbrev pub chain_hashes : List String → List String → List String
  chain_hashes set [] = set
  chain_hashes set (hash ∷ hashes) = chain_hashes (add_new set (env.lower hash)) hashes

  abbrev pub transaction_item : DriftType → String → String → DriftItem
  transaction_item drift_type hash outcome = record {
    drift_type = drift_type;
    key = hash;
    repaired = true;
    details = resolution outcome;
  }

  unfoldable pub reconcile_hash :
      List ReconciliationTransaction → String → Act S ReconciliationError (List DriftItem)
  reconcile_hash rows hash = elim (last_match (λ row. str_eq (env.lower row.hash) hash) rows) [
    | none ↦ (do
      backfill hash
      done (
          record {
            drift_type = missing_transaction_row;
            key = hash;
            repaired = true;
            details = no_details;
          }
          ∷ []))
    | some row ↦
        if str_eq row.status "pending"
        then (do
          mark_transaction row.id succeeded
          done (transaction_item orphaned_pending_transaction hash "success" ∷ []))
        else done []
  ]

  abbrev pub is_orphan : List String → ℕ → ReconciliationTransaction → Bool
  is_orphan hashes now row =
      str_eq row.status "pending"
      && not (includes hashes (env.lower row.hash))
      && is_older (env.parse_date row.submitted_at) now

  unfoldable pub fail_orphan :
      List String → ℕ → ReconciliationTransaction → Act S ReconciliationError (List DriftItem)
  fail_orphan hashes now row =
      if is_orphan hashes now row
      then (do
        mark_transaction row.id orphaned
        done (transaction_item orphaned_pending_transaction row.hash "failed" ∷ []))
      else done []

  unfoldable pub reconcile_transactions :
      List String → List ReconciliationTransaction → Act S ReconciliationError (List DriftItem)
  reconcile_transactions hashes rows = do
    let set = chain_hashes [] hashes
    found ← each (reconcile_hash rows) set
    now ← read env.now
    failed ← each (fail_orphan set now) rows
    done (found ++ failed)
