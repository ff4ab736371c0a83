-- ===== src/Transactions/Outcomes.antt =====
-- How a submission can end: what is written before a transaction goes to Horizon, and what its
-- sender is told.
use step_fi_api.Common.{
  ◌≡◌, inl, inr, refl, Bool-cases, ◌==◌, String, Bool, true, false, Option, none, some,
  if◌then◌else◌, Run, returns, throws, Ends, Ends-returns, Ends-throws, require, or_throw, done,
  ◌>>=◌, ◌>>◌, >>=-cases,
}
use step_fi_api.Checker.Types.{TransactionType}
use step_fi_api.Transactions.Types.{
  Envelope, LookupColumn, TransactionRecord, DbError, NewTransaction, HorizonFailure, SubmitError,
  horizon_error, invalid_xdr, source_mismatch, persistence_failed, SubmitResponse, TransactionsEnv,
}
use step_fi_api.Transactions.Allowlist.{operation_allowlist_error, wallet_authorizes, hash_of}
use step_fi_api.Transactions.Failures.{
  is_unique_violation_error, describe_horizon_error, handle_horizon_error,
}
use step_fi_api.Transactions.Records.{
  find_transaction_record, persist_transaction_record, mark_transaction_failed,
}
use step_fi_api.Transactions.RecordRules.{
  Stored, persist_transaction_record-Stored, handle_horizon_error_lem,
  find_transaction_record_frame,
}
use step_fi_api.Transactions.Service.{
  new_transaction, duplicate_of, submitted, throw_if, send_to_horizon, after_unique_violation,
  record_and_send, submit_new, submit_transaction,
}

module _ {S : Type 0} (env : TransactionsEnv S) (wallet : String) (kind : TransactionType)
    (xdr : String) where
  -- A transaction is sent at most once, and only from a state in which its row has just been stored
  -- by an insert that reported no error. `P` says that nothing has been sent.
  pub data Outcome (P : S → Type 0) : Run S SubmitError SubmitResponse → Type 0 where
    repeated :
        {hash : String} {u : S} (r : TransactionRecord)
        → P u
        → Outcome P (returns (duplicate_of hash r) u)
    refused : {e : SubmitError} {u : S} → P u → Outcome P (throws e u)
    sent :
        {tx : Envelope} {column : LookupColumn} {s t u : S}
        → P s
        → env.insert_row column (new_transaction wallet (hash_of tx) kind xdr) s ≡ (none, t)
        → env.submit tx t ≡ (none, u)
        → Outcome P (returns (submitted (hash_of tx)) u)
    rejected :
        {tx : Envelope} {column : LookupColumn} {s t u : S} {failure : HorizonFailure}
        → P s
        → env.insert_row column (new_transaction wallet (hash_of tx) kind xdr) s ≡ (none, t)
        → env.submit tx t ≡ (some failure, u)
        → Outcome P (
            throws
              (horizon_error
                (describe_horizon_error env failure).http_status
                (describe_horizon_error env failure).code
                (describe_horizon_error env failure).message)
              (if (describe_horizon_error env failure).http_status == 503
                then u
                else env.update_failed column
                    (hash_of tx)
                    (describe_horizon_error env failure).message
                    u))

module _ {S : Type 0} (env : TransactionsEnv S) (P : S → Type 0)
    (insert_keeps : (column : LookupColumn) (row : NewTransaction) (s : S)
      → P s
      → P (env.insert_row column row s).1)
    (wallet : String) (kind : TransactionType) (xdr : String) where
  after_unique_violation-Outcome :
      (hash : String) (s : S)
      → P s
      → Outcome env wallet kind xdr P (after_unique_violation env hash s)
  unfolding after_unique_violation
  after_unique_violation-Outcome hash s p =
      let frame = find_transaction_record_frame env P hash s p in
      >>=-cases (Outcome env wallet kind xdr P) (find_transaction_record env hash)
        (λ existing. or_throw existing persistence_failed >>= λ r. done (duplicate_of hash r)) s
        (λ r t e. answer r t (Ends-returns (λ _ u. P u) (λ _ u. P u) e frame))
        (λ x t e. refused (Ends-throws (λ _ u. P u) (λ _ u. P u) e frame))
    where
      answer :
          (r : Option TransactionRecord) (t : S)
          → P t
          → Outcome env wallet kind xdr P
              ((or_throw r persistence_failed >>= λ x. done (duplicate_of hash x)) t)
      answer none t k = refused k
      answer (some x) t k = repeated x k

  send_to_horizon-Outcome :
      (tx : Envelope) (column : LookupColumn) (t : S)
      → Stored env P insert_keeps (new_transaction wallet (hash_of tx) kind xdr) column t
      → Outcome env wallet kind xdr P (send_to_horizon env tx column t)
  unfolding send_to_horizon mark_transaction_failed
  send_to_horizon-Outcome tx column t (s, p, stored) = go (env.submit tx t) refl
    where
      go :
          (r : Option HorizonFailure × S)
          → env.submit tx t ≡ r
          → Outcome env wallet kind xdr P (elim r.0 [
            | none ↦ returns (submitted (hash_of tx)) r.1
            | some e ↦ throws (handle_horizon_error env e) (
                if (describe_horizon_error env e).http_status == 503
                then r.1
                else env.update_failed column
                    (hash_of tx)
                    (describe_horizon_error env e).message
                    r.1)
          ])
      go (none, u) e = sent p stored e
      go (some f, u) e = rw (handle_horizon_error_lem env f) (rejected p stored e)

  record_and_send-Outcome :
      (tx : Envelope) (s : S)
      → P s
      → Outcome env wallet kind xdr P (record_and_send env wallet kind xdr tx s)
  unfolding record_and_send
  record_and_send-Outcome tx s p =
      let row = new_transaction wallet (hash_of tx) kind xdr in
      go (persist_transaction_record env row s)
        (persist_transaction_record-Stored env P insert_keeps row s p)
    where
      go :
          (r : Run S DbError LookupColumn)
          → Ends
              (Stored env P insert_keeps (new_transaction wallet (hash_of tx) kind xdr))
              (λ _ t. P t)
              r
          → Outcome env wallet kind xdr P (elim r [
            | returns column t ↦ send_to_horizon env tx column t
            | throws e t ↦
                if is_unique_violation_error env e
                then after_unique_violation env (hash_of tx) t
                else throws persistence_failed t
          ])
      go (returns column t) k = send_to_horizon-Outcome tx column t k
      go (throws e t) k = elim (Bool-cases (is_unique_violation_error env e)) [
        | inl b ↦ rw b (after_unique_violation-Outcome (hash_of tx) t k)
        | inr b ↦ rw b (refused k)
      ]

  submit_new-Outcome :
      (tx : Envelope) (existing : Option TransactionRecord) (s : S)
      → P s
      → Outcome env wallet kind xdr P (submit_new env wallet kind xdr tx existing s)
  unfolding submit_new
  submit_new-Outcome tx none s p = record_and_send-Outcome tx s p
  submit_new-Outcome tx (some r) s p = repeated r p

  find_and_submit-Outcome :
      (tx : Envelope) (s : S)
      → P s
      → Outcome env wallet kind xdr P
          ((find_transaction_record env (hash_of tx) >>= submit_new env wallet kind xdr tx) s)
  find_and_submit-Outcome tx s p =
      let frame = find_transaction_record_frame env P (hash_of tx) s p in
      >>=-cases (Outcome env wallet kind xdr P) (find_transaction_record env (hash_of tx))
        (submit_new env wallet kind xdr tx) s
        (λ r t e. submit_new-Outcome tx r t (Ends-returns (λ _ u. P u) (λ _ u. P u) e frame))
        (λ x t e. refused (Ends-throws (λ _ u. P u) (λ _ u. P u) e frame))

  authorized-Outcome :
      (ok : Bool) (tx : Envelope) (s : S)
      → P s
      → Outcome env wallet kind xdr P (
          (require ok source_mismatch
              >> (find_transaction_record env (hash_of tx) >>= submit_new env wallet kind xdr tx))
            s)
  authorized-Outcome true tx s p = find_and_submit-Outcome tx s p
  authorized-Outcome false tx s p = refused p

  checked-Outcome :
      (error : Option SubmitError) (tx : Envelope) (s : S)
      → P s
      → Outcome env wallet kind xdr P (
          (throw_if env error
              >> (require (wallet_authorizes tx wallet) source_mismatch
                  >> (find_transaction_record env (hash_of tx)
                      >>= submit_new env wallet kind xdr tx)))
            s)
  checked-Outcome none tx s p = authorized-Outcome (wallet_authorizes tx wallet) tx s p
  checked-Outcome (some e) tx s p = refused p

  -- Let `P` be a property of the world that an insert of a row keeps, whether it succeeds or not,
  -- such as that nothing has been sent to Horizon. However a submission ends, it ends in one of
  -- four ways: with the answer of a duplicate or with an error, and `P` still holds; or the row
  -- was inserted without an error in a state with `P`, Horizon was called next and took the
  -- transaction, and nothing is written afterwards; or Horizon refused it, the sender is told the
  -- status, code and message of the failure, and the row is marked failed with that message,
  -- unless the status is 503, which leaves the row as it is.
  pub submit_transaction-Outcome :
      (s : S) → P s → Outcome env wallet kind xdr P (submit_transaction env wallet kind xdr s)
  unfolding submit_transaction submit_new
  submit_transaction-Outcome s p = go (env.from_xdr xdr)
    where
      go :
          (decoded : Option Envelope)
          → Outcome env wallet kind xdr P (
              (or_throw decoded invalid_xdr >>= λ tx.
              throw_if env (operation_allowlist_error env tx kind)
              >> (require (wallet_authorizes tx wallet) source_mismatch
                  >> (find_transaction_record env (hash_of tx)
                      >>= submit_new env wallet kind xdr tx)))
                s)
      go none = refused p
      go (some tx) = checked-Outcome (operation_allowlist_error env tx kind) tx s p
