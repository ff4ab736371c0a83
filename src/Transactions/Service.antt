-- ===== src/Transactions/Service.antt =====
-- `submitTransaction` and `getTransactionStatus` of src/modules/transactions/transactions.service.ts.
use Prim.Native.String.{◌++◌}
use step_fi_api.Common.{
  String, true, false, Option, none, some, if◌then◌else◌, Act, Run, returns, throws, ◌>>=◌, ◌>>◌,
  done, require, or_throw,
}
use step_fi_api.Checker.Types.{TransactionType}
use step_fi_api.Transactions.Types.{
  Envelope, TransactionRecord, LookupColumn, NewTransaction, LookupReply, known, lookup_failure,
  StatusResponse, SubmitError, invalid_xdr, source_mismatch, persistence_failed,
  transaction_not_found, SubmitResponse, TransactionsEnv,
}
use step_fi_api.Transactions.Allowlist.{operation_allowlist_error, wallet_authorizes, hash_of}
use step_fi_api.Transactions.Failures.{
  or_else, is_unique_violation_error, handle_horizon_error, is_horizon_not_found_error,
  handle_horizon_lookup_error,
}
use step_fi_api.Transactions.Records.{
  find_transaction_record, persist_transaction_record, mark_transaction_failed,
  build_pending_transaction_response, build_finalized_transaction_response,
  persist_finalized_transaction,
}

abbrev pub new_transaction : String → String → TransactionType → String → NewTransaction
new_transaction wallet hash kind xdr = record {
  user_wallet = wallet;
  hash = hash;
  kind = kind;
  xdr = xdr;
}

abbrev pub duplicate_of : String → TransactionRecord → SubmitResponse
duplicate_of hash r = record {
  transaction_hash = hash;
  status = or_else r.status "pending";
  duplicate = true;
}

abbrev pub submitted : String → SubmitResponse
submitted hash = record { transaction_hash = hash; status = "pending"; duplicate = false }

abbrev pub cache_key : String → String
cache_key hash = "transactions:status:" ++ hash

module _ {S : Type 0} (env : TransactionsEnv S) where
  -- `if (error) throw error`
  abbrev pub throw_if : Option SubmitError → Act S SubmitError (Unit {0})
  throw_if none s = returns tt s
  throw_if (some e) s = throws e s

  -- From the submission to Horizon on, with the column that the row was written by.
  unfoldable pub send_to_horizon : Envelope → LookupColumn → Act S SubmitError SubmitResponse
  send_to_horizon tx column s =
      let (failure, t) = env.submit tx s in
      elim failure [
        | none ↦ returns (submitted (hash_of tx)) t
        | some e ↦
            throws (handle_horizon_error env e)
              (mark_transaction_failed env (some column) (hash_of tx) e t)
      ]

  -- After an insert that failed on the unique index: the row of a concurrent submission.
  unfoldable pub after_unique_violation : String → Act S SubmitError SubmitResponse
  after_unique_violation hash = do
    existing ← find_transaction_record env hash
    r ← or_throw existing persistence_failed
    done (duplicate_of hash r)

  unfoldable pub record_and_send :
      String → TransactionType → String → Envelope → Act S SubmitError SubmitResponse
  record_and_send wallet kind xdr tx s =
      elim (persist_transaction_record env (new_transaction wallet (hash_of tx) kind xdr) s) [
        | returns column t ↦ send_to_horizon tx column t
        | throws e t ↦
            if is_unique_violation_error env e
            then after_unique_violation (hash_of tx) t
            else throws persistence_failed t
      ]

  unfoldable pub submit_new :
      String
      → TransactionType
      → String
      → Envelope
      → Option TransactionRecord
      → Act S SubmitError SubmitResponse
  submit_new wallet kind xdr tx (some r) = done (duplicate_of (hash_of tx) r)
  submit_new wallet kind xdr tx none = record_and_send wallet kind xdr tx

  unfoldable pub submit_transaction :
      String → TransactionType → String → Act S SubmitError SubmitResponse
  submit_transaction wallet kind xdr = do
    tx ← or_throw (env.from_xdr xdr) invalid_xdr
    throw_if (operation_allowlist_error env tx kind)
    require (wallet_authorizes tx wallet) source_mismatch
    existing ← find_transaction_record env (hash_of tx)
    submit_new wallet kind xdr tx existing

  abbrev pub pending_or_missing :
      String → Option TransactionRecord → S → Run S SubmitError StatusResponse
  pending_or_missing hash none s = throws transaction_not_found s
  pending_or_missing hash (some r) s = returns (build_pending_transaction_response env hash r) s

  -- What the answer of Horizon leads to.
  unfoldable pub after_lookup :
      String → Option TransactionRecord → LookupReply → S → Run S SubmitError StatusResponse
  after_lookup hash r (known tx) s =
      let response = build_finalized_transaction_response env tx r in
      returns response
        (persist_finalized_transaction env r response (env.cache_set (cache_key hash) response s))
  after_lookup hash r (lookup_failure e) s =
      if is_horizon_not_found_error env e
      then pending_or_missing hash r s
      else throws (handle_horizon_lookup_error env e) s

  abbrev pub ask_horizon : String → Option TransactionRecord → Act S SubmitError StatusResponse
  ask_horizon hash r s =
      let (reply, t) = env.horizon_transaction hash s in after_lookup hash r reply t

  -- `if (cached) return cached`
  abbrev pub cached_or : Option StatusResponse → String → Act S SubmitError StatusResponse
  cached_or (some r) hash = done r
  cached_or none hash = find_transaction_record env hash >>= ask_horizon hash

  unfoldable pub get_transaction_status : String → Act S SubmitError StatusResponse
  get_transaction_status hash s =
      cached_or (env.cache_get (cache_key (env.lower hash)) s) (env.lower hash) s
