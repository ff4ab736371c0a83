-- ===== src/Transactions/Records.antt =====
-- The rows of the table `transactions`, as src/modules/transactions/transactions.service.ts reads and
-- writes them: the hash stands in the column `transaction_hash`, or `hash` in an older schema.
use step_fi_api.Common.{◌==◌, String, Option, none, some, if◌then◌else◌, Act, Run, returns, throws}
use step_fi_api.Checker.Types.{truthy}
use step_fi_api.Transactions.Types.{
  LookupColumn, hash_column, transaction_hash_column, TransactionRow, TransactionRecord,
  NewTransaction, DbError, SelectReply, found, nothing, select_error, HorizonFailure,
  HorizonTransaction, StatusResponse, ResultDetails, SubmitError, lookup_db_failed, TransactionsEnv,
}
use step_fi_api.Transactions.Failures.{
  or_else, is_unknown_column_error, describe_horizon_error, extract_failure_details,
}

module _ {S : Type 0} (env : TransactionsEnv S) where
  abbrev pub record_of : LookupColumn → String → TransactionRow → TransactionRecord
  record_of column hash row = record {
    lookup_column = column;
    hash = env.lower (or_else row.hash hash);
    kind = truthy row.kind;
    status = truthy row.status;
    submitted_at = truthy row.submitted_at;
    completed_at = truthy row.completed_at;
    updated_at = truthy row.updated_at;
  }

  -- One round of the loop over the columns; `next` is what follows it.
  abbrev pub column_result :
      LookupColumn
      → String
      → SelectReply
      → Run S SubmitError (Option TransactionRecord)
      → S
      → Run S SubmitError (Option TransactionRecord)
  column_result column hash (found row) next s = returns (some (record_of column hash row)) s
  column_result column hash nothing next s = next
  column_result column hash (select_error e) next s =
      if is_unknown_column_error env e then next else throws lookup_db_failed s

  unfoldable pub find_transaction_record : String → Act S SubmitError (Option TransactionRecord)
  find_transaction_record hash s =
      column_result hash_column hash (env.select_row hash_column hash s)
        (column_result transaction_hash_column hash (env.select_row transaction_hash_column hash s)
          (returns none s) s)
        s

  -- `new Error(error.message ?? 'Supabase insert failed')`: without the code of the error.
  abbrev pub rethrown : DbError → DbError
  rethrown e = record { code = none; message = some (or_else e.message "Supabase insert failed") }

  abbrev pub insert_legacy : NewTransaction → Act S DbError LookupColumn
  insert_legacy row s =
      let (error, t) = env.insert_row hash_column row s in
      elim error [ none ↦ returns hash_column t | some e ↦ throws (rethrown e) t ]

  unfoldable pub persist_transaction_record : NewTransaction → Act S DbError LookupColumn
  persist_transaction_record row s =
      let (error, t) = env.insert_row transaction_hash_column row s in
      elim error [
        | none ↦ returns transaction_hash_column t
        | some e ↦
            if is_unknown_column_error env e then insert_legacy row t else throws (rethrown e) t
      ]

  -- A failed update is only logged.
  unfoldable pub mark_transaction_failed : Option LookupColumn → String → HorizonFailure → S → S
  mark_transaction_failed none hash error s = s
  mark_transaction_failed (some column) hash error s =
      let d = describe_horizon_error env error in
      if d.http_status == 503 then s else env.update_failed column hash d.message s

  abbrev pub kind_of : Option TransactionRecord → Option String
  kind_of none = none
  kind_of (some r) = r.kind

  abbrev pub submitted_at_of : Option TransactionRecord → Option String
  submitted_at_of none = none
  submitted_at_of (some r) = r.submitted_at

  unfoldable pub build_pending_transaction_response : String → TransactionRecord → StatusResponse
  build_pending_transaction_response hash r = record {
    hash = hash;
    status = "pending";
    kind = r.kind;
    result = none;
    error = none;
    submitted_at = r.submitted_at;
    confirmed_at = none;
  }

  abbrev pub extract_success_details : HorizonTransaction → ResultDetails
  extract_success_details tx = record {
    ledger = tx.ledger_attr;
    operation_count = tx.operation_count;
    source_account = tx.source_account;
    fee_charged = tx.fee_charged;
    memo_type = tx.memo_type;
    memo = tx.memo;
    created_at = tx.created_at;
  }

  unfoldable pub build_finalized_transaction_response :
      HorizonTransaction → Option TransactionRecord → StatusResponse
  build_finalized_transaction_response tx r = record {
    hash = env.lower tx.hash;
    status = if tx.successful then "success" else "failed";
    kind = kind_of r;
    result = if tx.successful then some (extract_success_details tx) else none;
    error = if tx.successful then none else some (extract_failure_details env tx.result_xdr);
    submitted_at = submitted_at_of r;
    confirmed_at = some tx.created_at;
  }

  unfoldable pub persist_finalized_transaction : Option TransactionRecord → StatusResponse → S → S
  persist_finalized_transaction none response s = s
  persist_finalized_transaction (some r) response s =
      env.update_finalized r.lookup_column r.hash response s
