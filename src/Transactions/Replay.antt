-- ===== src/Transactions/Replay.antt =====
-- What a transaction that is submitted again gets.
use step_fi_api.Common.{
  ◌≡◌, refl, sym, subst, ap, ◌∙◌, String, true, false, inl, inr, Bool-cases, Option, none, some,
  arith, returns, throws, if◌then◌else◌,
}
use step_fi_api.Checker.Types.{TransactionType, truthy}
use step_fi_api.Transactions.Types.{
  Envelope, LookupColumn, hash_column, transaction_hash_column, TransactionRow, TransactionRecord,
  NewTransaction, DbError, SubmitResponse, TransactionsEnv, SelectReply, found, nothing,
  select_error,
}
use step_fi_api.Transactions.Allowlist.{operation_allowlist_error, wallet_authorizes, hash_of}
use step_fi_api.Transactions.Checks.{operation_allowlist_error_iff}
use step_fi_api.Transactions.Failures.{is_unknown_column_error}
use step_fi_api.Transactions.Records.{
  find_transaction_record, persist_transaction_record, column_result, record_of, insert_legacy,
  rethrown,
}
use step_fi_api.Transactions.Service.{new_transaction, duplicate_of, submit_new, submit_transaction}
use step_fi_api.Transactions.Accepted.{Recorded, recorded, submit_transaction-accepted}

module _ {S : Type 0} (env : TransactionsEnv S) where
  submit_transaction-existing :
      (wallet : String) (kind : TransactionType) (xdr : String) (tx : Envelope)
      (r : TransactionRecord) (s : S)
      → env.from_xdr xdr ≡ some tx
      → operation_allowlist_error env tx kind ≡ none
      → wallet_authorizes tx wallet ≡ true
      → find_transaction_record env (hash_of tx) s ≡ returns (some r) s
      → submit_transaction env wallet kind xdr s ≡ returns (duplicate_of (hash_of tx) r) s
  unfolding submit_transaction submit_new
  submit_transaction-existing wallet kind xdr tx r s decoded listed authorized stored = ground arith

  -- The table: an inserted row is read back as pending, an insert into one column leaves the other,
  -- and Horizon writes no rows.
  module _
      (reads_back : (column : LookupColumn) (row : NewTransaction) (s t : S)
        → env.insert_row column row s ≡ (none, t)
        → (x : TransactionRow) × (env.select_row column row.hash t ≡ found x)
          × (x.status ≡ some "pending"))
      (keeps_other : (row : NewTransaction) (s : S)
        → env.select_row hash_column row.hash (env.insert_row transaction_hash_column row s).1
          ≡ env.select_row hash_column row.hash s)
      (submit_keeps : (tx : Envelope) (column : LookupColumn) (hash : String) (s : S)
        → env.select_row column hash (env.submit tx s).1 ≡ env.select_row column hash s) where
    found_first :
        (hash : String) (x : TransactionRow) (u : S)
        → env.select_row hash_column hash u ≡ found x
        → find_transaction_record env hash u ≡ returns (some (record_of env hash_column hash x)) u
    unfolding find_transaction_record
    found_first hash x u h = rw (h, column_result) refl

    -- A hash that had no row, once its row is in the column `transaction_hash`.
    found_second :
        (hash : String) (x : TransactionRow) (s u : S)
        → find_transaction_record env hash s ≡ returns none s
        → env.select_row hash_column hash u ≡ env.select_row hash_column hash s
        → env.select_row transaction_hash_column hash u ≡ found x
        → find_transaction_record env hash u
          ≡ returns (some (record_of env transaction_hash_column hash x)) u
    unfolding find_transaction_record
    found_second hash x s u missing same h =
        go (env.select_row hash_column hash s) missing (env.select_row hash_column hash u) same
      where
        go :
            (q : SelectReply)
            → column_result env hash_column hash q
                (column_result env transaction_hash_column hash
                  (env.select_row transaction_hash_column hash s)
                  (returns none s)
                  s)
                s
              ≡ returns none s
            → (p : SelectReply) → p ≡ q
            → column_result env hash_column hash p
                (column_result env transaction_hash_column hash
                  (env.select_row transaction_hash_column hash u)
                  (returns none u)
                  u)
                u
              ≡ returns (some (record_of env transaction_hash_column hash x)) u
        go (found y) m p e = ground arith
        go nothing m p e = ground arith
        go (select_error y) m p e = ground arith

    -- A row that is found, and is pending.
    abbrev Pending : String → S → Type 0
    Pending hash u =
        (r : TransactionRecord) × (find_transaction_record env hash u ≡ returns (some r) u)
        × (r.status ≡ some "pending")

    legacy-Pending :
        (row : NewTransaction) (tx : Envelope) (s t : S) (column : LookupColumn)
        → insert_legacy env row s ≡ returns column t
        → Pending row.hash (env.submit tx t).1
    legacy-Pending row tx s t column h = go (env.insert_row hash_column row s) refl h
      where
        go :
            (q : Option DbError × S)
            → env.insert_row hash_column row s ≡ q
            → elim q.0 [ none ↦ returns hash_column q.1 | some e ↦ throws (rethrown env e) q.1 ]
              ≡ returns column t
            → Pending row.hash (env.submit tx t).1
        go (none, v) e h' =
            let (x, read, status) = reads_back hash_column row s t (ground arith) in
            (
              record_of env hash_column row.hash x,
              found_first row.hash x (env.submit tx t).1
                  (submit_keeps tx hash_column row.hash t ∙ read),
              ap truthy status,
            )
        go (some f, v) e h' = ground arith

    persisted-Pending :
        (row : NewTransaction) (tx : Envelope) (s t : S) (column : LookupColumn)
        → find_transaction_record env row.hash s ≡ returns none s
        → persist_transaction_record env row s ≡ returns column t
        → Pending row.hash (env.submit tx t).1
    unfolding persist_transaction_record
    persisted-Pending row tx s t column missing h =
        go (env.insert_row transaction_hash_column row s) refl h
      where
        go :
            (q : Option DbError × S)
            → env.insert_row transaction_hash_column row s ≡ q
            → elim q.0 [
              | none ↦ returns transaction_hash_column q.1
              | some e ↦
                  if is_unknown_column_error env e
                  then insert_legacy env row q.1
                  else throws (rethrown env e) q.1
            ]
              ≡ returns column t
            → Pending row.hash (env.submit tx t).1
        go (none, v) e h' =
            let at : (env.insert_row transaction_hash_column row s).1 ≡ t = ground arith in
            let (x, read, status) = reads_back transaction_hash_column row s t (ground arith) in
            (
              record_of env transaction_hash_column row.hash x,
              found_second row.hash x s (env.submit tx t).1 missing
                  (submit_keeps tx hash_column row.hash t
                    ∙ ap (env.select_row hash_column row.hash) (sym at)
                    ∙ keeps_other row s)
                  (submit_keeps tx transaction_hash_column row.hash t ∙ read),
              ap truthy status,
            )
        go (some f, v) e h' = elim (Bool-cases (is_unknown_column_error env f)) [
          | inl b ↦ legacy-Pending row tx v t column (ground arith)
          | inr b ↦ ground arith
        ]

    -- Take a table that reads an inserted row back as pending, whose insert into one hash column
    -- leaves the other as it was, and which Horizon does not write. A transaction that was accepted
    -- and is submitted again gets the answer of a duplicate, with its hash and the status pending,
    -- and nothing changes: it goes to Horizon once.
    pub submit_transaction-again :
        (wallet : String) (kind : TransactionType) (xdr : String) (s u : S) (r : SubmitResponse)
        → submit_transaction env wallet kind xdr s ≡ returns r u
        → r.duplicate ≡ false
        → submit_transaction env wallet kind xdr u
          ≡ returns
              (record {
                transaction_hash = r.transaction_hash;
                status = "pending";
                duplicate = true;
              })
              u
    submit_transaction-again wallet kind xdr s u r h d =
        let (tx, decoded, filled, all, authorized, missing, stored) =
          submit_transaction-accepted env wallet kind xdr s u r h d in
        let listed = (operation_allowlist_error_iff env tx kind).1 (filled, all) in
        go tx decoded listed authorized missing stored
      where
        go :
            (tx : Envelope)
            → env.from_xdr xdr ≡ some tx
            → operation_allowlist_error env tx kind ≡ none
            → wallet_authorizes tx wallet ≡ true
            → find_transaction_record env (hash_of tx) s ≡ returns none s
            → Recorded env wallet kind xdr tx s r u
            → submit_transaction env wallet kind xdr u
              ≡ returns
                  (record {
                    transaction_hash = r.transaction_hash;
                    status = "pending";
                    duplicate = true;
                  })
                  u
        go tx decoded listed authorized missing (recorded column t inserted taken answer) =
            let (x, read, status) =
              persisted-Pending (new_transaction wallet (hash_of tx) kind xdr) tx s t column missing
                inserted in
            let at : (env.submit tx t).1 ≡ u = ap (λ q. q.1) taken in
            let found_now : find_transaction_record env (hash_of tx) u ≡ returns (some x) u =
              subst (λ v. find_transaction_record env (hash_of tx) v ≡ returns (some x) v) at
                read in
            let again =
              submit_transaction-existing wallet kind xdr tx x u decoded listed authorized
                found_now in
            again ∙ ground arith
