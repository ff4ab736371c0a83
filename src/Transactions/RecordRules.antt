-- ===== src/Transactions/RecordRules.antt =====
-- The lookups and inserts of the table `transactions`, and what a failed submission is told.
use step_fi_api.Common.{
  ◌≡◌, inl, inr, refl, Bool-cases, String, List, [], ◌∷◌, Option, none, some, arith, if◌then◌else◌,
  Run, returns, throws, Ends,
}
use step_fi_api.Transactions.Types.{
  LookupColumn, hash_column, transaction_hash_column, TransactionRecord, DbError, NewTransaction,
  HorizonFailure, ErrorDescription, SubmitError, horizon_error, TransactionsEnv, SelectReply, found,
  nothing, select_error,
}
use step_fi_api.Transactions.Failures.{
  is_unknown_column_error, describe_codes, describe_horizon_error, handle_horizon_error,
  exception_status, horizon_message, all_codes, rejected_codes, describe_code, describe_result,
}
use step_fi_api.Transactions.Records.{
  find_transaction_record, persist_transaction_record, insert_legacy, column_result, rethrown,
}

module _ {S : Type 0} (env : TransactionsEnv S) where
  describe_code_status :
      (m : Option String) (code : String) (d : ErrorDescription)
      → d.http_status ≡ 400
      → (describe_code env m code d).http_status ≡ 400
  describe_code_status none code d h = h
  describe_code_status (some text) code d h = refl

  describe_codes_status :
      (codes all : List String)
      → (describe_codes env codes (rejected_codes env all)).http_status ≡ 400
  describe_codes_status [] all = refl
  describe_codes_status (c ∷ cs) all =
      describe_code_status (horizon_message c) c (describe_codes env cs (rejected_codes env all))
        (describe_codes_status cs all)

  describe_result_status :
      (codes : Option (Option String × Option (List String))) (message : Option String)
      → let d = describe_result env codes message in
        exception_status env d.http_status ≡ d.http_status
  describe_result_status none message = ground arith
  describe_result_status (some codes) message =
      rw (describe_codes_status (all_codes codes) (all_codes codes)) refl

  pub handle_horizon_error_lem :
      (failure : HorizonFailure)
      → let d = describe_horizon_error env failure in
        handle_horizon_error env failure ≡ horizon_error d.http_status d.code d.message
  unfolding handle_horizon_error describe_horizon_error
  handle_horizon_error_lem failure =
      rw (describe_result_status failure.result_codes failure.message) refl

  -- A lookup writes nothing.
  pub find_transaction_record_frame :
      (P : S → Type 0) (hash : String) (s : S)
      → P s
      → Ends (λ _ t. P t) (λ _ t. P t) (find_transaction_record env hash s)
  unfolding find_transaction_record
  find_transaction_record_frame P hash s p =
      ended hash_column (env.select_row hash_column hash s)
        (column_result env transaction_hash_column hash
          (env.select_row transaction_hash_column hash s) (returns none s) s)
        (ended transaction_hash_column (env.select_row transaction_hash_column hash s)
          (returns none s) p)
    where
      ended :
          (column : LookupColumn) (reply : SelectReply)
          (next : Run S SubmitError (Option TransactionRecord))
          → Ends (λ _ t. P t) (λ _ t. P t) next
          → Ends (λ _ t. P t) (λ _ t. P t) (column_result env column hash reply next s)
      ended column (found row) next h = p
      ended column nothing next h = h
      ended column (select_error e) next h = elim (Bool-cases (is_unknown_column_error env e)) [
        | inl b ↦ rw b h
        | inr b ↦ rw b p
      ]

module _ {S : Type 0} (env : TransactionsEnv S) (P : S → Type 0)
    (insert_keeps : (column : LookupColumn) (row : NewTransaction) (s : S)
      → P s
      → P (env.insert_row column row s).1) where
  abbrev pub Stored : NewTransaction → LookupColumn → S → Type 0
  Stored row column t = (s : S) × P s × (env.insert_row column row s ≡ (none, t))

  insert_legacy-Stored :
      (row : NewTransaction) (s : S)
      → P s
      → Ends (Stored row) (λ _ t. P t) (insert_legacy env row s)
  insert_legacy-Stored row s p =
      go (env.insert_row hash_column row s) refl (insert_keeps hash_column row s p)
    where
      go :
          (r : Option DbError × S)
          → env.insert_row hash_column row s ≡ r
          → P r.1
          → Ends
              (Stored row)
              (λ _ t. P t)
              (elim r.0 [ none ↦ returns hash_column r.1 | some e ↦ throws (rethrown env e) r.1 ])
      go (none, t) e k = (s, p, e)
      go (some x, t) e k = k

  pub persist_transaction_record-Stored :
      (row : NewTransaction) (s : S)
      → P s
      → Ends (Stored row) (λ _ t. P t) (persist_transaction_record env row s)
  unfolding persist_transaction_record
  persist_transaction_record-Stored row s p =
      go (env.insert_row transaction_hash_column row s) refl
        (insert_keeps transaction_hash_column row s p)
    where
      go :
          (r : Option DbError × S)
          → env.insert_row transaction_hash_column row s ≡ r
          → P r.1
          → Ends
              (Stored row)
              (λ _ t. P t)
              (elim r.0 [
                | none ↦ returns transaction_hash_column r.1
                | some e ↦
                    if is_unknown_column_error env e
                    then insert_legacy env row r.1
                    else throws (rethrown env e) r.1
              ])
      go (none, t) e k = (s, p, e)
      go (some x, t) e k = elim (Bool-cases (is_unknown_column_error env x)) [
        | inl b ↦ rw b (insert_legacy-Stored row t k)
        | inr b ↦ rw b k
      ]
