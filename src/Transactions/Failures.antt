-- ===== src/Transactions/Failures.antt =====
-- How src/modules/transactions/transactions.service.ts reads the errors of Horizon and of the database.
use Prim.Native.String.{◌++◌}
use step_fi_api.Common.{
  ℕ, ◌==◌, String, Bool, false, List, [], ◌∷◌, Option, none, some, str_eq, ◌&&◌, ◌||◌,
  if◌then◌else◌,
}
use step_fi_api.Checker.Types.{truthy}
use step_fi_api.Checker.Horizon.{includes}
use step_fi_api.Transactions.Types.{
  DbError, HorizonFailure, ErrorDescription, ErrorDetails, SubmitError, horizon_error,
  horizon_unavailable, status_lookup_failed, TransactionsEnv,
}

-- HORIZON_ERROR_MAP
abbrev pub horizon_error_map : List (String × String)
horizon_error_map =
    ("op_bad_auth", "Invalid transaction signature. Please re-sign and try again.")
    ∷ ("op_no_source_account", "Source account not found on the Stellar network.")
    ∷ (
      "op_underfunded",
      "Insufficient balance to complete one or more operations in this transaction.",
    )
    ∷ ("tx_bad_seq", "Transaction sequence number is outdated. Please rebuild the transaction.")
    ∷ ("tx_insufficient_balance", "Insufficient balance to cover this transaction.")
    ∷ ("tx_bad_auth", "Invalid transaction signature. Please re-sign and try again.")
    ∷ ("tx_failed", "Transaction failed on the Stellar network.")
    ∷ ("tx_too_late", "Transaction expired before it could be submitted.")
    ∷ ("tx_too_early", "Transaction time bounds not yet valid.")
    ∷ ("tx_insufficient_fee", "Transaction fee is too low to be accepted by the network.")
    ∷ ("tx_no_account", "Source account does not exist on the Stellar network.")
    ∷ []

abbrev pub lookup : String → List (String × String) → Option String
lookup key [] = none
lookup key ((k, v) ∷ rest) = let later = lookup key rest in if str_eq k key then some v else later

unfoldable pub horizon_message : String → Option String
horizon_message code = lookup code horizon_error_map

-- `xs.filter(Boolean)` after the transaction's code
abbrev pub add_code : Option String → List String → List String
add_code none codes = codes
add_code (some c) codes = c ∷ codes

abbrev pub non_empty : List String → List String
non_empty [] = []
non_empty (c ∷ cs) = add_code (truthy (some c)) (non_empty cs)

abbrev pub or_empty : Option (List String) → List String
or_empty none = []
or_empty (some cs) = cs

abbrev pub all_codes : Option String × Option (List String) → List String
all_codes (transaction, operations) =
    add_code (truthy transaction) (non_empty (or_empty operations))

-- `xs.join(', ')`
abbrev pub join_from : String → List String → String
join_from first [] = first
join_from first (x ∷ xs) = first ++ ", " ++ join_from x xs

abbrev pub join : List String → String
join [] = ""
join (x ∷ xs) = join_from x xs

-- `a ?? b`
abbrev pub or_else : Option String → String → String
or_else none b = b
or_else (some a) b = a

module _ {S : Type 0} (env : TransactionsEnv S) where
  abbrev pub lower_message : Option String → String
  lower_message none = ""
  lower_message (some m) = env.lower m

  unfoldable pub is_unique_violation_error : DbError → Bool
  is_unique_violation_error e = elim e.code [
    | none ↦ includes (lower_message e.message) "duplicate key value violates unique constraint"
    | some c ↦
        str_eq c "23505"
        || includes (lower_message e.message) "duplicate key value violates unique constraint"
  ]

  unfoldable pub is_unknown_column_error : DbError → Bool
  is_unknown_column_error e =
      includes (lower_message e.message) "column"
      && includes (lower_message e.message) "does not exist"

  abbrev pub describe_code : Option String → String → ErrorDescription → ErrorDescription
  describe_code none code otherwise = otherwise
  describe_code (some m) code otherwise = record {
    http_status = 400;
    code = "STELLAR_" ++ env.upper code;
    message = m;
  }

  -- The first code with a message in the map.
  abbrev pub describe_codes : List String → ErrorDescription → ErrorDescription
  describe_codes [] otherwise = otherwise
  describe_codes (c ∷ cs) otherwise =
      describe_code (horizon_message c) c (describe_codes cs otherwise)

  abbrev pub rejected_codes : List String → ErrorDescription
  rejected_codes codes = record {
    http_status = 400;
    code = "STELLAR_TRANSACTION_FAILED";
    message = "Transaction rejected by the Stellar network: " ++ join codes;
  }

  abbrev pub network_unavailable : ErrorDescription
  network_unavailable = record {
    http_status = 503;
    code = "STELLAR_NETWORK_UNAVAILABLE";
    message = "Stellar network is temporarily unavailable. Please try again later.";
  }

  abbrev pub submission_failed : ErrorDescription
  submission_failed = record {
    http_status = 500;
    code = "STELLAR_SUBMISSION_FAILED";
    message = "Failed to submit transaction to the Stellar network. Please try again.";
  }

  abbrev pub or_unknown : Option String → String
  or_unknown none = "Unknown error"
  or_unknown (some m) = m

  abbrev pub describe_message : String → ErrorDescription
  describe_message message =
      if includes message "timeout" || includes message "network"
      then network_unavailable
      else submission_failed

  abbrev pub describe_result :
      Option (Option String × Option (List String)) → Option String → ErrorDescription
  describe_result (some codes) message =
      describe_codes (all_codes codes) (rejected_codes (all_codes codes))
  describe_result none message = describe_message (env.lower (or_unknown message))

  unfoldable pub describe_horizon_error : HorizonFailure → ErrorDescription
  describe_horizon_error e = describe_result e.result_codes e.message

  -- The status of the exception class that `handleHorizonError` throws.
  abbrev pub exception_status : ℕ → ℕ
  exception_status status = if status == 503 then 503 else if status == 500 then 500 else 400

  unfoldable pub handle_horizon_error : HorizonFailure → SubmitError
  unfolding describe_horizon_error
  handle_horizon_error e =
      let d = describe_horizon_error e in
      horizon_error (exception_status d.http_status) d.code d.message

  abbrev pub is_status : Option ℕ → ℕ → Bool
  is_status none n = false
  is_status (some m) n = m == n

  unfoldable pub is_horizon_not_found_error : HorizonFailure → Bool
  is_horizon_not_found_error e = is_status e.http_status 404

  unfoldable pub handle_horizon_lookup_error : HorizonFailure → SubmitError
  handle_horizon_lookup_error e =
      let message = lower_message e.message in
      if is_status e.http_status 502
        || is_status e.http_status 503
        || is_status e.http_status 504
        || includes message "timeout"
        || includes message "network"
        || includes message "socket"
      then horizon_unavailable
      else status_lookup_failed

  unfoldable pub to_snake_case : String → String
  to_snake_case value = env.lower (env.underscored value)

  abbrev pub snake_codes : List String → List String
  snake_codes [] = []
  snake_codes (c ∷ cs) = to_snake_case c ∷ snake_codes cs

  abbrev pub primary_code : List String → String → String
  primary_code [] tx_code = tx_code
  primary_code (c ∷ cs) tx_code = c

  abbrev pub some_codes : List String → Option (List String)
  some_codes [] = none
  some_codes (c ∷ cs) = some (c ∷ cs)

  abbrev pub failure_of : String → List String → ErrorDetails
  failure_of tx_code operation_codes = record {
    code = tx_code;
    message = or_else (horizon_message (primary_code operation_codes tx_code)) (
        or_else (horizon_message tx_code)
          (env.humanize_code (primary_code operation_codes tx_code)));
    operation_codes = some_codes operation_codes;
  }

  unfoldable pub extract_failure_details : String → ErrorDetails
  extract_failure_details xdr = elim (env.decode_result xdr) [
    | none ↦ record {
      code = "tx_failed";
      message = or_else (horizon_message "tx_failed") "";
      operation_codes = none;
    }
    | some parsed ↦ failure_of (to_snake_case parsed.0) (snake_codes (or_empty parsed.1))
  ]
