-- ===== src/Transactions/Tests.antt =====
-- The theorems on submitted transactions at concrete transactions.
use step_fi_api.Common.{
  ℕ, ◌+◌, ◌≡◌, ◌≢◌, ◌↔◌, refl, ap, subst, String, true, List, [], ◌∷◌, Option, none, some, str_eq,
  eq_iff, if◌then◌else◌, All, returns, arith,
}
use step_fi_api.Checker.Types.{loan_create}
use step_fi_api.Transactions.Types.{
  buffer, Attributes, Operation, invoke_host_function, other_operation, Envelope, plain,
  LookupColumn, hash_column, transaction_hash_column, TransactionRow, NewTransaction, DbError,
  SelectReply, found, nothing, known, HorizonTransaction, StatusResponse, operation_not_allowed,
  TransactionsEnv,
}
use step_fi_api.Transactions.Allowlist.{
  is_listed, inner_transaction, operation_allowlist_error, wallet_authorizes, hash_of, contract_id,
}
use step_fi_api.Transactions.Records.{
  find_transaction_record, persist_transaction_record, persist_finalized_transaction,
  build_finalized_transaction_response,
}
use step_fi_api.Transactions.Service.{
  submit_transaction, submit_new, record_and_send, send_to_horizon, after_lookup, submitted,
  get_transaction_status, cache_key,
}
use step_fi_api.Transactions.Checks.{IsAllowed, allowed, operation_allowlist_error_iff}
use step_fi_api.Transactions.Outcomes.{Outcome, submit_transaction-Outcome}
use step_fi_api.Transactions.Accepted.{Recorded, submit_transaction-accepted}
use step_fi_api.Transactions.Replay.{submit_transaction-again}

-- The hashes with a pending row in the current schema, the number of transactions that Horizon has
-- taken, and one entry of the cache.
record World : Type 0 where
  rows : List String
  sends : ℕ
  entry : Option (String × StatusResponse)

abbrev start_world : World
start_world = record { rows = []; sends = 0; entry = none }

abbrev pending_row : TransactionRow
pending_row = record {
  hash = some "h1";
  kind = some "LOAN_CREATE";
  status = some "pending";
  submitted_at = none;
  completed_at = none;
  updated_at = none;
}

abbrev called : String → Option Attributes
called name = some (record {
  function_name = some name;
  contract_address = some (
      buffer (
        1 ∷ 1 ∷ 1 ∷ 1 ∷ 1 ∷ 1 ∷ 1 ∷ 1 ∷ 1 ∷ 1 ∷ 1 ∷ 1 ∷ 1 ∷ 1 ∷ 1 ∷ 1 ∷ 1 ∷ 1 ∷ 1 ∷ 1 ∷ 1 ∷ 1 ∷ 1
        ∷ 1 ∷ 1 ∷ 1 ∷ 1 ∷ 1 ∷ 1 ∷ 1 ∷ 1 ∷ 1 ∷ []));
  auth = none;
})

abbrev envelope : List Operation → Envelope
envelope operations = plain "h1" (record { source = "GA"; operations = operations })

abbrev read_entry : String → Option (String × StatusResponse) → Option StatusResponse
read_entry key none = none
read_entry key (some (k, r)) = if str_eq k key then some r else none

abbrev confirmed : HorizonTransaction
confirmed = record {
  hash = "h1";
  successful = true;
  ledger_attr = 7;
  operation_count = 1;
  source_account = "GA";
  fee_charged = "100";
  memo_type = "none";
  memo = none;
  created_at = "2026-01-01T00:00:00Z";
  result_xdr = "AAAA";
}

abbrev select_in : LookupColumn → String → World → SelectReply
select_in hash_column hash s = nothing
select_in transaction_hash_column hash s =
    if is_listed hash s.rows then found pending_row else nothing

abbrev missing_column : DbError
missing_column = record { code = some "42703"; message = some "column hash does not exist" }

abbrev insert_in : LookupColumn → NewTransaction → World → Option DbError × World
insert_in hash_column row s = (some missing_column, s)
insert_in transaction_hash_column row s =
    (none, record { rows = row.hash ∷ s.rows; sends = s.sends; entry = s.entry })

insert_keeps :
    (column : LookupColumn) (row : NewTransaction) (s : World)
    → s.sends ≡ 0
    → (insert_in column row s).1.sends ≡ 0
insert_keeps hash_column row s h = h
insert_keeps transaction_hash_column row s h = h

abbrev world : TransactionsEnv World
world = record {
  from_xdr = λ x. some (envelope (invoke_host_function (called "create_loan") ∷ []));
  encode_contract = λ bytes. some "CLOAN";
  decode_result = λ x. none;
  lower = λ x. x;
  upper = λ x. x;
  trim = λ x. x;
  underscored = λ x. x;
  humanize_code = λ x. x;
  config = λ key. if str_eq key "CREDIT_LINE_CONTRACT_ID" then some "CLOAN" else none;
  select_row = select_in;
  insert_row = insert_in;
  update_failed = λ column hash message s. s;
  update_finalized = λ column hash r s. s;
  submit = λ tx s. (none, record { rows = s.rows; sends = s.sends + 1; entry = s.entry });
  horizon_transaction = λ hash s. (known confirmed, s);
  cache_get = λ key s. read_entry key s.entry;
  cache_set = λ key r s. record { rows = s.rows; sends = s.sends; entry = some (key, r) };
}

abbrev after : World
after = record { rows = "h1" ∷ []; sends = 1; entry = none }

submitted_once :
    submit_transaction world "GA" loan_create "AAAA" start_world ≡ returns (submitted "h1") after
unfolding submit_transaction operation_allowlist_error wallet_authorizes find_transaction_record
    submit_new record_and_send persist_transaction_record send_to_horizon
submitted_once = refl

payment_refused :
    operation_allowlist_error world (envelope (other_operation "payment" ∷ [])) loan_create
    ≡ some (operation_not_allowed "payment")
unfolding operation_allowlist_error
payment_refused = refl

one_call-IsAllowed : IsAllowed world loan_create (invoke_host_function (called "create_loan"))
unfolding contract_id
one_call-IsAllowed = allowed {expected = "CLOAN"} refl refl refl refl

-- A transaction whose only operation is the call of `name`.
abbrev one_call : String → Envelope
one_call name = envelope (invoke_host_function (called name) ∷ [])

operation_allowlist_error_iff_example :
    operation_allowlist_error world (one_call "create_loan") loan_create ≡ none ↔ (
      ((inner_transaction (one_call "create_loan")).operations ≢ [])
      × All (IsAllowed world loan_create) (inner_transaction (one_call "create_loan")).operations)
operation_allowlist_error_iff_example =
    operation_allowlist_error_iff world (one_call "create_loan") loan_create

abbrev create_name : String
create_name = "create_loan"

submit_transaction-Outcome_example :
    Outcome world "GA" loan_create "AAAA"
      (λ s. s.sends ≡ 0)
      (submit_transaction world "GA" loan_create "AAAA" start_world)
submit_transaction-Outcome_example =
    submit_transaction-Outcome world (λ s. s.sends ≡ 0) insert_keeps "GA" loan_create "AAAA"
      start_world refl

submit_transaction-accepted_example :
    (tx : Envelope) × (world.from_xdr "AAAA" ≡ some tx)
    × ((inner_transaction tx).operations ≢ [])
    × All (IsAllowed world loan_create) (inner_transaction tx).operations
    × (wallet_authorizes tx "GA" ≡ true)
    × (find_transaction_record world (hash_of tx) start_world ≡ returns none start_world)
    × Recorded world "GA" loan_create "AAAA" tx start_world (submitted "h1") after
submit_transaction-accepted_example =
    submit_transaction-accepted world "GA" loan_create "AAAA" start_world after (submitted "h1")
      submitted_once refl

listed_first : (x : String) (xs : List String) → is_listed x (x ∷ xs) ≡ true
listed_first x xs = ground (arith, eq_iff x x)

sends_no_rows :
    (tx : Envelope) (column : LookupColumn) (hash : String) (s : World)
    → select_in column hash (world.submit tx s).1 ≡ select_in column hash s
sends_no_rows tx hash_column hash s = refl
sends_no_rows tx transaction_hash_column hash s = refl

submit_transaction-again_example :
    submit_transaction world "GA" loan_create "AAAA" after
    ≡ returns (record { transaction_hash = "h1"; status = "pending"; duplicate = true }) after
submit_transaction-again_example =
    submit_transaction-again world reads_back (λ row s. refl) sends_no_rows "GA" loan_create "AAAA"
      start_world after (submitted "h1") submitted_once refl
  where
    reads_back :
        (column : LookupColumn) (row : NewTransaction) (s t : World)
        → world.insert_row column row s ≡ (none, t)
        → (x : TransactionRow) × (world.select_row column row.hash t ≡ found x)
          × (x.status ≡ some "pending")
    reads_back hash_column row s t h = cc
    reads_back transaction_hash_column row s t h = (
      pending_row,
      subst (λ v. select_in transaction_hash_column row.hash v ≡ found pending_row)
          (ap (λ q. q.1) h) (rw (listed_first row.hash s.rows) refl),
      refl,
    )

abbrev answer : StatusResponse
answer = build_finalized_transaction_response world confirmed none

status_asked :
    get_transaction_status world "h1" start_world
    ≡ returns answer (world.cache_set (cache_key "h1") answer start_world)
unfolding get_transaction_status find_transaction_record after_lookup persist_finalized_transaction
status_asked = refl

answer_confirmed : answer.confirmed_at ≢ none
unfolding build_finalized_transaction_response
answer_confirmed e = ground arith
