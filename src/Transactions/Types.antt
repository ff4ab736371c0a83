-- ===== src/Transactions/Types.antt =====
-- The data of src/modules/transactions/transactions.service.ts, and the services that it calls as the
-- fields of `TransactionsEnv`, over an abstract state of the world.
use step_fi_api.Common.{ℕ, String, Bool, List, Option}
use step_fi_api.Checker.Types.{TransactionType}

-- `attributes.contractAddress`: a buffer, an object whose `value()` is a buffer or something else,
-- or an object without `value`.
pub data RawAddress : Type 0 where
  buffer : List ℕ → RawAddress
  holder : Option (List ℕ) → RawAddress
  opaque : RawAddress

-- An entry of `auth`: the name of its credentials' switch, and the text of the address that the
-- account form and the address form lead to.
pub data AuthEntry : Type 0 where
  malformed : AuthEntry
  credentials : (switch_name account_address address_address : Option String) → AuthEntry

-- `_attributes` of the function of an `invokeHostFunction` operation
pub record Attributes : Type 0 where
  pub function_name : Option String
  pub contract_address : Option RawAddress
  pub auth : Option (List AuthEntry)

pub data Operation : Type 0 where
  invoke_host_function : Option Attributes → Operation
  other_operation : (kind : String) → Operation

-- A decoded transaction, or the outer envelope of a fee bump.
pub record InnerTransaction : Type 0 where
  pub source : String
  pub operations : List Operation

pub data Envelope : Type 0 where
  plain : (hash : String) → InnerTransaction → Envelope
  fee_bump : (hash fee_source : String) → InnerTransaction → Envelope

pub data LookupColumn : Type 0 where
  hash_column transaction_hash_column : LookupColumn

-- A row as it is read: the hash in the column that it was found by.
pub record TransactionRow : Type 0 where
  pub hash : Option String
  pub kind : Option String
  pub status : Option String
  pub submitted_at : Option String
  pub completed_at : Option String
  pub updated_at : Option String

pub record TransactionRecord : Type 0 where
  pub lookup_column : LookupColumn
  pub hash : String
  pub kind : Option String
  pub status : Option String
  pub submitted_at : Option String
  pub completed_at : Option String
  pub updated_at : Option String

-- The row that a submission inserts; its status is `pending`.
pub record NewTransaction : Type 0 where
  pub user_wallet : String
  pub hash : String
  pub kind : TransactionType
  pub xdr : String

-- An error of the database client, or one that is thrown.
pub record DbError : Type 0 where
  pub code : Option String
  pub message : Option String

pub data SelectReply : Type 0 where
  found : TransactionRow → SelectReply
  nothing : SelectReply
  select_error : DbError → SelectReply

-- What Horizon's client throws, as far as the service reads it.
pub record HorizonFailure : Type 0 where
  pub result_codes : Option (Option String × Option (List String))
  pub http_status : Option ℕ
  pub message : Option String

pub record HorizonTransaction : Type 0 where
  pub hash : String
  pub successful : Bool
  pub ledger_attr : ℕ
  pub operation_count : ℕ
  pub source_account : String
  pub fee_charged : String
  pub memo_type : String
  pub memo : Option String
  pub created_at : String
  pub result_xdr : String

pub data LookupReply : Type 0 where
  known : HorizonTransaction → LookupReply
  lookup_failure : HorizonFailure → LookupReply

pub record ResultDetails : Type 0 where
  pub ledger : ℕ
  pub operation_count : ℕ
  pub source_account : String
  pub fee_charged : String
  pub memo_type : String
  pub memo : Option String
  pub created_at : String

pub record ErrorDetails : Type 0 where
  pub code : String
  pub message : String
  pub operation_codes : Option (List String)

-- `lastCheckedAt`, the time of the answer, is left out.
pub record StatusResponse : Type 0 where
  pub hash : String
  pub status : String
  pub kind : Option String
  pub result : Option ResultDetails
  pub error : Option ErrorDetails
  pub submitted_at : Option String
  pub confirmed_at : Option String

pub record ErrorDescription : Type 0 where
  pub http_status : ℕ
  pub code : String
  pub message : String

-- The exceptions, by their code.
pub data SubmitError : Type 0 where
  invalid_xdr type_mismatch : SubmitError
  operation_not_allowed : (kind : String) → SubmitError
  contract_not_configured source_mismatch lookup_db_failed persistence_failed : SubmitError
  horizon_error : (exception_status : ℕ) (code message : String) → SubmitError
  transaction_not_found horizon_unavailable status_lookup_failed : SubmitError

pub record SubmitResponse : Type 0 where
  pub transaction_hash : String
  pub status : String
  pub duplicate : Bool

pub record TransactionsEnv (S : Type 0) : Type 0 where
  -- `TransactionBuilder.fromXDR`
  pub from_xdr : String → Option Envelope
  -- `StrKey.encodeContract` of 32 bytes; `none` when it throws
  pub encode_contract : List ℕ → Option String
  -- `TransactionResult.fromXDR`: the name of the result, and those of the operations' results when
  -- its value is an array; the message of the error when it throws
  pub decode_result : String → Option (String × Option (List String))
  pub lower : String → String
  pub upper : String → String
  pub trim : String → String
  -- the two `replace` calls of `toSnakeCase`
  pub underscored : String → String
  -- `humanizeCode`
  pub humanize_code : String → String
  -- `configService.get`
  pub config : String → Option String
  pub select_row : LookupColumn → String → S → SelectReply
  -- `none` when the insert reports no error
  pub insert_row : LookupColumn → NewTransaction → S → Option DbError × S
  -- the update of the row with this hash to `failed`, with its message
  pub update_failed : LookupColumn → String → String → S → S
  -- the update of the row with this hash to the response's status, result and error
  pub update_finalized : LookupColumn → String → StatusResponse → S → S
  -- `submitTransaction` of Horizon's client; `none` when it does not throw
  pub submit : Envelope → S → Option HorizonFailure × S
  pub horizon_transaction : String → S → LookupReply × S
  pub cache_get : String → S → Option StatusResponse
  pub cache_set : String → StatusResponse → S → S
