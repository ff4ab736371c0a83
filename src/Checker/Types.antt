-- ===== src/Checker/Types.antt =====
-- The data of the transaction status checker, and the services that it calls as the fields of
-- `CheckerEnv`, over an abstract state of the world.
use step_fi_api.Common.{ℕ, String, Bool, List, Option, none, some, str_eq, if◌then◌else◌}
use step_fi_api.Loans.Types.{LoanStatus}

pub data TransactionType : Type 0 where
  loan_create loan_repay deposit withdraw vendor_approve vendor_suspend : TransactionType

pub record PendingTransaction : Type 0 where
  pub user_wallet : String
  pub transaction_hash : String
  pub kind : TransactionType
  pub xdr : Option String

-- The two outcomes that a transaction is finalised with.
pub data FinalStatus : Type 0 where
  success failed : FinalStatus

-- What the Horizon client throws; the message in lower case.
pub record HorizonError : Type 0 where
  pub is_not_found : Bool
  pub is_network : Bool
  pub http_status : Option ℕ
  pub message : String

-- `successful` is not there in an unexpected payload.
pub data HorizonReply : Type 0 where
  response : (successful : Option Bool) (error_message : Option String) → HorizonReply
  raised : HorizonError → HorizonReply

-- `TransactionStatusResult` of a found transaction. `successful` is optional in the source's type;
-- the check always sets it.
pub record StatusResult : Type 0 where
  pub successful : Option Bool
  pub error_message : Option String

-- `scValToNative` of an argument.
pub data NativeArg : Type 0 where
  text : String → NativeArg
  bigint number : ℕ → NativeArg
  other : NativeArg

-- The first operation of a decoded envelope, or of the inner transaction of a fee bump.
pub data DecodedXdr : Type 0 where
  malformed : DecodedXdr
  no_invocation : DecodedXdr
  invocation : (function_name : String) (args : List NativeArg) → DecodedXdr

-- Amounts are in stroops, as the contract's arguments are.
pub record TransactionMetadata : Type 0 where
  pub loan_id : Option String
  pub amount : Option ℕ

pub record FollowUpResult : Type 0 where
  pub loan_id : Option String
  pub remaining_balance : Option ℕ
  pub loan_status : Option LoanStatus

pub record LoanView : Type 0 where
  pub status : LoanStatus
  pub remaining_balance : Option ℕ

pub record Notification : Type 0 where
  pub user_wallet : String
  pub kind : String
  pub title : String
  pub message : String
  pub transaction_hash : String
  pub transaction_type : TransactionType
  pub loan_id : Option String

pub data Claim : Type 0 where
  claim_error no_row claimed : Claim

pub data CheckerError : Type 0 where
  fetch_failed : CheckerError
  horizon_failed : HorizonError → CheckerError
  update_failed : CheckerError

pub record CheckerEnv (S : Type 0) : Type 0 where
  -- the oldest hundred pending transactions; `none` when the query fails
  pub fetch_pending : S → Option (List PendingTransaction)
  -- one call of Horizon
  pub horizon : String → S → HorizonReply × S
  -- the update of the row with this hash that is still pending
  pub claim_transaction : String → FinalStatus → Option String → S → Claim × S
  -- a loan by its id and wallet: `none` for an error and for no row
  pub find_loan : String → String → S → Option LoanView
  -- `true` when the write reports no error
  pub activate_loan : String → String → S → Bool × S
  pub write_balance : String → String → ℕ → Option LoanStatus → S → Bool × S
  pub insert_notification : Notification → S → Bool × S
  pub delete_old : S → Bool × S
  -- how an argument that is not a text is spelled in a query and in a message; none for a falsy one
  pub spell : NativeArg → Option String
  -- `TransactionBuilder.fromXDR`
  pub decode : String → DecodedXdr
  -- `Number.prototype.toFixed(2)` of an amount
  pub to_fixed_2 : ℕ → String

-- A text that is there and not empty.
abbrev pub truthy : Option String → Option String
truthy none = none
truthy (some s) = if str_eq s "" then none else some s
