-- ===== src/Transactions/Allowlist.antt =====
-- The checks of a submitted transaction before anything is written, in
-- src/modules/transactions/transactions.service.ts: its operations against the allowlist of its type,
-- and the wallet against its source and its authorizations.
use step_fi_api.Common.{
  ℕ, ◌==◌, String, Bool, false, List, [], ◌∷◌, ◌++◌, Option, none, some, str_eq, length, not, ◌||◌,
  if◌then◌else◌,
}
use step_fi_api.Checker.Types.{
  TransactionType, loan_create, loan_repay, deposit, withdraw, vendor_approve, vendor_suspend,
  truthy,
}
use step_fi_api.Transactions.Types.{
  RawAddress, buffer, holder, opaque, AuthEntry, malformed, credentials, Attributes, Operation,
  invoke_host_function, other_operation, InnerTransaction, Envelope, plain, fee_bump, SubmitError,
  type_mismatch, operation_not_allowed, contract_not_configured, TransactionsEnv,
}

abbrev pub credit_line_contract_id_key : String
credit_line_contract_id_key = "CREDIT_LINE_CONTRACT_ID"

abbrev pub liquidity_pool_contract_id_key : String
liquidity_pool_contract_id_key = "LIQUIDITY_POOL_CONTRACT_ID"

abbrev pub vendor_registry_contract_id_key : String
vendor_registry_contract_id_key = "VENDOR_REGISTRY_CONTRACT_ID"

-- TRANSACTION_TYPE_ALLOWLIST
abbrev pub function_names : TransactionType → List String
function_names loan_create = "create_loan" ∷ []
function_names loan_repay = "repay_loan" ∷ "repay_installment" ∷ []
function_names deposit = "deposit" ∷ []
function_names withdraw = "withdraw" ∷ []
function_names vendor_approve = "approve_vendor" ∷ []
function_names vendor_suspend = "suspend_vendor" ∷ []

abbrev pub contract_id_key : TransactionType → String
contract_id_key loan_create = credit_line_contract_id_key
contract_id_key loan_repay = credit_line_contract_id_key
contract_id_key deposit = liquidity_pool_contract_id_key
contract_id_key withdraw = liquidity_pool_contract_id_key
contract_id_key vendor_approve = vendor_registry_contract_id_key
contract_id_key vendor_suspend = vendor_registry_contract_id_key

-- `xs.includes(x)`
abbrev pub is_listed : String → List String → Bool
is_listed x [] = false
is_listed x (y ∷ ys) = str_eq y x || is_listed x ys

abbrev pub inner_transaction : Envelope → InnerTransaction
inner_transaction (plain hash tx) = tx
inner_transaction (fee_bump hash source tx) = tx

abbrev pub hash_of : Envelope → String
hash_of (plain hash tx) = hash
hash_of (fee_bump hash source tx) = hash

abbrev pub bytes_of : RawAddress → Option (List ℕ)
bytes_of (buffer bytes) = some bytes
bytes_of (holder value) = value
bytes_of opaque = none

abbrev pub name_in : Option Attributes → Option String
name_in none = none
name_in (some a) = a.function_name

abbrev pub address_in : Option Attributes → Option RawAddress
address_in none = none
address_in (some a) = a.contract_address

-- `Array.isArray(attributes?.auth) ? attributes.auth : []`
abbrev pub listed : Option (List AuthEntry) → List AuthEntry
listed none = []
listed (some entries) = entries

abbrev pub auth_in : Option Attributes → List AuthEntry
auth_in none = []
auth_in (some a) = listed a.auth

-- The address that a credential leads to.
abbrev pub address_holder : Option String → Option String → Option String → Option String
address_holder none account address = address
address_holder (some name) account address =
    if str_eq name "sorobanCredentialsAccount" then account else address

-- `if (address && !addresses.includes(address)) addresses.push(address)`
abbrev pub push_new : Option String → List String → List String
push_new none addresses = addresses
push_new (some a) addresses = if is_listed a addresses then addresses else addresses ++ (a ∷ [])

abbrev pub push_entry : AuthEntry → List String → List String
push_entry malformed addresses = addresses
push_entry (credentials name account address) addresses =
    push_new (truthy (address_holder name account address)) addresses

abbrev pub push_entries : List AuthEntry → List String → List String
push_entries [] addresses = addresses
push_entries (e ∷ es) addresses = push_entries es (push_entry e addresses)

abbrev pub collect : List Operation → List String → List String
collect [] addresses = addresses
collect (invoke_host_function a ∷ ops) addresses = collect ops (push_entries (auth_in a) addresses)
collect (other_operation kind ∷ ops) addresses = collect ops addresses

unfoldable pub collect_authorized_addresses : Envelope → List String
collect_authorized_addresses tx = collect (inner_transaction tx).operations []

-- `true` where `assertWalletAuthorizes` returns.
unfoldable pub wallet_authorizes : Envelope → String → Bool
unfolding collect_authorized_addresses
wallet_authorizes tx wallet =
    str_eq (inner_transaction tx).source wallet
    || is_listed wallet (collect_authorized_addresses tx)

module _ {S : Type 0} (env : TransactionsEnv S) where
  abbrev pub encoded : Option (List ℕ) → Option String
  encoded none = none
  encoded (some bytes) = if length bytes == 32 then env.encode_contract bytes else none

  -- `contractId` of `extractInvocationAttributes`
  unfoldable pub contract_id : Option Attributes → Option String
  contract_id a = elim (address_in a) [ none ↦ none | some raw ↦ encoded (bytes_of raw) ]

  -- What the operation loop throws for an invocation with a name; `none` where it goes on.
  unfoldable pub contract_error : TransactionType → Option String → Option SubmitError
  contract_error kind id = elim (truthy (env.config (contract_id_key kind))) [
    | none ↦ some contract_not_configured
    | some expected ↦ elim (truthy id) [
      | none ↦ some type_mismatch
      | some actual ↦ if str_eq actual (env.trim expected) then none else some type_mismatch
    ]
  ]

  unfoldable pub operation_error : TransactionType → Operation → Option SubmitError
  unfolding contract_error contract_id
  operation_error kind (other_operation name) = some (operation_not_allowed name)
  operation_error kind (invoke_host_function a) = elim (truthy (name_in a)) [
    | none ↦ some type_mismatch
    | some name ↦
        if not (is_listed name (function_names kind))
        then some type_mismatch
        else contract_error kind (contract_id a)
  ]

  abbrev pub operations_error : TransactionType → List Operation → Option SubmitError
  operations_error kind [] = none
  operations_error kind (op ∷ ops) =
      let rest = operations_error kind ops in
      elim (operation_error kind op) [ none ↦ rest | some e ↦ some e ]

  -- What `assertOperationAllowlist` throws; `none` where it returns.
  unfoldable pub operation_allowlist_error : Envelope → TransactionType → Option SubmitError
  unfolding operation_error
  operation_allowlist_error tx kind = elim (inner_transaction tx).operations [
    | [] ↦ some type_mismatch
    | op ∷ ops ↦ operations_error kind (op ∷ ops)
  ]
