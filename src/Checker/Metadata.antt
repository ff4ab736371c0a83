-- ===== src/Checker/Metadata.antt =====
-- `parseTransactionMetadata`, and the calls that the contract client of
-- src/stellar/contracts/clients/creditline.client.ts builds.
use step_fi_api.Common.{
  ℕ, String, List, [], ◌∷◌, Option, none, some, str_eq, get_elem?, if◌then◌else◌,
}
use step_fi_api.Checker.Types.{
  NativeArg, text, bigint, number, other, DecodedXdr, malformed, no_invocation, invocation,
  TransactionMetadata, truthy,
}
use step_fi_api.Loans.Types.{CreateLoanParams}

-- How an argument that is not a text is spelled in a query and in a message; none for a falsy one.
abbrev pub Spelling : Type 0
Spelling = NativeArg → Option String

-- `nativeArgs[i] as string`, which changes no value: the id is used as it is spelled.
abbrev pub as_string : Spelling → Option NativeArg → Option String
as_string spell (some (text s)) = some s
as_string spell (some (bigint n)) = spell (bigint n)
as_string spell (some (number n)) = spell (number n)
as_string spell (some other) = spell other
as_string spell none = none

-- The raw amount over 10_000_000, which is that many stroops.
abbrev pub as_amount : Option NativeArg → Option ℕ
as_amount (some (bigint n)) = some n
as_amount (some (number n)) = some n
as_amount (some (text s)) = none
as_amount (some other) = none
as_amount none = none

unfoldable pub metadata_of : Spelling → String → List NativeArg → Option TransactionMetadata
metadata_of spell name args =
    if str_eq name "create_loan"
    then some (record { loan_id = as_string spell (get_elem? args 0); amount = none })
    else if str_eq name "repay_loan"
    then some (record {
      loan_id = as_string spell (get_elem? args 1);
      amount = as_amount (get_elem? args 2);
    })
    else none

unfoldable pub decoded_metadata : Spelling → DecodedXdr → Option TransactionMetadata
unfolding metadata_of
decoded_metadata spell malformed = none
decoded_metadata spell no_invocation = none
decoded_metadata spell (invocation name args) =
    if str_eq name "" then none else metadata_of spell name args

unfoldable pub parse_transaction_metadata :
    Spelling → (String → DecodedXdr) → Option String → Option TransactionMetadata
unfolding decoded_metadata
parse_transaction_metadata spell decode xdr = elim (truthy xdr) [
  | none ↦ none
  | some x ↦ decoded_metadata spell (decode x)
]

-- The invocation in the transaction of `buildCreateLoanTransaction`.
unfoldable pub create_loan_call : CreateLoanParams → DecodedXdr
create_loan_call p = invocation "create_loan" (
    text p.loan_id
    ∷ text p.vendor_id
    ∷ bigint p.amount
    ∷ bigint p.loan_amount
    ∷ bigint p.guarantee
    ∷ number p.interest_rate
    ∷ number p.term
    ∷ [])

-- The invocation in the transaction of `buildRepayLoanTx`. An address decodes to its text.
unfoldable pub repay_loan_call : String → String → ℕ → DecodedXdr
repay_loan_call wallet loan_id amount =
    invocation "repay_installment" (text wallet ∷ text loan_id ∷ bigint amount ∷ [])
