-- ===== src/Transactions/Checks.antt =====
-- Which transactions the allowlist lets through, and what the status checker makes of them.
use step_fi_api.Common.{
  ◌≡◌, ◌≢◌, ◌↔◌, ◌⊎◌, inl, inr, refl, sym, ◌∙◌, String, true, Bool-cases, subst, ap, List, [], ◌∷◌,
  Option, none, some, not, str_eq, eq_iff, All, arith, if◌then◌else◌,
}
use step_fi_api.Checker.Types.{
  TransactionType, loan_create, loan_repay, deposit, withdraw, vendor_approve, vendor_suspend,
  NativeArg, truthy,
}
use step_fi_api.Checker.Metadata.{Spelling, metadata_of}
use step_fi_api.Transactions.Types.{
  Attributes, Operation, invoke_host_function, other_operation, Envelope, SubmitError,
  type_mismatch, contract_not_configured, TransactionsEnv,
}
use step_fi_api.Transactions.Allowlist.{
  is_listed, function_names, contract_id_key, inner_transaction, name_in, contract_id,
  contract_error, operation_error, operations_error, operation_allowlist_error,
}

module _ {S : Type 0} (env : TransactionsEnv S) where
  -- A call of a function of the type's list, in the contract that is configured for the type.
  pub data IsAllowed : TransactionType → Operation → Type 0 where
    allowed :
        {kind : TransactionType} {a : Option Attributes} {name expected : String}
        → truthy (name_in a) ≡ some name
        → is_listed name (function_names kind) ≡ true
        → truthy (env.config (contract_id_key kind)) ≡ some expected
        → truthy (contract_id env a) ≡ some (env.trim expected)
        → IsAllowed kind (invoke_host_function a)

  contract_error-none :
      (kind : TransactionType) (id : Option String)
      → contract_error env kind id ≡ none
      → (expected : String) × (truthy (env.config (contract_id_key kind)) ≡ some expected)
        × (truthy id ≡ some (env.trim expected))
  unfolding contract_error
  contract_error-none kind id h =
      go (truthy (env.config (contract_id_key kind))) (truthy id) refl refl h
    where
      go :
          (configured actual : Option String)
          → truthy (env.config (contract_id_key kind)) ≡ configured
          → truthy id ≡ actual
          → elim configured [
            | none ↦ some contract_not_configured
            | some expected ↦ elim actual [
              | none ↦ some type_mismatch
              | some a ↦ if str_eq a (env.trim expected) then none else some type_mismatch
            ]
          ]
            ≡ none
          → (expected : String) × (truthy (env.config (contract_id_key kind)) ≡ some expected)
            × (truthy id ≡ some (env.trim expected))
      go none actual c i h' = cc
      go (some expected) none c i h' = cc
      go (some expected) (some a) c i h' =
          (expected, c, i ∙ ground (arith, eq_iff a (env.trim expected)))

  operation_error-IsAllowed :
      (kind : TransactionType) (op : Operation)
      → operation_error env kind op ≡ none
      → IsAllowed kind op
  unfolding operation_error
  operation_error-IsAllowed kind (other_operation name) h = cc
  operation_error-IsAllowed kind (invoke_host_function a) h = go (truthy (name_in a)) refl h
    where
      go :
          (named : Option String)
          → truthy (name_in a) ≡ named
          → elim named [
            | none ↦ some type_mismatch
            | some name ↦
                if not (is_listed name (function_names kind))
                then some type_mismatch
                else contract_error env kind (contract_id env a)
          ]
            ≡ none
          → IsAllowed kind (invoke_host_function a)
      go none n h' = cc
      go (some name) n h' =
          let listed : is_listed name (function_names kind) ≡ true = ground arith in
          let (expected, c, i) = contract_error-none kind (contract_id env a) (ground arith) in
          allowed n listed c i

  str_eq_self : (x : String) → str_eq x x ≡ true
  str_eq_self x = ground (arith, eq_iff x x)

  contract_error-matches :
      (kind : TransactionType) (id : Option String) (expected : String)
      → truthy (env.config (contract_id_key kind)) ≡ some expected
      → truthy id ≡ some (env.trim expected)
      → contract_error env kind id ≡ none
  unfolding contract_error
  contract_error-matches kind id expected c i =
      rw (c, contract_error) (rw i (rw (str_eq_self (env.trim expected)) refl))

  IsAllowed-operation_error :
      (kind : TransactionType) (op : Operation)
      → IsAllowed kind op
      → operation_error env kind op ≡ none
  unfolding operation_error
  IsAllowed-operation_error kind op (allowed {a} {expected} n l c i) =
      rw (n, operation_error) (rw l (contract_error-matches kind (contract_id env a) expected c i))

  operations_error-All :
      (kind : TransactionType) (ops : List Operation)
      → operations_error env kind ops ≡ none
      → All (IsAllowed kind) ops
  operations_error-All kind [] h = tt
  operations_error-All kind (op ∷ ops) h =
      go (operation_error env kind op) (operations_error-All kind ops) refl h
    where
      go :
          (e : Option SubmitError)
          → (operations_error env kind ops ≡ none → All (IsAllowed kind) ops)
          → operation_error env kind op ≡ e
          → elim e [ none ↦ operations_error env kind ops | some x ↦ some x ] ≡ none
          → All (IsAllowed kind) (op ∷ ops)
      go none rest e h' = (operation_error-IsAllowed kind op e, rest h')
      go (some x) rest e h' = cc

  All-operations_error :
      (kind : TransactionType) (ops : List Operation)
      → All (IsAllowed kind) ops
      → operations_error env kind ops ≡ none
  All-operations_error kind [] h = refl
  All-operations_error kind (op ∷ ops) (first, rest) =
      rw (IsAllowed-operation_error kind op first, operations_error)
        (All-operations_error kind ops rest)

  -- The allowlist lets a transaction through exactly when it has an operation, and each of them
  -- calls a function of the declared type's list in the contract that is configured for the type.
  pub operation_allowlist_error_iff :
      (tx : Envelope) (kind : TransactionType)
      → operation_allowlist_error env tx kind ≡ none ↔ (
          ((inner_transaction tx).operations ≢ [])
          × All (IsAllowed kind) (inner_transaction tx).operations)
  unfolding operation_allowlist_error
  operation_allowlist_error_iff tx kind = go (inner_transaction tx).operations
    where
      go :
          (ops : List Operation)
          → elim ops [ [] ↦ some type_mismatch | op ∷ rest ↦ operations_error env kind (op ∷ rest) ]
              ≡ none
            ↔ ((ops ≢ []) × All (IsAllowed kind) ops)
      go [] = (λ h. cc, λ (ne, all). absurd (ne refl))
      go (op ∷ ops) = (
        λ h. (λ e. cc, operations_error-All kind (op ∷ ops) h),
        λ (ne, all). All-operations_error kind (op ∷ ops) all,
      )

  listed_one : (name x : String) → is_listed name (x ∷ []) ≡ true → name ≡ x
  listed_one name x h = ground (arith, eq_iff x name)

  listed_two : (name x y : String) → is_listed name (x ∷ y ∷ []) ≡ true → (name ≡ x) ⊎ (name ≡ y)
  listed_two name x y h = elim (Bool-cases (str_eq x name)) [
    | inl e ↦ inl (sym ((eq_iff x name).0 e))
    | inr e ↦ inr (sym ((eq_iff y name).0 (ground arith)))
  ]

  metadata_of-listed :
      (spell : Spelling) (kind : TransactionType) (name : String) (args : List NativeArg)
      → is_listed name (function_names kind) ≡ true
      → metadata_of spell name args ≢ none
      → (kind ≡ loan_create) ⊎ ((kind ≡ loan_repay) × (name ≡ "repay_loan"))
  unfolding metadata_of
  metadata_of-listed spell loan_create name args l m = inl refl
  metadata_of-listed spell loan_repay name args l m =
      elim (listed_two name "repay_loan" "repay_installment" l) [
        | inl e ↦ inr (refl, e)
        | inr e ↦ absurd (m (ap (λ n. metadata_of spell n args) e))
      ]
  metadata_of-listed spell deposit name args l m =
      absurd (m (ap (λ n. metadata_of spell n args) (listed_one name "deposit" l)))
  metadata_of-listed spell withdraw name args l m =
      absurd (m (ap (λ n. metadata_of spell n args) (listed_one name "withdraw" l)))
  metadata_of-listed spell vendor_approve name args l m =
      absurd (m (ap (λ n. metadata_of spell n args) (listed_one name "approve_vendor" l)))
  metadata_of-listed spell vendor_suspend name args l m =
      absurd (m (ap (λ n. metadata_of spell n args) (listed_one name "suspend_vendor" l)))

  -- An allowed call names a loan for the status checker only as a `loan_create`, or as a
  -- `loan_repay` that calls `repay_loan`: whatever the arguments of another allowed call, the
  -- checker reads no metadata from it.
  pub IsAllowed-metadata_of :
      (spell : Spelling) (kind : TransactionType) (a : Option Attributes) (name : String)
      (args : List NativeArg)
      → IsAllowed kind (invoke_host_function a)
      → truthy (name_in a) ≡ some name
      → metadata_of spell name args ≢ none
      → (kind ≡ loan_create) ⊎ ((kind ≡ loan_repay) × (name ≡ "repay_loan"))
  IsAllowed-metadata_of spell kind a name args (allowed {name = called} n l c i) h m =
      let same : called ≡ name = cc in
      metadata_of-listed spell kind name args
        (subst (λ x. is_listed x (function_names kind) ≡ true) same l) m
