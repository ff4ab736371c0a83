-- ===== src/Checker/LoanWrites.antt =====
-- What a settled transaction does to the loans: `applyFollowUpActions` and what it calls.
use step_fi_api.Common.{
  ℕ, ◌-◌, ◌*◌, ◌≡◌, ◌≢◌, ◌↔◌, refl, String, Bool-cases, true, Option, none, some, arith, eq_iff,
  Option-cases, inl, inr, str_eq,
}
use step_fi_api.Loans.Types.{LoanStatus, pending, completed, CreateLoanParams}
use step_fi_api.Loans.Terms.{cent, round_currency}
use step_fi_api.Loans.Service.{preview_of, balance_or_zero}
use step_fi_api.Checker.Types.{
  TransactionType, loan_create, loan_repay, PendingTransaction, FinalStatus, success, failed,
  TransactionMetadata, LoanView, CheckerEnv, truthy, DecodedXdr,
}
use step_fi_api.Checker.Metadata.{
  Spelling, parse_transaction_metadata, decoded_metadata, create_loan_call, repay_loan_call,
}
use step_fi_api.Checker.FollowUp.{
  no_follow_up, updated_balance, updated_status, status_write, activated, activate_pending_loan,
  apply_loan_repayment, follow_up_on, follow_up_with, apply_follow_up_actions,
}

updated_cents : (b a : ℕ) → round_currency (b * cent - a * cent) ≡ b * cent - a * cent
unfolding round_currency
updated_cents b a = omega arith

-- The balance that a confirmed repayment leaves is the one that its preview showed, and the loan is
-- completed exactly if the preview said so, for a balance and a payment in whole cents.
pub updated_balance-preview_of :
    (b a : ℕ) (status : LoanStatus)
    → status ≢ completed
    → let p = preview_of (b * cent) (a * cent) in
      let balance = updated_balance (b * cent) (a * cent) in
      (balance ≡ p.new_balance)
      × ((updated_status status balance ≡ completed) ↔ (p.will_complete ≡ true))
unfolding updated_balance
updated_balance-preview_of b a status h = rw (updated_cents b a) (refl, ground arith)

abbrev pub balance_after : LoanView → ℕ → ℕ
balance_after loan amount = updated_balance (balance_or_zero loan.remaining_balance) amount

truthy-some : (s : String) → s ≢ "" → truthy (some s) ≡ some s
truthy-some s h = ground (arith, eq_iff s "")

parse-some :
    (spell : Spelling) (decode : String → DecodedXdr) (x : String)
    → x ≢ ""
    → parse_transaction_metadata spell decode (some x) ≡ decoded_metadata spell (decode x)
unfolding parse_transaction_metadata
parse-some spell decode x h = rw (truthy-some x h, parse_transaction_metadata)

parse-repay_loan_call :
    (spell : Spelling) (decode : String → DecodedXdr) (x wallet id : String) (amount : ℕ)
    → decode x ≡ repay_loan_call wallet id amount
    → parse_transaction_metadata spell decode (some x) ≡ none
unfolding parse_transaction_metadata repay_loan_call
parse-repay_loan_call spell decode x wallet id amount d = elim (Bool-cases (str_eq x "")) [
  | inl empty ↦ rw (empty, parse_transaction_metadata)
  | inr full ↦ rw (full, parse_transaction_metadata, d)
]

module _ {S : Type 0} (env : CheckerEnv S) where
  -- What a follow-up may do to the loans: nothing, activate a pending loan of the transaction's own
  -- wallet, or write the balance of one.
  pub data LoanWrite (tx : PendingTransaction) (s : S) : S → Type 0 where
    untouched : {t : S} → t ≡ s → LoanWrite tx s t
    activates :
        {t : S} (id : String) (loan : LoanView)
        → tx.kind ≡ loan_create
        → env.find_loan id tx.user_wallet s ≡ some loan
        → loan.status ≡ pending
        → t ≡ (env.activate_loan id tx.user_wallet s).1
        → LoanWrite tx s t
    repays :
        {t : S} (id : String) (loan : LoanView) (amount : ℕ)
        → tx.kind ≡ loan_repay
        → env.find_loan id tx.user_wallet s ≡ some loan
        → t
          ≡ (env.write_balance id tx.user_wallet
              (balance_after loan amount)
              (status_write loan.status (balance_after loan amount))
              s).1
        → LoanWrite tx s t

  activate-LoanWrite :
      (tx : PendingTransaction) (id : String) (s : S)
      → tx.kind ≡ loan_create
      → LoanWrite tx s (activate_pending_loan env id tx.user_wallet s).1
  unfolding activate_pending_loan activated
  activate-LoanWrite tx id s k = elim (Option-cases (env.find_loan id tx.user_wallet s)) [
    | inl missing ↦ untouched (ground arith)
    | inr (loan, found) ↦ go loan.status loan refl found
  ]
    where
      go :
          (status : LoanStatus) (loan : LoanView)
          → loan.status ≡ status
          → env.find_loan id tx.user_wallet s ≡ some loan
          → LoanWrite tx s (activate_pending_loan env id tx.user_wallet s).1
      go pending loan e found = activates id loan k found e (ground arith)
      go _ loan e found = untouched (ground arith)

  repay-LoanWrite :
      (tx : PendingTransaction) (id : String) (amount : ℕ) (s : S)
      → tx.kind ≡ loan_repay
      → LoanWrite tx s (apply_loan_repayment env id tx.user_wallet amount s).1
  unfolding apply_loan_repayment
  repay-LoanWrite tx id amount s k = elim (Option-cases (env.find_loan id tx.user_wallet s)) [
    | inl missing ↦ untouched (ground arith)
    | inr (loan, found) ↦ repays id loan amount k found (ground arith)
  ]

  follow_up_on-LoanWrite :
      (tx : PendingTransaction) (kind : TransactionType) (id : String) (amount : Option ℕ) (s : S)
      → tx.kind ≡ kind
      → LoanWrite tx s (follow_up_on env kind id tx.user_wallet amount s).1
  unfolding follow_up_on
  follow_up_on-LoanWrite tx loan_create id amount s k = activate-LoanWrite tx id s k
  follow_up_on-LoanWrite tx loan_repay id (some amount) s k = repay-LoanWrite tx id amount s k
  follow_up_on-LoanWrite tx _ id amount s k = untouched refl

  follow_up_with-LoanWrite :
      (tx : PendingTransaction) (m : Option TransactionMetadata) (s : S)
      → LoanWrite tx s (follow_up_with env tx m s).1
  unfolding follow_up_with
  follow_up_with-LoanWrite tx none s = untouched refl
  follow_up_with-LoanWrite tx (some m) s = elim (Option-cases (truthy m.loan_id)) [
    | inl missing ↦ untouched (ground arith)
    | inr (id, there) ↦
        rw (there, follow_up_with) (follow_up_on-LoanWrite tx tx.kind id m.amount s refl)
  ]

  -- A settled transaction touches no loan, or it activates a pending loan, or it writes a balance:
  -- always a loan of its own wallet, and only as its type says.
  pub apply_follow_up_actions-LoanWrite :
      (tx : PendingTransaction) (status : FinalStatus) (s : S)
      → LoanWrite tx s (apply_follow_up_actions env tx status s).1
  unfolding apply_follow_up_actions
  apply_follow_up_actions-LoanWrite tx failed s = untouched refl
  apply_follow_up_actions-LoanWrite tx success s =
      follow_up_with-LoanWrite tx (parse_transaction_metadata env.spell env.decode tx.xdr) s

  -- If a confirmed `loan_create` transaction has a non-empty XDR that decodes to the call of
  -- `buildCreateLoanTransaction` for a loan with a non-empty id, its follow-up is to activate this
  -- loan for the transaction's wallet.
  pub create_loan_call-activates :
      (tx : PendingTransaction) (x : String) (p : CreateLoanParams) (s : S)
      → tx.kind ≡ loan_create
      → tx.xdr ≡ some x
      → x ≢ ""
      → env.decode x ≡ create_loan_call p
      → p.loan_id ≢ ""
      → apply_follow_up_actions env tx success s
        ≡ activate_pending_loan env p.loan_id tx.user_wallet s
  unfolding apply_follow_up_actions decoded_metadata create_loan_call follow_up_with follow_up_on
  create_loan_call-activates tx x p s k e ne d named =
      rw (e, parse-some env.spell env.decode x ne, d)
        (rw (truthy-some p.loan_id named, follow_up_with) (rw k))

  -- A confirmed transaction whose XDR decodes to the call of `buildRepayLoanTx` changes no loan,
  -- whatever its type and its arguments.
  pub repay_loan_call-ignored :
      (tx : PendingTransaction) (x wallet id : String) (amount : ℕ) (s : S)
      → tx.xdr ≡ some x
      → env.decode x ≡ repay_loan_call wallet id amount
      → apply_follow_up_actions env tx success s ≡ (no_follow_up, s)
  unfolding apply_follow_up_actions follow_up_with
  repay_loan_call-ignored tx x wallet id amount s e d =
      rw (e, parse-repay_loan_call env.spell env.decode x wallet id amount d)
