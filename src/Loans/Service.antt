-- ===== src/Loans/Service.antt =====
-- The handlers of src/modules/loans/loans.service.ts that create, quote, repay and assess a loan.
-- The database, the contract clients, the reputation service, the clock and the generator of
-- provisional ids are the fields of `LoansEnv`, over an abstract state of the world.
use step_fi_api.Common.{
  ℕ, ◌-◌, ◌==◌, String, Bool, true, false, not, ◌&&◌, List, [], ◌∷◌, Option, none, some, ltb, leb,
  if◌then◌else◌, str_eq, sum_of, Act, ◌>>=◌, ◌>>◌, done, require, read, or_throw, call,
}
use step_fi_api.Common.Int.{pos, ltb_ℤ}
use step_fi_api.Credit.{
  Decision, approved, manual_review, rejected as declined, Assessment, Ratio, assess,
}
use step_fi_api.Loans.Types.{
  LoanStatus, pending, under_review, active, rejected, Reputation, ValidVendor, LoanQuoteRequest,
  LoanQuote, SchedulePayment, CreateLoanRecord, CreateLoanParams, CreateLoanResponse, LoanRow,
  PaymentPreview, LoanPaymentResponse, LoanError, vendor_not_found, vendor_not_verified,
  reputation_too_low, amount_exceeds_credit, assessment_rejected, create_loan_xdr_failed,
  create_loan_failed, loan_not_found, loan_not_active, payment_exceeds_balance, contract_failed,
  assessment_invalid_status, assessment_update_failed,
}
use step_fi_api.Loans.Terms.{quote}

pub record LoansEnv (S : Type 0) : Type 0 where
  -- `reputationService.getReputationScore`, which does not throw
  pub reputation : String → S → Reputation × S
  -- `vendors` by id: `none` for an error and for no row
  pub find_vendor : String → S → Option ValidVendor
  -- `generateProvisionalLoanId`: the clock and `Math.random`
  pub provisional_id : S → String × S
  -- the ISO text of the date `i` months after now
  pub due_date : S → ℕ → String
  -- the contract client: `none` when it throws
  pub build_create_loan : String → CreateLoanParams → S → Option String × S
  pub build_repay_loan : String → String → ℕ → S → Option String × S
  -- `true` when the write reports no error
  pub insert_loan : CreateLoanRecord → S → Bool × S
  pub update_status : String → LoanStatus → S → Bool × S
  -- `loans` by row id: `none` for an error and for no row
  pub find_loan : String → S → Option LoanRow
  -- the remaining balances of the wallet's active loans; `none` when the query fails
  pub active_balances : String → S → Option (List (Option ℕ))

-- `Number(loan.remaining_balance ?? 0)`
abbrev pub balance_or_zero : Option ℕ → ℕ
balance_or_zero none = 0
balance_or_zero (some b) = b

-- `(activeLoans ?? []).reduce(...)`
abbrev pub credit_used : Option (List (Option ℕ)) → ℕ
credit_used none = 0
credit_used (some bs) = sum_of balance_or_zero bs

-- `maxCredit > 0 ? creditUsed / maxCredit : 0`
abbrev pub utilization : ℕ → ℕ → Ratio
utilization used max_credit =
    if ltb 0 max_credit
    then record { used = used; total = max_credit }
    else record { used = 0; total = 1 }

abbrev pub is_approved : Decision → Bool
is_approved approved = true
is_approved _ = false

abbrev pub is_declined : Decision → Bool
is_declined declined = true
is_declined _ = false

abbrev pub is_active : LoanStatus → Bool
is_active active = true
is_active _ = false

-- `['pending', 'under_review'].includes(status)`
abbrev pub is_assessable : LoanStatus → Bool
is_assessable pending = true
is_assessable under_review = true
is_assessable _ = false

-- `schedule[0]?.dueDate ?? null`
abbrev pub first_due : List SchedulePayment → Option String
first_due [] = none
first_due (p ∷ ps) = some p.due_date

-- The status that `assessLoan` writes.
abbrev pub status_after : Decision → LoanStatus
status_after approved = pending
status_after declined = rejected
status_after manual_review = under_review

abbrev pub create_params : String → ValidVendor → LoanQuoteRequest → LoanQuote → CreateLoanParams
create_params id vendor dto terms = record {
  loan_id = id;
  vendor_id = vendor.id;
  amount = dto.amount;
  loan_amount = terms.loan_amount;
  guarantee = terms.guarantee;
  interest_rate = terms.interest_rate;
  term = terms.term;
}

abbrev pub loan_record : String → String → ValidVendor → LoanQuote → LoanStatus → CreateLoanRecord
loan_record id wallet vendor terms status = record {
  loan_id = id;
  user_wallet = wallet;
  vendor_id = vendor.id;
  amount = terms.amount;
  loan_amount = terms.loan_amount;
  guarantee = terms.guarantee;
  interest_rate = terms.interest_rate;
  total_repayment = terms.total_repayment;
  remaining_balance = terms.total_repayment;
  term = terms.term;
  status = status;
  next_payment_due = first_due terms.schedule;
}

pub record AssessLoanResponse : Type 0 where
  pub loan_id : String
  pub assessment : Assessment
  pub previous_status : LoanStatus
  pub current_status : LoanStatus

-- `Math.round((remainingBalance - amount) * 10_000_000) / 10_000_000`: exact in stroops.
abbrev pub preview_of : ℕ → ℕ → PaymentPreview
preview_of balance amount = record {
  payment_amount = amount;
  current_balance = balance;
  new_balance = balance - amount;
  will_complete = balance - amount == 0;
}

module _ {S : Type 0} (env : LoansEnv S) where
  unfoldable pub validate_vendor : String → Act S LoanError ValidVendor
  validate_vendor id = do
    vendor ← (λ s. or_throw (env.find_vendor id s) vendor_not_found s)
    require vendor.verified (vendor_not_verified vendor.name)
    done vendor

  unfoldable pub prepare_loan_preview :
      String → LoanQuoteRequest → Bool → Act S LoanError (ValidVendor × LoanQuote)
  unfolding validate_vendor
  prepare_loan_preview wallet dto enforce_minimum = do
    reputation ← call (env.reputation wallet)
    vendor ← validate_vendor dto.vendor
    require (not (enforce_minimum && ltb_ℤ reputation.score (pos 60)))
        (reputation_too_low reputation.score)
    require (leb dto.amount reputation.max_credit)
        (amount_exceeds_credit dto.amount reputation.max_credit)
    due ← read env.due_date
    done (vendor, quote due dto reputation.interest_rate)

  unfoldable pub calculate_loan_quote : String → LoanQuoteRequest → Act S LoanError LoanQuote
  unfolding prepare_loan_preview
  calculate_loan_quote wallet dto = do
    preview ← prepare_loan_preview wallet dto false
    done preview.1

  unfoldable pub run_credit_assessment : String → ℕ → Act S LoanError Assessment
  run_credit_assessment wallet amount = do
    reputation ← call (env.reputation wallet)
    balances ← read (env.active_balances wallet)
    done (
        assess (record {
          amount = amount;
          reputation_score = reputation.score;
          max_credit = reputation.max_credit;
          credit_utilization = utilization (credit_used balances) reputation.max_credit;
        }))

  -- The XDR of a loan that starts as pending; a loan under review has none.
  unfoldable pub create_xdr : Bool → String → CreateLoanParams → Act S LoanError (Option String)
  create_xdr false wallet params = done none
  create_xdr true wallet params = do
    xdr ← call (env.build_create_loan wallet params)
    text ← or_throw xdr create_loan_xdr_failed
    done (some text)

  -- `createLoan` after the preview.
  unfoldable pub submit_loan :
      String → LoanQuoteRequest → ValidVendor × LoanQuote → Act S LoanError CreateLoanResponse
  unfolding run_credit_assessment
  submit_loan wallet dto (vendor, terms) = do
    id ← call env.provisional_id
    assessment ← run_credit_assessment wallet dto.amount
    require (not (is_declined assessment.decision)) (assessment_rejected assessment)
    let ready = is_approved assessment.decision
    xdr ← create_xdr ready wallet (create_params id vendor dto terms)
    let status = if ready then pending else under_review
    stored ← call (env.insert_loan (loan_record id wallet vendor terms status))
    require stored create_loan_failed
    done (record { loan_id = id; xdr = xdr; terms = terms; assessment = assessment })

  unfoldable pub create_loan : String → LoanQuoteRequest → Act S LoanError CreateLoanResponse
  create_loan wallet dto = do
    preview ← prepare_loan_preview wallet dto true
    submit_loan wallet dto preview

  unfoldable pub build_repayment_xdr : String → String → ℕ → Act S LoanError String
  build_repayment_xdr wallet loan_id amount = do
    loan ← (λ s. or_throw (env.find_loan loan_id s) loan_not_found s)
    require (str_eq loan.user_wallet wallet) loan_not_found
    require (is_active loan.status) (loan_not_active loan.status)
    require (leb amount loan.remaining_balance)
        (payment_exceeds_balance amount loan.remaining_balance)
    xdr ← call (env.build_repay_loan wallet loan.loan_id amount)
    or_throw xdr contract_failed

  unfoldable pub repay_loan : String → String → ℕ → Act S LoanError LoanPaymentResponse
  unfolding build_repayment_xdr
  repay_loan wallet loan_id amount = do
    loan ← (λ s. or_throw (env.find_loan loan_id s) loan_not_found s)
    unsigned_xdr ← build_repayment_xdr wallet loan_id amount
    done
        (record { unsigned_xdr = unsigned_xdr; preview = preview_of loan.remaining_balance amount })

  unfoldable pub assess_loan : String → String → Act S LoanError AssessLoanResponse
  unfolding run_credit_assessment
  assess_loan wallet loan_id = do
    loan ← (λ s. or_throw (env.find_loan loan_id s) loan_not_found s)
    require (str_eq loan.user_wallet wallet) loan_not_found
    require (is_assessable loan.status) (assessment_invalid_status loan.status)
    assessment ← run_credit_assessment wallet loan.amount
    stored ← call (env.update_status loan_id (status_after assessment.decision))
    require stored assessment_update_failed
    done (record {
      loan_id = loan.loan_id;
      assessment = assessment;
      previous_status = loan.status;
      current_status = status_after assessment.decision;
    })
