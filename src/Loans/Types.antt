-- ===== src/Loans/Types.antt =====
-- The data of src/modules/loans/loans.service.ts and of its DTOs. Amounts are in stroops.
use step_fi_api.Common.{ℕ, String, Option, List, Bool}
use step_fi_api.Common.Int.{ℤ}
use step_fi_api.Credit.{Assessment}

-- The statuses of migration 20260617000000_loans_under_review.sql.
pub data LoanStatus : Type 0 where
  pending under_review active completed defaulted rejected : LoanStatus

-- The part of the reputation service's answer that the loans service reads.
pub record Reputation : Type 0 where
  pub score : ℤ
  pub interest_rate : ℕ
  pub max_credit : ℕ

pub record ValidVendor : Type 0 where
  pub id : String
  pub name : String
  pub verified : Bool

pub record LoanQuoteRequest : Type 0 where
  pub amount : ℕ
  pub vendor : String
  pub term : ℕ

pub record SchedulePayment : Type 0 where
  pub payment_number : ℕ
  pub amount : ℕ
  pub due_date : String

pub record LoanQuote : Type 0 where
  pub amount : ℕ
  pub guarantee : ℕ
  pub loan_amount : ℕ
  pub interest_rate : ℕ
  pub total_repayment : ℕ
  pub term : ℕ
  pub monthly_payment : ℕ
  pub schedule : List SchedulePayment

pub record CreateLoanRecord : Type 0 where
  pub loan_id : String
  pub user_wallet : String
  pub vendor_id : String
  pub amount : ℕ
  pub loan_amount : ℕ
  pub guarantee : ℕ
  pub interest_rate : ℕ
  pub total_repayment : ℕ
  pub remaining_balance : ℕ
  pub term : ℕ
  pub status : LoanStatus
  pub next_payment_due : Option String

-- The arguments of `buildCreateLoanTransaction`.
pub record CreateLoanParams : Type 0 where
  pub loan_id : String
  pub vendor_id : String
  pub amount : ℕ
  pub loan_amount : ℕ
  pub guarantee : ℕ
  pub interest_rate : ℕ
  pub term : ℕ

pub record CreateLoanResponse : Type 0 where
  pub loan_id : String
  pub xdr : Option String
  pub terms : LoanQuote
  pub assessment : Assessment

-- The columns of a loan row that the handlers select.
pub record LoanRow : Type 0 where
  pub loan_id : String
  pub user_wallet : String
  pub status : LoanStatus
  pub amount : ℕ
  pub remaining_balance : ℕ

pub record PaymentPreview : Type 0 where
  pub payment_amount : ℕ
  pub current_balance : ℕ
  pub new_balance : ℕ
  pub will_complete : Bool

pub record LoanPaymentResponse : Type 0 where
  pub unsigned_xdr : String
  pub preview : PaymentPreview

-- One constructor for each exception code.
pub data LoanError : Type 0 where
  vendor_not_found : LoanError
  vendor_not_verified : (name : String) → LoanError
  reputation_too_low : (score : ℤ) → LoanError
  amount_exceeds_credit : (amount max_credit : ℕ) → LoanError
  assessment_rejected : Assessment → LoanError
  create_loan_xdr_failed : LoanError
  create_loan_failed : LoanError
  loan_not_found : LoanError
  loan_not_active : LoanStatus → LoanError
  payment_exceeds_balance : (amount balance : ℕ) → LoanError
  contract_failed : LoanError
  reputation_contract_unavailable : LoanError
  active_loans_query_failed : LoanError
  assessment_invalid_status : LoanStatus → LoanError
  assessment_update_failed : LoanError
