-- ===== src/Loans/Tests.antt =====
-- The theorems on src/modules/loans/loans.service.ts at concrete requests.
use step_fi_api.Common.{
  ℕ, ◌+◌, ◌*◌, ◌≤◌, ◌≡◌, ◌↔◌, refl, String, true, false, List, [], ◌∷◌, none, some, arith, returns,
}
use step_fi_api.Common.Int.{pos}
use step_fi_api.Credit.{dollar, approved, silver, strong_score, Assessment, assess}
use step_fi_api.Loans.Types.{
  LoanStatus, pending, active, completed, defaulted, ValidVendor, LoanQuoteRequest,
  CreateLoanResponse, LoanRow, LoanPaymentResponse, vendor_not_verified,
}
use step_fi_api.Loans.Terms.{cent, total_repayment_of, loan_amount_of, quote}
use step_fi_api.Loans.Service.{
  LoansEnv, AssessLoanResponse, create_loan, prepare_loan_preview, submit_loan, create_xdr,
  build_repayment_xdr, preview_of,
}
use step_fi_api.Loans.Portfolio.{CreditEnv, AvailableCredit, StatsRow, LoanListRow, stats_of}
use step_fi_api.Loans.Schedule.{paid, quote_balanced}
use step_fi_api.Loans.Creation.{Previewed, Submitted, create_loan-Created, create_loan_frame}
use step_fi_api.Loans.Repayment.{Payable, build_repayment_xdr_iff}

abbrev start : ℕ
start = 0

abbrev month : ℕ → String
month i = "2026-07-01"

abbrev loan_of : LoanStatus → LoanRow
loan_of status = record {
  loan_id = "loan_1";
  user_wallet = "GA";
  status = status;
  amount = 100 * dollar;
  remaining_balance = 90 * dollar;
}

-- A world that counts its writes, with one loan of the given status.
abbrev world : LoanStatus → LoansEnv ℕ
world status = record {
  reputation =
      λ w s. (record { score = pos 80; interest_rate = 6; max_credit = 5_000 * dollar }, s);
  find_vendor = λ id s. some (record { id = id; name = "Shop"; verified = true });
  provisional_id = λ s. ("loan_2", s);
  due_date = λ s. month;
  build_create_loan = λ w p s. (some "AAAA", s);
  build_repay_loan = λ w id a s. (some "BBBB", s);
  insert_loan = λ r s. (true, s + 1);
  update_status = λ id st s. (true, s + 1);
  find_loan = λ id s. some (loan_of status);
  active_balances = λ w s. some (some (90 * dollar) ∷ none ∷ []);
}

-- The same with a vendor that is not verified.
abbrev unverified : LoansEnv ℕ
unverified = record {
  reputation = (world active).reputation;
  find_vendor = λ id s. some (record { id = id; name = "Shop"; verified = false });
  provisional_id = (world active).provisional_id;
  due_date = (world active).due_date;
  build_create_loan = (world active).build_create_loan;
  build_repay_loan = (world active).build_repay_loan;
  insert_loan = (world active).insert_loan;
  update_status = (world active).update_status;
  find_loan = (world active).find_loan;
  active_balances = (world active).active_balances;
}

abbrev request : LoanQuoteRequest
request = record { amount = 100 * dollar; vendor = "v1"; term = 3 }

abbrev approval : ℕ → Assessment
approval amount = record {
  decision = approved;
  score = pos 80;
  reasons = strong_score (pos 80) ∷ [];
}

abbrev created : CreateLoanResponse
created = record {
  loan_id = "loan_2";
  xdr = some "AAAA";
  terms = quote month request 6;
  assessment = approval (100 * dollar);
}

create_loan-Created_example :
    (vendor : ValidVendor) × Previewed (world active) "GA" request true 0 vendor created.terms
    × Submitted (world active) "GA" request vendor 1 created
unfolding create_loan prepare_loan_preview submit_loan assess create_xdr
create_loan-Created_example = create_loan-Created (world active) "GA" request 0 1 created refl

create_loan_frame_example : 7 ≤ 7
unfolding create_loan prepare_loan_preview
create_loan_frame_example =
    create_loan_frame unverified "GA" request (λ n. 7 ≤ n) (λ w u h. h) (λ u h. h) (λ w p u h. h) 7
      7 (vendor_not_verified "Shop") refl (λ e. cc) (omega arith)

quote_balanced_example :
    let q = quote month request 6 in
    (q.guarantee + q.loan_amount ≡ 100 * dollar)
    × (paid q.schedule ≡ q.total_repayment)
    × (q.loan_amount ≤ q.total_repayment)
quote_balanced_example = quote_balanced month request 6 10_000 refl (omega arith)

build_repayment_xdr_iff_example :
    (build_repayment_xdr (world active) "GA" "row_1" (30 * dollar) 0 ≡ returns "BBBB" 0) ↔ (
      (loan : LoanRow) × Payable (world active) "GA" "row_1" (30 * dollar) 0 loan
      × ((world active).build_repay_loan "GA" loan.loan_id (30 * dollar) 0 ≡ (some "BBBB", 0)))
build_repayment_xdr_iff_example =
    build_repayment_xdr_iff (world active) "GA" "row_1" (30 * dollar) 0 0 "BBBB"

abbrev repayment : LoanPaymentResponse
repayment = record { unsigned_xdr = "BBBB"; preview = preview_of (90 * dollar) (90 * dollar) }

abbrev reassessed : AssessLoanResponse
reassessed = record {
  loan_id = "loan_1";
  assessment = approval (100 * dollar);
  previous_status = pending;
  current_status = pending;
}

abbrev credit_world : CreditEnv ℕ
credit_world = record {
  contract_score = λ w s. some (some (pos 80));
  active_balances = λ w s. some (some (90 * dollar) ∷ none ∷ []);
}

abbrev available : AvailableCredit
available = record {
  reputation_score = pos 80;
  reputation_tier = silver;
  max_credit_limit = 5_000 * dollar;
  credit_used = 90 * dollar;
  available_credit = 4_910 * dollar;
  active_loans = 2;
}

abbrev rows : List StatsRow
rows =
    record {
      status = completed;
      loan_amount = some dollar;
      completed_at = some 5;
      next_payment_due = some 9;
    }
    ∷ record {
      status = completed;
      loan_amount = some dollar;
      completed_at = some 9;
      next_payment_due = some 5;
    }
    ∷ record {
      status = defaulted;
      loan_amount = none;
      completed_at = none;
      next_payment_due = none;
    }
    ∷ []

rate_of_rows : (stats_of rows).on_time_repayment_rate ≡ 5_000
unfolding stats_of
rate_of_rows = refl

abbrev listed : LoanListRow
listed = record {
  total_repayment = 8_120 * cent;
  remaining_balance = 5_414 * cent;
  term = 3;
  status = active;
  next_payment_due = none;
  payments = 1;
}

-- A loan of 100 dollars at 6% over three months: 80 dollars lent, 81.20 to repay.
quote_of_request : (quote month request 6).total_repayment ≡ 8_120 * cent
unfolding quote total_repayment_of loan_amount_of
quote_of_request = refl
