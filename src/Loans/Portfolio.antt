-- ===== src/Loans/Portfolio.antt =====
-- `getAvailableCredit`, `getStats` and the items of `getMyLoans` in src/modules/loans/loans.service.ts.
-- Times are milliseconds, rates hundredths of a percent.
use step_fi_api.Common.{
  ℕ, ◌-◌, ◌*◌, String, Bool, true, false, ◌&&◌, List, Option, none, some, ltb, leb, min,
  if◌then◌else◌, length, sum_of, count_of, get_elem?, Act, ◌>>=◌, done, or_throw,
}
use step_fi_api.Common.Int.{ℤ, pos}
use step_fi_api.Credit.{Tier, resolve_tier}
use step_fi_api.Loans.Types.{
  LoanStatus, completed, defaulted, SchedulePayment, LoanError, reputation_contract_unavailable,
  active_loans_query_failed,
}
use step_fi_api.Loans.Terms.{round_div, round_currency, generate_schedule}
use step_fi_api.Loans.Service.{balance_or_zero, is_active}

pub record CreditEnv (S : Type 0) : Type 0 where
  -- the reputation contract: `none` when it throws, `some none` when it has no score
  pub contract_score : String → S → Option (Option ℤ)
  -- the remaining balances of the wallet's active loans; `none` when the query fails
  pub active_balances : String → S → Option (List (Option ℕ))

pub record AvailableCredit : Type 0 where
  pub reputation_score : ℤ
  pub reputation_tier : Tier
  pub max_credit_limit : ℕ
  pub credit_used : ℕ
  pub available_credit : ℕ
  pub active_loans : ℕ

-- `(await getScore(wallet)) ?? 0`
abbrev pub score_or_zero : Option ℤ → ℤ
score_or_zero none = pos 0
score_or_zero (some n) = n

-- `Math.max(0, ...)` of the difference: `-` stops at 0, and 0 rounds to 0.
abbrev pub credit_of : ℤ → List (Option ℕ) → AvailableCredit
credit_of score balances =
    let terms = resolve_tier score in
    let used = round_currency (sum_of balance_or_zero balances) in
    record {
      reputation_score = score;
      reputation_tier = terms.tier;
      max_credit_limit = terms.max_credit;
      credit_used = used;
      available_credit = round_currency (terms.max_credit - used);
      active_loans = length balances;
    }

unfoldable pub get_available_credit :
    {S : Type 0} → CreditEnv S → String → Act S LoanError AvailableCredit
get_available_credit env wallet = do
  answer ← (λ s. or_throw (env.contract_score wallet s) reputation_contract_unavailable s)
  balances ← (λ s. or_throw (env.active_balances wallet s) active_loans_query_failed s)
  done (credit_of (score_or_zero answer) balances)

-- The columns that `getStats` selects.
pub record StatsRow : Type 0 where
  pub status : LoanStatus
  pub loan_amount : Option ℕ
  pub completed_at : Option ℕ
  pub next_payment_due : Option ℕ

pub record LoanStats : Type 0 where
  pub total_loans : ℕ
  pub active_loans : ℕ
  pub repaid_loans : ℕ
  pub defaulted_loans : ℕ
  pub total_volume : ℕ
  pub on_time_repayment_rate : ℕ

abbrev pub is_completed : LoanStatus → Bool
is_completed completed = true
is_completed _ = false

abbrev pub is_defaulted : LoanStatus → Bool
is_defaulted defaulted = true
is_defaulted _ = false

-- `completed_at != null && next_payment_due != null && completed_at <= next_payment_due`
abbrev pub in_time : Option ℕ → Option ℕ → Bool
in_time (some at) (some due) = leb at due
in_time (some at) none = false
in_time none due = false

abbrev pub repaid_on_time : StatsRow → Bool
repaid_on_time l = is_completed l.status && in_time l.completed_at l.next_payment_due

unfoldable pub stats_of : List StatsRow → LoanStats
stats_of loans =
    let repaid = count_of (λ (l : StatsRow). is_completed l.status) loans in
    record {
      total_loans = length loans;
      active_loans = count_of (λ l. is_active l.status) loans;
      repaid_loans = repaid;
      defaulted_loans = count_of (λ l. is_defaulted l.status) loans;
      total_volume = round_currency (sum_of (λ l. balance_or_zero l.loan_amount) loans);
      on_time_repayment_rate =
          if ltb 0 repaid then round_div (count_of repaid_on_time loans * 10_000) repaid else 0;
    }

-- The columns of a listed loan that `mapLoanListItem` computes with.
pub record LoanListRow : Type 0 where
  pub total_repayment : ℕ
  pub remaining_balance : ℕ
  pub term : ℕ
  pub status : LoanStatus
  pub next_payment_due : Option String
  pub payments : ℕ

pub record NextPayment : Type 0 where
  pub due_date : Option String
  pub amount : Option ℕ

pub record LoanListItem : Type 0 where
  pub total_paid : ℕ
  pub remaining_balance : ℕ
  pub next_payment : NextPayment

-- `loan.next_payment_due ?? scheduled?.dueDate ?? null`
abbrev pub due_or : Option String → Option SchedulePayment → Option String
due_or (some d) p = some d
due_or none (some p) = some p.due_date
due_or none none = none

unfoldable pub next_amount : Option SchedulePayment → ℕ → ℕ
next_amount (some p) balance = round_currency (min p.amount balance)
next_amount none balance = round_currency balance

-- `due` gives the dates counted from the loan's creation.
unfoldable pub map_loan_list_item : (ℕ → String) → LoanListRow → LoanListItem
map_loan_list_item due loan =
    let schedule = generate_schedule due loan.total_repayment loan.term in
    let scheduled = get_elem? schedule (min loan.payments (length schedule - 1)) in
    record {
      total_paid = round_currency (loan.total_repayment - loan.remaining_balance);
      remaining_balance = loan.remaining_balance;
      next_payment =
          if is_active loan.status && ltb 0 loan.remaining_balance
          then record {
            due_date = due_or loan.next_payment_due scheduled;
            amount = some (next_amount scheduled loan.remaining_balance);
          }
          else record { due_date = none; amount = none };
    }
