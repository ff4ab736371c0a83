-- ===== src/Loans/Terms.antt =====
-- The arithmetic of `prepareLoanPreview` and `generateScheduleFromDate` in
-- src/modules/loans/loans.service.ts. A JavaScript number is an exact decimal here: a whole number of
-- stroops, and quotients are rounded where the source rounds them and nowhere else.
use step_fi_api.Common.{
  ℕ, zero, suc, ◌+◌, ◌-◌, ◌*◌, ◌/◌, ◌==◌, String, List, [], ◌∷◌, if◌then◌else◌,
}
use step_fi_api.Loans.Types.{LoanQuoteRequest, LoanQuote, SchedulePayment}

-- A cent, in stroops.
abbrev pub cent : ℕ
cent = 100_000

-- `Math.round(n / d)`: half a unit goes up.
abbrev pub round_div : ℕ → ℕ → ℕ
round_div n d = (2 * n + d) / (2 * d)

-- `Math.round(x * 100) / 100`
unfoldable pub round_currency : ℕ → ℕ
round_currency x = round_div x cent * cent

-- `Math.round(amount * 0.2 * 100) / 100`
unfoldable pub guarantee_of : ℕ → ℕ
guarantee_of amount = round_div (2 * amount) (10 * cent) * cent

-- `Math.round(amount * 0.8 * 100) / 100`
unfoldable pub loan_amount_of : ℕ → ℕ
loan_amount_of amount = round_div (8 * amount) (10 * cent) * cent

-- `Math.round((loanAmount + loanAmount * (rate / 100) * (term / 12)) * 100) / 100`
unfoldable pub total_repayment_of : ℕ → ℕ → ℕ → ℕ
total_repayment_of loan_amount rate term =
    round_div (1200 * loan_amount + loan_amount * rate * term) (1200 * cent) * cent

-- `Math.floor((totalRepayment / term) * 100) / 100`
unfoldable pub monthly_payment_of : ℕ → ℕ → ℕ
monthly_payment_of total term = total / (cent * term) * cent

-- The loop of `generateScheduleFromDate`: `left` rounds from payment `i` on. `due i` is the text of
-- the date that lies `i` months after the start. `total - allocated` is not negative, since the
-- monthly payment is rounded down.
unfoldable pub payments : (ℕ → String) → ℕ → ℕ → ℕ → ℕ → ℕ → ℕ → List SchedulePayment
payments due total term monthly zero i allocated = []
payments due total term monthly (suc left) i allocated =
    let amount = if i == term then round_currency (total - allocated) else monthly in
    record { payment_number = i; amount = amount; due_date = due i }
    ∷ payments due total term monthly left (i + 1) (allocated + amount)

unfoldable pub generate_schedule : (ℕ → String) → ℕ → ℕ → List SchedulePayment
generate_schedule due total term = payments due total term (monthly_payment_of total term) term 1 0

-- The end of `prepareLoanPreview`.
unfoldable pub quote : (ℕ → String) → LoanQuoteRequest → ℕ → LoanQuote
quote due dto rate =
    let loan_amount = loan_amount_of dto.amount in
    let total = total_repayment_of loan_amount rate dto.term in
    record {
      amount = dto.amount;
      guarantee = guarantee_of dto.amount;
      loan_amount = loan_amount;
      interest_rate = rate;
      total_repayment = total;
      term = dto.term;
      monthly_payment = monthly_payment_of total dto.term;
      schedule = generate_schedule due total dto.term;
    }
