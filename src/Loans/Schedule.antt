-- ===== src/Loans/Schedule.antt =====
-- What the terms of a quote add up to: the arithmetic of `prepareLoanPreview` in
-- src/modules/loans/loans.service.ts.
use native.Mathlib.Nat.{mul_comm, mul-div-mul_left, mul-div-le, lt-div-mul-add}
use step_fi_api.Common.{
  ℕ, zero, suc, ◌+◌, ◌-◌, ◌*◌, ◌/◌, ◌≤◌, ◌<◌, ◌≡◌, refl, ap, String, List, [], ◌∷◌, arith, length,
  sum_of, All, ◌∙◌, false, ◌==◌, true,
}
use step_fi_api.Loans.Types.{LoanQuoteRequest, SchedulePayment}
use step_fi_api.Loans.Terms.{
  cent, round_currency, guarantee_of, loan_amount_of, total_repayment_of, monthly_payment_of,
  payments, generate_schedule, quote,
}

round_currency_cents : (k : ℕ) → round_currency (k * cent) ≡ k * cent
unfolding round_currency
round_currency_cents k = omega arith

guarantee-add-loan_amount : (k : ℕ) → guarantee_of (k * cent) + loan_amount_of (k * cent) ≡ k * cent
unfolding guarantee_of loan_amount_of
guarantee-add-loan_amount k = omega arith

abbrev pub paid : List SchedulePayment → ℕ
paid = sum_of (λ p. p.amount)

last_payment : (k m : ℕ) → m ≤ k → round_currency (k * cent - m * cent) ≡ k * cent - m * cent
unfolding round_currency
last_payment k m h = omega arith

-- Before the last payment one round allocates the monthly payment.
payments_step :
    (due : ℕ → String) (total term monthly left i a : ℕ)
    → i < term
    → payments due total term monthly (suc left) i a
      ≡ record { payment_number = i; amount = monthly; due_date = due i }
        ∷ payments due total term monthly left (i + 1) (a + monthly)
unfolding payments
payments_step due total term monthly left i a h = let e : (i == term) ≡ false = ground arith in rw e

module _ (due : ℕ → String) (k term q : ℕ) where
  abbrev rounds : ℕ → ℕ → ℕ → List SchedulePayment
  rounds left i m = payments due (k * cent) term (q * cent) left i (m * cent)

  rounds_step :
      (left i m : ℕ)
      → i < term
      → rounds (suc left) i m
        ≡ record { payment_number = i; amount = q * cent; due_date = due i }
          ∷ rounds left (i + 1) (m + q)
  rounds_step left i m h =
      let e : m * cent + q * cent ≡ (m + q) * cent = omega arith in
      payments_step due (k * cent) term (q * cent) left i (m * cent) h
      ∙ ap
          (λ a.
            record { payment_number = i; amount = q * cent; due_date = due i }
            ∷ payments due (k * cent) term (q * cent) left (i + 1) a)
          e

  rounds_last :
      (i m : ℕ)
      → i ≡ term
      → m ≤ k
      → rounds 1 i m
        ≡ record { payment_number = i; amount = k * cent - m * cent; due_date = due i } ∷ []
  unfolding payments
  rounds_last i m e h = let hit : (i == term) ≡ true = ground arith in rw (hit, last_payment k m h)

  paid-rounds :
      (left i m : ℕ)
      → i + left ≡ term
      → m + suc left * q ≤ k
      → paid (rounds (suc left) i m) ≡ k * cent - m * cent
  paid-rounds zero i m e h = rw (rounds_last i m (omega arith) (omega arith)) (omega arith)
  paid-rounds (suc left) i m e h =
      rw (rounds_step (suc left) i m (omega arith))
        (omega (arith, paid-rounds left (i + 1) (m + q) (omega arith) (omega arith)))

  -- Each payment is at least the monthly one, and the last takes what is left.
  rounds_bounds :
      (left i m : ℕ)
      → i + left ≡ term
      → m + suc left * q ≤ k
      → k < m + suc left * q + term
      → All (λ p. (q * cent ≤ p.amount) × (p.amount < (q + term) * cent)) (rounds (suc left) i m)
  rounds_bounds zero i m e h b =
      rw (rounds_last i m (omega arith) (omega arith)) ((omega arith, omega arith), tt)
  rounds_bounds (suc left) i m e h b = rw (rounds_step (suc left) i m (omega arith)) (
    (omega arith, omega arith),
    rounds_bounds left (i + 1) (m + q) (omega arith) (omega arith) (omega arith),
  )

length-payments :
    (due : ℕ → String) (total term monthly left i a : ℕ)
    → length (payments due total term monthly left i a) ≡ left
unfolding payments
length-payments due total term monthly zero i a = refl
length-payments due total term monthly (suc left) i a =
    ap suc (length-payments due total term monthly left _ _)

-- `Math.floor((total / term) * 100)` is the whole quotient of the cents.
monthly_cents : (k n : ℕ) → 0 < n → monthly_payment_of (k * cent) n ≡ k / n * cent
unfolding monthly_payment_of
monthly_cents k n h =
    ap (λ x. x / (cent * n) * cent) (mul_comm k cent)
    ∙ ap (λ x. x * cent) (mul-div-mul_left {m = cent} k n (omega arith))

schedule-rounds :
    (due : ℕ → String) (k n : ℕ)
    → 0 < n
    → generate_schedule due (k * cent) n ≡ rounds due k n (k / n) n 1 0
unfolding generate_schedule
schedule-rounds due k n h = ap (λ m. payments due (k * cent) n m n 1 0) (monthly_cents k n h)

-- For a total in whole cents and a term of at least one month, the schedule has as many payments
-- as the term has months, they add up to the total exactly, and each is at least the rounded-down
-- share of the total and less than `term` cents above it.
pub paid-generate_schedule :
    (due : ℕ → String) (k term : ℕ)
    → 0 < term
    → (paid (generate_schedule due (k * cent) term) ≡ k * cent)
      × (length (generate_schedule due (k * cent) term) ≡ term)
      × All
          (λ p. (k / term * cent ≤ p.amount) × (p.amount < (k / term + term) * cent))
          (generate_schedule due (k * cent) term)
paid-generate_schedule due k zero h = absurd (omega arith)
paid-generate_schedule due k (suc n) h =
    let low : suc n * (k / suc n) ≤ k = mul-div-le k (suc n) in
    let high : k < k / suc n * suc n + suc n = lt-div-mul-add {a = k} {b = suc n} (omega arith) in
    rw (schedule-rounds due k (suc n) h) (
      omega (arith, paid-rounds due k (suc n) (k / suc n) n 1 0 (omega arith) (omega arith)),
      length-payments due (k * cent) (suc n) _ (suc n) 1 0,
      rounds_bounds due k (suc n) (k / suc n) n 1 0 (omega arith) (omega arith) (omega arith),
    )

loan_amount-le-total_repayment :
    (amount rate term : ℕ)
    → loan_amount_of amount ≤ total_repayment_of (loan_amount_of amount) rate term
unfolding loan_amount_of total_repayment_of
loan_amount-le-total_repayment amount rate term = omega arith

-- For an amount in whole cents and a term of at least one month, the guarantee and the loan of a
-- quote add up to the amount, the payments of its schedule add up to the total repayment, and the
-- total repayment is at least the loan.
pub quote_balanced :
    (due : ℕ → String) (dto : LoanQuoteRequest) (rate k : ℕ)
    → dto.amount ≡ k * cent
    → 0 < dto.term
    → let q = quote due dto rate in
      (q.guarantee + q.loan_amount ≡ dto.amount)
      × (paid q.schedule ≡ q.total_repayment)
      × (q.loan_amount ≤ q.total_repayment)
unfolding quote total_repayment_of
quote_balanced due dto rate k e h = (
  rw e (guarantee-add-loan_amount k),
  (paid-generate_schedule due _ dto.term h).0,
  loan_amount-le-total_repayment dto.amount rate dto.term,
)
