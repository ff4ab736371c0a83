-- ===== src/Loans/Accounts.antt =====
-- What the summaries of a wallet's loans add up to: `getAvailableCredit`, `getStats` and
-- `mapLoanListItem` of src/modules/loans/loans.service.ts.
use native.Mathlib.Nat.{div-lt_iff_lt-mul}
use step_fi_api.Common.{
  ℕ, ◌+◌, ◌-◌, ◌*◌, ◌/◌, ◌≤◌, ◌<◌, ◌≡◌, ◌≢◌, ◌↔◌, String, refl, subst, Option-cases, inl, inr, min,
  get_elem?, List, [], ◌∷◌, Option, none, some, arith, length, sum_of, count_of, returns,
}
use step_fi_api.Common.Int.{ℤ}
use step_fi_api.Credit.{resolve_tier}
use step_fi_api.Loans.Types.{active, SchedulePayment}
use step_fi_api.Loans.Terms.{cent, round_currency, round_div, generate_schedule}
use step_fi_api.Loans.Service.{balance_or_zero, is_active}
use step_fi_api.Loans.Portfolio.{
  CreditEnv, AvailableCredit, StatsRow, LoanListRow, credit_of, get_available_credit, is_completed,
  is_defaulted, repaid_on_time, stats_of, next_amount, score_or_zero, map_loan_list_item,
}

-- The limit of a tier is in whole cents.
max_credit_cents : (score : ℤ) → (k : ℕ) × ((resolve_tier score).max_credit ≡ k * cent)
unfolding resolve_tier
max_credit_cents score = ((resolve_tier score).max_credit / cent, ground arith)

statuses_disjoint :
    (loans : List StatsRow)
    → count_of (λ (l : StatsRow). is_active l.status) loans
        + count_of (λ (l : StatsRow). is_completed l.status) loans
        + count_of (λ (l : StatsRow). is_defaulted l.status) loans
      ≤ length loans
statuses_disjoint [] = omega arith
statuses_disjoint (l ∷ ls) = ground (arith, statuses_disjoint ls)

on_time-le-repaid :
    (loans : List StatsRow)
    → count_of repaid_on_time loans ≤ count_of (λ (l : StatsRow). is_completed l.status) loans
on_time-le-repaid [] = omega arith
on_time-le-repaid (l ∷ ls) = ground (arith, on_time-le-repaid ls)

-- The rate of punctual repayments is at most 100%.
rate_bound : (n d : ℕ) → n ≤ d → 0 < d → round_div (n * 10_000) d ≤ 10_000
rate_bound n d h p =
    let low : (2 * (n * 10_000) + d) / (2 * d) < 10_001 =
      (div-lt_iff_lt-mul {k = 2 * d} {x = 2 * (n * 10_000) + d} {y = 10_001} (omega arith)).1
        (omega arith) in
    omega arith

-- The counts of running, repaid and defaulted loans are of different loans, and the rate of
-- punctual repayments is at most 100%.
pub stats_of_bounds :
    (loans : List StatsRow)
    → ((stats_of loans).active_loans
          + (stats_of loans).repaid_loans
          + (stats_of loans).defaulted_loans
        ≤ (stats_of loans).total_loans)
      × ((stats_of loans).on_time_repayment_rate ≤ 10_000)
unfolding stats_of
stats_of_bounds loans = (
  statuses_disjoint loans,
  ground (
    arith,
    rate_bound (count_of repaid_on_time loans)
        (count_of (λ (l : StatsRow). is_completed l.status) loans) (on_time-le-repaid loans),
  ),
)

available_cents :
    (k x : ℕ)
    → (round_currency x ≤ k * cent
        → round_currency (k * cent - round_currency x) + round_currency x ≡ k * cent)
      × (k * cent ≤ round_currency x → round_currency (k * cent - round_currency x) ≡ 0)
unfolding round_currency
available_cents k x = (λ h. omega arith, λ h. omega arith)

-- What the answer's numbers add up to.
abbrev pub Balanced : AvailableCredit → Type 0
Balanced r =
    (r.max_credit_limit ≡ (resolve_tier r.reputation_score).max_credit)
    × (r.credit_used ≤ r.max_credit_limit → r.available_credit + r.credit_used ≡ r.max_credit_limit)
    × (r.max_credit_limit ≤ r.credit_used → r.available_credit ≡ 0)

credit_of-Balanced : (score : ℤ) (bs : List (Option ℕ)) → Balanced (credit_of score bs)
credit_of-Balanced score bs =
    let (k, whole) = max_credit_cents score in
    let (below, above) = available_cents k (sum_of balance_or_zero bs) in
    (refl, rw whole below, rw whole above)

-- If `getAvailableCredit` answers, it has changed nothing, the limit is that of the score's tier,
-- and what it calls available is what the credit in use leaves of the limit, and nothing once the
-- limit is used up.
pub get_available_credit-sum :
    {S : Type 0} (env : CreditEnv S) (wallet : String) (s t : S) (r : AvailableCredit)
    → get_available_credit env wallet s ≡ returns r t
    → (t ≡ s) × Balanced r
unfolding get_available_credit
get_available_credit-sum env wallet s t r h = elim (Option-cases (env.contract_score wallet s)) [
  | inl silent ↦ absurd (ground arith)
  | inr (score, answered) ↦ elim (Option-cases (env.active_balances wallet s)) [
    | inl failed ↦ absurd (ground arith)
    | inr (bs, found) ↦
        let same : credit_of (score_or_zero score) bs ≡ r = ground arith in
        (ground arith, subst Balanced same (credit_of-Balanced (score_or_zero score) bs))
  ]
]

next_amount-le : (p : Option SchedulePayment) (k : ℕ) → next_amount p (k * cent) ≤ k * cent
unfolding next_amount round_currency
next_amount-le none k = omega arith
next_amount-le (some p) k = omega arith

-- For a balance in whole cents, a listed loan has a next payment exactly if it is active with
-- something left to pay, and the payment is not above the balance.
pub map_loan_list_item-next :
    (due : ℕ → String) (loan : LoanListRow) (k : ℕ)
    → loan.remaining_balance ≡ k * cent
    → let next = (map_loan_list_item due loan).next_payment in
      ((next.amount ≢ none) ↔ ((loan.status ≡ active) × (0 < loan.remaining_balance)))
      × ((a : ℕ) → next.amount ≡ some a → a ≤ loan.remaining_balance)
unfolding map_loan_list_item
map_loan_list_item-next due loan k h =
    let schedule = generate_schedule due loan.total_repayment loan.term in
    let scheduled = get_elem? schedule (min loan.payments (length schedule - 1)) in
    (ground arith, λ a e. ground (arith, next_amount-le scheduled k))
