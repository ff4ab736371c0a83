-- ===== src/Reputation/Limits.antt =====
-- The reputation that src/modules/loans/loans.service.ts grants loans on.
use step_fi_api.Common.{ℕ, ◌≤◌, ◌≡◌, ◌⊎◌, refl, subst, ap, ◌∙◌, String, Option, none, some, returns}
use step_fi_api.Common.Int.{pos, ◌≤ℤ◌}
use step_fi_api.Credit.{Terms, resolve_tier}
use step_fi_api.Loans.Types.{Reputation as LoanReputation, LoanQuoteRequest, CreateLoanResponse}
use step_fi_api.Loans.Terms.{quote}
use step_fi_api.Loans.Service.{LoansEnv, create_loan}
use step_fi_api.Loans.Creation.{create_loan-Created}
use step_fi_api.Reputation.{Reputation, hit, ReputationEnv, get_reputation_score}
use step_fi_api.Reputation.Sources.{IsConsistent, get_reputation_score-Served}

-- What the loans service reads of a reputation. No score is without terms: see Sources.
abbrev rate_of : Option Terms → ℕ
rate_of none = 0
rate_of (some terms) = terms.interest_rate

abbrev limit_of : Option Terms → ℕ
limit_of none = 0
limit_of (some terms) = terms.max_credit

abbrev pub loan_view : {S : Type 0} → Reputation × S → LoanReputation × S
loan_view (r, s) =
    (record { score = r.score; interest_rate = rate_of r.terms; max_credit = limit_of r.terms }, s)

module _ {S : Type 0} (loans : LoansEnv S) (env : ReputationEnv S)
    -- the loans service asks the reputation service
    (wired : (w : String) (s : S) → loans.reputation w s ≡ loan_view (get_reputation_score env w s))
    -- the laws of the cache: see Sources
    (set_law : (r x : Reputation) (w : String) (s : S)
      → env.cache_get w (env.cache_set r s).1 ≡ hit x
      → ((r.wallet ≡ w) × (r ≡ x)) ⊎ (env.cache_get w s ≡ hit x))
    (score_keeps : (w wallet : String) (s : S)
      → env.cache_get w (env.get_score wallet s).1 ≡ env.cache_get w s)
    (upsert_keeps : (w id : String) (r : Reputation) (s : S)
      → env.cache_get w (env.upsert_score id r s) ≡ env.cache_get w s) where
  -- Take the loans service over the reputation service, with a cache that gives back for a wallet
  -- only what it held or what was just stored for it, that the chain and the table do not touch, and
  -- that holds reputations of their own wallets with the terms of their score's tier only. If
  -- `createLoan` answers, the score that the reputation service gives the wallet is at least 60, the
  -- amount is at most the limit of the tier of this score, and the terms are the quote at the rate of
  -- this tier, from whichever source the score came.
  pub create_loan-within_tier :
      (wallet : String) (dto : LoanQuoteRequest) (s t : S) (response : CreateLoanResponse)
      → IsConsistent env s
      → create_loan loans wallet dto s ≡ returns response t
      → let (r, u) = get_reputation_score env wallet s in
        (pos 60 ≤ℤ r.score)
        × (dto.amount ≤ (resolve_tier r.score).max_credit)
        × (response.terms ≡ quote (loans.due_date u) dto (resolve_tier r.score).interest_rate)
  create_loan-within_tier wallet dto s t response consistent h =
      let (r, u) = get_reputation_score env wallet s in
      let ((_, terms), _) =
        get_reputation_score-Served env set_law score_keeps upsert_keeps wallet s consistent in
      let (vendor, previewed, _) = create_loan-Created loans wallet dto s t response h in
      let view = wired wallet s in
      (
        subst (λ q. pos 60 ≤ℤ q.0.score) view (previewed.reputable refl),
        subst (λ o. dto.amount ≤ limit_of o) terms
            (subst (λ q. dto.amount ≤ q.0.max_credit) view previewed.affordable),
        previewed.computed
            ∙ ap (λ q. quote (loans.due_date q.1) dto q.0.interest_rate) view
            ∙ ap (λ o. quote (loans.due_date u) dto (rate_of o)) terms,
      )
