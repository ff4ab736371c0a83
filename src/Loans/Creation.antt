-- ===== src/Loans/Creation.antt =====
-- What a loan that was created, or a request that was refused, says about the world:
-- `createLoan` of src/modules/loans/loans.service.ts.
use step_fi_api.Common.{
  ◌≤◌, ◌≡◌, ◌≢◌, ◌↔◌, subst, String, Bool, true, none, some, arith, returns, throws, final,
  >>=-eq-returns, Ends, Ends-throws, Ends->>=, if◌then◌else◌,
}
use step_fi_api.Common.Int.{pos, ◌≤ℤ◌}
use step_fi_api.Credit.{manual_review, rejected as declined, Assessment, assess}
use step_fi_api.Loans.Types.{
  pending, under_review, ValidVendor, LoanQuoteRequest, LoanQuote, CreateLoanResponse,
  CreateLoanParams, LoanError, create_loan_failed,
}
use step_fi_api.Loans.Terms.{quote}
use step_fi_api.Loans.Service.{
  LoansEnv, prepare_loan_preview, create_xdr, create_loan, submit_loan, loan_record, create_params,
  is_approved, utilization, credit_used,
}

module _ {S : Type 0} (env : LoansEnv S) (wallet : String) (dto : LoanQuoteRequest) where
  -- What the preview has checked in the state `s`.
  pub record Previewed (minimum : Bool) (s : S) (vendor : ValidVendor) (terms : LoanQuote)
      : Type 0 where
    pub found : env.find_vendor dto.vendor (env.reputation wallet s).1 ≡ some vendor
    pub verified : vendor.verified ≡ true
    pub affordable : dto.amount ≤ (env.reputation wallet s).0.max_credit
    pub reputable : minimum ≡ true → pos 60 ≤ℤ (env.reputation wallet s).0.score
    pub computed :
        terms
        ≡ quote
            (env.due_date (env.reputation wallet s).1)
            dto
            (env.reputation wallet s).0.interest_rate

  prepare_loan_preview-Previewed :
      (minimum : Bool) (s t : S) (vendor : ValidVendor) (terms : LoanQuote)
      → prepare_loan_preview env wallet dto minimum s ≡ returns (vendor, terms) t
      → Previewed minimum s vendor terms
  unfolding prepare_loan_preview
  prepare_loan_preview-Previewed minimum s t vendor terms h = ground arith

  -- The assessment of a run that finds the state `u`.
  abbrev assessment_at : S → Assessment
  assessment_at u =
      let (reputation, v) = env.reputation wallet u in
      assess (record {
        amount = dto.amount;
        reputation_score = reputation.score;
        max_credit = reputation.max_credit;
        credit_utilization =
            utilization (credit_used (env.active_balances wallet v)) reputation.max_credit;
      })

  -- What `createLoan` has written and answers, once the preview is there.
  pub record Submitted (vendor : ValidVendor) (s' : S) (resp : CreateLoanResponse) : Type 0 where
    pub considered : resp.assessment.decision ≢ declined
    pub unsigned : (resp.xdr ≡ none) ↔ (resp.assessment.decision ≡ manual_review)
    pub before : S
    pub stored :
        env.insert_loan
          (loan_record resp.loan_id wallet vendor resp.terms
            (if is_approved resp.assessment.decision then pending else under_review))
          before
        ≡ (true, s')

  -- The state in which `submitLoan` stores the row.
  at_insert : ValidVendor → LoanQuote → S → S
  at_insert vendor terms s =
      let (id, u) = env.provisional_id s in
      let ready = is_approved (assessment_at u).decision in
      final (
        create_xdr env ready wallet (create_params id vendor dto terms) (env.reputation wallet u).1)

  submit_loan-Submitted :
      (vendor : ValidVendor) (terms : LoanQuote) (s s' : S) (resp : CreateLoanResponse)
      → submit_loan env wallet dto (vendor, terms) s ≡ returns resp s'
      → Submitted vendor s' resp
  unfolding submit_loan at_insert create_xdr
  submit_loan-Submitted vendor terms s s' resp h = record {
    considered = ground arith;
    unsigned = ground arith;
    before = at_insert vendor terms s;
    stored = ground arith;
  }

  submit_loan-terms :
      (vendor : ValidVendor) (terms : LoanQuote) (s s' : S) (resp : CreateLoanResponse)
      → submit_loan env wallet dto (vendor, terms) s ≡ returns resp s'
      → terms ≡ resp.terms
  unfolding submit_loan
  submit_loan-terms vendor terms s s' resp h = ground arith

  -- If `createLoan` answers, its vendor is the one asked for and verified, the amount lies within
  -- the credit limit, the score is at least 60, the terms are the quote at the wallet's rate, the
  -- assessment did not reject, and the last write stored a row with these terms: pending with an
  -- XDR to sign if approved, under review and without one if not.
  pub create_loan-Created :
      (s s' : S) (resp : CreateLoanResponse)
      → create_loan env wallet dto s ≡ returns resp s'
      → (vendor : ValidVendor) × Previewed true s vendor resp.terms × Submitted vendor s' resp
  unfolding create_loan
  create_loan-Created s s' resp h =
      let ((vendor, terms), t, first, rest) =
        >>=-eq-returns (prepare_loan_preview env wallet dto true) (submit_loan env wallet dto) s
          h in
      (
        vendor,
        subst (λ q. Previewed true s vendor q) (submit_loan-terms vendor terms t s' resp rest)
            (prepare_loan_preview-Previewed true s t vendor terms first),
        submit_loan-Submitted vendor terms t s' resp rest,
      )

  module _ (P : S → Type 0)
      (keep_reputation : (w : String) (u : S) → P u → P (env.reputation w u).1)
      (keep_id : (u : S) → P u → P (env.provisional_id u).1)
      (keep_xdr : (w : String) (params : CreateLoanParams) (u : S)
        → P u
        → P (env.build_create_loan w params u).1) where
    abbrev Unwritten : LoanError → S → Type 0
    Unwritten e t = e ≢ create_loan_failed → P t

    preview_frame :
        (s : S) → P s → Ends (λ _ t. P t) Unwritten (prepare_loan_preview env wallet dto true s)
    unfolding prepare_loan_preview
    preview_frame s p = let q = keep_reputation wallet s p in ground (arith, q)

    submit_frame :
        (s : S) (v : ValidVendor × LoanQuote)
        → P s
        → Ends (λ _ _. Unit {0}) Unwritten (submit_loan env wallet dto v s)
    unfolding submit_loan create_xdr
    submit_frame s (vendor, terms) p =
        let (id, u) = env.provisional_id s in
        let q = keep_reputation wallet u (keep_id s p) in
        let v = (env.reputation wallet u).1 in
        ground (arith, q, keep_xdr wallet (create_params id vendor dto terms) v q)

    -- If `createLoan` throws any error but that of the failed insert, every property of the world
    -- that the reputation lookup, the generator of ids and the XDR builder keep still holds.
    pub create_loan_frame :
        (s t : S) (e : LoanError)
        → create_loan env wallet dto s ≡ throws e t
        → e ≢ create_loan_failed
        → P s
        → P t
    unfolding create_loan
    create_loan_frame s t e h ne p =
        Ends-throws (λ _ _. Unit {0}) Unwritten h
          (Ends->>= (λ _ u. P u) (λ _ _. Unit) Unwritten (prepare_loan_preview env wallet dto true)
            _ s (preview_frame s p) (λ v u q. submit_frame u v q))
          ne
