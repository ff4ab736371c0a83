-- ===== src/Reputation/Tests.antt =====
-- The theorems on reputations at a concrete wallet.
use step_fi_api.Common.{
  subst, ◌*◌, ◌≤◌, [], ◌∷◌, returns, ◌≡◌, inl, inr, refl, String, Bool, Bool-cases, true, false,
  Option, none, some, str_eq, eq_iff, if◌then◌else◌,
}
use step_fi_api.Common.Int.{pos, ◌≤ℤ◌}
use step_fi_api.Credit.{resolve_tier, dollar, silver, approved, strong_score, assess}
use step_fi_api.Loans.Types.{LoanQuoteRequest, CreateLoanResponse}
use step_fi_api.Loans.Terms.{quote}
use step_fi_api.Loans.Service.{LoansEnv, create_loan, prepare_loan_preview, submit_loan, create_xdr}
use step_fi_api.Reputation.Limits.{loan_view, create_loan-within_tier}
use step_fi_api.Reputation.{
  Reputation, CacheReply, hit, miss, CachedScore, on_chain, ReputationEnv, from_cache,
  get_reputation_score,
}
use step_fi_api.Reputation.Sources.{IsOwn, IsConsistent, get_reputation_score-Served}

-- An entry of the cache, and whether the table has a row.
record World : Type 0 where
  entry : Option Reputation
  is_synced : Bool

abbrev entry_of : String → Option Reputation → CacheReply
entry_of w none = miss
entry_of w (some r) = if str_eq r.wallet w then hit r else miss

abbrev row_of : Bool → Option CachedScore
row_of true = some (record { score = pos 40; last_synced_at = 1000 })
row_of false = none

abbrev world : ReputationEnv World
world = record {
  now = λ s. 2000;
  cache_get = λ w s. entry_of w s.entry;
  cache_set = λ r s. (true, record s { entry = some r });
  cache_del = λ w s. (true, record s { entry = none });
  select_score = λ w s. row_of s.is_synced;
  get_score = λ w s. (on_chain (some (pos 80)), s);
  find_user = λ w s. some "u1";
  upsert_score = λ id r s. record s { is_synced = true };
  delete_score = λ w s. record s { is_synced = false };
}

abbrev synced : World
synced = record { entry = none; is_synced = true }

entry_law : (r x : Reputation) (w : String) → entry_of w (some r) ≡ hit x → (r.wallet ≡ w) × (r ≡ x)
entry_law r x w h = elim (Bool-cases (str_eq r.wallet w)) [
  | inl b ↦
      let hits : entry_of w (some r) ≡ hit r = rw (b, entry_of) refl in
      ((eq_iff r.wallet w).0 b, cc)
  | inr b ↦ let misses : entry_of w (some r) ≡ miss = rw (b, entry_of) refl in cc
]

get_reputation_score-Served_example :
    IsOwn world "GA" (get_reputation_score world "GA" synced).0
    × IsConsistent world (get_reputation_score world "GA" synced).1
get_reputation_score-Served_example =
    get_reputation_score-Served world (λ r x w s h. inl (entry_law r x w h)) (λ w wallet s. refl)
      (λ w id r s. refl) "GA" synced (λ w r h. cc)

-- A loans service over this reputation service, with a verified vendor and no loans.
abbrev loans : LoansEnv World
loans = record {
  reputation = λ w s. loan_view (get_reputation_score world w s);
  find_vendor = λ id s. some (record { id = id; name = "Shop"; verified = true });
  provisional_id = λ s. ("loan_2", s);
  due_date = λ s i. "2026-07-01";
  build_create_loan = λ w p s. (some "AAAA", s);
  build_repay_loan = λ w id a s. (some "BBBB", s);
  insert_loan = λ r s. (true, s);
  update_status = λ id st s. (true, s);
  find_loan = λ id s. none;
  active_balances = λ w s. some [];
}

abbrev request : LoanQuoteRequest
request = record { amount = 100 * dollar; vendor = "v1"; term = 3 }

-- A cached score of 80.
abbrev own_reputation : Reputation
own_reputation = record {
  wallet = "GA";
  score = pos 80;
  terms = some (record { tier = silver; interest_rate = 6; max_credit = 5_000 * dollar });
  last_updated = 1000;
}

abbrev cached : World
cached = record { entry = some own_reputation; is_synced = false }

abbrev granted : CreateLoanResponse
granted = record {
  loan_id = "loan_2";
  xdr = some "AAAA";
  terms = quote (λ i. "2026-07-01") request 6;
  assessment = record { decision = approved; score = pos 80; reasons = strong_score (pos 80) ∷ [] };
}

loan_granted : create_loan loans "GA" request cached ≡ returns granted cached
unfolding create_loan prepare_loan_preview submit_loan assess create_xdr get_reputation_score
    from_cache
loan_granted = refl

cached-IsConsistent : IsConsistent world cached
unfolding resolve_tier
cached-IsConsistent w r h = own_entry r w (entry_law own_reputation r w h)
  where
    own_entry :
        (r : Reputation) (w : String)
        → (own_reputation.wallet ≡ w) × (own_reputation ≡ r)
        → IsOwn world w r
    own_entry r w (wallet, same) =
        subst (λ x. IsOwn world w x) same
          (subst (λ x. IsOwn world x own_reputation) wallet (refl, refl))

create_loan-within_tier_example :
    (pos 60 ≤ℤ (get_reputation_score world "GA" cached).0.score)
    × (100 * dollar ≤ (resolve_tier (get_reputation_score world "GA" cached).0.score).max_credit)
    × (granted.terms
        ≡ quote
            (λ i. "2026-07-01")
            request
            (resolve_tier (get_reputation_score world "GA" cached).0.score).interest_rate)
create_loan-within_tier_example =
    create_loan-within_tier loans world (λ w s. refl) (λ r x w s h. inl (entry_law r x w h))
      (λ w wallet s. refl) (λ w id r s. refl) "GA" request cached cached granted cached-IsConsistent
      loan_granted
