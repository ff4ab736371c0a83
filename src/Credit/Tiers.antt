-- ===== src/Credit/Tiers.antt =====
-- What `resolveTier` returns for each score, in
-- src/modules/credit-scoring/credit-scoring.service.ts.
use step_fi_api.Common.{◌≤◌, arith}
use step_fi_api.Common.Int.{ℤ, ◌≤ℤ◌}
use step_fi_api.Credit.{resolve_tier}

-- A higher score never gets a lower credit limit, nor a higher interest rate.
pub resolve_tier_mono :
    (a b : ℤ)
    → a ≤ℤ b
    → ((resolve_tier a).max_credit ≤ (resolve_tier b).max_credit)
      × ((resolve_tier b).interest_rate ≤ (resolve_tier a).interest_rate)
unfolding resolve_tier
resolve_tier_mono a b h = ground arith
