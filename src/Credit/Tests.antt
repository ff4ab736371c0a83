-- ===== src/Credit/Tests.antt =====
-- The theorems on src/modules/credit-scoring/credit-scoring.service.ts at concrete applications.
use step_fi_api.Common.{ℕ, ◌*◌, ◌≤◌, ◌<◌, ◌≡◌, ◌↔◌, refl}
use step_fi_api.Common.Int.{pos, negsuc, ◌≤ℤ◌}
use step_fi_api.Credit.{
  dollar, AssessParams, approved, manual_review, assess, resolve_tier, gold, starter,
}
use step_fi_api.Credit.Assess.{assess-approved_iff}

abbrev application : ℕ → AssessParams
application used = record {
  amount = 400 * dollar;
  reputation_score = pos 80;
  max_credit = 500 * dollar;
  credit_utilization = record { used = used; total = 500 * dollar };
}

assess-approved_iff_example : ((assess (application 0)).decision ≡ approved) ↔ (
    (pos 75 ≤ℤ pos 80) × (5 * (400 * dollar) ≤ 4 * (500 * dollar)) × (10 * 0 < 7 * (500 * dollar)))
assess-approved_iff_example = assess-approved_iff (application 0)

abbrev half_used : AssessParams
half_used = application (250 * dollar)

decisions :
    ((assess half_used).decision ≡ approved)
    × ((assess (application (350 * dollar))).decision ≡ manual_review)
unfolding assess
decisions = (refl, refl)

clamped : ((resolve_tier (negsuc 3)).tier ≡ starter) × ((resolve_tier (pos 140)).tier ≡ gold)
unfolding resolve_tier
clamped = (refl, refl)
