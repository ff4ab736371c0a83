-- ===== src/Credit.antt =====
-- src/modules/credit-scoring/credit-scoring.service.ts: the tiers and the assessment of an application.
-- A score is an integer, an amount a whole number of stroops (10^-7 dollars), the utilisation an
-- exact ratio; a reason is a constructor that carries the values its text shows.
pub mod Tiers
pub mod Assess
mod Tests
use step_fi_api.Common.{
  ℕ, ◌+◌, ◌*◌, ◌/◌, List, [], ◌∷◌, ◌++◌, Option, none, some, Bool, ltb, leb, if◌then◌else◌, ◌&&◌,
}
use step_fi_api.Common.Int.{ℤ, pos, ltb_ℤ, leb_ℤ, max_ℤ, min_ℤ}

pub data Tier : Type 0 where
  gold silver bronze starter : Tier

-- `maxCredit` in stroops.
pub record CreditTier : Type 0 where
  pub min_score : ℕ
  pub tier : Tier
  pub interest_rate : ℕ
  pub max_credit : ℕ

pub record Terms : Type 0 where
  pub tier : Tier
  pub interest_rate : ℕ
  pub max_credit : ℕ

-- One dollar, in stroops.
abbrev pub dollar : ℕ
dollar = 10_000_000

abbrev pub credit_tiers : List CreditTier
credit_tiers =
    record { min_score = 90; tier = gold; interest_rate = 4; max_credit = 10_000 * dollar }
    ∷ record { min_score = 75; tier = silver; interest_rate = 6; max_credit = 5_000 * dollar }
    ∷ record { min_score = 60; tier = bronze; interest_rate = 8; max_credit = 2_500 * dollar }
    ∷ record { min_score = 0; tier = starter; interest_rate = 10; max_credit = 1_000 * dollar }
    ∷ []

-- `Math.max(0, Math.min(100, score))`
unfoldable pub normalize_score : ℤ → ℤ
normalize_score score = max_ℤ (pos 0) (min_ℤ (pos 100) score)

abbrev lowest : Terms
lowest = record { tier = starter; interest_rate = 10; max_credit = 1_000 * dollar }

abbrev pub terms_of : CreditTier → Terms
terms_of t = record { tier = t.tier; interest_rate = t.interest_rate; max_credit = t.max_credit }

-- The loop of `resolveTier`, with the fallback behind it.
unfoldable pub first_tier : ℤ → List CreditTier → Terms
first_tier score [] = lowest
first_tier score (t ∷ ts) =
    let later = first_tier score ts in if leb_ℤ (pos t.min_score) score then terms_of t else later

unfoldable pub resolve_tier : ℤ → Terms
unfolding normalize_score first_tier
resolve_tier score = first_tier (normalize_score score) credit_tiers

-- used / total, with 0 < total
pub record Ratio : Type 0 where
  pub used : ℕ
  pub total : ℕ

pub record AssessParams : Type 0 where
  pub amount : ℕ
  pub reputation_score : ℤ
  pub max_credit : ℕ
  pub credit_utilization : Ratio

pub data Decision : Type 0 where
  approved manual_review rejected : Decision

pub data Reason : Type 0 where
  below_threshold : (score : ℤ) → Reason
  exceeds_limit : (amount max_credit : ℕ) → Reason
  strong_score : (score : ℤ) → Reason
  exceeds_80_percent : (amount max_credit : ℕ) → Reason
  utilization_exceeds : (percent : ℕ) → Reason
  bronze_review : (score : ℤ) → Reason

pub record Assessment : Type 0 where
  pub decision : Decision
  pub score : ℤ
  pub reasons : List Reason

-- `amount > maxCredit * 0.8`
abbrev pub above_80_percent : AssessParams → Bool
above_80_percent p = ltb (4 * p.max_credit) (5 * p.amount)

-- `creditUtilization >= 0.7`
abbrev pub highly_used : AssessParams → Bool
highly_used p = leb (7 * p.credit_utilization.total) (10 * p.credit_utilization.used)

-- `Math.round(creditUtilization * 100)`
abbrev pub percent : Ratio → ℕ
percent r = (200 * r.used + r.total) / (2 * r.total)

abbrev pub outcome : AssessParams → Decision → List Reason → Assessment
outcome p d rs = record { decision = d; score = p.reputation_score; reasons = rs }

unfoldable pub assess : AssessParams → Assessment
assess p =
    if ltb_ℤ p.reputation_score (pos 60)
    then outcome p rejected (below_threshold p.reputation_score ∷ [])
    else if ltb p.max_credit p.amount
    then outcome p rejected (exceeds_limit p.amount p.max_credit ∷ [])
    else if leb_ℤ (pos 75) p.reputation_score
        && leb (5 * p.amount) (4 * p.max_credit)
        && ltb (10 * p.credit_utilization.used) (7 * p.credit_utilization.total)
    then outcome p approved (strong_score p.reputation_score ∷ [])
    else if leb_ℤ (pos 75) p.reputation_score
    then outcome p manual_review (
        (if above_80_percent p then exceeds_80_percent p.amount p.max_credit ∷ [] else [])
        ++ (if highly_used p then utilization_exceeds (percent p.credit_utilization) ∷ [] else []))
    else outcome p manual_review (bronze_review p.reputation_score ∷ [])
