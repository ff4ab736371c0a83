-- ===== src/Credit/Assess.antt =====
-- When `assess` of src/modules/credit-scoring/credit-scoring.service.ts approves, rejects or leaves an
-- application to a person.
use step_fi_api.Common.{◌*◌, ◌≤◌, ◌<◌, ◌≡◌, ◌≢◌, ◌↔◌, ◌⊎◌, inl, inr, [], arith}
use step_fi_api.Common.Int.{pos, ◌≤ℤ◌}
use step_fi_api.Credit.{AssessParams, approved, rejected, assess}

-- An application is approved exactly when the score is at least 75, the amount is at most 80% of
-- the limit and less than 70% of the limit is in use.
pub assess-approved_iff :
    (p : AssessParams)
    → ((assess p).decision ≡ approved) ↔ (
        (pos 75 ≤ℤ p.reputation_score)
        × (5 * p.amount ≤ 4 * p.max_credit)
        × (10 * p.credit_utilization.used < 7 * p.credit_utilization.total))
unfolding assess
assess-approved_iff p = ground arith

-- An application is rejected exactly when the score is below 60 or the amount is above the limit.
pub assess-rejected_iff :
    (p : AssessParams)
    → ((assess p).decision ≡ rejected)
      ↔ ((¬ (pos 60 ≤ℤ p.reputation_score)) ⊎ (p.max_credit < p.amount))
unfolding assess
assess-rejected_iff p = ground arith

-- Take two applications of one wallet: the second asks for no more, with a score, a limit and a use
-- of the limit that are no worse. If the first is not rejected, the second is not, and if the
-- first is approved, so is the second.
pub assess_mono :
    (p q : AssessParams)
    → q.amount ≤ p.amount
    → p.reputation_score ≤ℤ q.reputation_score
    → p.max_credit ≤ q.max_credit
    → q.credit_utilization.total ≡ p.credit_utilization.total
    → q.credit_utilization.used ≤ p.credit_utilization.used
    → ((assess p).decision ≢ rejected → (assess q).decision ≢ rejected)
      × ((assess p).decision ≡ approved → (assess q).decision ≡ approved)
assess_mono p q a s m t u = (
  λ kept worse. kept ((assess-rejected_iff p).1 (still_rejected ((assess-rejected_iff q).0 worse))),
  λ h.
      let (score, amount, used) = (assess-approved_iff p).0 h in
      (assess-approved_iff q).1 (omega arith, omega arith, omega arith),
)
  where
    still_rejected :
        (¬ (pos 60 ≤ℤ q.reputation_score)) ⊎ (q.max_credit < q.amount)
        → (¬ (pos 60 ≤ℤ p.reputation_score)) ⊎ (p.max_credit < p.amount)
    still_rejected (inl low) = inl (λ h. low (omega arith))
    still_rejected (inr high) = inr (omega arith)

-- Every assessment, whatever its decision, gives at least one reason.
pub assess-reasons : (p : AssessParams) → (assess p).reasons ≢ []
unfolding assess
assess-reasons p = ground arith
