-- ===== src/Liquidity/Pool.antt =====
-- What the previews of src/modules/liquidity/liquidity.service.ts promise.
use native.Mathlib.Nat.{mul-add, mul-div-le, div-le_of_le-mul}
use step_fi_api.Common.{ℕ, ◌+◌, ◌-◌, ◌*◌, ◌/◌, ◌≤◌, ◌<◌, ◌≡◌, subst, String, arith, returns, some}
use step_fi_api.Liquidity.{
  PoolEnv, LiquidityResponse, WithdrawPreview, share_price_bps, deposit_shares, withdrawal_value,
  withdraw_liquidity,
}

fee_bound : (expected bps : ℕ) → bps ≤ share_price_bps → expected * bps / share_price_bps ≤ expected
fee_bound expected bps h =
    let rest = share_price_bps - bps in
    let whole : bps + rest ≡ share_price_bps = omega (arith, h) in
    let parts : expected * share_price_bps ≡ expected * bps + expected * rest =
      subst (λ z. expected * z ≡ expected * bps + expected * rest) whole
        (mul-add expected bps rest) in
    div-le_of_le-mul share_price_bps (omega (arith, parts))

-- Shares that a deposit buys at the share price are worth at most the deposit, in the pool that the
-- deposit has grown, for every pool with shares and liquidity.
pub withdrawal_value-deposit_shares :
    (liquidity shares amount : ℕ)
    → 0 < liquidity
    → 0 < shares
    → let bought = deposit_shares liquidity shares amount in
      withdrawal_value (liquidity + amount) (shares + bought) bought ≤ amount
unfolding deposit_shares withdrawal_value
withdrawal_value-deposit_shares liquidity shares amount l s =
    let b = amount * shares / liquidity in
    let low : liquidity * b ≤ amount * shares = mul-div-le (amount * shares) liquidity in
    let worth : b * (liquidity + amount) / (shares + b) ≤ amount =
      div-le_of_le-mul (shares + b) (omega (arith, low)) in
    ground (arith, worth)

module _ {S : Type 0} (env : PoolEnv S) (wallet : String) (shares : ℕ) where
  -- A withdrawal that answers is of at least one unit and at most the shares that the contract
  -- says are owned, its expected amount is available in the pool, and the preview adds up: the
  -- remaining shares and those withdrawn are the owned ones, and for a fee of at most 100% the fee
  -- and the net amount are the expected amount.
  pub withdraw_liquidity-preview :
      (s t : S) (r : LiquidityResponse WithdrawPreview)
      → withdraw_liquidity env wallet shares s ≡ returns r t
      → (0 < shares)
        × ((env.get_lp_shares wallet s).0 ≡ some r.preview.owned_shares)
        × (r.preview.expected_amount ≤ r.preview.available_liquidity)
        × (r.preview.remaining_shares + shares ≡ r.preview.owned_shares)
        × (r.preview.fee_bps ≤ share_price_bps
            → r.preview.fee + r.preview.net_amount ≡ r.preview.expected_amount)
  unfolding withdraw_liquidity
  withdraw_liquidity-preview s t r h =
      let bound = fee_bound r.preview.expected_amount r.preview.fee_bps in
      (
        ground arith,
        ground arith,
        ground arith,
        ground arith,
        λ b.
            let charged : r.preview.fee
                ≡ r.preview.expected_amount * r.preview.fee_bps / share_price_bps =
              ground arith in
            let net : r.preview.net_amount ≡ r.preview.expected_amount - r.preview.fee =
              ground arith in
            omega (arith, charged, net, bound b),
      )
