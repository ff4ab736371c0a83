-- ===== src/Liquidity/Tests.antt =====
-- The theorems on the pool at concrete requests.
use step_fi_api.Common.{ℕ, ◌≡◌, refl, some}
use step_fi_api.Liquidity.{
  PoolStats, PoolEnv, built, LiquidityResponse, WithdrawPreview, withdraw_preview, contract_error,
  soroban_error, insufficient_shares,
}

abbrev stats : PoolStats
stats = record {
  total_liquidity = 1_200;
  available_liquidity = 900;
  total_shares = 1_000;
  share_price = 12_000;
  withdrawal_fee_bps = 50;
}

abbrev pool : PoolEnv ℕ
pool = record {
  get_lp_shares = λ w s. (some 300, s);
  get_pool_stats = λ s. (some stats, s);
  calculate_withdrawal = λ n s. (some 240, s);
  calculate_deposit = λ n s. (some n, s);
  build_unsigned_xdr = λ op w n s. (built "AAAA", s);
  matched_code = λ m. some "103";
}

abbrev answer : LiquidityResponse WithdrawPreview
answer = record { unsigned_xdr = "AAAA"; preview = withdraw_preview 200 300 240 stats }

known_code : contract_error (some "103") "withdraw" "Error(Contract, #103)" ≡ insufficient_shares
unfolding contract_error soroban_error
known_code = refl
