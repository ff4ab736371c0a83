-- ===== src/Liquidity.antt =====
-- src/modules/liquidity/liquidity.service.ts: deposits into the pool and withdrawals from it, and the
-- share-price fallbacks of src/blockchain/contracts/liquidity-contract.client.ts.
-- Amounts and shares are in stroops, the share price and the fee in basis points. The calls of the
-- contract client are the fields of `PoolEnv`, over an abstract state; `none` is a call that throws.
pub mod Pool
mod Tests
use step_fi_api.Common.{
  ℕ, ◌+◌, ◌-◌, ◌*◌, ◌/◌, ◌==◌, String, Bool, true, false, not, ◌||◌, Option, none, some, ltb, leb,
  str_eq, if◌then◌else◌, Act, Run, returns, throws, ◌>>=◌, ◌>>◌, done, require, or_throw, call,
}
use step_fi_api.Credit.{dollar}

pub record PoolStats : Type 0 where
  pub total_liquidity : ℕ
  pub available_liquidity : ℕ
  pub total_shares : ℕ
  pub share_price : ℕ
  pub withdrawal_fee_bps : ℕ

-- The codes of SOROBAN_ERROR_MAP and of the other exceptions.
pub data LiquidityError : Type 0 where
  insufficient_balance invalid_amount pool_locked : LiquidityError
  insufficient_shares insufficient_available_liquidity : LiquidityError
  simulation_failed : (operation message : String) → LiquidityError
  minimum_deposit invalid_shares client_failed : LiquidityError

pub data XdrReply : Type 0 where
  built : String → XdrReply
  failed : (message : String) → XdrReply

pub record PoolEnv (S : Type 0) : Type 0 where
  pub get_lp_shares : String → S → Option ℕ × S
  pub get_pool_stats : S → Option PoolStats × S
  pub calculate_withdrawal : ℕ → S → Option ℕ × S
  pub calculate_deposit : ℕ → S → Option ℕ × S
  pub build_unsigned_xdr : String → String → ℕ → S → XdrReply × S
  -- the digits that the pattern of `handleContractError` finds in a message
  pub matched_code : String → Option String

-- SHARE_PRICE_BPS
abbrev pub share_price_bps : ℕ
share_price_bps = 10_000

-- MIN_DEPOSIT_AMOUNT
abbrev pub min_deposit_amount : ℕ
min_deposit_amount = 10 * dollar

-- SOROBAN_ERROR_MAP
unfoldable pub soroban_error : String → Option LiquidityError
soroban_error code =
    if str_eq code "100"
    then some insufficient_balance
    else if str_eq code "101"
    then some invalid_amount
    else if str_eq code "102"
    then some pool_locked
    else if str_eq code "103"
    then some insufficient_shares
    else if str_eq code "104"
    then some insufficient_available_liquidity
    else none

-- `if (mapped) throw ...`, and the error at the end
abbrev pub mapped_or : Option LiquidityError → LiquidityError → LiquidityError
mapped_or none other = other
mapped_or (some e) other = e

unfoldable pub contract_error : Option String → String → String → LiquidityError
contract_error none operation message = simulation_failed operation message
contract_error (some code) operation message =
    mapped_or (soroban_error code) (simulation_failed operation message)

pub record DepositPreview : Type 0 where
  pub deposit_amount : ℕ
  pub shares_received : ℕ
  pub current_share_price : ℕ
  pub new_total_value : ℕ
  pub current_total_liquidity : ℕ

pub record WithdrawPreview : Type 0 where
  pub shares : ℕ
  pub owned_shares : ℕ
  pub remaining_shares : ℕ
  pub current_share_price : ℕ
  pub expected_amount : ℕ
  pub fee_bps : ℕ
  pub fee : ℕ
  pub net_amount : ℕ
  pub available_liquidity : ℕ

pub record LiquidityResponse (A : Type 0) : Type 0 where
  pub unsigned_xdr : String
  pub preview : A

-- `sharePrice / 10_000`, in units of 10^-7
abbrev pub price_of : PoolStats → ℕ
price_of stats = stats.share_price * 1000

abbrev pub deposit_price : PoolStats → ℕ
deposit_price stats = if ltb 0 stats.total_shares then price_of stats else dollar

abbrev pub fee_of : ℕ → PoolStats → ℕ
fee_of expected stats = expected * stats.withdrawal_fee_bps / share_price_bps

-- The preview of a withdrawal. For a fee above 100% the source's net amount is negative, 0 here.
abbrev pub withdraw_preview : ℕ → ℕ → ℕ → PoolStats → WithdrawPreview
withdraw_preview shares owned expected stats = record {
  shares = shares;
  owned_shares = owned;
  remaining_shares = owned - shares;
  current_share_price = price_of stats;
  expected_amount = expected;
  fee_bps = stats.withdrawal_fee_bps;
  fee = fee_of expected stats;
  net_amount = expected - fee_of expected stats;
  available_liquidity = stats.available_liquidity;
}

-- The fallbacks of the client on the share price: the shares of a deposit and the value of shares,
-- in a pool with the given total liquidity and total shares.
unfoldable pub deposit_shares : ℕ → ℕ → ℕ → ℕ
deposit_shares liquidity shares amount =
    if shares == 0 || liquidity == 0 then amount else amount * shares / liquidity

unfoldable pub withdrawal_value : ℕ → ℕ → ℕ → ℕ
withdrawal_value liquidity total shares = if total == 0 then 0 else shares * liquidity / total

module _ {S : Type 0} (env : PoolEnv S) where
  -- What `buildDepositXdr` and `buildWithdrawXdr` make of the client's reply.
  unfoldable pub xdr_or_error : String → XdrReply → Act S LiquidityError String
  xdr_or_error operation (built xdr) s = returns xdr s
  xdr_or_error operation (failed message) s =
      throws (contract_error (env.matched_code message) operation message) s

  unfoldable pub build_xdr : String → String → ℕ → Act S LiquidityError String
  unfolding xdr_or_error
  build_xdr operation wallet amount = do
    reply ← call (env.build_unsigned_xdr operation wallet amount)
    xdr_or_error operation reply

  unfoldable pub deposit_liquidity :
      String → ℕ → Act S LiquidityError (LiquidityResponse DepositPreview)
  unfolding build_xdr
  deposit_liquidity wallet amount = do
    require (leb min_deposit_amount amount) minimum_deposit
    answer ← call env.get_pool_stats
    result ← call (env.calculate_deposit amount)
    stats ← or_throw answer client_failed
    shares ← or_throw result client_failed
    xdr ← build_xdr "deposit" wallet amount
    done (record {
      unsigned_xdr = xdr;
      preview = record {
        deposit_amount = amount;
        shares_received = shares;
        current_share_price = deposit_price stats;
        new_total_value = stats.total_liquidity + amount;
        current_total_liquidity = stats.total_liquidity;
      };
    })

  unfoldable pub withdraw_liquidity :
      String → ℕ → Act S LiquidityError (LiquidityResponse WithdrawPreview)
  unfolding build_xdr
  withdraw_liquidity wallet shares = do
    require (ltb 0 shares) invalid_shares
    result ← call (env.get_lp_shares wallet)
    answer ← call env.get_pool_stats
    owned ← or_throw result client_failed
    stats ← or_throw answer client_failed
    require (ltb 0 owned) insufficient_shares
    require (leb shares owned) insufficient_shares
    reply ← call (env.calculate_withdrawal shares)
    expected ← or_throw reply client_failed
    require (leb expected stats.available_liquidity) insufficient_available_liquidity
    xdr ← build_xdr "withdraw" wallet shares
    done (record { unsigned_xdr = xdr; preview = withdraw_preview shares owned expected stats })
