-- ===== src/Checker/Horizon.antt =====
-- `checkTransactionStatus` and the classification of Horizon's errors, in the
-- transaction status checker.
use text.Mathlib.Text.{find?}
use step_fi_api.Common.{
  ℕ, zero, suc, ◌==◌, ◌≡◌, String, Bool, true, false, not, ◌||◌, Option, none, some, leb,
  if◌then◌else◌, Run, Act, returns, throws,
}
use step_fi_api.Checker.Types.{
  HorizonError, HorizonReply, response, raised, StatusResult, CheckerError, horizon_failed,
  CheckerEnv,
}

abbrev pub includes : String → String → Bool
includes s word = elim (find? s word) [ none ↦ false | some _ ↦ true ]

-- `status === 429 || status >= 500`, false for no status
abbrev pub is_retry_status : Option ℕ → Bool
is_retry_status none = false
is_retry_status (some n) = n == 429 || leb 500 n

pub is_transient_horizon_error : HorizonError → Bool
is_transient_horizon_error e =
    e.is_network
    || is_retry_status e.http_status
    || includes e.message "timeout"
    || includes e.message "rate limit"
    || includes e.message "throttl"
    || includes e.message "temporar"
    || includes e.message "network"

-- `response.successful === true`, false for no flag
abbrev pub is_successful : Option Bool → Bool
is_successful none = false
is_successful (some flag) = flag

abbrev pub max_attempts : ℕ
max_attempts = 3

module _ {S : Type 0} (env : CheckerEnv S) (hash : String) where
  -- The `while` loop with `left` attempts to go. `none` stands for `{ found: false }`.
  unfoldable pub attempts : ℕ → S → Run S CheckerError (Option StatusResult)
  attempts zero s = returns none s
  attempts (suc left) s =
      let (reply, t) = env.horizon hash s in
      let again = attempts left t in
      elim reply [
        | response ok message ↦
            returns
              (some (record { successful = some (is_successful ok); error_message = message })) t
        | raised e ↦
            if e.is_not_found
            then returns none t
            else if not (is_transient_horizon_error e) || left == 0
            then throws (horizon_failed e) t
            else again
      ]

  unfoldable pub check_transaction_status : Act S CheckerError (Option StatusResult)
  unfolding attempts
  check_transaction_status s = attempts max_attempts s

  -- `n` calls of Horizon, the last with the reply `r`, those before it with transient errors.
  pub data Calls : ℕ → S → HorizonReply → S → Type 0 where
    last : {s t : S} {r : HorizonReply} → env.horizon hash s ≡ (r, t) → Calls 1 s r t
    again :
        {n : ℕ} {s t u : S} {e : HorizonError} {r : HorizonReply}
        → env.horizon hash s ≡ (raised e, t)
        → e.is_not_found ≡ false
        → is_transient_horizon_error e ≡ true
        → Calls n t r u
        → Calls (suc n) s r u
