-- ===== src/Checker/Retries.antt =====
-- How often Horizon is asked, and what its last reply decides: the loop of
-- `checkTransactionStatus`.
use step_fi_api.Common.{
  ℕ, zero, suc, ◌≤◌, ◌≡◌, refl, ◌⊎◌, String, true, false, Option, none, some, arith, if◌then◌else◌,
  returns, throws, Run, Bool-cases, inl, inr,
}
use step_fi_api.Checker.Types.{
  HorizonError, HorizonReply, response, raised, StatusResult, CheckerError, horizon_failed,
  CheckerEnv,
}
use step_fi_api.Checker.Horizon.{
  is_successful, is_transient_horizon_error, max_attempts, attempts, check_transaction_status,
  Calls, last, again,
}

module _ {S : Type 0} (env : CheckerEnv S) (hash : String) where
  -- What the last reply decides.
  abbrev verdict : HorizonReply → S → Run S CheckerError (Option StatusResult)
  verdict (response ok message) t =
      returns (some (record { successful = some (is_successful ok); error_message = message })) t
  verdict (raised e) t = if e.is_not_found then returns none t else throws (horizon_failed e) t

  -- At most `most` calls, all but the last with transient errors; the last reply gives the result,
  -- and a transient error is given up on only after `most` calls.
  pub record Asked (most : ℕ) (s : S) (r : Run S CheckerError (Option StatusResult)) : Type 0 where
    pub calls : ℕ
    pub reply : HorizonReply
    pub end : S
    pub few : calls ≤ most
    pub made : Calls env hash calls s reply end
    pub decided : r ≡ verdict reply end
    pub given_up :
        (e : HorizonError)
        → reply ≡ raised e
        → e.is_not_found ≡ false
        → is_transient_horizon_error e ≡ true
        → calls ≡ most

  Asked-next :
      {most : ℕ} {s t : S} {e : HorizonError} {r : Run S CheckerError (Option StatusResult)}
      → env.horizon hash s ≡ (raised e, t)
      → e.is_not_found ≡ false
      → is_transient_horizon_error e ≡ true
      → Asked most t r
      → Asked (suc most) s r
  Asked-next h known transient a = record {
    calls = suc a.calls;
    reply = a.reply;
    end = a.end;
    few = omega (arith, a.few);
    made = again h known transient a.made;
    decided = a.decided;
    given_up = λ e p q w. let x = a.given_up e p q w in omega arith;
  }

  -- A reply that ends the loop.
  abbrev EndsLoop : ℕ → HorizonReply → Type 0
  EndsLoop left (response ok message) = Unit
  EndsLoop left (raised e) =
      (e.is_not_found ≡ true) ⊎ (is_transient_horizon_error e ≡ false) ⊎ (left ≡ 0)

  attempts_stop :
      (left : ℕ) (s t : S) (reply : HorizonReply)
      → env.horizon hash s ≡ (reply, t)
      → EndsLoop left reply
      → attempts env hash (suc left) s ≡ verdict reply t
  unfolding attempts
  attempts_stop left s t (response ok message) h d = ground arith
  attempts_stop left s t (raised e) h d = ground arith

  attempts_again :
      (left : ℕ) (s t : S) (e : HorizonError)
      → env.horizon hash s ≡ (raised e, t)
      → e.is_not_found ≡ false
      → is_transient_horizon_error e ≡ true
      → attempts env hash (suc (suc left)) s ≡ attempts env hash (suc left) t
  unfolding attempts
  attempts_again left s t e h known transient = ground arith

  stop_given_up :
      (left : ℕ) (reply : HorizonReply)
      → EndsLoop left reply
      → (e : HorizonError) → reply ≡ raised e
      → e.is_not_found ≡ false
      → is_transient_horizon_error e ≡ true
      → 1 ≡ suc left
  stop_given_up left (response ok message) d e p q w = cc
  stop_given_up left (raised x) d e p q w = ground arith

  Asked-stop :
      (left : ℕ) (s t : S) (reply : HorizonReply)
      → env.horizon hash s ≡ (reply, t)
      → EndsLoop left reply
      → Asked (suc left) s (attempts env hash (suc left) s)
  Asked-stop left s t reply h d = record {
    calls = 1;
    reply = reply;
    end = t;
    few = omega arith;
    made = last h;
    decided = attempts_stop left s t reply h d;
    given_up = stop_given_up left reply d;
  }

  -- The loop with `suc left` attempts to go, for the first reply `reply`.
  Asked-first :
      (left : ℕ) (s t : S) (reply : HorizonReply)
      → ((u : S) → (l : ℕ) → left ≡ suc l → Asked left u (attempts env hash left u))
      → env.horizon hash s ≡ (reply, t)
      → Asked (suc left) s (attempts env hash (suc left) s)
  Asked-first left s t (response ok message) later h = Asked-stop left s t _ h tt
  Asked-first zero s t (raised e) later h = Asked-stop zero s t _ h (inr (inr refl))
  Asked-first (suc left) s t (raised e) later h = elim (Bool-cases e.is_not_found) [
    | inl missing ↦ Asked-stop (suc left) s t (raised e) h (inl missing)
    | inr known ↦ elim (Bool-cases (is_transient_horizon_error e)) [
      | inr fatal ↦ Asked-stop (suc left) s t (raised e) h (inr (inl fatal))
      | inl transient ↦
          rw (attempts_again left s t e h known transient)
            (Asked-next h known transient (later t left refl))
    ]
  ]

  attempts-Asked : (left : ℕ) (s : S) → Asked (suc left) s (attempts env hash (suc left) s)
  attempts-Asked zero s =
      Asked-first zero s (env.horizon hash s).1 (env.horizon hash s).0
        (λ u l e. absurd (omega arith)) refl
  attempts-Asked (suc left) s =
      let ih = attempts-Asked left in
      Asked-first (suc left) s (env.horizon hash s).1 (env.horizon hash s).0 (λ u l e. ih u) refl

  -- `checkTransactionStatus` asks Horizon at most three times, again only after a transient error,
  -- and the last reply gives its result: a response is returned, as successful only when its flag is
  -- there and true, a missing transaction is reported
  -- as not found, any other error is thrown, a transient one only after the third call.
  pub check_transaction_status-Asked :
      (s : S) → Asked max_attempts s (check_transaction_status env hash s)
  unfolding check_transaction_status
  check_transaction_status-Asked s = attempts-Asked 2 s
