-- ===== src/Access/RateLimit.antt =====
-- src/auth/guards/api-key.guard.ts: how many requests a key has per window, over `enforceRateLimit`.
use step_fi_api.Common.{
  ℕ, zero, suc, ◌+◌, ◌≤◌, ◌<◌, ◌≡◌, refl, String, arith, returns, throws, final,
}
use step_fi_api.Access.ApiKey.{
  CacheReply, hit, miss, rate_limited, KeyEnv, max_requests, rate_window, enforce_rate_limit,
}

module _ {S : Type 0} (env : KeyEnv S) (key_id : String) where
  -- The states after `k` counted requests.
  unfoldable pub after_requests : ℕ → S → S
  after_requests zero s = s
  after_requests (suc k) s = final (enforce_rate_limit env key_id (after_requests k s))

  -- The counter after `k` requests of a key that had none.
  abbrev counter_of : ℕ → CacheReply ℕ
  counter_of zero = miss
  counter_of (suc k) = hit (suc k)

  below_limit :
      (k : ℕ) (u : S)
      → env.rate key_id u ≡ counter_of k
      → k < max_requests
      → enforce_rate_limit env key_id u ≡ returns tt (env.store_rate key_id (k + 1) rate_window u)
  unfolding enforce_rate_limit
  below_limit zero u e h = ground arith
  below_limit (suc k) u e h = ground arith

  at_limit :
      (k : ℕ) (u : S)
      → env.rate key_id u ≡ hit k
      → max_requests ≤ k
      → enforce_rate_limit env key_id u ≡ throws rate_limited u
  unfolding enforce_rate_limit
  at_limit k u e h = ground arith

  step_lem :
      (k : ℕ) (s : S)
      → after_requests (suc k) s ≡ final (enforce_rate_limit env key_id (after_requests k s))
  unfolding after_requests
  step_lem k s = refl

  -- A cache that answers with what was last written.
  module _
      (kept : (n ttl : ℕ) (s : S) → env.rate key_id (env.store_rate key_id n ttl s) ≡ hit n) where
    counted :
        (k : ℕ) (s : S)
        → env.rate key_id s ≡ miss
        → k ≤ max_requests
        → env.rate key_id (after_requests k s) ≡ counter_of k
    unfolding after_requests enforce_rate_limit
    counted zero s fresh h = fresh
    counted (suc zero) s fresh h = ground (arith, fresh, kept 1 rate_window s)
    counted (suc (suc k)) s fresh h =
        let ih = counted (suc k) s fresh (omega arith) in
        ground (arith, ih, kept (k + 2) rate_window (after_requests (suc k) s))

    passes :
        (k : ℕ) (s : S)
        → env.rate key_id s ≡ miss
        → k < max_requests
        → enforce_rate_limit env key_id (after_requests k s) ≡ returns tt (after_requests (suc k) s)
    passes k s fresh h =
        let e = below_limit k (after_requests k s) (counted k s fresh (omega arith)) h in
        rw (step_lem k s, e) refl

    -- Take a cache whose counter reads back what was last stored, so that nothing expires, and a
    -- key whose counter is not there. Then each of the first 60 requests passes the rate limit, and
    -- the request after these 60 is refused and leaves the state as it is.
    pub enforce_rate_limit-window :
        (k : ℕ) (s : S)
        → env.rate key_id s ≡ miss
        → (k < max_requests
            → enforce_rate_limit env key_id (after_requests k s)
              ≡ returns tt (after_requests (suc k) s))
          × (enforce_rate_limit env key_id (after_requests max_requests s)
              ≡ throws rate_limited (after_requests max_requests s))
    enforce_rate_limit-window k s fresh = (
      passes k s fresh,
      at_limit max_requests (after_requests max_requests s)
          (counted max_requests s fresh (omega arith)) (omega arith),
    )
