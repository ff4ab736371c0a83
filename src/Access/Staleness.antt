-- ===== src/Access/Staleness.antt =====
-- How old a state that src/modules/auth/user-status.service.ts serves can be.
use step_fi_api.Common.{ℕ, ◌+◌, ◌≤◌, ◌<◌, ◌≡◌, ◌⊎◌, String, none, some, arith, eq_iff}
use step_fi_api.Access.UserStatus.{
  user_status_cache_ttl, CachedUserState, UserReply, Cache, state_of, get_user_state, invalidate,
}

-- The users table over time: its answer to a query at a time.
module _ (users : ℕ → String → UserReply) where
  -- A cached state is what the table answered at the time `asked`, not after it was stored and that
  -- not after the last clock reading `last`, and it expires one TTL after it was stored.
  pub record Sound (last : ℕ) (wallet : String) (c : CachedUserState) : Type 0 where
    pub asked : ℕ
    pub stored : ℕ
    pub ordered : asked ≤ stored
    pub past : stored ≤ last
    pub answer : c.state ≡ state_of (users asked wallet)
    pub expiry : c.expires_at ≡ stored + user_status_cache_ttl

  abbrev pub IsSound : ℕ → Cache → Type 0
  IsSound last cache = (w : String) (c : CachedUserState) → cache w ≡ some c → Sound last w c

  -- What a request may be served: the table's answer of this very call, or its answer at a time `r`
  -- that was stored at `l`, before the clock `now` but by less than one TTL.
  abbrev pub ServedAt : (now asked r l : ℕ) → Type 0
  ServedAt now asked r l = (r ≡ asked) ⊎ ((r ≤ l) × (l ≤ now) × (now < l + user_status_cache_ttl))

  -- The caches that a history of requests and invalidations can leave, and the last reading of the
  -- clock, which never goes back: a request reads it before the table is asked and after its answer.
  pub data Reachable : ℕ → Cache → Type 0 where
    started : Reachable 0 (λ _. none)
    queried :
        {last : ℕ} {cache : Cache} (now asked later : ℕ) (wallet : String)
        → last ≤ now
        → now ≤ asked
        → asked ≤ later
        → Reachable last cache
        → Reachable later (get_user_state now later (users asked wallet) wallet cache).1
    invalidated :
        {last : ℕ} {cache : Cache} (wallet : String)
        → Reachable last cache
        → Reachable last (invalidate wallet cache)

  -- An invalidated wallet is looked up again: the next request is served the table's answer.
  pub get_user_state-invalidate :
      (now asked later : ℕ) (wallet : String) (cache : Cache)
      → (get_user_state now later (users asked wallet) wallet (invalidate wallet cache)).0
        ≡ state_of (users asked wallet)
  unfolding get_user_state invalidate
  get_user_state-invalidate now asked later wallet cache = ground (arith, eq_iff wallet wallet)
