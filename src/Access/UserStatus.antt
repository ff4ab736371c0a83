-- ===== src/Access/UserStatus.antt =====
-- src/modules/auth/user-status.service.ts: the cache of account status and role.
-- Times are milliseconds. The users table is a parameter: what it answers for a wallet.
use step_fi_api.Common.{
  ℕ, ◌+◌, String, Bool, true, false, Option, none, some, ltb, str_eq, if◌then◌else◌,
}

-- USER_STATUS_CACHE_TTL_MS
abbrev pub user_status_cache_ttl : ℕ
user_status_cache_ttl = 30_000

pub record UserState : Type 0 where
  pub status : String
  pub role : Option String

pub record CachedUserState : Type 0 where
  pub state : UserState
  pub expires_at : ℕ

-- The answer of the query: a row, no row, or an error (returned or thrown).
pub data UserReply : Type 0 where
  row : (status role : Option String) → UserReply
  no_user failure : UserReply

-- The private map of the service.
abbrev pub Cache : Type 0
Cache = String → Option CachedUserState

abbrev pub put : String → CachedUserState → Cache → Cache
put wallet c cache w = if str_eq w wallet then some c else cache w

-- `if (data.status) status = data.status`, from 'active'
abbrev pub status_or_active : Option String → String
status_or_active none = "active"
status_or_active (some s) = if str_eq s "" then "active" else s

-- What the service makes of the answer: it fails open.
unfoldable pub state_of : UserReply → UserState
state_of (row status role) = record { status = status_or_active status; role = role }
state_of no_user = record { status = "active"; role = none }
state_of failure = record { status = "active"; role = none }

abbrev pub is_fresh : ℕ → Option CachedUserState → Bool
is_fresh now none = false
is_fresh now (some c) = ltb now c.expires_at

abbrev pub cached_state : Option CachedUserState → UserState → UserState
cached_state none s = s
cached_state (some c) s = c.state

-- `getUserState` at the time `now`; a miss gets `reply` from the database and caches it at `later`.
unfoldable pub get_user_state : ℕ → ℕ → UserReply → String → Cache → UserState × Cache
get_user_state now later reply wallet cache =
    let found = state_of reply in
    if is_fresh now (cache wallet) then (cached_state (cache wallet) found, cache) else (
      found,
      put wallet (record { state = found; expires_at = later + user_status_cache_ttl }) cache,
    )

-- `ensureNotBlocked`: `false` when it throws AUTH_USER_BLOCKED.
unfoldable pub ensure_not_blocked : ℕ → ℕ → UserReply → String → Cache → Bool × Cache
ensure_not_blocked now later reply wallet cache =
    let (state, after) = get_user_state now later reply wallet cache in
    (if str_eq state.status "blocked" then false else true, after)

unfoldable pub invalidate : String → Cache → Cache
invalidate wallet cache w = if str_eq w wallet then none else cache w
