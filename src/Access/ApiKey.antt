-- ===== src/Access/ApiKey.antt =====
-- src/auth/guards/api-key.guard.ts: the guard of the endpoints that an API key opens.
-- The cache, the table `api_keys`, the hash function and the clock are the fields of `KeyEnv`, over
-- an abstract state of the world; times are milliseconds. A failed write of the cache is only
-- logged, so the cache writes give a state and no answer.
use step_fi_api.Common.{
  ℕ, ◌+◌, String, Bool, true, false, not, ◌||◌, List, [], ◌∷◌, Option, none, some, ltb, leb, str_eq,
  if◌then◌else◌, Run, Act, returns, throws, ◌>>=◌, ◌>>◌, done, require,
}
use step_fi_api.Access.Roles.{includes}

pub record ApiKeyRecord : Type 0 where
  pub id : String
  pub permissions : List String
  pub is_active : Bool
  pub expires_at : Option ℕ

-- API_KEY_CACHE_TTL_SECONDS and the other constants
abbrev pub record_ttl : ℕ
record_ttl = 60

abbrev pub last_used_ttl : ℕ
last_used_ttl = 300

abbrev pub rate_window : ℕ
rate_window = 60

abbrev pub max_requests : ℕ
max_requests = 60

abbrev pub negative_ttl : ℕ
negative_ttl = 30

abbrev pub ip_rate_window : ℕ
ip_rate_window = 60

abbrev pub max_ip_requests : ℕ
max_ip_requests = 30

-- A read of the cache: a value or nothing, or a failure of the cache.
pub data CacheReply (A : Type 0) : Type 0 where
  hit : A → CacheReply A
  miss broken : CacheReply A

-- What the guard throws: the codes of its exceptions.
pub data KeyError : Type 0 where
  unauthorized rate_limited insufficient_permissions : KeyError

pub record KeyEnv (S : Type 0) : Type 0 where
  pub sha256 : String → String
  pub now : S → ℕ
  pub cached_record : String → S → CacheReply ApiKeyRecord
  pub store_record : String → ApiKeyRecord → ℕ → S → S
  pub negative : String → S → CacheReply Bool
  pub store_negative : String → ℕ → S → S
  pub rate : String → S → CacheReply ℕ
  pub store_rate : String → ℕ → ℕ → S → S
  pub ip_rate : String → S → CacheReply ℕ
  pub store_ip_rate : String → ℕ → ℕ → S → S
  pub last_used : String → S → CacheReply Bool
  pub store_last_used : String → ℕ → S → S
  -- `api_keys` by hash: `none` for an error and for no row
  pub find_key : String → S → Option ApiKeyRecord
  -- the update of `last_used_at`; `false` when it throws
  pub touch_key : String → S → Bool × S

pub record KeyRequest : Type 0 where
  -- the header `x-api-key`; `none` if it is missing or no string
  pub api_key : Option String
  -- the answer of `getClientIp`
  pub client_ip : String
  -- the metadata of the handler
  pub required_permissions : List String

-- `keyRecord.expires_at && new Date(keyRecord.expires_at) < new Date()`
abbrev pub is_expired : Option ℕ → ℕ → Bool
is_expired none now = false
is_expired (some e) now = ltb e now

-- `requiredPermissions.some((p) => keyPermissions.includes(p))`
unfoldable pub has_some : List String → List String → Bool
has_some [] granted = false
has_some (p ∷ ps) granted = includes granted p || has_some ps granted

-- `!requiredPermissions || requiredPermissions.length === 0 || hasPermission`
abbrev pub permitted : List String → List String → Bool
permitted [] granted = true
permitted (p ∷ ps) granted = has_some (p ∷ ps) granted

abbrev pub is_hit : {A : Type 0} → CacheReply A → Bool
is_hit (hit a) = true
is_hit miss = false
is_hit broken = false

abbrev pub is_true : CacheReply Bool → Bool
is_true (hit b) = b
is_true miss = false
is_true broken = false

-- The counting of `enforceRateLimit` and `enforceIpRateLimit`: the reply of the cache, the limit and
-- the write of the next count. A failing cache lets the request pass.
unfoldable pub count_request :
    {S : Type 0} → CacheReply ℕ → ℕ → (ℕ → S → S) → Act S KeyError (Unit {0})
count_request broken limit store s = returns tt s
count_request miss limit store s =
    if leb limit 0 then throws rate_limited s else returns tt (store 1 s)
count_request (hit n) limit store s =
    if leb limit n then throws rate_limited s else returns tt (store (n + 1) s)

-- `catch (error) { if (error instanceof UnauthorizedException) throw error; }`
unfoldable pub keep_unauthorized :
    {S : Type 0} → Run S KeyError (Unit {0}) → Run S KeyError (Unit {0})
keep_unauthorized (returns a s) = returns a s
keep_unauthorized (throws unauthorized s) = throws unauthorized s
keep_unauthorized (throws rate_limited s) = returns tt s
keep_unauthorized (throws insufficient_permissions s) = returns tt s

module _ {S : Type 0} (env : KeyEnv S) where
  unfoldable pub enforce_rate_limit : String → Act S KeyError (Unit {0})
  unfolding count_request
  enforce_rate_limit key_id s =
      count_request (env.rate key_id s) max_requests (λ n t. env.store_rate key_id n rate_window t)
        s

  unfoldable pub enforce_ip_rate_limit : String → Act S KeyError (Unit {0})
  unfolding count_request
  enforce_ip_rate_limit ip s =
      if str_eq ip "" || str_eq ip "unknown"
      then returns tt s
      else count_request (env.ip_rate ip s) max_ip_requests
          (λ n t. env.store_ip_rate ip n ip_rate_window t) s

  -- The block on the negative cache, with its `catch`.
  unfoldable pub check_negative : String → String → Act S KeyError (Unit {0})
  unfolding keep_unauthorized enforce_ip_rate_limit
  check_negative hash ip s =
      if is_true (env.negative hash s)
      then keep_unauthorized ((enforce_ip_rate_limit ip >> λ t. throws unauthorized t) s)
      else returns tt s

  unfoldable pub found_or_cached : String → Option ApiKeyRecord → Act S KeyError ApiKeyRecord
  found_or_cached hash none s = throws unauthorized (env.store_negative hash negative_ttl s)
  found_or_cached hash (some record_) s = returns record_ s

  -- The lookup of a key that the cache does not have.
  unfoldable pub look_up : String → String → Act S KeyError ApiKeyRecord
  unfolding check_negative enforce_ip_rate_limit found_or_cached
  look_up hash ip = do
    check_negative hash ip
    enforce_ip_rate_limit ip
    λ s. found_or_cached hash (env.find_key hash s) s

  unfoldable pub key_record :
      String → String → CacheReply ApiKeyRecord → Act S KeyError ApiKeyRecord
  unfolding look_up
  key_record hash ip (hit r) = done r
  key_record hash ip miss = look_up hash ip
  key_record hash ip broken = look_up hash ip

  -- The record is cached after its validation, unless it is there.
  unfoldable pub cache_record : String → ApiKeyRecord → CacheReply ApiKeyRecord → S → S
  cache_record hash r (hit old) s = s
  cache_record hash r miss s = env.store_record hash r record_ttl s
  cache_record hash r broken s = s

  unfoldable pub mark_used : String → S → S
  mark_used key_id s =
      let (stored, t) = env.touch_key key_id s in
      if stored then env.store_last_used key_id last_used_ttl t else t

  -- `maybeUpdateLastUsed`, which the guard does not wait for.
  unfoldable pub maybe_update_last_used : String → CacheReply Bool → S → S
  unfolding mark_used
  maybe_update_last_used key_id (hit true) s = s
  maybe_update_last_used key_id (hit false) s = mark_used key_id s
  maybe_update_last_used key_id miss s = mark_used key_id s
  maybe_update_last_used key_id broken s = s

  -- From the validation of a record on.
  unfoldable pub admit : KeyRequest → String → ApiKeyRecord → Act S KeyError ApiKeyRecord
  unfolding cache_record enforce_rate_limit maybe_update_last_used
  admit request hash r = do
    require r.is_active unauthorized
    (λ s. require (not (is_expired r.expires_at (env.now s))) unauthorized s)
    (λ s. returns tt (cache_record hash r (env.cached_record hash s) s))
    enforce_rate_limit r.id
    require (permitted request.required_permissions r.permissions) insufficient_permissions
    λ s. returns r (maybe_update_last_used r.id (env.last_used r.id s) s)

  unfoldable pub with_key : KeyRequest → String → Act S KeyError ApiKeyRecord
  unfolding key_record admit
  with_key request key s =
      let hash = env.sha256 key in
      (key_record hash request.client_ip (env.cached_record hash s) >>= admit request hash) s

  -- `canActivate`; the answer is the record that it puts into the request.
  unfoldable pub can_activate : KeyRequest → Act S KeyError ApiKeyRecord
  unfolding enforce_ip_rate_limit with_key
  can_activate request s = elim request.api_key [
    | none ↦ (enforce_ip_rate_limit request.client_ip >> λ t. throws unauthorized t) s
    | some key ↦
        if str_eq key ""
        then (enforce_ip_rate_limit request.client_ip >> λ t. throws unauthorized t) s
        else with_key request key s
  ]
