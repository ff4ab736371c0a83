-- ===== src/Access/Tests.antt =====
-- The theorems on the guards and on the cached user state at concrete requests.
use step_fi_api.Common.{
  ℕ, ◌<◌, ◌≡◌, ◌≢◌, refl, String, true, [], ◌∷◌, Option, none, some, returns, throws,
}
use step_fi_api.Access.UserStatus.{UserReply, row, Cache, get_user_state}
use step_fi_api.Access.Roles
use step_fi_api.Access.Roles.{RequestUser, current_role}
use step_fi_api.Access.ApiKey
use step_fi_api.Access.ApiKey.{
  ApiKeyRecord, CacheReply, hit, miss, KeyEnv, KeyRequest, max_requests, rate_limited,
  enforce_rate_limit,
}
use step_fi_api.Access.KeyChecks.{Stored, Valid, can_activate-Valid}
use step_fi_api.Access.RateLimit.{after_requests, enforce_rate_limit-window}

-- A table that always has the same row.
abbrev users : ℕ → String → UserReply
users time wallet = row (some "active") (some "admin")

abbrev empty : Cache
empty w = none

abbrev warm : Cache
warm = (get_user_state 10 20 (users 15 "GA") "GA" empty).1

abbrev user : Option String → RequestUser
user claim = record { wallet = "GA"; role = claim }

abbrev live_role : String → Option String
live_role wallet = some "admin"

abbrev key_row : ApiKeyRecord
key_row = record { id = "k1"; permissions = "loans:read" ∷ []; is_active = true; expires_at = none }

-- A state is the counter of the one key as the cache answers it; its record is cached, and the writes of other entries leave
-- no trace.
abbrev keys : KeyEnv (CacheReply ℕ)
keys = record {
  sha256 = λ key. key;
  now = λ s. 0;
  cached_record = λ hash s. hit key_row;
  store_record = λ hash r ttl s. s;
  negative = λ hash s. miss;
  store_negative = λ hash ttl s. s;
  rate = λ id s. s;
  store_rate = λ id n ttl s. hit n;
  ip_rate = λ ip s. miss;
  store_ip_rate = λ ip n ttl s. s;
  last_used = λ id s. hit true;
  store_last_used = λ id ttl s. s;
  find_key = λ hash s. some key_row;
  touch_key = λ id s. (true, s);
}

abbrev request : KeyRequest
request = record {
  api_key = some "secret";
  client_ip = "10.0.0.1";
  required_permissions = "loans:read" ∷ [];
}

can_activate-Valid_example :
    (key : String) × (u : CacheReply ℕ) × (request.api_key ≡ some key)
    × (key ≢ "")
    × Stored keys request (keys.sha256 key) (hit 7) key_row
    × Valid keys request (keys.sha256 key) key_row u
unfolding ApiKey.can_activate ApiKey.has_some Roles.includes
can_activate-Valid_example = can_activate-Valid keys request (hit 7) (hit 8) key_row refl

enforce_rate_limit-window_example :
    (12 < max_requests
      → enforce_rate_limit keys "k1" (after_requests keys "k1" 12 miss)
        ≡ returns tt (after_requests keys "k1" 13 miss))
    × (enforce_rate_limit keys "k1" (after_requests keys "k1" max_requests miss)
        ≡ throws rate_limited (after_requests keys "k1" max_requests miss))
enforce_rate_limit-window_example =
    enforce_rate_limit-window keys "k1" (λ n ttl s. refl) 12 miss refl
