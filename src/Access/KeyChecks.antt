-- ===== src/Access/KeyChecks.antt =====
-- What a key that src/auth/guards/api-key.guard.ts admits has passed.
use step_fi_api.Common.{
  ℕ, ◌<◌, ◌≡◌, ◌≢◌, ◌⊎◌, inl, inr, subst, String, true, false, Option, none, some, arith, eq_iff,
  str_eq, Option-cases, Bool-cases, returns, throws, Run, >>=-eq-returns, ◌>>◌,
}
use step_fi_api.Access.ApiKey.{
  ApiKeyRecord, CacheReply, hit, miss, broken, KeyError, unauthorized, KeyEnv, KeyRequest,
  is_expired, permitted, max_requests, count_request, found_or_cached, look_up, key_record,
  cache_record, admit, with_key, can_activate, check_negative, enforce_ip_rate_limit,
}

module _ {S : Type 0} (env : KeyEnv S) (request : KeyRequest) where
  -- The checks that a record passes in the state `s`, once it is found.
  pub record Valid (hash : String) (r : ApiKeyRecord) (s : S) : Type 0 where
    pub active : r.is_active ≡ true
    pub unexpired : is_expired r.expires_at (env.now s) ≡ false
    pub granted : permitted request.required_permissions r.permissions ≡ true
    pub counted :
        (n : ℕ)
        → env.rate r.id (cache_record env hash r (env.cached_record hash s) s) ≡ hit n
        → n < max_requests

  pub admit-Valid :
      (hash : String) (r r' : ApiKeyRecord) (s t : S)
      → admit env request hash r s ≡ returns r' t
      → (r ≡ r') × Valid hash r s
  unfolding admit count_request
  admit-Valid hash r r' s t h = (
    ground arith,
    record {
      active = ground arith;
      unexpired = ground arith;
      granted = ground arith;
      counted = λ n e. ground arith;
    },
  )

  -- Where a record comes from: the cache, or the table in a later state.
  abbrev pub Stored : String → S → ApiKeyRecord → Type 0
  Stored hash s r = (env.cached_record hash s ≡ hit r) ⊎ ((u : S) × (env.find_key hash u ≡ some r))

  pub found_or_cached-some :
      (hash : String) (o : Option ApiKeyRecord) (r : ApiKeyRecord) (s t : S)
      → found_or_cached env hash o s ≡ returns r t
      → o ≡ some r
  unfolding found_or_cached
  found_or_cached-some hash none r s t h = cc
  found_or_cached-some hash (some x) r s t h = ground arith

  look_up-Stored :
      (hash ip : String) (r : ApiKeyRecord) (s t : S)
      → look_up env hash ip s ≡ returns r t
      → (u : S) × (env.find_key hash u ≡ some r)
  unfolding look_up
  look_up-Stored hash ip r s t h =
      let read_key : S → Run S KeyError ApiKeyRecord =
        λ u. found_or_cached env hash (env.find_key hash u) u in
      let (_, u, _, rest) =
        >>=-eq-returns (check_negative env hash ip) (λ _. enforce_ip_rate_limit env ip >> read_key)
          s h in
      let (_, v, _, found) = >>=-eq-returns (enforce_ip_rate_limit env ip) (λ _. read_key) u rest in
      (v, found_or_cached-some hash (env.find_key hash v) r v t found)

  key_record-Stored :
      (hash ip : String) (reply : CacheReply ApiKeyRecord) (r : ApiKeyRecord) (s t : S)
      → key_record env hash ip reply s ≡ returns r t
      → (reply ≡ hit r) ⊎ ((u : S) × (env.find_key hash u ≡ some r))
  unfolding key_record
  key_record-Stored hash ip (hit x) r s t h = inl (ground arith)
  key_record-Stored hash ip miss r s t h = inr (look_up-Stored hash ip r s t h)
  key_record-Stored hash ip broken r s t h = inr (look_up-Stored hash ip r s t h)

  with_key-Valid :
      (key : String) (s t : S) (r : ApiKeyRecord)
      → with_key env request key s ≡ returns r t
      → Stored (env.sha256 key) s r × ((u : S) × Valid (env.sha256 key) r u)
  unfolding with_key
  with_key-Valid key s t r h =
      let hash = env.sha256 key in
      let (x, u, first, rest) =
        >>=-eq-returns (key_record env hash request.client_ip (env.cached_record hash s))
          (admit env request hash) s h in
      let (same, valid) = admit-Valid hash x r u t rest in
      (
        subst (Stored hash s) same
            (key_record-Stored hash request.client_ip (env.cached_record hash s) x s u first),
        (u, subst (λ y. Valid hash y u) same valid),
      )

  -- A request is let through only with a non-empty key, whose record comes from the cache or from
  -- the table under the key's hash, is active, has not expired, has one of the required permissions
  -- if any is required, and whose counter, where the cache knows one, is below the limit.
  pub can_activate-Valid :
      (s t : S) (r : ApiKeyRecord)
      → can_activate env request s ≡ returns r t
      → (key : String) × (u : S) × (request.api_key ≡ some key)
        × (key ≢ "")
        × Stored (env.sha256 key) s r
        × Valid (env.sha256 key) r u
  unfolding can_activate
  can_activate-Valid s t r h = elim (Option-cases request.api_key) [
    | inl missing ↦ absurd (refused (rw (missing, can_activate) at h))
    | inr (key, given) ↦ elim (Bool-cases (str_eq key "")) [
      | inl empty ↦ absurd (refused (rw (given, empty, can_activate) at h))
      | inr full ↦
          let (stored, (u, valid)) =
            with_key-Valid key s t r (rw (given, full, can_activate) at h) in
          (key, u, given, ground (arith, eq_iff key ""), stored, valid)
    ]
  ]
    where
      refused :
          (enforce_ip_rate_limit env request.client_ip >> λ t. throws unauthorized t) s
            ≡ returns r t
          → ⊥
      refused e =
          let (_, u, _, rest) =
            >>=-eq-returns (enforce_ip_rate_limit env request.client_ip)
              (λ _ t. throws unauthorized t) s e in
          cc rest
