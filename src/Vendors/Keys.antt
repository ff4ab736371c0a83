-- ===== src/Vendors/Keys.antt =====
-- revokeApiKey of src/modules/vendors/vendors.service.ts against the guard of
-- src/auth/guards/api-key.guard.ts, over one state of the cache and the table.
use step_fi_api.Common.{
  ℕ, ◌+◌, ◌≡◌, ◌≢◌, inl, inr, refl, sym, ap, ◌∙◌, final, Act, ◌||◌, String, true, false, some,
  arith, str_eq, eq_iff, Bool-cases, Run, returns, throws, >>=-eq-returns, ◌>>◌,
}
use step_fi_api.Access.KeyChecks.{found_or_cached-some, admit-Valid}
use step_fi_api.Access.ApiKey.{
  max_ip_requests, ip_rate_window, ApiKeyRecord, CacheReply, hit, miss, broken, KeyError,
  unauthorized, rate_limited, insufficient_permissions, KeyEnv, KeyRequest, count_request,
  keep_unauthorized, found_or_cached, look_up, key_record, admit, with_key, can_activate,
  check_negative, enforce_ip_rate_limit, is_true,
}
use step_fi_api.Vendors.{VendorRow, VendorsEnv, found}
use step_fi_api.Vendors.Service.{revoke_api_key, forget_key, forget_counters, require_vendor}

-- What the cache and the table promise to both: a write of the request counter leaves the keys, a
-- deletion deletes one entry of the cache and nothing else, and the update of a key makes its row
-- inactive.
pub record KeyLaws {S : Type 0} (keys : KeyEnv S) (env : VendorsEnv S) : Type 0 where
  pub counter_keeps :
      (hash ip : String) (n window : ℕ) (s : S)
      → keys.find_key hash (keys.store_ip_rate ip n window s) ≡ keys.find_key hash s
  pub deactivated :
      (key_id vendor_id hash : String) (s : S) (r : ApiKeyRecord)
      → env.own_key key_id vendor_id s ≡ some hash
      → (env.deactivate_key key_id s).0 ≡ true
      → keys.find_key hash (env.deactivate_key key_id s).1 ≡ some r
      → r.is_active ≡ false
  pub record_deleted : (hash : String) (s : S) → (env.forget_record hash s).0 ≡ true
  pub record_gone :
      (hash : String) (s : S) → keys.cached_record hash (env.forget_record hash s).1 ≡ miss
  pub record_keeps :
      (hash : String) (s : S)
      → keys.find_key hash (env.forget_record hash s).1 ≡ keys.find_key hash s
  pub rate_keeps :
      (hash key_id : String) (s : S)
      → (keys.find_key hash (env.forget_rate key_id s).1 ≡ keys.find_key hash s)
        × (keys.cached_record hash (env.forget_rate key_id s).1 ≡ keys.cached_record hash s)
  pub last_used_keeps :
      (hash key_id : String) (s : S)
      → (keys.find_key hash (env.forget_last_used key_id s).1 ≡ keys.find_key hash s)
        × (keys.cached_record hash (env.forget_last_used key_id s).1 ≡ keys.cached_record hash s)

module _ {S : Type 0} (keys : KeyEnv S) (env : VendorsEnv S) (laws : KeyLaws keys env) where
  -- Whatever the counter of an address answers, the row of a key stays as it is.
  count_request_keeps :
      (hash ip : String) (reply : CacheReply ℕ) (limit window : ℕ) (s : S)
      → keys.find_key hash
          (final (count_request reply limit (λ n u. keys.store_ip_rate ip n window u) s))
        ≡ keys.find_key hash s
  unfolding count_request
  count_request_keeps hash ip broken limit window s = refl
  count_request_keeps hash ip miss limit window s =
      let kept = laws.counter_keeps hash ip 1 window s in ground (arith, kept)
  count_request_keeps hash ip (hit n) limit window s =
      let kept = laws.counter_keeps hash ip (n + 1) window s in ground (arith, kept)

  ip_rate_keeps :
      (hash ip : String) (s : S)
      → keys.find_key hash (final (enforce_ip_rate_limit keys ip s)) ≡ keys.find_key hash s
  unfolding enforce_ip_rate_limit
  ip_rate_keeps hash ip s = elim (Bool-cases (str_eq ip "" || str_eq ip "unknown")) [
    | inl unknown ↦ rw unknown refl
    | inr known ↦
        rw known (count_request_keeps hash ip (keys.ip_rate ip s) max_ip_requests ip_rate_window s)
  ]

  keep_unauthorized-final : (r : Run S KeyError (Unit {0})) → final (keep_unauthorized r) ≡ final r
  unfolding keep_unauthorized
  keep_unauthorized-final (returns a u) = refl
  keep_unauthorized-final (throws unauthorized u) = refl
  keep_unauthorized-final (throws rate_limited u) = refl
  keep_unauthorized-final (throws insufficient_permissions u) = refl

  abbrev then_throw : Act S KeyError (Unit {0}) → Act S KeyError (Unit {0})
  then_throw m = m >> λ t. throws unauthorized t

  then_throw-final : (m : Act S KeyError (Unit {0})) (s : S) → final (then_throw m s) ≡ final (m s)
  then_throw-final m s = go (m s) refl
    where
      go : (r : Run S KeyError (Unit {0})) → m s ≡ r → final (then_throw m s) ≡ final (m s)
      go (returns a u) e = cc
      go (throws x u) e = cc

  negative_keeps :
      (hash ip : String) (s : S)
      → keys.find_key hash (final (check_negative keys hash ip s)) ≡ keys.find_key hash s
  unfolding check_negative
  negative_keeps hash ip s = elim (Bool-cases (is_true (keys.negative hash s))) [
    | inl known ↦ rw known (
        ap (keys.find_key hash) (
          keep_unauthorized-final (then_throw (enforce_ip_rate_limit keys ip) s)
          ∙ then_throw-final (enforce_ip_rate_limit keys ip) s)
        ∙ ip_rate_keeps hash ip s)
    | inr new ↦ rw new refl
  ]

  look_up-row :
      (request : KeyRequest) (hash : String) (s t : S) (r : ApiKeyRecord)
      → look_up keys hash request.client_ip s ≡ returns r t
      → keys.find_key hash s ≡ some r
  unfolding look_up
  look_up-row request hash s t r h =
      let ip = request.client_ip in
      let read_key : S → Run S KeyError ApiKeyRecord =
        λ u. found_or_cached keys hash (keys.find_key hash u) u in
      let (_, u, first, rest) =
        >>=-eq-returns (check_negative keys hash ip)
          (λ _. enforce_ip_rate_limit keys ip >> read_key) s h in
      let (_, v, second, last) =
        >>=-eq-returns (enforce_ip_rate_limit keys ip) (λ _. read_key) u rest in
      let at_u = ap (λ x. keys.find_key hash (final x)) first in
      let at_v = ap (λ x. keys.find_key hash (final x)) second in
      sym (negative_keeps hash ip s)
      ∙ at_u
      ∙ sym (ip_rate_keeps hash ip u)
      ∙ at_v
      ∙ found_or_cached-some keys request hash (keys.find_key hash v) r v t last

  forget_counters_keeps :
      (hash key_id : String) (s : S)
      → (keys.find_key hash (forget_counters env key_id s) ≡ keys.find_key hash s)
        × (keys.cached_record hash (forget_counters env key_id s) ≡ keys.cached_record hash s)
  forget_counters_keeps hash key_id s =
      let t = (env.forget_rate key_id s).1 in
      let rate_row = (laws.rate_keeps hash key_id s).0 in
      let rate_entry = (laws.rate_keeps hash key_id s).1 in
      let used_row = (laws.last_used_keeps hash key_id t).0 in
      let used_entry = (laws.last_used_keeps hash key_id t).1 in
      (ground (arith, rate_row, used_row), ground (arith, rate_entry, used_entry))

  -- The guard refuses a key that the cache does not have and whose row, if any, is inactive.
  inactive_refused :
      (request : KeyRequest) (key : String) (s t : S) (r : ApiKeyRecord)
      → request.api_key ≡ some key
      → keys.cached_record (keys.sha256 key) s ≡ miss
      → ((row : ApiKeyRecord)
          → keys.find_key (keys.sha256 key) s ≡ some row
          → row.is_active ≡ false)
      → can_activate keys request s ≢ returns r t
  unfolding can_activate with_key key_record
  inactive_refused request key s t r given gone inactive h = elim (Bool-cases (str_eq key "")) [
    | inl empty ↦
        let (_, u, _, rest) =
          >>=-eq-returns (enforce_ip_rate_limit keys request.client_ip)
            (λ _ v. throws unauthorized v) s (rw (given, empty, can_activate) at h) in
        cc rest
    | inr full ↦
        let hash = keys.sha256 key in
        let (x, u, first, rest) =
          >>=-eq-returns (look_up keys hash request.client_ip) (admit keys request hash) s
            (rw (given, full, gone, can_activate) at h) in
        let row = look_up-row request hash s u x first in
        let (same, valid) = admit-Valid keys request hash x r u t rest in
        let active = valid.active in let off = inactive x row in cc
  ]

  forget_key_lem :
      (hash key_id : String) (s : S)
      → hash ≢ ""
      → (keys.find_key hash (forget_key env key_id hash s) ≡ keys.find_key hash s)
        × (keys.cached_record hash (forget_key env key_id hash s) ≡ miss)
  unfolding forget_key
  forget_key_lem hash key_id s full =
      let not_empty : str_eq hash "" ≡ false = ground (arith, full, eq_iff hash "") in
      let deleted = laws.record_deleted hash s in
      let t = (env.forget_record hash s).1 in
      let (row, entry) = forget_counters_keeps hash key_id t in
      let row_kept = laws.record_keeps hash s in
      let gone = laws.record_gone hash s in
      (rw (not_empty, deleted) (row ∙ row_kept), rw (not_empty, deleted) (entry ∙ gone))

  -- Take a cache and a table where a write of a request counter leaves the rows of keys alone, a
  -- deletion from the cache does not throw and removes its one entry only, and the update of a key
  -- makes its row inactive. Once a vendor's revocation of a key has answered, where the vendor's row
  -- holds the hash of the key and the hash is not empty, the guard admits no request that carries
  -- the key, although it reads the records of keys from the cache first.
  pub revoke_api_key-can_activate :
      (wallet key_id key : String) (vendor : VendorRow) (s t : S)
      → env.find_by_wallet wallet s ≡ found vendor
      → env.own_key key_id vendor.id s ≡ some (keys.sha256 key)
      → keys.sha256 key ≢ ""
      → revoke_api_key env wallet key_id s ≡ returns tt t
      → (request : KeyRequest) (r : ApiKeyRecord) (u : S) → request.api_key ≡ some key
      → can_activate keys request t ≢ returns r u
  unfolding revoke_api_key require_vendor
  revoke_api_key-can_activate wallet key_id key vendor s t v own full h request r u given =
      elim (Bool-cases (env.deactivate_key key_id s).0) [
        | inr failed ↦ λ _. ground (arith, v, own, failed, h)
        | inl updated ↦
            let hash = keys.sha256 key in
            let after = (env.deactivate_key key_id s).1 in
            let ended : forget_key env key_id hash after ≡ t = ground (arith, v, own, updated, h) in
            let (row, entry) = forget_key_lem hash key_id after full in
            let row_t = sym (ap (keys.find_key hash) ended) ∙ row in
            let entry_t = sym (ap (keys.cached_record hash) ended) ∙ entry in
            inactive_refused request key t u r given entry_t (λ x found_row.
              laws.deactivated key_id vendor.id hash s x own updated (sym row_t ∙ found_row))
      ]
