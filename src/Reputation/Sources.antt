-- ===== src/Reputation/Sources.antt =====
-- Where a reputation comes from, and that its terms are those of its score's tier.
use step_fi_api.Common.{
  ℕ, ◌≡◌, ◌⊎◌, inl, inr, refl, sym, subst, ◌∙◌, String, true, Option, none, some, arith, Bool-cases,
}
use step_fi_api.Common.Int.{ℤ, pos}
use step_fi_api.Credit.{resolve_tier}
use step_fi_api.Reputation.{
  Reputation, CacheReply, hit, miss, cache_error, CachedScore, ReputationEnv, matched_terms,
  map_to_reputation, score_of, fresh_score, upsert_for, persist_reputation, fetch_and_persist,
  from_table, from_cache, or_default, get_reputation_score, invalidate_reputation,
}

-- For every score the reputation service finds the tier that `resolveTier` of the credit scoring
-- service finds, and never an undefined one.
pub matched_terms-resolve_tier : (score : ℤ) → matched_terms score ≡ some (resolve_tier score)
unfolding matched_terms resolve_tier
matched_terms-resolve_tier score = ground arith

module _ {S : Type 0} (env : ReputationEnv S) where
  -- A reputation of the wallet, with the terms of its score.
  abbrev pub IsOwn : String → Reputation → Type 0
  IsOwn wallet r = (r.wallet ≡ wallet) × (r.terms ≡ some (resolve_tier r.score))

  -- The cache holds own reputations only.
  abbrev pub IsConsistent : S → Type 0
  IsConsistent s = (w : String) (r : Reputation) → env.cache_get w s ≡ hit r → IsOwn w r

  map_to_reputation-IsOwn :
      (wallet : String) (score : ℤ) (updated : ℕ)
      → IsOwn wallet (map_to_reputation wallet score updated)
  unfolding map_to_reputation
  map_to_reputation-IsOwn wallet score updated = (refl, matched_terms-resolve_tier score)

  module _
      (set_law : (r x : Reputation) (w : String) (s : S)
        → env.cache_get w (env.cache_set r s).1 ≡ hit x
        → ((r.wallet ≡ w) × (r ≡ x)) ⊎ (env.cache_get w s ≡ hit x))
      (score_keeps : (w wallet : String) (s : S)
        → env.cache_get w (env.get_score wallet s).1 ≡ env.cache_get w s)
      (upsert_keeps : (w id : String) (r : Reputation) (s : S)
        → env.cache_get w (env.upsert_score id r s) ≡ env.cache_get w s) where
    set-IsConsistent :
        (r : Reputation) (s : S)
        → IsOwn r.wallet r
        → IsConsistent s
        → IsConsistent (env.cache_set r s).1
    set-IsConsistent r s own all w x h = elim (set_law r x w s h) [
      | inl (wallet, same) ↦ subst (λ z. IsOwn w z) same (subst (λ v. IsOwn v r) wallet own)
      | inr before ↦ all w x before
    ]

    upsert-IsConsistent :
        (id : Option String) (r : Reputation) (s : S)
        → IsConsistent s
        → IsConsistent (upsert_for env id r s)
    upsert-IsConsistent none r s all w x h = all w x h
    upsert-IsConsistent (some id) r s all w x h = all w x (sym (upsert_keeps w id r s) ∙ h)

    persist-IsConsistent :
        (r : Reputation) (s : S)
        → IsOwn r.wallet r
        → IsConsistent s
        → IsConsistent (persist_reputation env r s)
    unfolding persist_reputation
    persist-IsConsistent r s own all =
        let stored = set-IsConsistent r s own all in
        let t = (env.cache_set r s).1 in
        elim (Bool-cases (env.cache_set r s).0) [
          | inl b ↦ rw b (upsert-IsConsistent (env.find_user r.wallet t) r t stored)
          | inr b ↦ rw b stored
        ]

    -- An own reputation and a consistent cache.
    abbrev Served : String → Reputation × S → Type 0
    Served wallet (r, t) = IsOwn wallet r × IsConsistent t

    fetch-Served :
        (wallet : String) (s : S)
        → IsConsistent s
        → Served wallet (or_default env wallet (fetch_and_persist env wallet s))
    unfolding fetch_and_persist map_to_reputation
    fetch-Served wallet s all =
        let (reply, t) = env.get_score wallet s in
        let r = map_to_reputation wallet (score_of reply) (env.now t) in
        let own = map_to_reputation-IsOwn wallet (score_of reply) (env.now t) in
        (own, persist-IsConsistent r t own (λ w x h. all w x (sym (score_keeps w wallet s) ∙ h)))

    table-Served :
        (wallet : String) (row : Option CachedScore) (s : S)
        → IsConsistent s
        → Served wallet (or_default env wallet (from_table env wallet row s))
    unfolding from_table map_to_reputation
    table-Served wallet none s all = fetch-Served wallet s all
    table-Served wallet (some row) s all =
        let r = map_to_reputation wallet row.score row.last_synced_at in
        let own = map_to_reputation-IsOwn wallet row.score row.last_synced_at in
        let stored = set-IsConsistent r s own all in
        elim (Bool-cases (env.cache_set r s).0) [
          | inl b ↦ rw b (own, stored)
          | inr b ↦
              rw b (map_to_reputation-IsOwn wallet (pos 0) (env.now (env.cache_set r s).1), stored)
        ]

    cache-Served :
        (wallet : String) (c : CacheReply) (s : S)
        → env.cache_get wallet s ≡ c
        → IsConsistent s
        → Served wallet (or_default env wallet (from_cache env wallet c s))
    unfolding from_cache
    cache-Served wallet (hit r) s e all = (all wallet r e, all)
    cache-Served wallet cache_error s e all =
        (map_to_reputation-IsOwn wallet (pos 0) (env.now s), all)
    cache-Served wallet miss s e all =
        table-Served wallet (fresh_score (env.select_score wallet s) (env.now s)) s all

    -- Take a cache that gives back for a wallet only what it held or what was just stored for it,
    -- and that the chain and the table do not touch. While the cache holds reputations of their own
    -- wallets with the terms of their score's tier only, each request is answered with such a
    -- reputation, from whichever source, and leaves the cache so.
    pub get_reputation_score-Served :
        (wallet : String) (s : S)
        → IsConsistent s
        → IsOwn wallet (get_reputation_score env wallet s).0
          × IsConsistent (get_reputation_score env wallet s).1
    unfolding get_reputation_score
    get_reputation_score-Served wallet s all =
        cache-Served wallet (env.cache_get wallet s) s refl all

  -- Take a cache that misses after a deletion that did not throw, and a table without a row after
  -- its deletion. The request after an invalidation whose deletion from the cache did not throw is
  -- answered with the score of the chain, 0 where the chain has none or cannot be read.
  pub invalidate_reputation-refetch :
      (wallet : String) (s t : S)
      → env.cache_del wallet s ≡ (true, t)
      → env.cache_get wallet (env.delete_score wallet t) ≡ miss
      → env.select_score wallet (env.delete_score wallet t) ≡ none
      → let u = invalidate_reputation env wallet s in
        (get_reputation_score env wallet u).0.score ≡ score_of (env.get_score wallet u).0
  unfolding invalidate_reputation get_reputation_score from_cache from_table fetch_and_persist
      map_to_reputation
  invalidate_reputation-refetch wallet s t deleted missed gone = ground arith
