-- ===== src/Reputation.antt =====
-- src/modules/reputation/reputation.service.ts: a wallet's score from the cache, the table
-- `reputation_cache` or the chain, with the terms of its tier.
pub mod Sources
pub mod Limits
mod Tests
use step_fi_api.Common.{
  ℕ, ◌+◌, ◌*◌, String, Bool, true, false, List, [], ◌∷◌, Option, none, some, ltb, if◌then◌else◌,
  find_first, get_elem?, length, ◌-◌, Run, Act, returns, throws, ◌>>=◌, ◌>>◌, done, require, read,
  call,
}
use step_fi_api.Common.Int.{ℤ, pos, leb_ℤ}
use step_fi_api.Credit.{CreditTier, Terms, credit_tiers, normalize_score, terms_of}

-- `terms` are the tier, the rate and the limit; `none` would be the reading of a tier of an empty list.
pub record Reputation : Type 0 where
  pub wallet : String
  pub score : ℤ
  pub terms : Option Terms
  pub last_updated : ℕ

pub data CacheReply : Type 0 where
  hit : Reputation → CacheReply
  miss : CacheReply
  cache_error : CacheReply

-- A row of `reputation_cache`.
pub record CachedScore : Type 0 where
  pub score : ℤ
  pub last_synced_at : ℕ

pub data ScoreReply : Type 0 where
  on_chain : Option ℤ → ScoreReply
  raised : ScoreReply

pub record ReputationEnv (S : Type 0) : Type 0 where
  pub now : S → ℕ
  pub cache_get : String → S → CacheReply
  -- `false` when it throws
  pub cache_set : Reputation → S → Bool × S
  pub cache_del : String → S → Bool × S
  -- `none` for an error and for no row
  pub select_score : String → S → Option CachedScore
  pub get_score : String → S → ScoreReply × S
  pub find_user : String → S → Option String
  -- the replies of these two are not read
  pub upsert_score : String → Reputation → S → S
  pub delete_score : String → S → S

-- An hour, in milliseconds.
abbrev pub hour : ℕ
hour = 60 * 60 * 1000

-- The tier that is found, or the last one.
abbrev pub tier_or_last : Option CreditTier → List CreditTier → Option CreditTier
tier_or_last (some t) tiers = some t
tier_or_last none tiers = get_elem? tiers (length tiers - 1)

abbrev pub terms_in : Option CreditTier → Option Terms
terms_in none = none
terms_in (some t) = some (terms_of t)

-- `CREDIT_TIERS.find(...) ?? CREDIT_TIERS[CREDIT_TIERS.length - 1]`
unfoldable pub matched_terms : ℤ → Option Terms
unfolding normalize_score
matched_terms score =
    let n = normalize_score score in
    terms_in (tier_or_last (find_first (λ t. leb_ℤ (pos t.min_score) n) credit_tiers) credit_tiers)

unfoldable pub map_to_reputation : String → ℤ → ℕ → Reputation
map_to_reputation wallet score updated = record {
  wallet = wallet;
  score = score;
  terms = matched_terms score;
  last_updated = updated;
}

abbrev pub or_zero : Option ℤ → ℤ
or_zero none = pos 0
or_zero (some n) = n

-- `fetchScoreFromBlockchain`
abbrev pub score_of : ScoreReply → ℤ
score_of (on_chain score) = or_zero score
score_of raised = pos 0

-- `dbCache && !dbError`, and less than an hour old
abbrev pub fresh_score : Option CachedScore → ℕ → Option CachedScore
fresh_score none now = none
fresh_score (some row) now = if ltb now (row.last_synced_at + hour) then some row else none

module _ {S : Type 0} (env : ReputationEnv S) where
  abbrev pub upsert_for : Option String → Reputation → S → S
  upsert_for none r s = s
  upsert_for (some id) r s = env.upsert_score id r s

  -- A cache that throws keeps the table from being written.
  unfoldable pub persist_reputation : Reputation → S → S
  persist_reputation r s =
      let (stored, t) = env.cache_set r s in
      if stored then upsert_for (env.find_user r.wallet t) r t else t

  unfoldable pub fetch_and_persist : String → Act S (Unit {0}) Reputation
  fetch_and_persist wallet s =
      let (reply, t) = env.get_score wallet s in
      let r = map_to_reputation wallet (score_of reply) (env.now t) in
      returns r (persist_reputation r t)

  -- The Supabase step and what follows it.
  unfoldable pub from_table : String → Option CachedScore → Act S (Unit {0}) Reputation
  from_table wallet none s = fetch_and_persist wallet s
  from_table wallet (some row) s =
      let r = map_to_reputation wallet row.score row.last_synced_at in
      let (stored, t) = env.cache_set r s in if stored then returns r t else throws tt t

  unfoldable pub from_cache : String → CacheReply → Act S (Unit {0}) Reputation
  from_cache wallet (hit r) s = returns r s
  from_cache wallet cache_error s = throws tt s
  from_cache wallet miss s =
      from_table wallet (fresh_score (env.select_score wallet s) (env.now s)) s

  -- The `catch` block: the reputation of a new user.
  abbrev pub or_default : String → Run S (Unit {0}) Reputation → Reputation × S
  or_default wallet (returns r t) = (r, t)
  or_default wallet (throws e t) = (map_to_reputation wallet (pos 0) (env.now t), t)

  unfoldable pub get_reputation_score : String → S → Reputation × S
  get_reputation_score wallet s = or_default wallet (from_cache wallet (env.cache_get wallet s) s)

  unfoldable pub invalidate_reputation : String → S → S
  invalidate_reputation wallet s =
      let (deleted, t) = env.cache_del wallet s in if deleted then env.delete_score wallet t else t
