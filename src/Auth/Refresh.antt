-- ===== src/Auth/Refresh.antt =====
-- `refreshTokens` as a machine on the live token of a session family.
use step_fi_api.Common.{
  suc, ◌<◌, ◌≤◌, ◌≡◌, ◌≢◌, refl, sym, subst, ◌∙◌, ap, inl, inr, Bool-cases, String, true, false,
  List, ◌∷◌, Option, none, some, eq_iff, ltb, arith, count_of, find_first, Run, returns, throws,
  Ends, Ends-returns,
}
use step_fi_api.Checker.Types.{truthy}
use step_fi_api.Auth.Types.{
  Session, RefreshTokenPayload, Tokens, AuthError, AuthEnv, session_expired, refresh_token_reused,
}
use step_fi_api.Auth.Service.{
  generate_tokens, handle_refresh_replay, replay_error, rotate, refresh_session, refresh_tokens,
  is_refresh, revoked_count, or_unknown,
}
use step_fi_api.Auth.Sessions.{
  SessionRow, SessionTable, of_family, has_hash, has_id, hash_in, remove_where, current, session_of,
  count-current, remove-found, found-current, missing-current, remove-family,
}
use step_fi_api.Auth.Rotation.{Added, generate_tokens-Added}

two_left :
    (f id : String) (a b : SessionRow) (before after rest : List SessionRow)
    → a.family ≡ f
    → b.family ≡ f
    → a.id ≢ id
    → before ≡ a ∷ rest
    → after ≡ b ∷ remove_where (has_id id) before
    → 2 ≤ count_of (of_family f) after
two_left f id a b before after rest fa fb other e1 e2 =
    let kept : has_id id a ≡ false = ground (arith, eq_iff a.id id) in
    let own_a : of_family f a ≡ true = (eq_iff a.family f).1 fa in
    let own_b : of_family f b ≡ true = (eq_iff b.family f).1 fb in
    rw e2 (rw e1 (rw (kept, own_a, own_b) (ground arith)))

module _ {S : Type 0} (env : AuthEnv S) (table : SessionTable S env) where
  -- The session of the token hash `h`, and that the clock is past its expiry or not.
  abbrev pub Expired : String → S → SessionRow → Type 0
  Expired h s r = (find_first (has_hash h) (table.rows s) ≡ some r) × (r.expires_at < env.now s)

  abbrev pub Live : String → S → SessionRow → Type 0
  Live h s r = (find_first (has_hash h) (table.rows s) ≡ some r) × (env.now s ≤ r.expires_at)

  -- What a refresh with the token hash `h` may do to the family `f`, whose live token is the abstract
  -- state: replace it or lose it to an error after the deletion, both only while its session is live,
  -- leave it when its session has expired, or end the family because the hash is not the live one.
  pub data FamilyStep (f h : String) (s : S) : Run S AuthError Tokens → Type 0 where
    rotates :
        {r : SessionRow} {tokens : Tokens} {t : S}
        → Live h s r
        → current f (table.rows s) ≡ some h
        → current f (table.rows t) ≡ some (env.sha256 tokens.refresh_token)
        → count_of (of_family f) (table.rows t) ≤ 1
        → FamilyStep f h s (returns tokens t)
    expires :
        {r : SessionRow} {t : S}
        → Expired h s r
        → current f (table.rows s) ≡ some h
        → table.rows t ≡ table.rows s
        → FamilyStep f h s (throws session_expired t)
    ends :
        {r : SessionRow} {e : AuthError} {t : S}
        → Live h s r
        → current f (table.rows s) ≡ some h
        → current f (table.rows t) ≡ none
        → FamilyStep f h s (throws e t)
    replays :
        {t : S}
        → current f (table.rows s) ≢ some h
        → count_of (of_family f) (table.rows t) ≡ 0
        → FamilyStep f h s (throws refresh_token_reused t)

  current-cons :
      (f : String) (r : SessionRow) (rows : List SessionRow)
      → r.family ≡ f
      → current f (r ∷ rows) ≡ some r.token_hash
  current-cons f r rows e = rw ((eq_iff r.family f).1 e, hash_in) refl

  count-cons :
      (f : String) (r : SessionRow) (rows : List SessionRow)
      → count_of (of_family f) (r ∷ rows) ≤ suc (count_of (of_family f) rows)
  count-cons f r rows = ground arith

  generated-step :
      (f h : String) (s t : S) (wallet : Option String) (r : SessionRow)
      → Live h s r
      → current f (table.rows s) ≡ some h
      → count_of (of_family f) (table.rows t) ≡ 0
      → FamilyStep f h s (generate_tokens env wallet (some f) t)
  generated-step f h s t wallet row unexpired live empty =
      go (generate_tokens env wallet (some f) t) (generate_tokens-Added env table wallet f t)
    where
      go :
          (q : Run S AuthError Tokens)
          → Ends (Added env table f t) (λ _ v. table.rows v ≡ table.rows t) q
          → FamilyStep f h s q
      go (returns tokens v) (r, u, rows, id, family, hash) =
          rotates unexpired live
            (ap (current f) rows ∙ current-cons f r (table.rows t) family ∙ ap some hash)
            (subst (λ x. count_of (of_family f) x ≤ 1) (sym rows)
              (omega (arith, count-cons f r (table.rows t), empty)))
      go (throws e v) rows =
          ends unexpired live (ap (current f) rows ∙ count-current f (table.rows t) empty)

  rotate-step :
      (f h : String) (s : S) (payload : RefreshTokenPayload) (r : SessionRow)
      → find_first (has_hash h) (table.rows s) ≡ some r
      → r.family ≡ f
      → count_of (of_family f) (table.rows s) ≤ 1
      → FamilyStep f h s (
          rotate env payload
            (record { id = r.id; family_id = some r.family; expires_at = r.expires_at })
            s)
  unfolding rotate
  rotate-step f h s payload r found family one =
      let live = found-current h f (table.rows s) r found family one in
      let t = env.delete_session r.id s in
      let empty : count_of (of_family f) (table.rows t) ≡ 0 =
        subst (λ x. count_of (of_family f) x ≡ 0) (sym (table.delete_law r.id s))
          (omega (arith, remove-found h f (table.rows s) r found family, one)) in
      elim (Bool-cases (ltb r.expires_at (env.now s))) [
        | inl b ↦ rw b (expires (found, ground arith) live refl)
        | inr b ↦
            rw b
              (rw family (generated-step f h s t payload.wallet r (found, ground arith) live empty))
      ]

  replay-rows :
      (f : String) (payload : RefreshTokenPayload) (s : S)
      → truthy payload.fam ≡ some f
      → table.rows (handle_refresh_replay env payload s) ≡ remove_where (of_family f) (table.rows s)
  unfolding handle_refresh_replay
  replay-rows f payload s named =
      rw (named, handle_refresh_replay)
        (table.log_keeps (or_unknown payload.wallet) f (revoked_count env (env.revoke_family f s).0)
            (env.revoke_family f s).1
          ∙ table.revoke_law f s)

  -- Take a table of sessions without database errors, and a refresh token of the family `f` that
  -- verifies, where the session with its hash, if there is one, is of the family, and the family has
  -- one session at most. Refreshing is a step of the machine on the family's live token: while the
  -- expiry of its session is not before the clock, the live token is replaced by the returned one or
  -- is lost to an error of the new session; when the expiry is before the clock, the request fails and
  -- the rows stay; and with any other token of the family no session of it is left.
  pub refresh_tokens-FamilyStep :
      (f token : String) (payload : RefreshTokenPayload) (s : S)
      → env.verify_refresh token s ≡ some payload
      → is_refresh env payload.kind ≡ true
      → truthy payload.fam ≡ some f
      → ((r : SessionRow)
          → find_first (has_hash (env.sha256 token)) (table.rows s) ≡ some r
          → r.family ≡ f)
      → count_of (of_family f) (table.rows s) ≤ 1
      → FamilyStep f (env.sha256 token) s (refresh_tokens env token s)
  unfolding refresh_tokens refresh_session
  refresh_tokens-FamilyStep f token payload s verified kind named own one = rw verified (
      rw kind (
        rw (table.select_law (env.sha256 token) s)
          (go (find_first (has_hash (env.sha256 token)) (table.rows s)) refl)))
    where
      go :
          (found : Option SessionRow)
          → find_first (has_hash (env.sha256 token)) (table.rows s) ≡ found
          → FamilyStep f (env.sha256 token) s (refresh_session env payload (session_of found) s)
      go (some r) e = rotate-step f (env.sha256 token) s payload r e (own r e) one
      go none e =
          rw (named, replay_error)
            (replays (missing-current (env.sha256 token) f (table.rows s) e) (
              subst (λ x. count_of (of_family f) x ≡ 0) (sym (replay-rows f payload s named))
                (remove-family f (table.rows s))))

  rotate-Added :
      (f : String) (payload : RefreshTokenPayload) (session : Session) (s t : S) (tokens : Tokens)
      → session.family_id ≡ some f
      → rotate env payload session s ≡ returns tokens t
      → Added env table f (env.delete_session session.id s) tokens t
  unfolding rotate
  rotate-Added f payload session s t tokens family h =
      elim (Bool-cases (ltb session.expires_at (env.now s))) [
        | inl b ↦
            let expired : rotate env payload session s ≡ throws session_expired s = rw b refl in cc
        | inr b ↦
            let v = env.delete_session session.id s in
            let opened : rotate env payload session s
                ≡ generate_tokens env payload.wallet (some f) v =
              rw b (rw family refl) in
            Ends-returns (Added env table f v) (λ _ w. table.rows w ≡ table.rows v) (sym opened ∙ h)
              (generate_tokens-Added env table payload.wallet f v)
      ]

  -- Take two requests that both read the session of one refresh token before either deletes it, and
  -- a table that never gives a new session the id of this one. If both are answered, the family has
  -- two sessions afterwards: the deletion does not report whether it found the session, and nothing
  -- stops the second request.
  pub refresh_race :
      (f : String) (payload : RefreshTokenPayload) (session : Session) (s t u : S)
      (first second : Tokens)
      → session.family_id ≡ some f
      → ((v : S) → table.new_id v ≢ session.id)
      → refresh_session env payload (some session) s ≡ returns first t
      → refresh_session env payload (some session) t ≡ returns second u
      → 2 ≤ count_of (of_family f) (table.rows u)
  unfolding refresh_session
  refresh_race f payload session s t u first second family fresh h1 h2 =
      let (a, v, rows_a, id_a, family_a, _) = rotate-Added f payload session s t first family h1 in
      let (b, w, rows_b, id_b, family_b, _) = rotate-Added f payload session t u second family h2 in
      two_left f session.id a b (table.rows t) (table.rows u)
        (remove_where (has_id session.id) (table.rows s)) family_a family_b
        (λ e. fresh v (sym id_a ∙ e)) (rows_a ∙ ap (λ x. a ∷ x) (table.delete_law session.id s))
        (rows_b ∙ ap (λ x. b ∷ x) (table.delete_law session.id t))
