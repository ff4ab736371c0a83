-- ===== src/Auth/Rotation.antt =====
-- What the handlers of src/modules/auth/auth.service.ts do to the sessions of a family.
use step_fi_api.Common.{
  ◌≡◌, refl, ◌∙◌, ap, inl, inr, Bool-cases, String, Bool, true, false, ◌∷◌, Option, none, some, not,
  Ends, require, or_throw, read, call, done, ◌>>=◌, ◌>>◌, Ends->>=,
}
use step_fi_api.Auth.Types.{
  Tokens, AuthUser, AuthEnv, user_blocked, user_upsert_failed, session_create_failed,
}
use step_fi_api.Auth.Service.{ensure_profile, find_or_create_user, new_session, generate_tokens}
use step_fi_api.Auth.Sessions.{SessionRow, SessionTable, row_of}

module _ {S : Type 0} (env : AuthEnv S) (table : SessionTable S env) where
  ensure_profile-rows :
      (wallet : Option String) (s : S) → table.rows (ensure_profile env wallet s) ≡ table.rows s
  ensure_profile-rows wallet s = elim (Bool-cases (env.has_learner_profile wallet s)) [
    | inl b ↦ rw b refl
    | inr b ↦ rw b (table.profile_keeps wallet s)
  ]

  find_or_create_user-rows :
      (wallet : Option String) (s : S)
      → Ends
          (λ _ t. table.rows t ≡ table.rows s)
          (λ _ t. table.rows t ≡ table.rows s)
          (find_or_create_user env wallet s)
  unfolding find_or_create_user
  find_or_create_user-rows wallet s =
      go (env.upsert_user wallet s).0 (env.upsert_user wallet s).1 (table.upsert_keeps wallet s)
    where
      go :
          (reply : Option AuthUser) (t : S)
          → table.rows t ≡ table.rows s
          → Ends
              (λ _ u. table.rows u ≡ table.rows s)
              (λ _ u. table.rows u ≡ table.rows s)
              ((do
                user ← or_throw reply user_upsert_failed
                require (not user.is_blocked) user_blocked
                call (λ s. (tt, ensure_profile env wallet s))
                done user)
                t)
      go none t h = h
      go (some user) t h = elim (Bool-cases user.is_blocked) [
        | inl b ↦ rw b h
        | inr b ↦ rw b (ensure_profile-rows wallet t ∙ h)
      ]

  -- One new row, of the family that was asked for.
  abbrev pub Added : String → S → Tokens → S → Type 0
  Added f s tokens t =
      (r : SessionRow) × (u : S) × (table.rows t ≡ r ∷ table.rows s)
      × (r.id ≡ table.new_id u)
      × (r.family ≡ f)
      × (r.token_hash ≡ env.sha256 tokens.refresh_token)

  session_stored :
      (wallet : Option String) (f access : String) (user : AuthUser) (s t : S)
      → table.rows t ≡ table.rows s
      → Ends
          (Added f s)
          (λ _ v. table.rows v ≡ table.rows s)
          ((do
            token ← read (env.sign_refresh wallet f)
            now ← read env.now
            stored ← call (env.insert_session (new_session env user token f now))
            require stored session_create_failed
            done (record { access_token = access; refresh_token = token }))
            t)
  session_stored wallet f access user s t h =
      let token = env.sign_refresh wallet f t in
      go (env.insert_session (new_session env user token f (env.now t)) t) refl
    where
      go :
          (q : Bool × S)
          → env.insert_session (new_session env user (env.sign_refresh wallet f t) f (env.now t)) t
            ≡ q
          → Ends
              (Added f s)
              (λ _ v. table.rows v ≡ table.rows s)
              ((require q.0 session_create_failed
                  >> done (record {
                    access_token = access;
                    refresh_token = env.sign_refresh wallet f t;
                  }))
                q.1)
      go (true, v) e = (
        row_of (table.new_id t) (new_session env user (env.sign_refresh wallet f t) f (env.now t)),
        t,
        table.insert_law _ t v e
            ∙ ap
                (λ rows.
                  row_of (table.new_id t)
                    (new_session env user (env.sign_refresh wallet f t) f (env.now t))
                  ∷ rows)
                h,
        refl,
        refl,
        refl,
      )
      go (false, v) e = table.insert_fails _ t v e ∙ h

  -- New tokens add one row, of the family that was asked for; a failure adds none.
  pub generate_tokens-Added :
      (wallet : Option String) (f : String) (s : S)
      → Ends
          (Added f s)
          (λ _ t. table.rows t ≡ table.rows s)
          (generate_tokens env wallet (some f) s)
  unfolding generate_tokens
  generate_tokens-Added wallet f s =
      Ends->>= (λ _ t. table.rows t ≡ table.rows s) (Added f s) (λ _ t. table.rows t ≡ table.rows s)
        (find_or_create_user env wallet) _ s (find_or_create_user-rows wallet s)
        (λ user t h. session_stored wallet f (env.sign_access wallet user.role t) user s t h)
