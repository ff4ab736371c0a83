-- ===== src/Auth/Service.antt =====
-- The handlers of src/modules/auth/auth.service.ts: nonces, verification, tokens and registration.
use step_fi_api.Common.{
  ℕ, ◌+◌, ◌*◌, ◌/◌, ◌==◌, String, Bool, false, Option, none, some, str_eq, ltb, not, if◌then◌else◌,
  Run, Act, returns, throws, ◌>>=◌, ◌>>◌, done, require, read, or_throw, call,
}
use step_fi_api.Checker.Types.{truthy}
use step_fi_api.Auth.Types.{
  StoredNonce, NewNonce, VerifyRequest, NonceResponse, ClaimReply, claim_error, claim_reply,
  AuthUser, Session, NewSession, RefreshTokenPayload, Tokens, RevokeReply, revoke_error, revoked,
  UserProfile, RegisterRequest, AuthError, nonce_insert_failed, nonce_not_found, nonce_claim_failed,
  nonce_expired, signature_invalid, user_upsert_failed, user_blocked, session_create_failed,
  refresh_token_invalid, refresh_token_reused, session_not_found, session_expired,
  repository_failed, RepositoryReply, answered, raised, AuthConfig, AuthEnv,
}
use step_fi_api.Auth.Challenge.{build_challenge_message, signature_error}

-- NONCE_EXPIRATION_SECONDS, in milliseconds
abbrev pub nonce_lifetime : ℕ
nonce_lifetime = 300 * 1000

-- REFRESH_TOKEN_EXPIRATION_MS of src/config/jwt.config.ts
abbrev pub refresh_token_expiration_ms : ℕ
refresh_token_expiration_ms = 7 * 24 * 60 * 60 * 1000

abbrev pub or_zero : Option ℕ → ℕ
or_zero none = 0
or_zero (some n) = n

-- `typeof count === 'number' ? count : (data?.length ?? 0)`
abbrev pub claimed_count : Option ℕ → Option ℕ → ℕ
claimed_count (some n) rows = n
claimed_count none rows = or_zero rows

abbrev pub or_unknown : Option String → String
or_unknown none = "unknown"
or_unknown (some w) = w

module _ {S : Type 0} (config : AuthConfig) (env : AuthEnv S) where
  abbrev pub nonce_response : String → String → ℕ → ℕ → NonceResponse
  nonce_response wallet nonce issued expires =
      let message = build_challenge_message config env wallet nonce issued expires in
      record {
        nonce = nonce;
        expires_at = expires;
        message = message;
        challenge_xdr =
            env.challenge_xdr wallet (issued / 1000) (expires / 1000) (env.sha256 message);
      }

  abbrev pub nonce_row : String → String → ℕ → ℕ → NewNonce
  nonce_row wallet nonce issued expires = record {
    wallet_address = wallet;
    nonce = nonce;
    expires_at = expires;
    issued_at = issued;
    message_hash = env.sha256 (build_challenge_message config env wallet nonce issued expires);
  }

  -- The clock is read twice. It moves with the calls only, so that both readings are equal.
  unfoldable pub generate_nonce : String → Act S AuthError NonceResponse
  generate_nonce wallet = do
    nonce ← call env.random_nonce
    issued ← read env.now
    now ← read env.now
    stored ← call (env.insert_nonce (nonce_row wallet nonce issued (now + nonce_lifetime)))
    require stored nonce_insert_failed
    done (nonce_response wallet nonce issued (now + nonce_lifetime))

  abbrev pub throw_if : Option AuthError → Act S AuthError (Unit {0})
  throw_if none s = returns tt s
  throw_if (some e) s = throws e s

  -- The reply of the claim.
  abbrev pub check_claim : ClaimReply → Act S AuthError (Unit {0})
  check_claim claim_error s = throws nonce_claim_failed s
  check_claim (claim_reply count rows) s =
      if claimed_count count rows == 0 then throws nonce_not_found s else returns tt s

  -- From the claim on, for the row that was read.
  unfoldable pub verify_claimed : VerifyRequest → StoredNonce → Act S AuthError (Unit {0})
  verify_claimed dto stored = do
    reply ← call (env.claim_nonce stored.id)
    check_claim reply
    now ← read env.now
    require (not (ltb stored.expires_at now)) nonce_expired
    require (env.is_valid_key dto.wallet) signature_invalid
    throw_if (signature_error config env dto stored now)

  unfoldable pub verify_signature : VerifyRequest → Act S AuthError (Unit {0})
  verify_signature dto = do
    row ← read (env.select_nonce dto.wallet dto.nonce)
    stored ← or_throw row nonce_not_found
    verify_claimed dto stored

module _ {S : Type 0} (env : AuthEnv S) where
  -- A failed lookup counts as no profile, and a failed insert is not noticed.
  abbrev pub ensure_profile : Option String → S → S
  ensure_profile wallet s =
      if env.has_learner_profile wallet s then s else env.insert_learner_profile wallet s

  unfoldable pub find_or_create_user : Option String → Act S AuthError AuthUser
  find_or_create_user wallet = do
    reply ← call (env.upsert_user wallet)
    user ← or_throw reply user_upsert_failed
    require (not user.is_blocked) user_blocked
    call (λ s. (tt, ensure_profile wallet s))
    done user

  -- `familyId ?? randomUUID()`
  abbrev pub family_of : Option String → S → String × S
  family_of none s = env.random_uuid s
  family_of (some f) s = (f, s)

  abbrev pub new_session : AuthUser → String → String → ℕ → NewSession
  new_session user token family now = record {
    user_id = user.id;
    refresh_token_hash = env.sha256 token;
    family_id = family;
    expires_at = now + refresh_token_expiration_ms;
  }

  unfoldable pub generate_tokens : Option String → Option String → Act S AuthError Tokens
  generate_tokens wallet family_id = do
    user ← find_or_create_user wallet
    access ← read (env.sign_access wallet user.role)
    family ← call (family_of family_id)
    token ← read (env.sign_refresh wallet family)
    now ← read env.now
    stored ← call (env.insert_session (new_session user token family now))
    require stored session_create_failed
    done (record { access_token = access; refresh_token = token })

  abbrev pub revoked_count : RevokeReply → ℕ
  revoked_count revoke_error = 0
  revoked_count (revoked count) = or_zero count

  -- A failed audit entry is only logged.
  unfoldable pub handle_refresh_replay : RefreshTokenPayload → S → S
  handle_refresh_replay payload s = elim (truthy payload.fam) [
    | none ↦ s
    | some family ↦
        let (reply, t) = env.revoke_family family s in
        env.log_reuse (or_unknown payload.wallet) family (revoked_count reply) t
  ]

  abbrev pub replay_error : Option String → AuthError
  replay_error none = session_not_found
  replay_error (some family) = refresh_token_reused

  -- From the lookup on, for the session that was read.
  unfoldable pub rotate : RefreshTokenPayload → Session → Act S AuthError Tokens
  rotate payload session = do
    now ← read env.now
    require (not (ltb session.expires_at now)) session_expired
    call (λ s. (tt, env.delete_session session.id s))
    generate_tokens payload.wallet session.family_id

  unfoldable pub refresh_session : RefreshTokenPayload → Option Session → Act S AuthError Tokens
  refresh_session payload none s =
      throws (replay_error (truthy payload.fam)) (handle_refresh_replay payload s)
  refresh_session payload (some session) s = rotate payload session s

  abbrev pub is_refresh : Option String → Bool
  is_refresh none = false
  is_refresh (some t) = str_eq t "refresh"

  unfoldable pub refresh_tokens : String → Act S AuthError Tokens
  refresh_tokens token = do
    verified ← read (env.verify_refresh token)
    payload ← or_throw verified refresh_token_invalid
    require (is_refresh payload.kind) refresh_token_invalid
    session ← read (env.select_session (env.sha256 token))
    refresh_session payload session

  abbrev pub some_url : RepositoryReply String × S → RepositoryReply (Option String) × S
  some_url (answered url, t) = (answered (some url), t)
  some_url (raised message, t) = (raised message, t)

  abbrev pub upload_if : String → Option String → S → RepositoryReply (Option String) × S
  upload_if wallet none s = (answered none, s)
  upload_if wallet (some image) s = some_url (env.upload_avatar wallet image s)

  -- `if (avatarUrl) deleteAvatar(...)`, `if (createdUserId) deleteUserById(...)`
  abbrev pub undo_avatar : Option String → S → S
  undo_avatar none s = s
  undo_avatar (some url) s = env.delete_avatar url s

  abbrev pub undo_user : Option String → S → S
  undo_user none s = s
  undo_user (some id) s = env.delete_user id s

  -- The `catch` block: what was made so far is removed.
  abbrev pub roll_back :
      {A : Type 0} → Option String → Option String → AuthError → Act S AuthError A
  roll_back avatar user e s = throws e (undo_user (truthy user) (undo_avatar (truthy avatar) s))

  abbrev pub register_tokens :
      RegisterRequest → Option String → UserProfile → Act S AuthError (UserProfile × Tokens)
  register_tokens dto avatar user s = elim (generate_tokens (some dto.wallet_address) none s) [
    | returns tokens t ↦ returns (user, tokens) t
    | throws e t ↦ roll_back avatar (some user.id) e t
  ]

  abbrev pub register_profile :
      RegisterRequest → Option String → Act S AuthError (UserProfile × Tokens)
  register_profile dto avatar s =
      let (reply, t) = env.create_profile dto avatar s in
      elim reply [
        | answered user ↦ register_tokens dto avatar user t
        | raised message ↦ roll_back avatar none (repository_failed message) t
      ]

  abbrev pub register_uploaded :
      RegisterRequest → RepositoryReply (Option String) × S → Run S AuthError (UserProfile × Tokens)
  register_uploaded dto (answered avatar, t) = register_profile dto avatar t
  register_uploaded dto (raised message, t) = throws (repository_failed message) t

  unfoldable pub register : RegisterRequest → Option String → Act S AuthError (UserProfile × Tokens)
  register dto image s = register_uploaded dto (upload_if dto.wallet_address image s)
