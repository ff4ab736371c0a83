-- ===== src/Auth/Nonces.antt =====
-- The life of a nonce: issued with a challenge, claimed once, and checked against its challenge.
use step_fi_api.Common.{
  ℕ, ◌≤◌, ◌==◌, ◌≡◌, ◌≢◌, refl, subst, ◌∙◌, ap, inl, inr, Bool-cases, String, true, Option, none,
  some, ltb, not, arith, Run, Act, returns, throws, require, or_throw, read, ◌>>=◌, ◌>>◌,
}
use step_fi_api.Auth.Types.{
  StoredNonce, VerifyRequest, ClaimReply, claim_error, claim_reply, AuthError, nonce_not_found,
  nonce_expired, signature_invalid, AuthConfig, AuthEnv,
}
use step_fi_api.Auth.Challenge.{signature_error}
use step_fi_api.Auth.Service.{
  claimed_count, throw_if, check_claim, verify_claimed, verify_signature,
}
use step_fi_api.Auth.Signatures.{IsSigned}
use step_fi_api.Auth.Schemes.{signature_error-IsSigned}

module _ {S : Type 0} (config : AuthConfig) (env : AuthEnv S) where
  -- An accepted request: its nonce was unused and has just been claimed, is not over, and the wallet
  -- signed what `IsSigned` lists.
  pub data Verified (dto : VerifyRequest) (s t : S) : Type 0 where
    verified :
        (stored : StoredNonce) (count rows : Option ℕ)
        → env.select_nonce dto.wallet dto.nonce s ≡ some stored
        → env.claim_nonce stored.id s ≡ (claim_reply count rows, t)
        → claimed_count count rows ≢ 0
        → env.now t ≤ stored.expires_at
        → env.is_valid_key dto.wallet ≡ true
        → IsSigned config env dto stored (env.now t)
        → Verified dto s t

  -- The checks after the claim.
  abbrev checks : VerifyRequest → StoredNonce → Act S AuthError (Unit {0})
  checks dto stored = do
    now ← read env.now
    require (not (ltb stored.expires_at now)) nonce_expired
    require (env.is_valid_key dto.wallet) signature_invalid
    throw_if config env (signature_error config env dto stored now)

  checks-returns :
      (dto : VerifyRequest) (stored : StoredNonce) (u t : S)
      → checks dto stored u ≡ returns tt t
      → (u ≡ t)
        × (env.now u ≤ stored.expires_at)
        × (env.is_valid_key dto.wallet ≡ true)
        × IsSigned config env dto stored (env.now u)
  checks-returns dto stored u t h = (
    ground arith,
    ground arith,
    ground arith,
    signature_error-IsSigned config env dto stored (env.now u) (ground arith),
  )

  check_claim-returns :
      (count rows : Option ℕ) (k : Act S AuthError (Unit {0})) (u t : S)
      → (check_claim config env (claim_reply count rows) >> k) u ≡ returns tt t
      → (claimed_count count rows ≢ 0) × (k u ≡ returns tt t)
  check_claim-returns count rows k u t h = elim (Bool-cases (claimed_count count rows == 0)) [
    | inl zero_rows ↦
        let refused : check_claim config env (claim_reply count rows) u ≡ throws nonce_not_found u =
          rw zero_rows refl in
        cc
    | inr some_rows ↦
        let taken : check_claim config env (claim_reply count rows) u ≡ returns tt u =
          rw some_rows refl in
        (
          ground arith,
          subst
              (λ r.
                elim r as (λ _. Run S AuthError (Unit {0})) [
                  | returns a v ↦ k v
                  | throws e v ↦ throws e v
                ]
                ≡ returns tt t)
              taken h,
        )
  ]

  verify_claimed-Verified :
      (dto : VerifyRequest) (stored : StoredNonce) (s t : S)
      → env.select_nonce dto.wallet dto.nonce s ≡ some stored
      → verify_claimed config env dto stored s ≡ returns tt t
      → Verified dto s t
  unfolding verify_claimed
  verify_claimed-Verified dto stored s t row h = go (env.claim_nonce stored.id s) refl h
    where
      go :
          (q : ClaimReply × S)
          → env.claim_nonce stored.id s ≡ q
          → (check_claim config env q.0 >> checks dto stored) q.1 ≡ returns tt t
          → Verified dto s t
      go (claim_error, u) e h' = cc
      go (claim_reply count rows, u) e h' =
          let (positive, rest) = check_claim-returns count rows (checks dto stored) u t h' in
          let (at, fresh, key, signed) = checks-returns dto stored u t rest in
          verified stored count rows row (e ∙ ap (λ v. (claim_reply count rows, v)) at) positive
            (subst (λ v. env.now v ≤ stored.expires_at) at fresh) key
            (subst (λ v. IsSigned config env dto stored (env.now v)) at signed)

  -- A request is accepted only with an unused nonce of its wallet that this very request has
  -- claimed, before its expiry, and with a signature by the wallet's valid key over the challenge
  -- whose hash is stored with the nonce: over a message with this hash that names this domain, URI,
  -- network, wallet and nonce and is not over, or over a transaction of the wallet with sequence 0
  -- whose one operation carries the hash; or over the bare nonce while the legacy scheme is enabled
  -- and its sunset is ahead.
  pub verify_signature-Verified :
      (dto : VerifyRequest) (s t : S)
      → verify_signature config env dto s ≡ returns tt t
      → Verified dto s t
  unfolding verify_signature verify_claimed
  verify_signature-Verified dto s t h = go (env.select_nonce dto.wallet dto.nonce s) refl h
    where
      go :
          (row : Option StoredNonce)
          → env.select_nonce dto.wallet dto.nonce s ≡ row
          → (do stored ← or_throw row nonce_not_found; verify_claimed config env dto stored) s
            ≡ returns tt t
          → Verified dto s t
      go none e h' = cc
      go (some stored) e h' = verify_claimed-Verified dto stored s t e h'

  -- A database that gives the claim on a nonce at most once: a claim with a count uses its row up,
  -- and from then on further claims on it have the count 0.
  module _ (IsUsed : String → S → Type 0)
      (claim_uses : (id : String) (count rows : Option ℕ) (s t : S)
        → env.claim_nonce id s ≡ (claim_reply count rows, t)
        → claimed_count count rows ≢ 0
        → IsUsed id t)
      (used_refuses : (id : String) (s : S)
        → IsUsed id s
        → (count rows : Option ℕ) × (env.claim_nonce id s ≡ (claim_reply count rows, s))
          × (claimed_count count rows ≡ 0)) where
    used_refused :
        (dto : VerifyRequest) (stored : StoredNonce) (s : S)
        → IsUsed stored.id s
        → verify_claimed config env dto stored s ≡ throws nonce_not_found s
    unfolding verify_claimed
    used_refused dto stored s used =
        let (count, rows, reply, zero_rows) = used_refuses stored.id s used in ground arith

    -- Take such a database, and a request that was accepted. Any request that has read the same row,
    -- even before the first one claimed it, is refused as soon as it goes on, whatever it signs, and
    -- it changes nothing.
    pub verify_signature-once :
        (dto other : VerifyRequest) (stored : StoredNonce) (s t : S)
        → env.select_nonce dto.wallet dto.nonce s ≡ some stored
        → verify_signature config env dto s ≡ returns tt t
        → verify_claimed config env other stored t ≡ throws nonce_not_found t
    verify_signature-once dto other stored s t row h = go (verify_signature-Verified dto s t h)
      where
        go : Verified dto s t → verify_claimed config env other stored t ≡ throws nonce_not_found t
        go (verified row_read count rows read claim positive _ _ _) =
            let same : row_read ≡ stored = cc in
            used_refused other stored t (
              subst (λ r. IsUsed r.id t) same
                (claim_uses row_read.id count rows s t claim positive))
