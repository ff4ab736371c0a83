-- ===== src/Auth/RoundTrip.antt =====
-- The challenge that `generateNonce` issues, signed as it stands, is accepted by `verifySignature`.
use step_fi_api.Common.{
  ℕ, ◌+◌, ◌<◌, ◌≡◌, ◌⊎◌, refl, sym, subst, ◌∙◌, ap, String, Bool, true, false, none, some, str_eq,
  ltb, arith, returns, require, done, ◌>>◌,
}
use step_fi_api.Checker.Types.{truthy}
use step_fi_api.Auth.Types.{
  NewNonce, SignatureType, sep0043, native, VerifyRequest, NonceResponse, claim_reply,
  nonce_insert_failed, AuthConfig, AuthEnv,
}
use step_fi_api.Auth.Challenge.{signed_bytes}
use step_fi_api.Auth.Service.{
  nonce_lifetime, nonce_response, nonce_row, generate_nonce, verify_claimed, verify_signature,
}
use step_fi_api.Auth.OwnChallenge.{
  stored_nonce, IsParsed, message_of, message_error-own, signature_error-own,
}

module _ {S : Type 0} (config : AuthConfig) (env : AuthEnv S)
    (hash_not_empty : (x : String) → str_eq (env.sha256 x) "" ≡ false) where
  verify_signature-own :
      (wallet nonce id signature : String) (issued : ℕ) (scheme : SignatureType)
      (dto : VerifyRequest) (t v : S)
      → IsParsed config env hash_not_empty wallet nonce issued
      → dto.wallet ≡ wallet
      → dto.nonce ≡ nonce
      → dto.signature_type ≡ some scheme
      → (scheme ≡ sep0043) ⊎ (scheme ≡ native)
      → truthy dto.signature ≡ some signature
      → (truthy dto.message ≡ none)
        ⊎ (truthy dto.message ≡ some (message_of config env hash_not_empty wallet nonce issued))
      → env.verify wallet
          (signed_bytes scheme (message_of config env hash_not_empty wallet nonce issued))
          signature
        ≡ some true
      → env.is_valid_key wallet ≡ true
      → env.select_nonce wallet nonce t
        ≡ some
            (stored_nonce id (nonce_row config env wallet nonce issued (issued + nonce_lifetime)))
      → env.claim_nonce id t ≡ (claim_reply (some 1) none, v)
      → env.now v < issued + nonce_lifetime
      → verify_signature config env dto t ≡ returns tt v
  unfolding verify_signature verify_claimed
  verify_signature-own wallet nonce id signature issued scheme dto t v parsed w n typed kind carried
        echoed signed key found claim fresh =
      let accepted =
        signature_error-own config env hash_not_empty wallet nonce id signature issued (env.now v)
          scheme dto typed kind carried
          (message_error-own config env hash_not_empty wallet nonce id signature issued (env.now v)
            scheme dto parsed w n fresh echoed signed) in
      let in_time : ltb (issued + nonce_lifetime) (env.now v) ≡ false = ground arith in
      let read_back : env.select_nonce dto.wallet dto.nonce t
          ≡ some (
              stored_nonce id
                (nonce_row config env wallet nonce issued (issued + nonce_lifetime))) =
        ap (λ x. env.select_nonce x dto.nonce t) w
        ∙ ap (λ x. env.select_nonce wallet x t) n
        ∙ found in
      let valid : env.is_valid_key dto.wallet ≡ true = ap env.is_valid_key w ∙ key in
      rw (read_back, claim, in_time, valid, accepted) refl

  generate_nonce-issued :
      (wallet : String) (s t : S) (r : NonceResponse)
      → generate_nonce config env wallet s ≡ returns r t
      → (nonce : String) × (issued : ℕ) × (u : S) × (env.insert_nonce
            (nonce_row config env wallet nonce issued (issued + nonce_lifetime))
            u
          ≡ (true, t))
        × (r ≡ nonce_response config env wallet nonce issued (issued + nonce_lifetime))
  unfolding generate_nonce
  generate_nonce-issued wallet s t r h =
      let (nonce, u) = env.random_nonce s in
      let row = nonce_row config env wallet nonce (env.now u) (env.now u + nonce_lifetime) in
      go nonce u (env.insert_nonce row u) refl h
    where
      go :
          (nonce : String) (u : S) (q : Bool × S)
          → env.insert_nonce
              (nonce_row config env wallet nonce (env.now u) (env.now u + nonce_lifetime))
              u
            ≡ q
          → (require q.0 nonce_insert_failed
                >> done (
                    nonce_response config env wallet nonce
                      (env.now u)
                      (env.now u + nonce_lifetime)))
              q.1
            ≡ returns r t
          → (nonce : String) × (issued : ℕ) × (u : S) × (env.insert_nonce
                (nonce_row config env wallet nonce issued (issued + nonce_lifetime))
                u
              ≡ (true, t))
            × (r ≡ nonce_response config env wallet nonce issued (issued + nonce_lifetime))
      go nonce u (true, v) e h' = (nonce, env.now u, u, e ∙ cc, cc)
      go nonce u (false, v) e h' = cc

  -- Take hashes that are not empty, and a table that reads a new nonce back as an unused row, whose
  -- claim then counts one row. Let the issued message parse back to its fields, and its expiry be
  -- read back from its text. A wallet with a valid key that signs the message of `generateNonce` in the SEP-53 or the
  -- native scheme is accepted, whether it sends the message back or not, if the nonce is not over
  -- when it is claimed.
  pub generate_nonce-verify_signature :
      (claimed : S → S)
      (reads_back : (row : NewNonce) (s t : S)
        → env.insert_nonce row s ≡ (true, t)
        → (id : String) × (env.select_nonce row.wallet_address row.nonce t
            ≡ some (stored_nonce id row))
          × (env.claim_nonce id t ≡ (claim_reply (some 1) none, claimed t)))
      (wallet signature : String) (scheme : SignatureType) (dto : VerifyRequest) (s t : S)
      (r : NonceResponse)
      → generate_nonce config env wallet s ≡ returns r t
      → ((issued : ℕ)
          → r ≡ nonce_response config env wallet r.nonce issued (issued + nonce_lifetime)
          → IsParsed config env hash_not_empty wallet r.nonce issued)
      → dto.wallet ≡ wallet
      → dto.nonce ≡ r.nonce
      → dto.signature_type ≡ some scheme
      → (scheme ≡ sep0043) ⊎ (scheme ≡ native)
      → truthy dto.signature ≡ some signature
      → (truthy dto.message ≡ none) ⊎ (truthy dto.message ≡ some r.message)
      → env.verify wallet (signed_bytes scheme r.message) signature ≡ some true
      → env.is_valid_key wallet ≡ true
      → env.now (claimed t) < r.expires_at
      → verify_signature config env dto t ≡ returns tt (claimed t)
  generate_nonce-verify_signature claimed reads_back wallet signature scheme dto s t r h parses w n
        typed kind carried echoed signed key fresh =
      let (nonce, issued, u, inserted, response) = generate_nonce-issued wallet s t r h in
      let (id, found, claim) =
        reads_back (nonce_row config env wallet nonce issued (issued + nonce_lifetime)) u t
          inserted in
      let same : r.nonce ≡ nonce = ap (λ x. x.nonce) response in
      verify_signature-own wallet nonce id signature issued scheme dto t (claimed t)
        (subst (λ x. IsParsed config env hash_not_empty wallet x issued) same
          (parses issued (
            subst (λ x. r ≡ nonce_response config env wallet x issued (issued + nonce_lifetime))
              (sym same) response)))
        w (n ∙ ap (λ x. x.nonce) response) typed kind carried
        (subst (λ x. (truthy dto.message ≡ none) ⊎ (truthy dto.message ≡ some x.message)) response
          echoed)
        (subst (λ x. env.verify wallet (signed_bytes scheme x.message) signature ≡ some true)
          response signed)
        key found claim (subst (λ x. env.now (claimed t) < x.expires_at) response fresh)
