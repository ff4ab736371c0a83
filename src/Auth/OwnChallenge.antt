-- ===== src/Auth/OwnChallenge.antt =====
-- The checks of `verifySignature` on the challenge that `generateNonce` issues.
use step_fi_api.Common.{
  ℕ, ◌+◌, ◌<◌, ◌≡◌, ◌⊎◌, refl, sym, ◌∙◌, ap, inl, inr, String, true, false, none, some, str_eq,
  eq_iff, arith,
}
use step_fi_api.Checker.Types.{truthy}
use step_fi_api.Auth.Types.{
  StoredNonce, NewNonce, ChallengeEnvelope, ParsedEnvelope, object, SignatureType, sep0043, native,
  raw, sep0010, VerifyRequest, AuthConfig, AuthEnv,
}
use step_fi_api.Auth.Challenge.{
  signature_error, build_challenge_message, signed_bytes, strict_envelope, envelope_error,
  challenge_binding_error, resolve_challenge_message, message_error, challenge_version,
  signature_type_of, scheme_error,
}
use step_fi_api.Auth.Service.{nonce_lifetime, nonce_row}

-- The object that a serialized envelope parses to.
abbrev pub parsed_envelope : ChallengeEnvelope → ParsedEnvelope
parsed_envelope e = record {
  domain = some e.domain;
  address = some e.address;
  uri = some e.uri;
  version = some e.version;
  nonce = some e.nonce;
  issued_at = some e.issued_at;
  expiration_time = some e.expiration_time;
  network_passphrase = some e.network_passphrase;
}

-- The row of `nonces` with an id.
abbrev pub stored_nonce : String → NewNonce → StoredNonce
stored_nonce id row = record {
  id = id;
  expires_at = row.expires_at;
  issued_at = some row.issued_at;
  message_hash = some row.message_hash;
}

str_eq_self : (x : String) → str_eq x x ≡ true
str_eq_self x = ground (arith, eq_iff x x)

module _ {S : Type 0} (config : AuthConfig) (env : AuthEnv S)
    (hash_not_empty : (x : String) → str_eq (env.sha256 x) "" ≡ false) where
  abbrev pub envelope : String → String → ℕ → ChallengeEnvelope
  envelope wallet nonce issued = record {
    domain = config.challenge_domain;
    address = wallet;
    uri = config.challenge_uri;
    version = challenge_version;
    nonce = nonce;
    issued_at = env.to_iso issued;
    expiration_time = env.to_iso (issued + nonce_lifetime);
    network_passphrase = config.network_passphrase;
  }

  abbrev pub message_of : String → String → ℕ → String
  message_of wallet nonce issued =
      build_challenge_message config env wallet nonce issued (issued + nonce_lifetime)

  -- The issued message parses back, and so does the instant that it is over at.
  abbrev pub IsParsed : String → String → ℕ → Type 0
  IsParsed wallet nonce issued =
      (env.parse_json (message_of wallet nonce issued)
        ≡ object (parsed_envelope (envelope wallet nonce issued)))
      × (env.parse_date (env.to_iso (issued + nonce_lifetime)) ≡ some (issued + nonce_lifetime))

  envelope_error-own :
      (wallet nonce : String) (issued now : ℕ) (dto : VerifyRequest)
      → IsParsed wallet nonce issued
      → dto.wallet ≡ wallet
      → dto.nonce ≡ nonce
      → now < issued + nonce_lifetime
      → envelope_error config env (envelope wallet nonce issued) dto now ≡ none
  unfolding envelope_error
  envelope_error-own wallet nonce issued now dto (_, dates) w n fresh =
      let own_wallet : str_eq wallet dto.wallet ≡ true = (eq_iff wallet dto.wallet).1 (sym w) in
      let own_nonce : str_eq nonce dto.nonce ≡ true = (eq_iff nonce dto.nonce).1 (sym n) in
      rw
        (
          str_eq_self config.challenge_domain,
          str_eq_self config.challenge_uri,
          str_eq_self config.network_passphrase,
          own_wallet,
          own_nonce,
          dates,
        )
        (ground arith)

  challenge_binding_error-own :
      (wallet nonce id : String) (issued now : ℕ) (dto : VerifyRequest)
      → IsParsed wallet nonce issued
      → dto.wallet ≡ wallet
      → dto.nonce ≡ nonce
      → now < issued + nonce_lifetime
      → challenge_binding_error config env
          (message_of wallet nonce issued)
          (stored_nonce id (nonce_row config env wallet nonce issued (issued + nonce_lifetime)))
          dto
          now
        ≡ none
  unfolding challenge_binding_error build_challenge_message strict_envelope
  challenge_binding_error-own wallet nonce id issued now dto parsed w n fresh =
      let message = message_of wallet nonce issued in
      rw (hash_not_empty message, challenge_binding_error)
        (rw (str_eq_self (env.sha256 message))
          (rw parsed.0 (envelope_error-own wallet nonce issued now dto parsed w n fresh)))

  resolved_own :
      (wallet nonce id : String) (issued : ℕ) (dto : VerifyRequest)
      → IsParsed wallet nonce issued
      → dto.wallet ≡ wallet
      → dto.nonce ≡ nonce
      → (truthy dto.message ≡ none) ⊎ (truthy dto.message ≡ some (message_of wallet nonce issued))
      → resolve_challenge_message config env dto
          (stored_nonce id (nonce_row config env wallet nonce issued (issued + nonce_lifetime)))
        ≡ some (message_of wallet nonce issued)
  unfolding resolve_challenge_message
  resolved_own wallet nonce id issued dto parsed w n (inl absent) =
      rw (absent, resolve_challenge_message)
        (rw (hash_not_empty (message_of wallet nonce issued)) (rw (w, n) refl))
  resolved_own wallet nonce id issued dto parsed w n (inr echoed) =
      rw (echoed, resolve_challenge_message) refl

  -- Any request for this wallet and nonce that signs the issued message, echoed or not.
  pub message_error-own :
      (wallet nonce id signature : String) (issued now : ℕ) (scheme : SignatureType)
      (dto : VerifyRequest)
      → IsParsed wallet nonce issued
      → dto.wallet ≡ wallet
      → dto.nonce ≡ nonce
      → now < issued + nonce_lifetime
      → (truthy dto.message ≡ none) ⊎ (truthy dto.message ≡ some (message_of wallet nonce issued))
      → env.verify wallet (signed_bytes scheme (message_of wallet nonce issued)) signature
        ≡ some true
      → message_error config env scheme dto
          (stored_nonce id (nonce_row config env wallet nonce issued (issued + nonce_lifetime)))
          signature
          now
        ≡ none
  unfolding message_error
  message_error-own wallet nonce id signature issued now scheme dto parsed w n fresh echoed signed =
      let row =
        stored_nonce id (nonce_row config env wallet nonce issued (issued + nonce_lifetime)) in
      let bound = challenge_binding_error-own wallet nonce id issued now dto parsed w n fresh in
      let resolved : resolve_challenge_message config env dto row
          ≡ some (message_of wallet nonce issued) =
        resolved_own wallet nonce id issued dto parsed w n echoed in
      rw (resolved, message_error) (rw bound (rw w (rw signed refl)))

  pub scheme_error-own :
      (scheme : SignatureType) (signature : String) (dto : VerifyRequest) (stored : StoredNonce)
      (now : ℕ)
      → (scheme ≡ sep0043) ⊎ (scheme ≡ native)
      → message_error config env scheme dto stored signature now ≡ none
      → scheme_error config env scheme (some signature) dto stored now ≡ none
  scheme_error-own sep0043 signature dto stored now kind h = h
  scheme_error-own native signature dto stored now kind h = h
  scheme_error-own raw signature dto stored now (inl e) h = cc
  scheme_error-own raw signature dto stored now (inr e) h = cc
  scheme_error-own sep0010 signature dto stored now (inl e) h = cc
  scheme_error-own sep0010 signature dto stored now (inr e) h = cc

  pub signature_error-own :
      (wallet nonce id signature : String) (issued now : ℕ) (scheme : SignatureType)
      (dto : VerifyRequest)
      → dto.signature_type ≡ some scheme
      → (scheme ≡ sep0043) ⊎ (scheme ≡ native)
      → truthy dto.signature ≡ some signature
      → message_error config env scheme dto
          (stored_nonce id (nonce_row config env wallet nonce issued (issued + nonce_lifetime)))
          signature
          now
        ≡ none
      → signature_error config env dto
          (stored_nonce id (nonce_row config env wallet nonce issued (issued + nonce_lifetime)))
          now
        ≡ none
  unfolding signature_error
  signature_error-own wallet nonce id signature issued now scheme dto typed kind carried h =
      let row =
        stored_nonce id (nonce_row config env wallet nonce issued (issued + nonce_lifetime)) in
      ap (λ o. scheme_error config env (signature_type_of o) (truthy dto.signature) dto row now)
        typed
      ∙ ap (λ o. scheme_error config env scheme o dto row now) carried
      ∙ scheme_error-own scheme signature dto row now kind h
