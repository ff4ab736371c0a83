-- ===== src/Auth/Signatures.antt =====
-- What an accepted signature has been checked for.
use step_fi_api.Common.{
  ℕ, ◌<◌, ◌≡◌, refl, ap, String, Bool, true, false, List, [], ◌∷◌, Option, none, some, str_eq,
  eq_iff, arith, if◌then◌else◌,
}
use step_fi_api.Checker.Types.{truthy}
use step_fi_api.Auth.Types.{
  StoredNonce, ChallengeEnvelope, manage_data, ChallengeTransaction, utf8, SignatureType,
  VerifyRequest, AuthError, signature_invalid, challenge_mismatch, AuthConfig, AuthEnv,
}
use step_fi_api.Auth.Challenge.{
  unless, first_error, holds, challenge_version, challenge_data_name, signature_type_of,
  envelope_in, is_after, resolve_challenge_message, envelope_error, parsed_error,
  challenge_binding_error, is_any_signed, later, signed_bytes, message_error,
}

unless-none : (b : Bool) (e : AuthError) → unless b e ≡ none → b ≡ true
unless-none true e h = refl
unless-none false e h = cc

first_error-none :
    (c : Option AuthError) (rest : List (Option AuthError))
    → first_error (c ∷ rest) ≡ none
    → (c ≡ none) × (first_error rest ≡ none)
first_error-none none rest h = (refl, h)
first_error-none (some e) rest h = cc

module _ {S : Type 0} (config : AuthConfig) (env : AuthEnv S) where
  -- The envelope of this environment, for this wallet and nonce, that is not over yet.
  abbrev pub IsBound : ChallengeEnvelope → VerifyRequest → ℕ → Type 0
  IsBound e dto now =
      (e.domain ≡ config.challenge_domain)
      × (e.uri ≡ config.challenge_uri)
      × (e.network_passphrase ≡ config.network_passphrase)
      × (e.address ≡ dto.wallet)
      × (e.nonce ≡ dto.nonce)
      × (e.version ≡ challenge_version)
      × (is_after (env.parse_date e.expiration_time) now ≡ true)

  -- What the wallet has signed.
  pub data IsSigned (dto : VerifyRequest) (stored : StoredNonce) (now : ℕ) : Type 0 where
    signed_message :
        (scheme : SignatureType) (message signature hash : String) (e : ChallengeEnvelope)
        → signature_type_of dto.signature_type ≡ scheme
        → stored.message_hash ≡ some hash
        → env.sha256 message ≡ hash
        → envelope_in (env.parse_json message) ≡ some e
        → IsBound e dto now
        → env.verify dto.wallet (signed_bytes scheme message) signature ≡ some true
        → IsSigned dto stored now
    signed_transaction :
        (xdr hash : String) (tx : ChallengeTransaction)
        → stored.message_hash ≡ some hash
        → env.parse_transaction xdr config.network_passphrase ≡ some tx
        → tx.source ≡ dto.wallet
        → tx.sequence ≡ "0"
        → tx.operations ≡ manage_data challenge_data_name (some hash) ∷ []
        → later tx.max_time now ≡ true
        → is_any_signed config env dto.wallet tx.hash tx.signatures ≡ true
        → IsSigned dto stored now
    signed_nonce :
        (signature : String)
        → config.allow_legacy_raw_signatures ≡ true
        → now < config.legacy_signatures_sunset
        → env.verify dto.wallet (utf8 dto.nonce) signature ≡ some true
        → IsSigned dto stored now

  envelope_error-IsBound :
      (e : ChallengeEnvelope) (dto : VerifyRequest) (now : ℕ)
      → envelope_error config env e dto now ≡ none
      → IsBound e dto now
  unfolding envelope_error
  envelope_error-IsBound e dto now h = (
    (eq_iff e.domain config.challenge_domain).0 (ground arith),
    (eq_iff e.uri config.challenge_uri).0 (ground arith),
    (eq_iff e.network_passphrase config.network_passphrase).0 (ground arith),
    (eq_iff e.address dto.wallet).0 (ground arith),
    (eq_iff e.nonce dto.nonce).0 (ground arith),
    (eq_iff e.version challenge_version).0 (ground arith),
    ground arith,
  )

  pub truthy-some : (o : Option String) (x : String) → truthy o ≡ some x → o ≡ some x
  truthy-some none x h = cc
  truthy-some (some y) x h = ground arith

  pub holds-some : (o : Option Bool) → holds o ≡ true → o ≡ some true
  holds-some none h = cc
  holds-some (some b) h = ap some h

  challenge_binding_error-none :
      (message : String) (stored : StoredNonce) (dto : VerifyRequest) (now : ℕ)
      → challenge_binding_error config env message stored dto now ≡ none
      → (hash : String) × (e : ChallengeEnvelope) × (stored.message_hash ≡ some hash)
        × (env.sha256 message ≡ hash)
        × (envelope_in (env.parse_json message) ≡ some e)
        × IsBound e dto now
  unfolding challenge_binding_error
  challenge_binding_error-none message stored dto now h =
      go (truthy stored.message_hash) refl (envelope_in (env.parse_json message)) refl h
    where
      go :
          (found : Option String)
          → truthy stored.message_hash ≡ found
          → (parsed : Option ChallengeEnvelope) → envelope_in (env.parse_json message) ≡ parsed
          → elim found [
            | none ↦ some signature_invalid
            | some hash ↦
                if str_eq (env.sha256 message) hash
                then parsed_error config env parsed dto now
                else some challenge_mismatch
          ]
            ≡ none
          → (hash : String) × (e : ChallengeEnvelope) × (stored.message_hash ≡ some hash)
            × (env.sha256 message ≡ hash)
            × (envelope_in (env.parse_json message) ≡ some e)
            × IsBound e dto now
      go none t parsed p h' = cc
      go (some hash) t none p h' = ground arith
      go (some hash) t (some e) p h' =
          let same : str_eq (env.sha256 message) hash ≡ true = ground arith in
          (
            hash,
            e,
            truthy-some stored.message_hash hash t,
            (eq_iff (env.sha256 message) hash).0 same,
            p,
            envelope_error-IsBound e dto now (ground arith),
          )

  pub message_error-IsSigned :
      (scheme : SignatureType) (dto : VerifyRequest) (stored : StoredNonce) (signature : String)
      (now : ℕ)
      → signature_type_of dto.signature_type ≡ scheme
      → message_error config env scheme dto stored signature now ≡ none
      → IsSigned dto stored now
  unfolding message_error
  message_error-IsSigned scheme dto stored signature now chosen h =
      go (resolve_challenge_message config env dto stored) h
    where
      go :
          (resolved : Option String)
          → elim resolved [
            | none ↦ some signature_invalid
            | some message ↦ first_error (
                challenge_binding_error config env message stored dto now
                ∷ unless
                    (holds (env.verify dto.wallet (signed_bytes scheme message) signature))
                    signature_invalid
                ∷ [])
          ]
            ≡ none
          → IsSigned dto stored now
      go none h' = cc
      go (some message) h' =
          let (bound, h1) = first_error-none _ _ h' in
          let (signed, h2) = first_error-none _ _ h1 in
          let (hash, e, stored_hash, digest, parsed, fields) =
            challenge_binding_error-none message stored dto now bound in
          signed_message scheme message signature hash e chosen stored_hash digest parsed fields
            (holds-some _ (unless-none _ _ signed))
