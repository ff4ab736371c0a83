-- ===== src/Auth/Challenge.antt =====
-- The signature checks of `verifySignature` in src/modules/auth/auth.service.ts: one scheme per
-- request, each bound to the stored hash of the challenge, but for the legacy one.
use step_fi_api.Common.{
  ℕ, ◌*◌, String, Bool, true, false, List, [], ◌∷◌, Option, none, some, str_eq, ltb, ◌||◌, ◌&&◌,
  if◌then◌else◌,
}
use step_fi_api.Checker.Types.{truthy}
use step_fi_api.Auth.Types.{
  StoredNonce, ChallengeEnvelope, ParsedEnvelope, Json, not_json, not_object, object,
  ChallengeOperation, manage_data, ChallengeTransaction, SignedBytes, utf8, digest_of,
  transaction_hash, SignatureType, raw, sep0043, native, sep0010, VerifyRequest, AuthError,
  signature_invalid, challenge_mismatch, domain_mismatch, uri_mismatch, network_mismatch,
  legacy_signature_disabled, nonce_expired, AuthConfig, AuthEnv,
}
use Prim.Native.String.{◌++◌}

-- `if (!ok) throw e`, as the error that is thrown
abbrev pub unless : Bool → AuthError → Option AuthError
unless true e = none
unless false e = some e

-- Checks one after another: the first error.
abbrev pub first_error : List (Option AuthError) → Option AuthError
first_error [] = none
first_error (none ∷ rest) = first_error rest
first_error (some e ∷ rest) = some e

abbrev pub is_text : Option String → String → Bool
is_text none y = false
is_text (some x) y = str_eq x y

-- A verification, false where it throws.
abbrev pub holds : Option Bool → Bool
holds none = false
holds (some b) = b

abbrev pub sep_53_prefix : String
sep_53_prefix = "Stellar Signed Message:\n"

abbrev pub challenge_version : String
challenge_version = "1.0.0"

abbrev pub challenge_data_name : String
challenge_data_name = "stepfi_auth_challenge"

abbrev pub challenge_statement : String
challenge_statement =
    "StepFi requests that you sign this message to authenticate your wallet. "
    ++ "This message does not trigger any blockchain transaction."

abbrev pub signature_type_of : Option SignatureType → SignatureType
signature_type_of none = raw
signature_type_of (some t) = t

infixl 5 ◌>>=◌
abbrev pub ◌>>=◌ : {A B : Type 0} → Option A → (A → Option B) → Option B
none >>= f = none
some a >>= f = f a

-- `typeof x === 'string'` for each field, and the object
unfoldable pub strict_envelope : ParsedEnvelope → Option ChallengeEnvelope
strict_envelope p = do
  domain ← p.domain
  address ← p.address
  uri ← p.uri
  version ← p.version
  nonce ← p.nonce
  issued ← p.issued_at
  expiration ← p.expiration_time
  network ← p.network_passphrase
  some (record {
    domain = domain;
    address = address;
    uri = uri;
    version = version;
    nonce = nonce;
    issued_at = issued;
    expiration_time = expiration;
    network_passphrase = network;
  })

abbrev pub envelope_in : Json → Option ChallengeEnvelope
envelope_in not_json = none
envelope_in not_object = none
envelope_in (object p) = strict_envelope p

-- `Number.isNaN(time) || time <= now`, negated
abbrev pub is_after : Option ℕ → ℕ → Bool
is_after none now = false
is_after (some time) now = ltb now time

-- `operations.length === 1`, its type and name, and its value
abbrev pub is_challenge_operation : List ChallengeOperation → String → Bool
is_challenge_operation (manage_data name value ∷ []) hash =
    str_eq name challenge_data_name && is_text value hash
is_challenge_operation ops hash = false

abbrev pub later : Option ℕ → ℕ → Bool
later none now = false
later (some seconds) now = ltb now (seconds * 1000)

abbrev pub signed_bytes : SignatureType → String → SignedBytes
signed_bytes sep0043 message = digest_of (sep_53_prefix ++ message)
signed_bytes raw message = utf8 message
signed_bytes native message = utf8 message
signed_bytes sep0010 message = utf8 message

module _ {S : Type 0} (config : AuthConfig) (env : AuthEnv S) where
  unfoldable pub build_challenge_message : String → String → ℕ → ℕ → String
  build_challenge_message wallet nonce issued expires = env.stringify challenge_statement (record {
    domain = config.challenge_domain;
    address = wallet;
    uri = config.challenge_uri;
    version = challenge_version;
    nonce = nonce;
    issued_at = env.to_iso issued;
    expiration_time = env.to_iso expires;
    network_passphrase = config.network_passphrase;
  })

  -- The message that the signature is verified over; `none` where the source throws.
  unfoldable pub resolve_challenge_message : VerifyRequest → StoredNonce → Option String
  unfolding build_challenge_message
  resolve_challenge_message dto stored = elim (truthy dto.message) [
    | some message ↦ some message
    | none ↦ elim stored.issued_at [
      | none ↦ none
      | some issued ↦ elim (truthy stored.message_hash) [
        | none ↦ none
        | some hash ↦ some (build_challenge_message dto.wallet dto.nonce issued stored.expires_at)
      ]
    ]
  ]

  -- The checks on the parsed envelope, in their order.
  unfoldable pub envelope_error : ChallengeEnvelope → VerifyRequest → ℕ → Option AuthError
  envelope_error e dto now = first_error (
      unless (str_eq e.domain config.challenge_domain) domain_mismatch
      ∷ unless (str_eq e.uri config.challenge_uri) uri_mismatch
      ∷ unless (str_eq e.network_passphrase config.network_passphrase) network_mismatch
      ∷ unless
          (str_eq e.address dto.wallet
            && str_eq e.nonce dto.nonce
            && str_eq e.version challenge_version)
          challenge_mismatch
      ∷ unless (is_after (env.parse_date e.expiration_time) now) nonce_expired
      ∷ [])

  abbrev pub parsed_error : Option ChallengeEnvelope → VerifyRequest → ℕ → Option AuthError
  parsed_error none dto now = some signature_invalid
  parsed_error (some e) dto now = envelope_error e dto now

  -- What `assertChallengeBinding` throws.
  unfoldable pub challenge_binding_error :
      String → StoredNonce → VerifyRequest → ℕ → Option AuthError
  challenge_binding_error message stored dto now = elim (truthy stored.message_hash) [
    | none ↦ some signature_invalid
    | some hash ↦
        if str_eq (env.sha256 message) hash
        then parsed_error (envelope_in (env.parse_json message)) dto now
        else some challenge_mismatch
  ]

  unfoldable pub legacy_raw_signature_error : String → String → String → ℕ → Option AuthError
  legacy_raw_signature_error wallet nonce signature now = first_error (
      unless config.allow_legacy_raw_signatures legacy_signature_disabled
      ∷ unless (ltb now config.legacy_signatures_sunset) legacy_signature_disabled
      ∷ unless (holds (env.verify wallet (utf8 nonce) signature)) signature_invalid
      ∷ [])

  abbrev pub is_any_signed : String → String → List String → Bool
  is_any_signed wallet hash [] = false
  is_any_signed wallet hash (x ∷ xs) =
      holds (env.verify wallet (transaction_hash hash) x) || is_any_signed wallet hash xs

  abbrev pub challenge_transaction_error :
      Option ChallengeTransaction → String → String → ℕ → Option AuthError
  challenge_transaction_error none hash wallet now = some signature_invalid
  challenge_transaction_error (some tx) hash wallet now = first_error (
      unless (str_eq tx.source wallet && str_eq tx.sequence "0") challenge_mismatch
      ∷ unless (is_challenge_operation tx.operations hash) challenge_mismatch
      ∷ unless (later tx.max_time now) nonce_expired
      ∷ unless (is_any_signed wallet tx.hash tx.signatures) signature_invalid
      ∷ [])

  -- What `verifySep0010Challenge` throws.
  unfoldable pub sep0010_challenge_error : VerifyRequest → StoredNonce → ℕ → Option AuthError
  sep0010_challenge_error dto stored now = elim (truthy dto.signed_xdr) [
    | none ↦ some signature_invalid
    | some xdr ↦ elim (truthy stored.message_hash) [
      | none ↦ some signature_invalid
      | some hash ↦
          challenge_transaction_error (env.parse_transaction xdr config.network_passphrase) hash
            dto.wallet now
    ]
  ]

  -- The two schemes over the challenge message.
  unfoldable pub message_error :
      SignatureType → VerifyRequest → StoredNonce → String → ℕ → Option AuthError
  unfolding resolve_challenge_message
  message_error scheme dto stored signature now = elim (resolve_challenge_message dto stored) [
    | none ↦ some signature_invalid
    | some message ↦ first_error (
        challenge_binding_error message stored dto now
        ∷ unless (holds (env.verify dto.wallet (signed_bytes scheme message) signature))
            signature_invalid
        ∷ [])
  ]

  abbrev pub scheme_error :
      SignatureType → Option String → VerifyRequest → StoredNonce → ℕ → Option AuthError
  scheme_error sep0010 signature dto stored now = sep0010_challenge_error dto stored now
  scheme_error raw none dto stored now = some signature_invalid
  scheme_error raw (some x) dto stored now = legacy_raw_signature_error dto.wallet dto.nonce x now
  scheme_error sep0043 none dto stored now = some signature_invalid
  scheme_error sep0043 (some x) dto stored now = message_error sep0043 dto stored x now
  scheme_error native none dto stored now = some signature_invalid
  scheme_error native (some x) dto stored now = message_error native dto stored x now

  -- The `try` block of `verifySignature`; `none` where the signature is accepted.
  unfoldable pub signature_error : VerifyRequest → StoredNonce → ℕ → Option AuthError
  signature_error dto stored now =
      scheme_error (signature_type_of dto.signature_type) (truthy dto.signature) dto stored now
