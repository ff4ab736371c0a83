-- ===== src/Auth/Schemes.antt =====
-- Every scheme of `verifySignature` checks what `IsSigned` lists.
use step_fi_api.Common.{
  ℕ, ◌≡◌, refl, String, true, List, [], ◌∷◌, Option, none, some, eq_iff, arith,
}
use step_fi_api.Checker.Types.{truthy}
use step_fi_api.Auth.Types.{
  StoredNonce, ChallengeOperation, manage_data, other_operation, ChallengeTransaction, utf8,
  SignatureType, raw, sep0043, native, sep0010, VerifyRequest, signature_invalid, AuthConfig,
  AuthEnv,
}
use step_fi_api.Auth.Challenge.{
  challenge_data_name, signature_type_of, legacy_raw_signature_error, is_challenge_operation,
  challenge_transaction_error, sep0010_challenge_error, scheme_error, signature_error,
}
use step_fi_api.Auth.Signatures.{
  IsSigned, signed_transaction, signed_nonce, truthy-some, holds-some, message_error-IsSigned,
}

is_challenge_operation-one :
    (ops : List ChallengeOperation) (hash : String)
    → is_challenge_operation ops hash ≡ true
    → ops ≡ manage_data challenge_data_name (some hash) ∷ []
is_challenge_operation-one [] hash h = cc
is_challenge_operation-one (other_operation ∷ ops) hash h = cc
is_challenge_operation-one (manage_data name none ∷ []) hash h = ground arith
is_challenge_operation-one (manage_data name (some v) ∷ []) hash h =
    let named : name ≡ challenge_data_name = (eq_iff name challenge_data_name).0 (ground arith) in
    let same : v ≡ hash = (eq_iff v hash).0 (ground arith) in cc
is_challenge_operation-one (manage_data name v ∷ op ∷ ops) hash h = cc

module _ {S : Type 0} (config : AuthConfig) (env : AuthEnv S) where
  challenge_transaction-IsSigned :
      (parsed : Option ChallengeTransaction) (xdr hash : String) (dto : VerifyRequest)
      (stored : StoredNonce) (now : ℕ)
      → env.parse_transaction xdr config.network_passphrase ≡ parsed
      → stored.message_hash ≡ some hash
      → challenge_transaction_error config env parsed hash dto.wallet now ≡ none
      → IsSigned config env dto stored now
  challenge_transaction-IsSigned none xdr hash dto stored now p m h = cc
  challenge_transaction-IsSigned (some tx) xdr hash dto stored now p m h =
      signed_transaction xdr hash tx m p ((eq_iff tx.source dto.wallet).0 (ground arith))
        ((eq_iff tx.sequence "0").0 (ground arith))
        (is_challenge_operation-one tx.operations hash (ground arith)) (ground arith) (ground arith)

  sep0010_challenge-IsSigned :
      (dto : VerifyRequest) (stored : StoredNonce) (now : ℕ)
      → sep0010_challenge_error config env dto stored now ≡ none
      → IsSigned config env dto stored now
  unfolding sep0010_challenge_error
  sep0010_challenge-IsSigned dto stored now h =
      go (truthy dto.signed_xdr) (truthy stored.message_hash) refl h
    where
      go :
          (signed hashed : Option String)
          → truthy stored.message_hash ≡ hashed
          → elim signed [
            | none ↦ some signature_invalid
            | some xdr ↦ elim hashed [
              | none ↦ some signature_invalid
              | some hash ↦
                  challenge_transaction_error config env
                    (env.parse_transaction xdr config.network_passphrase)
                    hash
                    dto.wallet
                    now
            ]
          ]
            ≡ none
          → IsSigned config env dto stored now
      go none hashed t h' = cc
      go (some xdr) none t h' = cc
      go (some xdr) (some hash) t h' =
          challenge_transaction-IsSigned (env.parse_transaction xdr config.network_passphrase) xdr
            hash dto stored now refl (truthy-some config env stored.message_hash hash t) h'

  legacy_raw_signature-IsSigned :
      (dto : VerifyRequest) (stored : StoredNonce) (signature : String) (now : ℕ)
      → legacy_raw_signature_error config env dto.wallet dto.nonce signature now ≡ none
      → IsSigned config env dto stored now
  unfolding legacy_raw_signature_error
  legacy_raw_signature-IsSigned dto stored signature now h =
      signed_nonce signature (ground arith) (ground arith)
        (holds-some config env (env.verify dto.wallet (utf8 dto.nonce) signature) (ground arith))

  scheme_error-IsSigned :
      (scheme : SignatureType) (signature : Option String) (dto : VerifyRequest)
      (stored : StoredNonce) (now : ℕ)
      → signature_type_of dto.signature_type ≡ scheme
      → scheme_error config env scheme signature dto stored now ≡ none
      → IsSigned config env dto stored now
  scheme_error-IsSigned sep0010 signature dto stored now e h =
      sep0010_challenge-IsSigned dto stored now h
  scheme_error-IsSigned raw none dto stored now e h = cc
  scheme_error-IsSigned raw (some x) dto stored now e h =
      legacy_raw_signature-IsSigned dto stored x now h
  scheme_error-IsSigned sep0043 none dto stored now e h = cc
  scheme_error-IsSigned sep0043 (some x) dto stored now e h =
      message_error-IsSigned config env sep0043 dto stored x now e h
  scheme_error-IsSigned native none dto stored now e h = cc
  scheme_error-IsSigned native (some x) dto stored now e h =
      message_error-IsSigned config env native dto stored x now e h

  pub signature_error-IsSigned :
      (dto : VerifyRequest) (stored : StoredNonce) (now : ℕ)
      → signature_error config env dto stored now ≡ none
      → IsSigned config env dto stored now
  unfolding signature_error
  signature_error-IsSigned dto stored now h =
      scheme_error-IsSigned (signature_type_of dto.signature_type) (truthy dto.signature) dto stored
        now refl h
