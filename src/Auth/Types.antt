-- ===== src/Auth/Types.antt =====
-- The data of src/modules/auth/auth.service.ts, and the services that it calls as the fields of
-- `AuthEnv`, over an abstract state of the world.
use step_fi_api.Common.{ℕ, String, Bool, List, Option}

-- A row of `nonces`; its times are instants.
pub record StoredNonce : Type 0 where
  pub id : String
  pub expires_at : ℕ
  pub issued_at : Option ℕ
  pub message_hash : Option String

pub record NewNonce : Type 0 where
  pub wallet_address : String
  pub nonce : String
  pub expires_at : ℕ
  pub issued_at : ℕ
  pub message_hash : String

-- The challenge envelope without its statement, in the order of its keys.
pub record ChallengeEnvelope : Type 0 where
  pub domain : String
  pub address : String
  pub uri : String
  pub version : String
  pub nonce : String
  pub issued_at : String
  pub expiration_time : String
  pub network_passphrase : String

-- The fields that the service reads of a parsed object; `none` where the value is no string.
pub record ParsedEnvelope : Type 0 where
  pub domain : Option String
  pub address : Option String
  pub uri : Option String
  pub version : Option String
  pub nonce : Option String
  pub issued_at : Option String
  pub expiration_time : Option String
  pub network_passphrase : Option String

-- What `JSON.parse` gives.
pub data Json : Type 0 where
  not_json : Json
  not_object : Json
  object : ParsedEnvelope → Json

pub data ChallengeOperation : Type 0 where
  manage_data : (name : String) (value_hex : Option String) → ChallengeOperation
  other_operation : ChallengeOperation

-- A parsed transaction, its times in seconds.
pub record ChallengeTransaction : Type 0 where
  pub source : String
  pub sequence : String
  pub operations : List ChallengeOperation
  pub max_time : Option ℕ
  pub hash : String
  pub signatures : List String

-- What a signature is verified over: the UTF-8 bytes of a text, their SHA-256 digest, or the hash of
-- a transaction.
pub data SignedBytes : Type 0 where
  utf8 digest_of transaction_hash : String → SignedBytes

pub data SignatureType : Type 0 where
  raw sep0043 native sep0010 : SignatureType

pub record VerifyRequest : Type 0 where
  pub wallet : String
  pub nonce : String
  pub signature : Option String
  pub signature_type : Option SignatureType
  pub message : Option String
  pub signed_xdr : Option String

pub record NonceResponse : Type 0 where
  pub nonce : String
  pub expires_at : ℕ
  pub message : String
  pub challenge_xdr : String

-- The reply of the update that claims a nonce: its count and the number of rows, where they are
-- there.
pub data ClaimReply : Type 0 where
  claim_error : ClaimReply
  claim_reply : (count rows : Option ℕ) → ClaimReply

pub record AuthUser : Type 0 where
  pub id : String
  pub is_blocked : Bool
  pub role : Option String

pub record Session : Type 0 where
  pub id : String
  pub family_id : Option String
  pub expires_at : ℕ

pub record NewSession : Type 0 where
  pub user_id : String
  pub refresh_token_hash : String
  pub family_id : String
  pub expires_at : ℕ

pub record RefreshTokenPayload : Type 0 where
  pub kind : Option String
  pub wallet : Option String
  pub fam : Option String

pub record Tokens : Type 0 where
  pub access_token : String
  pub refresh_token : String

-- `none` for an error, and the count where the reply has one.
pub data RevokeReply : Type 0 where
  revoke_error : RevokeReply
  revoked : (count : Option ℕ) → RevokeReply

pub record UserProfile : Type 0 where
  pub id : String
  pub wallet_address : String
  pub username : String
  pub display_name : Option String
  pub avatar_url : Option String

pub record RegisterRequest : Type 0 where
  pub wallet_address : String
  pub username : String
  pub display_name : Option String

-- The exceptions, by their code.
pub data AuthError : Type 0 where
  nonce_insert_failed nonce_not_found nonce_claim_failed nonce_expired : AuthError
  signature_invalid challenge_mismatch domain_mismatch uri_mismatch : AuthError
  network_mismatch legacy_signature_disabled : AuthError
  user_upsert_failed user_blocked session_create_failed : AuthError
  refresh_token_invalid refresh_token_reused session_not_found session_expired : AuthError
  -- what the repository of users throws
  repository_failed : (message : String) → AuthError

pub data RepositoryReply (A : Type 0) : Type 0 where
  answered : A → RepositoryReply A
  raised : (message : String) → RepositoryReply A

-- What the constructor of the service has resolved.
pub record AuthConfig : Type 0 where
  pub challenge_domain : String
  pub challenge_uri : String
  pub network_passphrase : String
  pub allow_legacy_raw_signatures : Bool
  pub legacy_signatures_sunset : ℕ

pub record AuthEnv (S : Type 0) : Type 0 where
  pub now : S → ℕ
  pub random_nonce : S → String × S
  pub random_uuid : S → String × S
  -- `createHash('sha256')` of a text, in hexadecimal
  pub sha256 : String → String
  -- `JSON.stringify(envelope, null, 2)` of a statement and the rest,
  -- `JSON.parse`, `toISOString` and `Date.parse`
  pub stringify : String → ChallengeEnvelope → String
  pub parse_json : String → Json
  pub to_iso : ℕ → String
  pub parse_date : String → Option ℕ
  pub is_valid_key : String → Bool
  -- `keypair.verify` for the key of a wallet; `none` when it throws
  pub verify : String → SignedBytes → String → Option Bool
  -- the challenge transaction: wallet, time bounds in seconds, and the hash in its data entry
  pub challenge_xdr : String → ℕ → ℕ → String → String
  -- `new Transaction(xdr, networkPassphrase)`
  pub parse_transaction : String → String → Option ChallengeTransaction
  -- `true` when the insert reports no error
  pub insert_nonce : NewNonce → S → Bool × S
  -- the unused nonce of a wallet; `none` for an error and for no row
  pub select_nonce : String → String → S → Option StoredNonce
  pub claim_nonce : String → S → ClaimReply × S
  pub upsert_user : Option String → S → Option AuthUser × S
  pub has_learner_profile : Option String → S → Bool
  pub insert_learner_profile : Option String → S → S
  pub sign_access : Option String → Option String → S → String
  pub sign_refresh : Option String → String → S → String
  pub verify_refresh : String → S → Option RefreshTokenPayload
  pub insert_session : NewSession → S → Bool × S
  -- `none` for an error and for no row
  pub select_session : String → S → Option Session
  -- the reply is not read
  pub delete_session : String → S → S
  pub revoke_family : String → S → RevokeReply × S
  -- the audit entry of a replay: wallet, family and the number of revoked sessions
  pub log_reuse : String → String → ℕ → S → S
  pub upload_avatar : String → String → S → RepositoryReply String × S
  pub create_profile : RegisterRequest → Option String → S → RepositoryReply UserProfile × S
  -- these two, `catch` included
  pub delete_avatar : String → S → S
  pub delete_user : String → S → S
