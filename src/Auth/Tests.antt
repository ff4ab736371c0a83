-- ===== src/Auth/Tests.antt =====
-- The theorems on registration, challenges and sessions at concrete requests.
use step_fi_api.Common.{
  ℕ, Bool-cases, ◌+◌, ◌≡◌, ◌≢◌, inl, inr, refl, sym, ap, subst, String, Bool, true, false, List, [],
  ◌∷◌, Option, none, some, str_eq, eq_iff, if◌then◌else◌, find_first, returns, throws, arith,
}
use step_fi_api.Auth.Types.{
  StoredNonce, NewNonce, ChallengeEnvelope, object, SignedBytes, native, VerifyRequest,
  NonceResponse, NewSession, ClaimReply, claim_reply, Session, RefreshTokenPayload, Tokens, revoked,
  UserProfile, RegisterRequest, nonce_not_found, user_blocked, AuthConfig, AuthEnv, answered,
}
use step_fi_api.Auth.Service.{
  claimed_count, nonce_response, nonce_row, generate_nonce, verify_claimed, verify_signature,
  refresh_session, refresh_tokens, rotate, generate_tokens, find_or_create_user, register,
  refresh_token_expiration_ms,
}
use step_fi_api.Auth.Nonces.{Verified, verify_signature-Verified, verify_signature-once}
use step_fi_api.Auth.OwnChallenge.{parsed_envelope, stored_nonce}
use step_fi_api.Auth.RoundTrip.{generate_nonce-verify_signature}
use step_fi_api.Auth.Sessions.{
  SessionRow, SessionTable, of_family, has_hash, has_id, remove_where, session_of, row_of,
}
use step_fi_api.Auth.Refresh.{FamilyStep, refresh_tokens-FamilyStep}
use step_fi_api.Auth.Registration.{register-rolled_back}

-- The clock, the nonces that are not used, whether a nonce is used, the sessions, the users and the
-- pictures.
record World : Type 0 where
  time : ℕ
  nonce : Option NewNonce
  is_used : Bool
  sessions : List SessionRow
  user : Option String
  picture : Option String

abbrev start_world : World
start_world = record {
  time = 1000;
  nonce = none;
  is_used = false;
  sessions = record { id = "s0"; family = "f"; token_hash = "#old"; expires_at = 9000 } ∷ [];
  user = none;
  picture = none;
}

abbrev with_nonce : NewNonce → World → World
with_nonce row s = record s { nonce = some row; is_used = false }

abbrev claimed : World → World
claimed s = record s { is_used = true }

abbrev unused_row : Bool → Option NewNonce → String → String → Option StoredNonce
unused_row true row wallet nonce = none
unused_row false none wallet nonce = none
unused_row false (some row) wallet nonce =
    if str_eq row.wallet_address wallet
    then (if str_eq row.nonce nonce then some (stored_nonce "n1" row) else none)
    else none

abbrev claim_of : Bool → World → ClaimReply × World
claim_of true s = (claim_reply (some 0) none, s)
claim_of false s = (claim_reply (some 1) none, claimed s)

abbrev config : AuthConfig
config = record {
  challenge_domain = "stepfi.app";
  challenge_uri = "https://stepfi.app/auth/verify";
  network_passphrase = "Test SDF Network ; September 2015";
  allow_legacy_raw_signatures = false;
  legacy_signatures_sunset = 0;
}

abbrev envelope : ChallengeEnvelope
envelope = record {
  domain = config.challenge_domain;
  address = "GA";
  uri = config.challenge_uri;
  version = "1.0.0";
  nonce = "abc";
  issued_at = "iso";
  expiration_time = "iso";
  network_passphrase = config.network_passphrase;
}

-- Two tokens: "t0", whose session is the old one, and "t1".
abbrev hash_of_text : String → String
hash_of_text x = if str_eq x "t0" then "#old" else "#new"

abbrev signed_by : String → SignedBytes → String → Option Bool
signed_by wallet bytes signature = some (str_eq signature "signed")

abbrev payload : RefreshTokenPayload
payload = record { kind = some "refresh"; wallet = some "GA"; fam = some "f" }

abbrev profile : UserProfile
profile = record {
  id = "u1";
  wallet_address = "GA";
  username = "ana";
  display_name = none;
  avatar_url = some "url";
}

abbrev first_of : List SessionRow → String → Option Session
first_of rows h = session_of (find_first (has_hash h) rows)

abbrev world : Bool → AuthEnv World
world blocked = record {
  now = λ s. s.time;
  random_nonce = λ s. ("abc", s);
  random_uuid = λ s. ("f2", s);
  sha256 = hash_of_text;
  stringify = λ statement e. "message";
  parse_json = λ x. object (parsed_envelope envelope);
  to_iso = λ n. "iso";
  parse_date = λ x. some 301_000;
  is_valid_key = λ x. true;
  verify = signed_by;
  challenge_xdr = λ wallet from to hash. "AAAA";
  parse_transaction = λ x network. none;
  insert_nonce = λ row s. (true, with_nonce row s);
  select_nonce = λ wallet nonce s. unused_row s.is_used s.nonce wallet nonce;
  claim_nonce = λ id s. claim_of s.is_used s;
  upsert_user = λ wallet s. (some (record { id = "u1"; is_blocked = blocked; role = none }), s);
  has_learner_profile = λ wallet s. true;
  insert_learner_profile = λ wallet s. s;
  sign_access = λ wallet role s. "access";
  sign_refresh = λ wallet family s. "t1";
  verify_refresh = λ token s. some payload;
  insert_session = λ new s. (true, record s { sessions = row_of "s1" new ∷ s.sessions });
  select_session = λ h s. first_of s.sessions h;
  delete_session = λ id s. record s { sessions = remove_where (has_id id) s.sessions };
  revoke_family =
      λ f s. (revoked none, record s { sessions = remove_where (of_family f) s.sessions });
  log_reuse = λ wallet family count s. s;
  upload_avatar = λ wallet image s. (answered "url", record s { picture = some "url" });
  create_profile = λ dto avatar s. (answered profile, record s { user = some "u1" });
  delete_avatar = λ url s. record s { picture = none };
  delete_user = λ id s. record s { user = none };
}

abbrev issued_now : World
issued_now = with_nonce (nonce_row config (world false) "GA" "abc" 1000 301_000) start_world

abbrev response : NonceResponse
response = nonce_response config (world false) "GA" "abc" 1000 301_000

abbrev request : VerifyRequest
request = record {
  wallet = "GA";
  nonce = "abc";
  signature = some "signed";
  signature_type = some native;
  message = none;
  signed_xdr = none;
}

hash_not_empty : (x : String) → str_eq (hash_of_text x) "" ≡ false
hash_not_empty x = elim (Bool-cases (str_eq x "t0")) [ inl b ↦ rw b refl | inr b ↦ rw b refl ]

reads_back :
    (row : NewNonce) (s t : World)
    → (world false).insert_nonce row s ≡ (true, t)
    → (id : String) × ((world false).select_nonce row.wallet_address row.nonce t
        ≡ some (stored_nonce id row))
      × ((world false).claim_nonce id t ≡ (claim_reply (some 1) none, claimed t))
reads_back row s t h = (
  "n1",
  subst
      (λ w.
        (world false).select_nonce row.wallet_address row.nonce w ≡ some (stored_nonce "n1" row))
      (ap (λ q. q.1) h)
      (ground (arith, eq_iff row.nonce row.nonce, eq_iff row.wallet_address row.wallet_address)),
  subst (λ w. claim_of w.is_used w ≡ (claim_reply (some 1) none, claimed w)) (ap (λ q. q.1) h) refl,
)

nonce_generated : generate_nonce config (world false) "GA" start_world ≡ returns response issued_now
unfolding generate_nonce
nonce_generated = refl

generate_nonce-verify_signature_example :
    verify_signature config (world false) request issued_now ≡ returns tt (claimed issued_now)
generate_nonce-verify_signature_example =
    generate_nonce-verify_signature config (world false) hash_not_empty claimed reads_back "GA"
      "signed" native request start_world issued_now response nonce_generated
      (λ issued e. (refl, ap (λ r. some r.expires_at) e)) refl refl refl (inr refl) refl (inl refl)
      refl refl (ground arith)

native_accepted :
    verify_signature config (world false) request issued_now ≡ returns tt (claimed issued_now)
native_accepted = generate_nonce-verify_signature_example

verify_signature-Verified_example :
    Verified config (world false) request issued_now (claimed issued_now)
verify_signature-Verified_example =
    verify_signature-Verified config (world false) request issued_now (claimed issued_now)
      native_accepted

claim_of-used :
    (b : Bool) (s : World) (count rows : Option ℕ) (t : World)
    → claim_of b s ≡ (claim_reply count rows, t)
    → claimed_count count rows ≢ 0
    → t.is_used ≡ true
claim_of-used true s count rows t h positive =
    let reply : claim_reply (some 0) none ≡ claim_reply count rows = ap (λ q. q.0) h in
    let none_claimed : some 0 ≡ count = cc in
    absurd (positive (subst (λ c. claimed_count c rows ≡ 0) none_claimed refl))
claim_of-used false s count rows t h positive = subst (λ w. w.is_used ≡ true) (ap (λ q. q.1) h) refl

abbrev other_request : VerifyRequest
other_request = record request { signature = some "forged" }

verify_signature-once_example :
    verify_claimed config
      (world false)
      other_request
      (stored_nonce "n1" (nonce_row config (world false) "GA" "abc" 1000 301_000))
      (claimed issued_now)
    ≡ throws nonce_not_found (claimed issued_now)
verify_signature-once_example =
    verify_signature-once config (world false) (λ id s. s.is_used ≡ true) claim_uses
      (λ id s used. (some 0, none, rw used refl, refl)) request other_request
      (stored_nonce "n1" (nonce_row config (world false) "GA" "abc" 1000 301_000)) issued_now
      (claimed issued_now) refl native_accepted
  where
    claim_uses :
        (id : String) (count rows : Option ℕ) (s t : World)
        → (world false).claim_nonce id s ≡ (claim_reply count rows, t)
        → claimed_count count rows ≢ 0
        → t.is_used ≡ true
    claim_uses id count rows s t h positive = claim_of-used s.is_used s count rows t h positive

never_fails :
    (new : NewSession) (s t : World)
    → (world false).insert_session new s ≡ (false, t)
    → t.sessions ≡ s.sessions
never_fails new s t h = cc

abbrev table : SessionTable World (world false)
table = record {
  rows = λ s. s.sessions;
  new_id = λ s. "s1";
  select_law = λ h s. refl;
  insert_law = λ new s t h. ap (λ w. w.sessions) (sym (ap (λ q. q.1) h));
  insert_fails = λ new s t h. never_fails new s t h;
  delete_law = λ id s. refl;
  revoke_law = λ f s. refl;
  upsert_keeps = λ wallet s. refl;
  profile_keeps = λ wallet s. refl;
  log_keeps = λ wallet family count s. refl;
}

abbrev one_row : SessionRow
one_row = record { id = "s0"; family = "f"; token_hash = "#old"; expires_at = 9000 }

refresh_tokens-FamilyStep_example :
    FamilyStep
      (world false)
      table
      "f"
      "#old"
      start_world
      (refresh_tokens (world false) "t0" start_world)
refresh_tokens-FamilyStep_example =
    refresh_tokens-FamilyStep (world false) table "f" "t0" payload start_world refl refl refl
      (λ r e. ap (λ x. x.family) (some_row r e)) (ground arith)
  where
    some_row : (r : SessionRow) → some one_row ≡ some r → r ≡ one_row
    some_row r e = cc

abbrev tokens : Tokens
tokens = record { access_token = "access"; refresh_token = "t1" }

abbrev new_row : SessionRow
new_row = record {
  id = "s1";
  family = "f";
  token_hash = "#new";
  expires_at = 1000 + refresh_token_expiration_ms;
}

abbrev old_session : Session
old_session = record { id = "s0"; family_id = some "f"; expires_at = 9000 }

first_refresh :
    refresh_session (world false) payload (some old_session) start_world
    ≡ returns tokens (record start_world { sessions = new_row ∷ [] })
unfolding refresh_session rotate generate_tokens find_or_create_user
first_refresh = refl

second_refresh :
    refresh_session
      (world false)
      payload
      (some old_session)
      (record start_world { sessions = new_row ∷ [] })
    ≡ returns tokens (record start_world { sessions = new_row ∷ new_row ∷ [] })
unfolding refresh_session rotate generate_tokens find_or_create_user
second_refresh = refl

abbrev applicant : RegisterRequest
applicant = record { wallet_address = "GA"; username = "ana"; display_name = none }

abbrev uploaded : World
uploaded = record start_world { picture = some "url" }

blocked_registration :
    register (world true) applicant (some "image") start_world ≡ throws user_blocked start_world
unfolding register generate_tokens find_or_create_user
blocked_registration = refl

register-rolled_back_example :
    (start_world.picture ≡ none)
    × ((user : UserProfile) (v : World)
        → (world true).create_profile applicant (some "url") uploaded ≡ (answered user, v)
        → user.id ≢ ""
        → start_world.user ≡ none)
register-rolled_back_example =
    register-rolled_back (world true) (λ url s. s.picture ≡ none) (λ id s. s.user ≡ none)
      (λ url s. refl) (λ id s. refl) (λ id url s h. h) applicant "image" "url" start_world uploaded
      start_world user_blocked refl (λ e. ground (arith, eq_iff "url" "")) blocked_registration
