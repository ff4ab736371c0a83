-- ===== src/Vouching.antt =====
-- src/modules/vouching/vouching.service.ts: vouches of mentors for learners.
-- The state is the table `vouches` as the list of its rows, the queries are the source's filters on
-- it. A call of the database may fail: `Calls` says which of a handler's do. The id that the
-- database gives a new row is its primary key, so an insert with an id in use fails. Times are
-- milliseconds.
pub mod Rows
pub mod Exclusive
pub mod Lifecycle
mod Tests
use step_fi_api.Common.{
  ℕ, ◌+◌, ◌*◌, String, Bool, true, false, not, ◌&&◌, List, [], ◌∷◌, map, Option, none, some, str_eq,
  if◌then◌else◌, find_first, Act, returns, throws, ◌>>=◌, ◌>>◌, done, require, read, or_throw,
}

pub data VouchStatus : Type 0 where
  pending approved revoked expired : VouchStatus

pub record VouchRow : Type 0 where
  pub id : String
  pub mentor_wallet : String
  pub learner_wallet : String
  pub message : Option String
  pub status : VouchStatus
  pub expires_at : ℕ

abbrev pub Table : Type 0
Table = List VouchRow

pub data VouchError : Type 0 where
  check_failed already_exists insert_failed find_failed not_found update_failed forbidden :
      VouchError

-- Whether the query and the write of a handler succeed.
pub record Calls : Type 0 where
  pub reads : Bool
  pub writes : Bool

-- VOUCH_TTL_DAYS, in milliseconds
abbrev pub vouch_ttl : ℕ
vouch_ttl = 90 * 24 * 60 * 60 * 1000

-- ACTIVE_STATUSES
abbrev pub is_active : VouchStatus → Bool
is_active pending = true
is_active approved = true
is_active revoked = false
is_active expired = false

abbrev pub is_pending : VouchStatus → Bool
is_pending pending = true
is_pending _ = false

abbrev pub has_id : String → VouchRow → Bool
has_id id row = str_eq row.id id

abbrev pub is_between : String → String → VouchRow → Bool
is_between mentor learner row = str_eq row.mentor_wallet mentor && str_eq row.learner_wallet learner

abbrev pub active_between : String → String → VouchRow → Bool
active_between mentor learner row = is_between mentor learner row && is_active row.status

abbrev pub pending_between : String → String → VouchRow → Bool
pending_between mentor learner row = is_between mentor learner row && is_pending row.status

-- The rows that a query selects.
unfoldable pub select : (VouchRow → Bool) → Table → List VouchRow
select p [] = []
select p (row ∷ rows) = let rest = select p rows in if p row then row ∷ rest else rest

abbrev pub is_empty : List VouchRow → Bool
is_empty [] = true
is_empty (row ∷ rows) = false

-- `maybeSingle`: more than one row is an error.
abbrev pub maybe_single : List VouchRow → Act Table VouchError (Option VouchRow)
maybe_single [] t = returns none t
maybe_single (row ∷ []) t = returns (some row) t
maybe_single (row ∷ _ ∷ _) t = throws find_failed t

abbrev pub with_status : VouchStatus → VouchRow → VouchRow
with_status status row = record {
  id = row.id;
  mentor_wallet = row.mentor_wallet;
  learner_wallet = row.learner_wallet;
  message = row.message;
  status = status;
  expires_at = row.expires_at;
}

-- `update({ status }).eq('id', id)`
unfoldable pub set_status : String → VouchStatus → Table → Table
set_status id status [] = []
set_status id status (row ∷ rows) =
    (if has_id id row then with_status status row else row) ∷ set_status id status rows

abbrev pub new_row : String → String → String → Option String → ℕ → VouchRow
new_row id mentor learner message now = record {
  id = id;
  mentor_wallet = mentor;
  learner_wallet = learner;
  message = message;
  status = pending;
  expires_at = now + vouch_ttl;
}

-- The first half of `requestVouch`: the check for an active vouch.
unfoldable pub check_existing : Calls → String → String → Act Table VouchError (Unit {0})
check_existing calls mentor learner = do
  require calls.reads check_failed
  existing ← read (select (active_between mentor learner))
  require (is_empty existing) already_exists

-- The second half: the insert.
unfoldable pub insert_vouch : Calls → VouchRow → Act Table VouchError VouchRow
insert_vouch calls row t =
    if calls.writes && is_empty (select (has_id row.id) t)
    then returns row (row ∷ t)
    else throws insert_failed t

unfoldable pub request_vouch :
    Calls → String → ℕ → String → String → Option String → Act Table VouchError VouchRow
unfolding check_existing insert_vouch
request_vouch calls id now learner mentor message = do
  check_existing calls mentor learner
  insert_vouch calls (new_row id mentor learner message now)

-- The write of a status, with the row that it gives back.
unfoldable pub write_status : Calls → String → VouchStatus → Act Table VouchError VouchRow
write_status calls id status = do
  require calls.writes update_failed
  (λ t. returns tt (set_status id status t))
  λ t. or_throw (find_first (has_id id) t) update_failed t

unfoldable pub approve_vouch : Calls → String → String → Act Table VouchError VouchRow
unfolding write_status
approve_vouch calls mentor learner = do
  require calls.reads find_failed
  rows ← read (select (pending_between mentor learner))
  found ← maybe_single rows
  row ← or_throw found not_found
  write_status calls row.id approved

unfoldable pub revoke_vouch : Calls → String → String → Act Table VouchError VouchRow
unfolding write_status
revoke_vouch calls mentor id = do
  require calls.reads find_failed
  rows ← read (select (has_id id))
  found ← maybe_single rows
  row ← or_throw found not_found
  require (str_eq row.mentor_wallet mentor) forbidden
  write_status calls id revoked

-- `getIncomingRequests`, for the scores that the cache has: a missing one counts as 0. The columns
-- `loan_amount` and `created_at`, which no handler writes, are given by the id of their row; the
-- table has its newest row first.
pub record VouchRequestItem : Type 0 where
  pub learner_wallet : String
  pub reputation_score : ℕ
  pub requested_loan_amount : Option ℕ
  pub loan_purpose : Option String
  pub requested_at : String

abbrev pub score_or_zero : Option ℕ → ℕ
score_or_zero none = 0
score_or_zero (some n) = n

unfoldable pub get_incoming_requests :
    Calls
    → (String → Option ℕ)
    → (String → Option ℕ)
    → (String → String)
    → String
    → Act Table VouchError (List VouchRequestItem)
get_incoming_requests calls cached_score loan_amount created_at mentor = do
  require calls.reads find_failed
  rows ← read (select (λ row. str_eq row.mentor_wallet mentor && is_pending row.status))
  done (
      map
        (λ row. record {
          learner_wallet = row.learner_wallet;
          reputation_score = score_or_zero (cached_score row.learner_wallet);
          requested_loan_amount = loan_amount row.id;
          loan_purpose = row.message;
          requested_at = created_at row.id;
        })
        rows)
