-- ===== src/Vouching/Lifecycle.antt =====
-- What the handlers of src/modules/vouching/vouching.service.ts do to a vouch.
use step_fi_api.Common.{
  ℕ, ◌≡◌, ◌≢◌, ◌↔◌, refl, String, true, List, [], ◌∷◌, Option, arith, count_of, returns, throws,
  eq_iff,
}
use step_fi_api.Vouching.{
  VouchRow, Table, Calls, find_failed, approved, revoked, is_active, has_id, active_between,
  pending_between, select, set_status, request_vouch, approve_vouch, revoke_vouch, check_existing,
  insert_vouch, write_status, new_row,
}
use step_fi_api.Vouching.Rows.{IsExclusive, count-select, select-head, revoked-frees}

abbrev pub working : Calls
working = record { reads = true; writes = true }

-- A request is stored exactly when both calls succeed, there is no active vouch between the two and
-- the new id is unused; the row is then new, pending and expires 90 days later.
pub request_vouch_iff :
    (calls : Calls) (id : String) (now : ℕ) (learner mentor : String) (message : Option String)
    (t u : Table) (row : VouchRow)
    → (request_vouch calls id now learner mentor message t ≡ returns row u) ↔ (
        (calls.reads ≡ true)
        × (calls.writes ≡ true)
        × (select (active_between mentor learner) t ≡ [])
        × (select (has_id id) t ≡ [])
        × (row ≡ new_row id mentor learner message now)
        × (u ≡ row ∷ t))
unfolding request_vouch insert_vouch
request_vouch_iff calls id now learner mentor message t u row =
    (λ h. ground arith, λ h. ground arith)

-- An approval that answers has found exactly one pending vouch between the two, and has set the
-- status of the rows with its id to approved, whenever the vouch expires.
pub approve_vouch-pending :
    (calls : Calls) (mentor learner : String) (t u : Table) (row : VouchRow)
    → approve_vouch calls mentor learner t ≡ returns row u
    → (old : VouchRow) × (select (pending_between mentor learner) t ≡ old ∷ [])
      × (u ≡ set_status old.id approved t)
unfolding approve_vouch write_status
approve_vouch-pending calls mentor learner t u row h =
    go (select (pending_between mentor learner) t) refl
  where
    go :
        (rs : List VouchRow)
        → select (pending_between mentor learner) t ≡ rs
        → (old : VouchRow) × (select (pending_between mentor learner) t ≡ old ∷ [])
          × (u ≡ set_status old.id approved t)
    go [] e = absurd (ground arith)
    go (r ∷ []) e = (r, e, ground arith)
    go (r ∷ q ∷ rs) e = absurd (ground arith)

-- Only the mentor of a vouch revokes it: a revocation that answers has found one row with the id, of
-- the caller, and has changed nothing but the status of the rows with this id.
pub revoke_vouch-owned :
    (calls : Calls) (mentor id : String) (t u : Table) (row : VouchRow)
    → revoke_vouch calls mentor id t ≡ returns row u
    → (old : VouchRow) × (select (has_id id) t ≡ old ∷ [])
      × (old.mentor_wallet ≡ mentor)
      × (u ≡ set_status id revoked t)
unfolding revoke_vouch write_status
revoke_vouch-owned calls mentor id t u row h = go (select (has_id id) t) refl
  where
    go :
        (rs : List VouchRow)
        → select (has_id id) t ≡ rs
        → (old : VouchRow) × (select (has_id id) t ≡ old ∷ [])
          × (old.mentor_wallet ≡ mentor)
          × (u ≡ set_status id revoked t)
    go [] e = absurd (ground arith)
    go (r ∷ []) e = (r, e, ground (arith, eq_iff r.mentor_wallet mentor), ground arith)
    go (r ∷ q ∷ rs) e = absurd (ground arith)

-- Take two requests of one learner to one mentor, with different unused ids, that both pass the
-- check before either inserts: both are stored, and then the mentor's approval fails.
pub request_vouch_race :
    (id other : String) (now : ℕ) (learner mentor : String) (message : Option String) (t : Table)
    → check_existing working mentor learner t ≡ returns tt t
    → select (has_id id) t ≡ []
    → select (has_id other) t ≡ []
    → id ≢ other
    → (u v : Table) × (insert_vouch working (new_row id mentor learner message now) t
        ≡ returns (new_row id mentor learner message now) u)
      × (insert_vouch working (new_row other mentor learner message now) u
          ≡ returns (new_row other mentor learner message now) v)
      × (approve_vouch working mentor learner v ≡ throws find_failed v)
unfolding insert_vouch approve_vouch select
request_vouch_race id other now learner mentor message t free unused fresh ne =
    let r = new_row id mentor learner message now in
    let q = new_row other mentor learner message now in
    let m = eq_iff mentor mentor in
    let l = eq_iff learner learner in
    (r ∷ t, q ∷ r ∷ t, ground arith, ground (arith, eq_iff id other), ground (arith, m, l))

-- In a table with at most one active vouch per pair, revoking the active vouch of a pair makes room:
-- the next request of the pair with an unused id is stored.
pub request_vouch-revoke_vouch :
    (t u : Table) (row old : VouchRow) (id : String) (now : ℕ) (message : Option String)
    → IsExclusive t
    → revoke_vouch working old.mentor_wallet old.id t ≡ returns row u
    → select (has_id old.id) t ≡ old ∷ []
    → is_active old.status ≡ true
    → select (has_id id) u ≡ []
    → let new = new_row id old.mentor_wallet old.learner_wallet message now in
      request_vouch working id now old.learner_wallet old.mentor_wallet message u
      ≡ returns new (new ∷ u)
request_vouch-revoke_vouch t u row old id now message x h found active unused =
    let m = old.mentor_wallet in
    let l = old.learner_wallet in
    let (_, _, _, written) = revoke_vouch-owned working m old.id t u row h in
    let chosen : active_between m l old ≡ true = ground (arith, eq_iff m m, eq_iff l l, active) in
    let there = select-head (has_id old.id) (active_between m l) t old [] found chosen in
    let fewer = revoked-frees old.id m l t there in
    let none_left : count_of (active_between m l) (set_status old.id revoked t) ≡ 0 =
      omega (arith, fewer, x.1 m l) in
    (request_vouch_iff working id now l m message u _ _).1
      (refl, refl, rw written (count-select (active_between m l) _ none_left), unused, refl, refl)
