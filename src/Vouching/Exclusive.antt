-- ===== src/Vouching/Exclusive.antt =====
-- At most one active vouch between a mentor and a learner, over the handlers of
-- src/modules/vouching/vouching.service.ts.
use step_fi_api.Common.{
  ℕ, ◌≡◌, refl, String, true, List, [], ◌∷◌, Option, All, arith, Ends, Run, final, returns, throws,
  eq_iff,
}
use step_fi_api.Vouching.Rows.{
  IsExclusive, select-count, set_status-Distinct, revoked-count, approved-count, selected,
}
use step_fi_api.Vouching.{
  VouchRow, Table, Calls, VouchError, approved, revoked, VouchStatus, is_active, has_id,
  active_between, pending_between, select, set_status, request_vouch, approve_vouch, revoke_vouch,
  insert_vouch, write_status, new_row,
}

pending-is_active :
    (mentor learner : String) (id : String) (t : Table)
    → All (λ (row : VouchRow). row.id ≡ id → pending_between mentor learner row ≡ true) t
    → All (λ (row : VouchRow). row.id ≡ id → is_active row.status ≡ true) t
pending-is_active mentor learner id [] h = tt
pending-is_active mentor learner id (row ∷ rows) (now, h) =
    ((λ e. active row.status row refl (now e)), pending-is_active mentor learner id rows h)
  where
    active :
        (s : VouchStatus) (x : VouchRow)
        → x.status ≡ s
        → pending_between mentor learner x ≡ true
        → is_active x.status ≡ true
    active s x e q = ground (arith, q)

approved-IsExclusive :
    (id : String) (t : Table)
    → All (λ (row : VouchRow). row.id ≡ id → is_active row.status ≡ true) t
    → IsExclusive t
    → IsExclusive (set_status id approved t)
approved-IsExclusive id t active (d, one) = (
  set_status-Distinct id approved t d,
  λ m l. omega (arith, approved-count id m l t active, one m l),
)

inserted-IsExclusive :
    (id mentor learner : String) (message : Option String) (now : ℕ) (t : Table)
    → select (has_id id) t ≡ []
    → select (active_between mentor learner) t ≡ []
    → IsExclusive t
    → IsExclusive (new_row id mentor learner message now ∷ t)
inserted-IsExclusive id mentor learner message now t unused free (d, one) = (
  (select-count (has_id id) t unused, d),
  λ m l. ground (
    arith,
    one m l,
    eq_iff mentor m,
    eq_iff learner l,
    select-count (active_between mentor learner) t free,
  ),
)

abbrev Kept : {A : Type 0} → Run Table VouchError A → Type 0
Kept r = Ends (λ _ t. IsExclusive t) (λ _ t. IsExclusive t) r

write_status-Kept :
    (calls : Calls) (id : String) (status : VouchStatus) (t : Table)
    → IsExclusive t
    → IsExclusive (set_status id status t)
    → Kept (write_status calls id status t)
unfolding write_status
write_status-Kept calls id status t before after = ground (arith, before, after)

request_vouch-Kept :
    (calls : Calls) (id : String) (now : ℕ) (learner mentor : String) (message : Option String)
    (t : Table)
    → IsExclusive t
    → Kept (request_vouch calls id now learner mentor message t)
unfolding request_vouch insert_vouch
request_vouch-Kept calls id now learner mentor message t x =
    go (select (active_between mentor learner) t) (select (has_id id) t) refl refl
  where
    go :
        (rs qs : List VouchRow)
        → select (active_between mentor learner) t ≡ rs
        → select (has_id id) t ≡ qs
        → Kept (request_vouch calls id now learner mentor message t)
    go [] [] e f =
        ground (arith, e, f, x, inserted-IsExclusive id mentor learner message now t f e x)
    go [] (q ∷ qs) e f = ground (arith, e, f, x)
    go (r ∷ rs) qs e f = ground (arith, e, x)

approve_vouch-Kept :
    (calls : Calls) (mentor learner : String) (t : Table)
    → IsExclusive t
    → Kept (approve_vouch calls mentor learner t)
unfolding approve_vouch
approve_vouch-Kept calls mentor learner t x = go (select (pending_between mentor learner) t) refl
  where
    go :
        (rs : List VouchRow)
        → select (pending_between mentor learner) t ≡ rs
        → Kept (approve_vouch calls mentor learner t)
    go [] e = ground (arith, x)
    go (r ∷ []) e =
        let (_, _, all) = selected (pending_between mentor learner) t r [] x.0 e in
        let after = approved-IsExclusive r.id t (pending-is_active mentor learner r.id t all) x in
        ground (arith, e, x, write_status-Kept calls r.id approved t x after)
    go (r ∷ q ∷ rs) e = ground (arith, x)

revoke_vouch-Kept :
    (calls : Calls) (mentor id : String) (t : Table)
    → IsExclusive t
    → Kept (revoke_vouch calls mentor id t)
unfolding revoke_vouch
revoke_vouch-Kept calls mentor id t x = go (select (has_id id) t) refl
  where
    after : IsExclusive (set_status id revoked t)
    after = (
      set_status-Distinct id revoked t x.0,
      λ m l. omega (arith, revoked-count id m l t, x.1 m l),
    )

    go : (rs : List VouchRow) → select (has_id id) t ≡ rs → Kept (revoke_vouch calls mentor id t)
    go [] e = ground (arith, x)
    go (r ∷ []) e = ground (arith, e, x, write_status-Kept calls id revoked t x after)
    go (r ∷ q ∷ rs) e = ground (arith, x)

-- The tables that sequences of requests, approvals and revocations leave, whatever their arguments
-- and whichever of their calls fail.
pub data Reachable : Table → Type 0 where
  empty : Reachable []
  requested :
      {t : Table} (calls : Calls) (id : String) (now : ℕ) (learner mentor : String)
      (message : Option String)
      → Reachable t
      → Reachable (final (request_vouch calls id now learner mentor message t))
  approval :
      {t : Table} (calls : Calls) (mentor learner : String)
      → Reachable t
      → Reachable (final (approve_vouch calls mentor learner t))
  revocation :
      {t : Table} (calls : Calls) (mentor id : String)
      → Reachable t
      → Reachable (final (revoke_vouch calls mentor id t))

final-Kept : {A : Type 0} (r : Run Table VouchError A) → Kept r → IsExclusive (final r)
final-Kept (returns a t) x = x
final-Kept (throws e t) x = x

-- As long as the handlers run one after another, from an empty table, no two vouches share an id and
-- there is at most one active vouch between a mentor and a learner.
pub Reachable-IsExclusive : {t : Table} → Reachable t → IsExclusive t
Reachable-IsExclusive empty = (tt, λ m l. omega arith)
Reachable-IsExclusive (requested {t} calls id now learner mentor message r) =
    final-Kept _
      (request_vouch-Kept calls id now learner mentor message t (Reachable-IsExclusive r))
Reachable-IsExclusive (approval {t} calls mentor learner r) =
    final-Kept _ (approve_vouch-Kept calls mentor learner t (Reachable-IsExclusive r))
Reachable-IsExclusive (revocation {t} calls mentor id r) =
    final-Kept _ (revoke_vouch-Kept calls mentor id t (Reachable-IsExclusive r))
