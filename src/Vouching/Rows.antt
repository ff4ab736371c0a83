-- ===== src/Vouching/Rows.antt =====
-- Counting the rows of `vouches` that a query selects, before and after a status is written.
use step_fi_api.Common.{
  ◌+◌, ◌≤◌, ◌≡◌, refl, subst, String, Bool, true, List, [], ◌∷◌, All, arith, count_of, eq_iff,
  Bool-cases, inl, inr, ◌&&◌,
}
use step_fi_api.Vouching.{
  VouchRow, Table, approved, revoked, VouchStatus, is_active, has_id, active_between, select,
  set_status,
}

-- No two rows share an id.
abbrev pub Distinct : Table → Type 0
Distinct [] = Unit
Distinct (row ∷ rows) = (count_of (has_id row.id) rows ≡ 0) × Distinct rows

abbrev pub IsExclusive : Table → Type 0
IsExclusive t =
    Distinct t × ((mentor learner : String) → count_of (active_between mentor learner) t ≤ 1)

pub select-count : (p : VouchRow → Bool) (t : Table) → select p t ≡ [] → count_of p t ≡ 0
unfolding select
select-count p [] h = refl
select-count p (row ∷ rows) h = ground (arith, select-count p rows)

pub count-set_status :
    (id other : String) (status : VouchStatus) (t : Table)
    → count_of (has_id other) (set_status id status t) ≡ count_of (has_id other) t
unfolding set_status
count-set_status id other status [] = refl
count-set_status id other status (row ∷ rows) =
    ground (arith, count-set_status id other status rows)

pub set_status-Distinct :
    (id : String) (status : VouchStatus) (t : Table)
    → Distinct t
    → Distinct (set_status id status t)
unfolding set_status
set_status-Distinct id status [] d = tt
set_status-Distinct id status (row ∷ rows) (fresh, d) = (
  ground (arith, count-set_status id row.id status rows, fresh),
  set_status-Distinct id status rows d,
)

-- Revoking adds no active vouch.
pub revoked-count :
    (id mentor learner : String) (t : Table)
    → count_of (active_between mentor learner) (set_status id revoked t)
      ≤ count_of (active_between mentor learner) t
unfolding set_status
revoked-count id mentor learner [] = omega arith
revoked-count id mentor learner (row ∷ rows) = ground (arith, revoked-count id mentor learner rows)

-- Neither does approving, if the rows with the id are active already.
pub approved-count :
    (id mentor learner : String) (t : Table)
    → All (λ (row : VouchRow). row.id ≡ id → is_active row.status ≡ true) t
    → count_of (active_between mentor learner) (set_status id approved t)
      ≤ count_of (active_between mentor learner) t
unfolding set_status
approved-count id mentor learner [] h = omega arith
approved-count id mentor learner (row ∷ rows) (active, h) =
    ground (arith, approved-count id mentor learner rows h, active, eq_iff row.id id)

-- No row has an id that is counted zero times.
pub absent :
    (id : String) (P : VouchRow → Type 0) (t : Table)
    → count_of (has_id id) t ≡ 0
    → All (λ (row : VouchRow). row.id ≡ id → P row) t
absent id P [] h = tt
absent id P (row ∷ rows) h =
    (λ e. absurd (ground (arith, eq_iff row.id id, h, e)), absent id P rows (ground (arith, h)))

-- The first selected row is in the table, and the rows with its id are selected.
pub selected :
    (p : VouchRow → Bool) (t : Table) (r : VouchRow) (rs : List VouchRow)
    → Distinct t
    → select p t ≡ r ∷ rs
    → (p r ≡ true)
      × (1 ≤ count_of (has_id r.id) t)
      × All (λ (row : VouchRow). row.id ≡ r.id → p row ≡ true) t
unfolding select
selected p [] r rs d h = absurd (ground arith)
selected p (row ∷ rows) r rs (fresh, d) h = elim (Bool-cases (p row)) [
  | inl chosen ↦
      let e : row ≡ r = ground arith in
      subst
        (λ (x : VouchRow).
          (p x ≡ true)
          × (1 ≤ count_of (has_id x.id) (row ∷ rows))
          × All (λ (y : VouchRow). y.id ≡ x.id → p y ≡ true) (row ∷ rows))
        e
        (chosen, ground (arith, eq_iff row.id row.id), ((λ _. chosen), absent row.id _ rows fresh))
  | inr skipped ↦
      let (holds, there, all) = selected p rows r rs d (ground arith) in
      (holds, ground (arith, there), ((λ e. absurd (ground (arith, fresh, there, e))), all))
]

pub count-select : (p : VouchRow → Bool) (t : Table) → count_of p t ≡ 0 → select p t ≡ []
unfolding select
count-select p [] h = refl
count-select p (row ∷ rows) h = ground (arith, h, count-select p rows)

-- Revoking an active vouch leaves one active vouch less.
pub revoked-frees :
    (id mentor learner : String) (t : Table)
    → 1 ≤ count_of (λ row. has_id id row && active_between mentor learner row) t
    → count_of (active_between mentor learner) (set_status id revoked t) + 1
      ≤ count_of (active_between mentor learner) t
unfolding set_status
revoked-frees id mentor learner [] h = absurd (omega (arith, h))
revoked-frees id mentor learner (row ∷ rows) h =
    ground (arith, h, revoked-count id mentor learner rows, revoked-frees id mentor learner rows)

pub select-head :
    (p q : VouchRow → Bool) (t : Table) (r : VouchRow) (rs : List VouchRow)
    → select p t ≡ r ∷ rs
    → q r ≡ true
    → 1 ≤ count_of (λ row. p row && q row) t
unfolding select
select-head p q [] r rs h holds = absurd (ground arith)
select-head p q (row ∷ rows) r rs h holds = elim (Bool-cases (p row)) [
  | inl chosen ↦
      let e : row ≡ r = ground arith in
      let here : q row ≡ true = rw e holds in ground (arith, chosen, here)
  | inr skipped ↦ ground (arith, select-head p q rows r rs (ground arith) holds)
]
