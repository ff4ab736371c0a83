-- ===== src/Auth/Sessions.antt =====
-- The table of sessions behind src/modules/auth/auth.service.ts, and what its operations promise.
use step_fi_api.Common.{
  ℕ, suc, ◌≤◌, ◌≡◌, ◌≢◌, refl, sym, ◌∙◌, ap, inl, inr, Bool-cases, String, Bool, true, false, List,
  [], ◌∷◌, Option, none, some, str_eq, eq_iff, arith, if◌then◌else◌, count_of, find_first,
}
use step_fi_api.Auth.Types.{Session, NewSession, AuthEnv}

-- A row of `sessions`.
pub record SessionRow : Type 0 where
  pub id : String
  pub family : String
  pub token_hash : String
  pub expires_at : ℕ

abbrev pub of_family : String → SessionRow → Bool
of_family f r = str_eq r.family f

abbrev pub has_hash : String → SessionRow → Bool
has_hash h r = str_eq r.token_hash h

abbrev pub has_id : String → SessionRow → Bool
has_id id r = str_eq r.id id

abbrev pub remove_where : (SessionRow → Bool) → List SessionRow → List SessionRow
remove_where p [] = []
remove_where p (r ∷ rs) = let rest = remove_where p rs in if p r then rest else r ∷ rest

abbrev pub hash_in : Option SessionRow → Option String
hash_in none = none
hash_in (some r) = some r.token_hash

-- The live token of a family: the abstract view of its sessions.
abbrev pub current : String → List SessionRow → Option String
current f rows = hash_in (find_first (of_family f) rows)

abbrev pub session_of : Option SessionRow → Option Session
session_of none = none
session_of (some r) =
    some (record { id = r.id; family_id = some r.family; expires_at = r.expires_at })

abbrev pub row_of : String → NewSession → SessionRow
row_of id new = record {
  id = id;
  family = new.family_id;
  token_hash = new.refresh_token_hash;
  expires_at = new.expires_at;
}

pub remove_where-count :
    (p q : SessionRow → Bool) (rows : List SessionRow)
    → count_of q (remove_where p rows) ≤ count_of q rows
remove_where-count p q [] = omega arith
remove_where-count p q (r ∷ rs) = ground (arith, remove_where-count p q rs)

pub count-current :
    (f : String) (rows : List SessionRow) → count_of (of_family f) rows ≡ 0 → current f rows ≡ none
count-current f [] h = refl
count-current f (r ∷ rs) h = ground (arith, count-current f rs)

-- A removed row of the family is counted no more.
pub remove-found :
    (h f : String) (rows : List SessionRow) (r : SessionRow)
    → find_first (has_hash h) rows ≡ some r
    → r.family ≡ f
    → suc (count_of (of_family f) (remove_where (has_id r.id) rows)) ≤ count_of (of_family f) rows
remove-found h f [] r e g = cc
remove-found h f (x ∷ xs) r e g = elim (Bool-cases (has_hash h x)) [
  | inl b ↦
      let same : x ≡ r = ground arith in
      let own : of_family f x ≡ true = (eq_iff x.family f).1 (ap (λ y. y.family) same ∙ g) in
      let gone : has_id r.id x ≡ true = (eq_iff x.id r.id).1 (ap (λ y. y.id) same) in
      ground (arith, remove_where-count (has_id r.id) (of_family f) xs)
  | inr b ↦ let rest = remove-found h f xs r (ground arith) g in ground arith
]

pub found-count :
    (h f : String) (rows : List SessionRow) (r : SessionRow)
    → find_first (has_hash h) rows ≡ some r
    → r.family ≡ f
    → 1 ≤ count_of (of_family f) rows
found-count h f rows r e g = omega (arith, remove-found h f rows r e g)

-- In a family with one session, the session with the hash is the current one.
pub found-current :
    (h f : String) (rows : List SessionRow) (r : SessionRow)
    → find_first (has_hash h) rows ≡ some r
    → r.family ≡ f
    → count_of (of_family f) rows ≤ 1
    → current f rows ≡ some h
found-current h f [] r e g c = cc
found-current h f (x ∷ xs) r e g c = elim (Bool-cases (has_hash h x)) [
  | inl b ↦
      let same : x ≡ r = ground arith in
      let own : of_family f x ≡ true = (eq_iff x.family f).1 (ap (λ y. y.family) same ∙ g) in
      rw (own, hash_in) (ap some ((eq_iff x.token_hash h).0 b))
  | inr b ↦
      let deeper : find_first (has_hash h) xs ≡ some r = ground arith in
      let some_left = found-count h f xs r deeper g in
      let other : of_family f x ≡ false = ground arith in
      let rest = found-current h f xs r deeper g (ground arith) in rw (other, hash_in) rest
]

pub missing-current :
    (h f : String) (rows : List SessionRow)
    → find_first (has_hash h) rows ≡ none
    → current f rows ≢ some h
missing-current h f [] e c = cc
missing-current h f (x ∷ xs) e c =
    let rest = missing-current h f xs (ground arith) in
    elim (Bool-cases (of_family f x)) [
      | inl b ↦
          let shown : current f (x ∷ xs) ≡ some x.token_hash = rw (b, hash_in) refl in
          let same : x.token_hash ≡ h = cc in
          let hit : has_hash h x ≡ true = (eq_iff x.token_hash h).1 same in ground arith
      | inr b ↦
          let passed_on : current f (x ∷ xs) ≡ current f xs = rw (b, hash_in) refl in
          rest (sym passed_on ∙ c)
    ]

pub remove-family :
    (f : String) (rows : List SessionRow)
    → count_of (of_family f) (remove_where (of_family f) rows) ≡ 0
remove-family f [] = refl
remove-family f (x ∷ xs) = ground (arith, remove-family f xs)

-- The database: what its operations do to the table, and that the other calls leave it alone.
pub record SessionTable (S : Type 0) (env : AuthEnv S) : Type 0 where
  pub rows : S → List SessionRow
  pub new_id : S → String
  pub select_law :
      (h : String) (s : S) → env.select_session h s ≡ session_of (find_first (has_hash h) (rows s))
  pub insert_law :
      (new : NewSession) (s t : S)
      → env.insert_session new s ≡ (true, t)
      → rows t ≡ row_of (new_id s) new ∷ rows s
  pub insert_fails :
      (new : NewSession) (s t : S) → env.insert_session new s ≡ (false, t) → rows t ≡ rows s
  pub delete_law :
      (id : String) (s : S) → rows (env.delete_session id s) ≡ remove_where (has_id id) (rows s)
  pub revoke_law :
      (f : String) (s : S) → rows (env.revoke_family f s).1 ≡ remove_where (of_family f) (rows s)
  pub upsert_keeps : (wallet : Option String) (s : S) → rows (env.upsert_user wallet s).1 ≡ rows s
  pub profile_keeps :
      (wallet : Option String) (s : S) → rows (env.insert_learner_profile wallet s) ≡ rows s
  pub log_keeps :
      (wallet family : String) (count : ℕ) (s : S)
      → rows (env.log_reuse wallet family count s) ≡ rows s
