-- ===== src/Access/RoleChecks.antt =====
-- Whom the roles guard of src/auth/guards/roles.guard.ts lets pass.
use mathlib.Core.Option.{some-injective}
use step_fi_api.Common.{
  ◌≡◌, ◌≢◌, ◌↔◌, ◌⊎◌, refl, subst, sym, String, true, Option, none, some, List, [], ◌∷◌, arith,
  eq_iff,
}
use step_fi_api.Access.Roles.{RequestUser, includes, current_role, role_allowed, can_activate}

-- A text occurs in a list.
abbrev pub Listed : String → List String → Type 0
Listed x [] = ⊥
Listed x (y ∷ ys) = (y ≡ x) ⊎ Listed x ys

pub includes_iff : (xs : List String) (x : String) → (includes xs x ≡ true) ↔ Listed x xs
unfolding includes
includes_iff [] x = ground arith
includes_iff (y ∷ ys) x = ground (arith, eq_iff y x, includes_iff ys x)

-- A role that one of the required ones names.
abbrev pub Holds : List String → Option String → Type 0
Holds required none = ⊥
Holds required (some role) = (role ≢ "") × Listed role required

role_allowed_iff :
    (required : List String) (o : Option String)
    → (role_allowed required o ≡ true) ↔ Holds required o
role_allowed_iff required none = ground arith
role_allowed_iff required (some role) = ground (arith, eq_iff role "", includes_iff required role)

-- A route with required roles is open exactly to a signed-in user whose current role is one of them.
pub can_activate_iff :
    (service : Option (String → Option String)) (r : String) (rs : List String)
    (user : Option RequestUser)
    → (can_activate service (r ∷ rs) user ≡ true)
      ↔ ((u : RequestUser) × (user ≡ some u) × Holds (r ∷ rs) (current_role service u))
unfolding can_activate
can_activate_iff service r rs none = (λ h. absurd (ground arith), λ h. absurd (ground (arith, h.1)))
can_activate_iff service r rs (some u) =
    let (to, from) = role_allowed_iff (r ∷ rs) (current_role service u) in
    (
      λ h. (u, refl, to h),
      λ h. from (
          subst (λ v. Holds (r ∷ rs) (current_role service v)) (sym (some-injective u h.0 h.1))
            h.2),
    )

-- With the status service the role claim of the token decides nothing: for a user with a non-empty
-- wallet the answer is the same whatever the claim.
pub can_activate_live :
    (role_of : String → Option String) (required : List String) (wallet : String)
    (claim other : Option String)
    → wallet ≢ ""
    → can_activate (some role_of) required (some (record { wallet = wallet; role = claim }))
      ≡ can_activate (some role_of) required (some (record { wallet = wallet; role = other }))
unfolding can_activate
can_activate_live role_of [] wallet claim other h = refl
can_activate_live role_of (r ∷ rs) wallet claim other h = ground (arith, eq_iff wallet "")
