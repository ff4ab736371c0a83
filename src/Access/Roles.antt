-- ===== src/Access/Roles.antt =====
-- src/auth/guards/roles.guard.ts
use step_fi_api.Common.{
  String, Bool, true, false, Option, none, some, List, [], ◌∷◌, ◌||◌, str_eq, if◌then◌else◌,
}

pub record RequestUser : Type 0 where
  pub wallet : String
  pub role : Option String

-- `xs.includes(x)`
unfoldable pub includes : List String → String → Bool
includes [] x = false
includes (y ∷ ys) x = str_eq y x || includes ys x

-- `this.userStatusService && user.wallet`: the service is optional, and gives the live role.
abbrev pub current_role : Option (String → Option String) → RequestUser → Option String
current_role none user = user.role
current_role (some role_of) user = if str_eq user.wallet "" then user.role else role_of user.wallet

-- `!currentRole || !requiredRoles.includes(currentRole)`, negated
abbrev pub role_allowed : List String → Option String → Bool
role_allowed required none = false
role_allowed required (some role) = if str_eq role "" then false else includes required role

-- `false` when the guard throws AUTH_ROLE_FORBIDDEN.
unfoldable pub can_activate :
    Option (String → Option String) → List String → Option RequestUser → Bool
can_activate service [] user = true
can_activate service (r ∷ rs) none = false
can_activate service (r ∷ rs) (some user) = role_allowed (r ∷ rs) (current_role service user)
