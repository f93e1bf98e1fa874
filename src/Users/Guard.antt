-- ===== src/Users/Guard.antt =====
-- RolesGuard: apps/api-service/src/rbac/guards/roles.guard.ts. The roles that the route's decorator
-- names and the request's user are arguments.
use gas_guard.Prelude.{
  ℕ, String, str_append, ◌≡◌, ◌↔◌, Bool, true, false, not, Option, none, some, List, [], ◌∷◌, any,
  arith, if◌then◌else◌,
}
use gas_guard.Exec.{Outcome, ok, throw}
use gas_guard.Http.{HttpException, unauthorized, forbidden}
use gas_guard.Users.Role.{UserRole, role_text, has_role_access}
use gas_guard.Users.User.{User, is_locked}

-- `roles.join(', ')`
join_roles : List UserRole → String
join_roles [] = ""
join_roles (r ∷ []) = role_text r
join_roles (r ∷ q ∷ rs) = str_append (role_text r) (str_append ", " (join_roles (q ∷ rs)))

denied : List UserRole → UserRole → String
unfolding join_roles
denied rs r =
    str_append "Access denied. Required role(s): "
      (str_append (join_roles rs) (str_append ". Your role: " (role_text r)))

check_user : ℕ → List UserRole → Option User → Outcome HttpException Bool
check_user now required none = throw (unauthorized "Authentication required")
check_user now required (some user) =
    if not user.is_active
    then throw (forbidden "User account is deactivated")
    else if is_locked now user
    then throw (forbidden "User account is temporarily locked")
    else if not (any (has_role_access user.role) required)
    then throw (forbidden (denied required user.role))
    else ok true

-- `none` is a route with no decorator.
unfoldable pub can_activate : ℕ → Option (List UserRole) → Option User → Outcome HttpException Bool
unfolding check_user denied join_roles
can_activate now none user = ok true
can_activate now (some []) user = ok true
can_activate now (some (r ∷ rs)) user = check_user now (r ∷ rs) user

-- The user may pass a route that asks for one of the roles.
pub record MayPass (now : ℕ) (required : List UserRole) (user : User) : Type 0 where
  pub active : user.is_active ≡ true
  pub unlocked : is_locked now user ≡ false
  pub granted : any (has_role_access user.role) required ≡ true

-- A route that asks for roles lets exactly those users pass that are active, not locked, and whose
-- role grants one of the roles.
pub can_activate_iff :
    (now : ℕ) (r : UserRole) (rs : List UserRole) (user : User)
    → (can_activate now (some (r ∷ rs)) (some user) ≡ ok true) ↔ MayPass now (r ∷ rs) user
unfolding can_activate
can_activate_iff now r rs user = (λ h. ground arith, λ h. ground arith)
