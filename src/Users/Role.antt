-- ===== src/Users/Role.antt =====
-- apps/api-service/src/rbac/enums/role.enum.ts
use gas_guard.Prelude.{
  any, refl, ℕ, suc, String, ◌≡◌, ◌⊎◌, Bool, true, false, Option, none, some, List, [], ◌∷◌, arith,
  leb, if◌then◌else◌,
}
use mathlib.Core.Option

pub data UserRole : Type 0 where
  admin operator viewer : UserRole

-- The enum's text.
abbrev pub role_text : UserRole → String
role_text admin = "admin"
role_text operator = "operator"
role_text viewer = "viewer"

abbrev pub same_role : UserRole → UserRole → Bool
same_role admin admin = true
same_role operator operator = true
same_role viewer viewer = true
same_role _ _ = false

abbrev pub role_hierarchy : List UserRole
role_hierarchy = viewer ∷ operator ∷ admin ∷ []

-- `indexOf`, with `none` for -1.
abbrev index_of : UserRole → List UserRole → Option ℕ
index_of r [] = none
index_of r (x ∷ xs) = if same_role x r then some 0 else Option.map suc (index_of r xs)

abbrev at_least : Option ℕ → Option ℕ → Bool
at_least (some i) (some j) = leb j i
at_least _ _ = false

unfoldable pub has_role_access : UserRole → UserRole → Bool
has_role_access user_role required_role =
    at_least (index_of user_role role_hierarchy) (index_of required_role role_hierarchy)

-- The roles that a role may act for.
abbrev pub Allows : UserRole → UserRole → Type 0
Allows u r = has_role_access u r ≡ true

-- Role access is a total order of the roles, in which a viewer is least and an administrator is
-- greatest.
pub has_role_access_order :
    (u r q : UserRole)
    → Allows u u
      × (Allows u r → Allows r q → Allows u q)
      × (Allows u r → Allows r u → u ≡ r)
      × (Allows u r ⊎ Allows r u)
      × Allows u viewer
      × Allows admin u
unfolding has_role_access
has_role_access_order u r q = ground arith

-- The roles that the decorators of apps/api-service/src/rbac/decorators/roles.decorator.ts name.
abbrev pub admin_only : List UserRole
admin_only = admin ∷ []

abbrev pub operator_and_above : List UserRole
operator_and_above = operator ∷ admin ∷ []

abbrev pub viewer_and_above : List UserRole
viewer_and_above = viewer ∷ operator ∷ admin ∷ []

-- `AdminOnly` lets administrators pass only, `OperatorAndAbove` whoever has the access of an
-- operator, and `ViewerAndAbove` every role.
pub role_decorators :
    (r : UserRole)
    → (any (has_role_access r) admin_only ≡ same_role r admin)
      × (any (has_role_access r) operator_and_above ≡ has_role_access r operator)
      × (any (has_role_access r) viewer_and_above ≡ true)
unfolding has_role_access
role_decorators admin = (refl, refl, refl)
role_decorators operator = (refl, refl, refl)
role_decorators viewer = (refl, refl, refl)
