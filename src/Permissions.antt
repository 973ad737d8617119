-- ===== src/Permissions.antt =====
-- backend/internal/admin/permissions.go and permission_middleware.go: what the roles of an admin grant.
pub mod Sets
pub mod Tests
use mootd.Prelude.{
  Bool, true, false, not, ◌&&◌, ◌||◌, Option, none, some, List, [], ◌∷◌, ◌++◌, String, str_eq, any,
  if◌then◌else◌,
}
use text.Mathlib.Text.{is_lt}
use Prim.Native.String.{compare}

abbrev pub admin_permissions : List String
admin_permissions =
    "users:read" ∷ "users:pii" ∷ "users:purge" ∷ "traces:read" ∷ "traces:rerun" ∷ "training:export"
    ∷ "prompts:read" ∷ "prompts:write" ∷ "defaults:write" ∷ "detections:rerun" ∷ "spend:read"
    ∷ "budgets:write" ∷ "routing:write" ∷ "reports:send" ∷ "admins:manage" ∷ "sessions:view" ∷ []

abbrev pub engineer_permissions : List String
engineer_permissions =
    "users:read" ∷ "traces:read" ∷ "traces:rerun" ∷ "training:export" ∷ "prompts:read"
    ∷ "prompts:write" ∷ "defaults:write" ∷ "detections:rerun" ∷ "spend:read" ∷ []

-- rolePermissions; a role's set is the list of its keys, all of which map to true.
unfoldable pub role_permissions : String → Option (List String)
role_permissions role =
    if str_eq role "admin"
    then some admin_permissions
    else if str_eq role "engineer"
    then some engineer_permissions
    else if str_eq role "support"
    then some ("users:read" ∷ "users:pii" ∷ "spend:read" ∷ [])
    else if str_eq role "readonly"
    then some ("users:read" ∷ "traces:read" ∷ "spend:read" ∷ [])
    else if str_eq role "curator"
    then some ("prompts:read" ∷ "prompts:write" ∷ "defaults:write" ∷ [])
    else none

abbrev pub granted : String → List String
granted role = elim (role_permissions role) [ none ↦ [] | some set ↦ set ]

-- set[perm]
abbrev pub contains : List String → String → Bool
contains set perm = any (λ p. str_eq p perm) set

unfoldable pub has_permission : List String → String → Bool
has_permission [] perm = false
has_permission (r ∷ roles) perm =
    let rest = has_permission roles perm in
    elim (role_permissions r) [ none ↦ rest | some set ↦ if contains set perm then true else rest ]

-- got[p] = true; `got` is the list of its keys.
abbrev pub add : List String → String → List String
add got p = if contains got p then got else p ∷ got

abbrev pub add_all : List String → List String → List String
add_all got [] = got
add_all got (p ∷ ps) = add_all (add got p) ps

abbrev pub collect : List String → List String → List String
collect got [] = got
collect got (r ∷ roles) = collect (add_all got (granted r)) roles

-- The inner loop moves `x` down the sorted part, which is `before` with its end first.
abbrev pub sink : String → List String → List String
sink x [] = x ∷ []
sink x (y ∷ before) = if is_lt (compare x y) then y ∷ sink x before else x ∷ y ∷ before

abbrev pub sort_loop : List String → List String → List String
sort_loop done [] = done
sort_loop done (x ∷ xs) = sort_loop (sink x done) xs

abbrev pub reversed : List String → List String → List String
reversed acc [] = acc
reversed acc (x ∷ xs) = reversed (x ∷ acc) xs

unfoldable pub sort_strings : List String → List String
sort_strings xs = reversed [] (sort_loop [] xs)

-- Go walks the set in no fixed order, of which the order here is one.
unfoldable pub permissions_for : List String → List String
unfolding sort_strings
permissions_for roles = sort_strings (collect [] roles)

pub data Response (A : Type 0) : Type 0 where
  unauthorized : Response A
  forbidden : String → Response A
  served : A → Response A

-- `roles` is AdminRolesFromContext, `none` where the context has none.
unfoldable pub require_permission : {A : Type 0} → String → Option (List String) → A → Response A
require_permission perm roles next = elim roles [
  | none ↦ unauthorized
  | some rs ↦ if has_permission rs perm then served next else forbidden perm
]
