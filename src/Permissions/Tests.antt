-- ===== src/Permissions/Tests.antt =====
-- Two roles, one of them unknown.
use mootd.Prelude.{◌≡◌, refl, List, [], ◌∷◌, String}
use mootd.Permissions.{permissions_for, role_permissions, sort_strings}

abbrev roles : List String
roles = "nobody" ∷ "support" ∷ []

listed : permissions_for roles ≡ "spend:read" ∷ "users:pii" ∷ "users:read" ∷ []
unfolding permissions_for sort_strings role_permissions
listed = refl

abbrev page : String
page = "page"
