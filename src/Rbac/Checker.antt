-- ===== src/Rbac/Checker.antt =====
-- internal/rbac/checker.go and internal/rbac/rules.go: patterns of permissions, the permissions of
-- a role, and the default policy.
use mindengage_lms.Prelude.{
  String, Bool, true, false, ◌||◌, Option, none, some, List, [], ◌∷◌, any, all, GoMap, lookup,
  str_eq, if◌then◌else◌,
}
use mindengage_lms.Strings.{has_prefix, has_suffix, trim_suffix}

-- Checker, a pointer to its map.
abbrev pub RolePermissions : Type 0
RolePermissions = GoMap (List String)

-- rbac.RolePermissions
abbrev pub default_permissions : RolePermissions
default_permissions =
    (
      "student",
      "exam:view" ∷ "attempt:create" ∷ "attempt:save" ∷ "attempt:submit" ∷ "attempt:view-own"
          ∷ "user:change_password" ∷ [],
    )
    ∷ (
      "teacher",
      "course:create" ∷ "course:manage_teachers" ∷ "course:manage_students"
          ∷ "course:create_offering" ∷ "course:delete_own" ∷ "exam:create" ∷ "exam:delete_own"
          ∷ "exam:view" ∷ "exam:export" ∷ "attempt:view-all" ∷ "attempt:grade" ∷ "users:bulk_upsert"
          ∷ "users:list" ∷ [],
    )
    ∷ ("admin", "*" ∷ [])
    ∷ []

-- A nil map is `none`.
unfoldable pub new_checker : Option RolePermissions → RolePermissions
new_checker none = default_permissions
new_checker (some rp) = rp

unfoldable pub match_perm : (pattern perm : String) → Bool
match_perm pattern perm =
    if str_eq pattern "*" || str_eq pattern perm
    then true
    else if has_suffix pattern "*"
    then has_prefix perm (trim_suffix pattern "*")
    else false

-- The loop of Has over the permissions of a role.
unfoldable pub has_perm : List String → String → Bool
has_perm perms perm = any (λ p. str_eq p "*" || match_perm p perm) perms

unfoldable pub has : RolePermissions → (role perm : String) → Bool
has c role perm = elim (lookup role c) [ none ↦ false | some perms ↦ has_perm perms perm ]

unfoldable pub has_any : RolePermissions → String → List String → Bool
has_any c role perms = any (has c role) perms

unfoldable pub has_all : RolePermissions → String → List String → Bool
has_all c role perms = all (has c role) perms
