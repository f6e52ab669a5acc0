-- ===== src/Rbac/Roles/Grants.antt =====
-- packages/rbac/src/roles.ts: what a role grants under a tenant's modules.
use twenty_four.Prelude.{
  String, ◌≡◌, refl, subst, ◌↔◌, inl, inr, true, Option, none, some, find, Option-cases, List,
  arith, includes, includes-select,
}
use twenty_four.Prelude.Equality.{◌==◌, eq_ℕ, eq_String}
use twenty_four.Entitlement.ModuleData.{ModuleId, eq_ModuleId}
use twenty_four.Rbac.PermissionIds.{PermissionId, eq_PermissionId, all_permission_ids}
use twenty_four.Rbac.PermissionData.{permission_definition}
use twenty_four.Rbac.Roles.{
  RoleCatalog, RoleDefinition, find_role, or_unknown, role_definition, is_available,
  available_permissions, granted_permissions, grantable_permissions,
}

all_permission_ids-includes : (p : PermissionId) → includes all_permission_ids p ≡ true
all_permission_ids-includes p = grind arith

includes-available_permissions :
    (modules : List ModuleId) (p : PermissionId)
    → includes (available_permissions modules) p
      ≡ is_available modules (permission_definition p).of_module
unfolding available_permissions
includes-available_permissions modules p = ground (
  arith,
  includes-select (λ id. is_available modules (permission_definition id).of_module)
      all_permission_ids p,
  all_permission_ids-includes p,
)

-- A tenant may have what its module asks for: nothing, or that the module is held.
abbrev pub IsHeld : List ModuleId → Option ModuleId → Type 0
IsHeld modules none = Unit
IsHeld modules (some m) = includes modules m ≡ true

-- The catalog has the role, and the role has the permission.
abbrev pub Has : RoleCatalog → String → PermissionId → Type 0
Has catalog role p =
    (r : RoleDefinition) × (find (λ entry. entry.id == role) catalog ≡ some r)
    × (includes r.permissions p ≡ true)

is_available-IsHeld :
    (modules : List ModuleId) (of_module : Option ModuleId)
    → (is_available modules of_module ≡ true) ↔ IsHeld modules of_module
is_available-IsHeld modules none = (λ h. tt, λ h. refl)
is_available-IsHeld modules (some m) = (λ h. h, λ h. h)

can-Has :
    (role : String) (catalog : RoleCatalog) (p : PermissionId)
    → (includes (role_definition role catalog).permissions p ≡ true) ↔ Has catalog role p
can-Has role catalog p = elim (Option-cases (find_role role catalog)) [
  | inl missing ↦ (
    λ h. cc (subst (λ r. includes (or_unknown role r).permissions p ≡ true) missing h),
    λ h. cc (h.1, missing),
  )
  | inr found ↦ (
    λ h. (
      found.0,
      found.1,
      subst (λ r. includes (or_unknown role r).permissions p ≡ true) found.1 h,
    ),
    λ h. rw h.1 h.2,
  )
]

-- What a role grants a tenant is exactly what a role of that name in the catalog has, of the
-- permissions without a module and those whose module the tenant holds; a role that the catalog does
-- not have grants nothing. Its holder may put the same permissions in a role of their own making.
pub granted-eq-grantable :
    (role : String) (modules : List ModuleId) (catalog : RoleCatalog) (p : PermissionId)
    → ((includes (granted_permissions role modules catalog) p ≡ true)
        ↔ (Has catalog role p × IsHeld modules (permission_definition p).of_module))
      × (includes (grantable_permissions role modules catalog) p
          ≡ includes (granted_permissions role modules catalog) p)
unfolding granted_permissions grantable_permissions
granted-eq-grantable role modules catalog p =
    let held = (role_definition role catalog).permissions in
    let available = available_permissions modules in
    let granted = includes-select (λ id. includes available id) held p in
    let grantable = includes-select (λ id. includes held id) available p in
    let known = includes-available_permissions modules p in
    let has = can-Has role catalog p in
    let is_held = is_available-IsHeld modules (permission_definition p).of_module in
    (
      (
        λ h. (has.0 (ground (arith, granted, known)), is_held.0 (ground (arith, granted, known))),
        λ h. ground (arith, granted, known, has.1 h.0, is_held.1 h.1),
      ),
      ground (arith, granted, grantable),
    )
