-- ===== src/Rbac/Tests.antt =====
-- The theorem of packages/rbac/src at a concrete role.
use twenty_four.Prelude.{◌≡◌, ◌↔◌, true, [], ◌∷◌, includes}
use twenty_four.Prelude.Equality.{eq_ℕ, eq_String}
use twenty_four.Entitlement.ModuleData.{pos_orders}
use twenty_four.Rbac.PermissionIds.{eq_PermissionId, pos_refund}
use twenty_four.Rbac.PermissionData.{permission_definition}
use twenty_four.Rbac.Roles.{built_in_roles, granted_permissions, grantable_permissions}
use twenty_four.Rbac.Roles.Grants.{Has, IsHeld, granted-eq-grantable}

granted-eq-grantable_example :
    ((includes (granted_permissions "manager" (pos_orders ∷ []) built_in_roles) pos_refund ≡ true)
      ↔ (Has built_in_roles "manager" pos_refund
          × IsHeld (pos_orders ∷ []) (permission_definition pos_refund).of_module))
    × (includes (grantable_permissions "manager" (pos_orders ∷ []) built_in_roles) pos_refund
        ≡ includes (granted_permissions "manager" (pos_orders ∷ []) built_in_roles) pos_refund)
granted-eq-grantable_example =
    granted-eq-grantable "manager" (pos_orders ∷ []) built_in_roles pos_refund
