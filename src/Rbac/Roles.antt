-- ===== src/Rbac/Roles.antt =====
-- packages/rbac/src/roles.ts: roles, what they permit, and who may assign them. A catalog that the code
-- defaults to the built-in roles is an argument.
pub mod Grants
use twenty_four.Prelude.{
  ℕ, zero, suc, ◌+◌, ◌-◌, ◌*◌, ◌/◌, ◌%◌, ◌^◌, ◌≤◌, ◌<◌, String, ◌≡◌, refl, sym, ap, ◌∙◌, subst, ◌≢◌,
  ◌↔◌, ◌⊎◌, inl, inr, Bool, true, false, not, ◌&&◌, ◌||◌, Option, none, some, List, [], ◌∷◌, ◌++◌,
  map, arith, ltb, leb, nat_eq, if◌then◌else◌, Bool-cases, Option-cases, length, length-append,
  take, drop, replicate, take-append-drop, length-drop, length-replicate, All, All-append, All-take,
  All-drop, All-replicate, select, find, exists, includes, includes-append, includes-select,
  All-includes,
}
use twenty_four.Prelude.Equality.{Eq, ◌==◌, eq_ℕ, eq_String, by_index, eq_of_==, ==_refl}
use twenty_four.Entitlement.ModuleData.{ModuleId, eq_ModuleId}
use twenty_four.Rbac.PermissionIds.{
  PermissionId, eq_PermissionId, all_permission_ids, catalog_view, pos_sell, pos_close_day,
  bookings_view, bookings_manage, inventory_view, staff_view, staff_roles, payments_view,
  payments_refund, documents_view, documents_correct, reports_operational, reports_financial,
  settings_billing,
}
use twenty_four.Rbac.PermissionData.{permission_definition}

pub record RoleDefinition : Type 0 where
  pub id : String
  pub name : String
  pub description : String
  pub built_in : Bool
  pub permissions : List PermissionId
  pub rank : ℕ

abbrev pub custom_role_rank : ℕ
custom_role_rank = 1

abbrev owner_role : RoleDefinition
owner_role = record {
  id = "owner";
  name = "Owner";
  description = "Everything, including the plan and the bill. There is always at least one.";
  built_in = true;
  permissions = all_permission_ids;
  rank = 3;
}

abbrev manager_role : RoleDefinition
manager_role = record {
  id = "manager";
  name = "Manager";
  description = "Runs the business day to day. Everything except paying for it.";
  built_in = true;
  permissions = select (λ id. not (id == settings_billing)) all_permission_ids;
  rank = 2;
}

abbrev bookkeeper_role : RoleDefinition
bookkeeper_role = record {
  id = "bookkeeper";
  name = "Bookkeeper";
  description = "Reads the money and issues corrections. Cannot sell, and cannot change prices.";
  built_in = true;
  permissions =
      catalog_view ∷ payments_view ∷ payments_refund ∷ documents_view ∷ documents_correct
      ∷ reports_operational ∷ reports_financial ∷ staff_view ∷ [];
  rank = 1;
}

abbrev staff_role : RoleDefinition
staff_role = record {
  id = "staff";
  name = "Staff";
  description = "Serves customers. Sells, takes bookings, and sees what they need to.";
  built_in = true;
  permissions =
      catalog_view ∷ pos_sell ∷ pos_close_day ∷ bookings_view ∷ bookings_manage ∷ inventory_view
      ∷ staff_view ∷ reports_operational ∷ [];
  rank = 1;
}

abbrev pub RoleCatalog : Type 0
RoleCatalog = List RoleDefinition

abbrev pub built_in_roles : RoleCatalog
built_in_roles = owner_role ∷ manager_role ∷ bookkeeper_role ∷ staff_role ∷ []

abbrev pub find_role : String → RoleCatalog → Option RoleDefinition
find_role role = find λ entry. entry.id == role

abbrev unknown_role : String → RoleDefinition
unknown_role role = record {
  id = role;
  name = "Unknown role";
  description = "This role no longer exists. It grants nothing until someone is reassigned.";
  built_in = false;
  permissions = [];
  rank = custom_role_rank;
}

abbrev pub or_unknown : String → Option RoleDefinition → RoleDefinition
or_unknown role none = unknown_role role
or_unknown role (some found) = found

abbrev pub role_definition : String → RoleCatalog → RoleDefinition
role_definition role catalog = or_unknown role (find_role role catalog)

unfoldable pub can : String → PermissionId → RoleCatalog → Bool
can role permission catalog = includes (role_definition role catalog).permissions permission

abbrev pub is_available : List ModuleId → Option ModuleId → Bool
is_available modules none = true
is_available modules (some m) = includes modules m

unfoldable pub available_permissions : List ModuleId → List PermissionId
available_permissions modules =
    select (λ id. is_available modules (permission_definition id).of_module) all_permission_ids

unfoldable pub granted_permissions : String → List ModuleId → RoleCatalog → List PermissionId
granted_permissions role modules catalog =
    select (λ id. includes (available_permissions modules) id)
      (role_definition role catalog).permissions

unfoldable pub grantable_permissions : String → List ModuleId → RoleCatalog → List PermissionId
grantable_permissions author modules catalog =
    select (λ id. includes (role_definition author catalog).permissions id)
      (available_permissions modules)

unfoldable pub can_assign_role : String → String → RoleCatalog → Bool
can_assign_role actor target catalog =
    leb (role_definition target catalog).rank (role_definition actor catalog).rank
    && can actor staff_roles catalog

-- `findRole(...)?.builtIn === false`
abbrev is_custom : Option RoleDefinition → Bool
is_custom none = false
is_custom (some found) = not found.built_in

abbrev pub is_editable_role : String → RoleCatalog → Bool
is_editable_role role catalog = is_custom (find_role role catalog)
