-- ===== src/Nav.antt =====
-- packages/entitlement/src/nav.ts: the navigation that a tenant sees.
pub mod Data
pub mod Shown
mod Tests
use twenty_four.Prelude.{
  ℕ, zero, suc, ◌+◌, ◌-◌, ◌*◌, ◌/◌, ◌%◌, ◌^◌, ◌≤◌, ◌<◌, String, ◌≡◌, refl, sym, ap, ◌∙◌, subst, ◌≢◌,
  ◌↔◌, ◌⊎◌, inl, inr, Bool, true, false, not, ◌&&◌, ◌||◌, Option, none, some, List, [], ◌∷◌, ◌++◌,
  map, arith, ltb, leb, nat_eq, if◌then◌else◌, Bool-cases, Option-cases, length, length-append,
  take, drop, replicate, take-append-drop, length-drop, length-replicate, All, All-append, All-take,
  All-drop, All-replicate, select, find, exists, includes, includes-append, includes-select,
  All-includes,
}
use twenty_four.Prelude.Equality.{Eq, ◌==◌, eq_ℕ, eq_String, by_index, eq_of_==, ==_refl}
use twenty_four.Entitlement.ModuleData.{ModuleId}
use twenty_four.Entitlement.Resolve.{EntitlementRecord, has_module, is_pending}
use twenty_four.Rbac.PermissionIds.{PermissionId}
use Data.{
  NavLabel, LaunchTargets, LaunchKey, to_pos, to_bookings, to_crm, NavSpec, SpecGroup, spec, static,
}

pub record NavItem : Type 0 where
  pub id : String
  pub label : NavLabel
  pub full_name : Option String
  pub icon : String
  pub to : Option String
  pub launch : Option String
  pub summary : Option String
  pub pending : Bool
  pub permission : Option PermissionId

pub record NavGroup : Type 0 where
  pub id : String
  pub label : Option String
  pub items : List NavItem

abbrev target : LaunchTargets → LaunchKey → String
target targets to_pos = targets.pos
target targets to_bookings = targets.bookings_app
target targets to_crm = targets.crm_app

abbrev pub launch_of : LaunchTargets → Option LaunchKey → Option String
launch_of targets none = none
launch_of targets (some key) = some (target targets key)

abbrev pub module_shown : EntitlementRecord → Option ModuleId → Bool
module_shown r none = true
module_shown r (some m) = has_module r m || is_pending r m

abbrev pub module_pending : EntitlementRecord → Option ModuleId → Bool
module_pending r none = false
module_pending r (some m) = is_pending r m

-- What the inner loop does not skip.
abbrev pub is_shown : EntitlementRecord → NavSpec → Bool
is_shown r s = s.always || module_shown r s.of_module

-- The item that the inner loop pushes.
abbrev pub item_of : EntitlementRecord → LaunchTargets → NavSpec → NavItem
item_of r targets s = record {
  id = s.id;
  label = s.label;
  full_name = s.full_name;
  icon = s.icon;
  to = s.to;
  launch = launch_of targets s.launch_key;
  summary = s.summary;
  pending = module_pending r s.of_module;
  permission = s.permission;
}

pub items_of : EntitlementRecord → LaunchTargets → List NavSpec → List NavItem
items_of r targets [] = []
items_of r targets (s ∷ rest) =
    let others = items_of r targets rest in
    if is_shown r s then item_of r targets s ∷ others else others

-- `if (items.length > 0) groups.push(...)`
abbrev pub push_group : SpecGroup → List NavItem → List NavGroup → List NavGroup
push_group g [] groups = groups
push_group g (i ∷ items) groups = record { id = g.id; label = g.label; items = i ∷ items } ∷ groups

pub groups_of : EntitlementRecord → LaunchTargets → List SpecGroup → List NavGroup
groups_of r targets [] = []
groups_of r targets (g ∷ rest) =
    push_group g (items_of r targets g.items) (groups_of r targets rest)

unfoldable pub build_nav : EntitlementRecord → LaunchTargets → List NavGroup
build_nav r targets = groups_of r targets spec

-- `groups.flatMap((group) => group.items)`
abbrev pub all_items : List NavGroup → List NavItem
all_items [] = []
all_items (g ∷ rest) = g.items ++ all_items rest

abbrev is_some : Option String → Bool
is_some none = false
is_some (some _) = true

abbrev is_launched : NavItem → Bool
is_launched i = is_some i.launch

unfoldable pub launchable_apps : EntitlementRecord → LaunchTargets → List NavItem
launchable_apps r targets = select is_launched (all_items (build_nav r targets))

abbrev footer_item : String → String → String → String → NavItem
footer_item id to text icon = record {
  id = id;
  label = static text;
  full_name = none;
  icon = icon;
  to = some to;
  launch = none;
  summary = none;
  pending = false;
  permission = none;
}

abbrev pub footer_nav : List NavItem
footer_nav =
    footer_item "activity" "/activity" "Activity" "FileClock"
    ∷ footer_item "subscription" "/subscription" "Subscription" "Wallet"
    ∷ footer_item "settings" "/settings" "Settings" "Settings"
    ∷ []

-- A route, unless it is missing or empty.
abbrev route : Option String → List String
route none = []
route (some to) = if to == "" then [] else to ∷ []

abbrev spec_routes : List NavSpec → List String
spec_routes [] = []
spec_routes (s ∷ rest) = route s.to ++ spec_routes rest

abbrev group_routes : List SpecGroup → List String
group_routes [] = []
group_routes (g ∷ rest) = spec_routes g.items ++ group_routes rest

abbrev item_routes : List NavItem → List String
item_routes [] = []
item_routes (i ∷ rest) = route i.to ++ item_routes rest

abbrev pub all_nav_routes : List String
all_nav_routes = group_routes spec ++ item_routes footer_nav
