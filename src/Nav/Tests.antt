-- ===== src/Nav/Tests.antt =====
-- The theorem of packages/entitlement/src/nav.ts for a tenant on Starter.
use twenty_four.Prelude.{none, some, All}
use twenty_four.Entitlement.TierData.{starter}
use twenty_four.Entitlement.Resolve.{EntitlementRecord, resolve_entitlement}
use twenty_four.Nav.{build_nav, all_items}
use twenty_four.Nav.Data.{default_launch_targets, spec}
use twenty_four.Nav.Shown.{all_specs, Shows, HasItems, build_nav-Shows}

abbrev cafe : EntitlementRecord
cafe = resolve_entitlement (record {
  tenant_id = "t1";
  tier = starter;
  industry = "cafe";
  overrides = none;
  seats_used = some 1;
  seat_limit_override = none;
  pending = none;
})

build_nav-Shows_example :
    Shows cafe default_launch_targets
      (all_specs spec)
      (all_items (build_nav cafe default_launch_targets))
    × All HasItems (build_nav cafe default_launch_targets)
build_nav-Shows_example = build_nav-Shows cafe default_launch_targets
