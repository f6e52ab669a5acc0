-- ===== src/Entitlement/Tests.antt =====
-- Runs of packages/entitlement/src, and its theorems at concrete tenants.
use twenty_four.Prelude.{
  ℕ, ◌<◌, ◌≡◌, refl, ◌↔◌, ◌⊎◌, true, not, ◌&&◌, none, some, [], ◌∷◌, includes,
}
use twenty_four.Prelude.Equality.{eq_ℕ, eq_String}
use twenty_four.Entitlement.ModuleData.{
  ModuleId, eq_ModuleId, module_definition, identity_tenancy, crm, payments, bookings,
}
use twenty_four.Entitlement.TierData.{starter, growth, max}
use twenty_four.Entitlement.Modules.{resolve_dependencies, resolved_set, visit, visit_all}
use twenty_four.Entitlement.Modules.Closure.{IsNeeded, Leads, resolve_dependencies_iff}
use twenty_four.Entitlement.Resolve.{
  ResolveEntitlementInput, EntitlementRecord, resolve_entitlement, has_module, can_add_staff,
  plan_upgrade, tier_modules,
}
use twenty_four.Entitlement.Resolve.Holds.{IsGranted, IsWaiting, has_module_iff, can_add_staff_iff}
use twenty_four.Entitlement.Upgrade.{plan_upgrade-splits, tier_modules-grow}

-- A pub on Starter with two of its three seats in use, whose bookings are still being set up.
abbrev pub_input : ResolveEntitlementInput
pub_input = record {
  tenant_id = "t1";
  tier = starter;
  industry = "bar_pub";
  overrides = none;
  seats_used = some 2;
  seat_limit_override = none;
  pending = some (bookings ∷ []);
}

abbrev pub_record : EntitlementRecord
pub_record = resolve_entitlement pub_input

resolve_dependencies_iff_example :
    (includes (resolve_dependencies (payments ∷ [])) identity_tenancy ≡ true)
    ↔ IsNeeded (payments ∷ []) identity_tenancy
resolve_dependencies_iff_example = resolve_dependencies_iff (payments ∷ []) identity_tenancy

has_module_iff_example : (has_module pub_record bookings ≡ true) ↔ (
    ((a : ModuleId) × IsGranted pub_input a × Leads a bookings)
    × ¬ IsWaiting (some (bookings ∷ [])) bookings)
has_module_iff_example = has_module_iff pub_input bookings

can_add_staff_iff_example : (can_add_staff pub_record ≡ true) ↔ (
    (pub_record.seats.limit ≡ none)
    ⊎ ((limit : ℕ) × (pub_record.seats.limit ≡ some limit) × (pub_record.seats.used < limit)))
can_add_staff_iff_example = can_add_staff_iff pub_record

plan_upgrade-splits_example :
    (includes (plan_upgrade pub_record max).adds crm
      ≡ (includes (tier_modules max) crm && not (includes pub_record.modules crm)))
    × (includes (plan_upgrade pub_record max).granted_immediately crm ≡ (
        includes (plan_upgrade pub_record max).adds crm
        && (module_definition crm).self_serve_capable))
    × (includes (plan_upgrade pub_record max).queued_to_specialist crm ≡ (
        includes (plan_upgrade pub_record max).adds crm
        && not (module_definition crm).self_serve_capable))
plan_upgrade-splits_example = plan_upgrade-splits pub_record max crm

starter_has_payments : includes (tier_modules starter) payments ≡ true
unfolding tier_modules resolve_dependencies resolved_set visit visit_all
starter_has_payments = refl

tier_modules-grow_example : includes (tier_modules growth) payments ≡ true
tier_modules-grow_example = tier_modules-grow starter growth payments refl starter_has_payments
