-- ===== src/Console/Tenants.antt =====
-- packages/mock/src/admin/store.ts: what a specialist changes of a tenant.
use twenty_four.Prelude.{
  ℕ, String, Bool, true, false, not, ◌&&◌, Option, none, some, List, [], ◌∷◌, ◌++◌, map, ltb,
  if◌then◌else◌, select, exists, includes,
}
use twenty_four.Prelude.Equality.{◌==◌, eq_ℕ, eq_String}
use twenty_four.Prelude.Numerals.{◌&◌}
use twenty_four.Prelude.Results.{ok, err}
use twenty_four.Entitlement.ModuleData.{ModuleId, eq_ModuleId, module_definition, ModuleKind}
use twenty_four.Entitlement.TierData.{TierId, eq_TierId, tier_definition}
use twenty_four.Entitlement.Modules.{dependents_of}
use twenty_four.Console.Data.{
  PlatformTenant, TenantStatus, live, provisioning, suspended, trial, healthy, failing, ModuleGrant,
  GrantSource, from_tier, from_profile, from_override, ModuleOverrideInput, Grants, grants_of,
  AdminStore, Host,
}
use twenty_four.Console.Directory.{tenant_modules, seat_limit_of}
use twenty_four.Console.Doors.{
  refused, Throws, Action, reads, modify, ◌>>=◌, ◌>>◌, require_found, require_signed_in,
  require_write, replace_first, find_tenant, recorded,
}

pub record TenantDetail : Type 0 where
  pub tenant : PlatformTenant
  pub modules : List ModuleGrant
  pub seat_limit : Option ℕ
  pub status_note : String

abbrev is_always_on : ModuleKind → Bool
is_always_on ModuleKind.always_on = true
is_always_on _ = false

abbrev is_suspended : TenantStatus → Bool
is_suspended suspended = true
is_suspended _ = false

abbrev is_provisioning : TenantStatus → Bool
is_provisioning provisioning = true
is_provisioning _ = false

abbrev pub same_status : TenantStatus → TenantStatus → Bool
same_status live live = true
same_status provisioning provisioning = true
same_status suspended suspended = true
same_status trial trial = true
same_status _ _ = false

abbrev pub modules_of : Grants → PlatformTenant → List ModuleId
modules_of grants tenant = tenant_modules tenant (grants_of grants tenant.tier)

abbrev source_of : PlatformTenant → ModuleId → GrantSource
source_of tenant id =
    if includes tenant.overrides id
    then from_override
    else if is_always_on (module_definition id).kind
    then from_profile
    else from_tier

abbrev detail_of : AdminStore → PlatformTenant → TenantDetail
detail_of s tenant = record {
  tenant = tenant;
  modules =
      map (λ id. record { module_id = id; source = source_of tenant id; is_pending = false })
        (modules_of s.grants tenant);
  seat_limit = seat_limit_of tenant;
  status_note = if is_suspended tenant.status then tenant.health_note else "";
}

unfoldable pub get_tenant : String → Action TenantDetail
get_tenant id = do
  reads require_signed_in
  tenant ← reads λ s. require_found (find_tenant id s)
  reads λ s. ok (detail_of s tenant)

-- The row that was found is changed in place.
abbrev pub change_tenant : String → (PlatformTenant → PlatformTenant) → AdminStore → AdminStore
change_tenant id f s = record s { tenants = replace_first (λ t. t.tenant_id == id) f s.tenants }

abbrev with_status : TenantStatus → String → PlatformTenant → PlatformTenant
with_status status reason t = record t {
  status = status;
  health = if is_suspended status then failing else healthy;
  health_note =
      if is_suspended status
      then "Suspended by a specialist: " & reason
      else "Nothing outstanding.";
}

abbrev check_status : Host → TenantStatus → String → PlatformTenant → Throws (Unit {0})
check_status host status reason tenant =
    if host.trim reason == ""
    then err (refused 422 "invalid")
    else if same_status tenant.status status
    then err (refused 409 "no_change")
    else if is_provisioning tenant.status
    then err (refused 409 "still_provisioning")
    else ok tt

unfoldable pub set_status : Host → String → TenantStatus → String → Action TenantDetail
set_status host id status reason = do
  require_write
  tenant ← reads λ s. require_found (find_tenant id s)
  reads λ _. check_status host status reason tenant
  modify (change_tenant id (with_status status reason))
  modify (
      recorded host (if is_suspended status then "tenant.suspended" else "tenant.reinstated") reason
        (some tenant) none)
  get_tenant id

abbrev exceeds : Option ℕ → ℕ → Bool
exceeds none used = false
exceeds (some limit) used = ltb limit used

abbrev check_tier : TierId → PlatformTenant → Throws (Unit {0})
check_tier tier tenant =
    if tenant.tier == tier
    then err (refused 409 "no_change")
    else if exceeds (tier_definition tier).seats tenant.seats_used
    then err (refused 409 "seats_exceeded")
    else ok tt

unfoldable pub set_tier : Host → String → TierId → String → Action TenantDetail
set_tier host id tier reason = do
  require_write
  tenant ← reads λ s. require_found (find_tenant id s)
  reads λ _. check_tier tier tenant
  modify (change_tenant id (λ t. record t { tier = tier }))
  modify (
      recorded host "tenant.tier.changed"
        (host.trim (
          (tier_definition tenant.tier).name
          & " to "
          & (tier_definition tier).name
          & ". "
          & reason))
        (some tenant) none)
  get_tenant id

-- `if (!list.includes(id)) list.push(id)`
abbrev pub pushed : ModuleId → List ModuleId → List ModuleId
pushed id ids = if includes ids id then ids else ids ++ (id ∷ [])

abbrev pub without : ModuleId → List ModuleId → List ModuleId
without id = select λ m. not (m == id)

abbrev pub granted : ModuleId → PlatformTenant → PlatformTenant
granted id t = record t { withdrawn = without id t.withdrawn; overrides = pushed id t.overrides }

abbrev pub withdrawn_from : ModuleId → PlatformTenant → PlatformTenant
withdrawn_from id t = record t {
  overrides = without id t.overrides;
  withdrawn = pushed id t.withdrawn;
}

abbrev pub overridden : ModuleId → Bool → PlatformTenant → PlatformTenant
overridden id entitled t = if entitled then granted id t else withdrawn_from id t

-- Some module that the tenant holds needs the one that is to go.
abbrev pub is_blocked : Grants → PlatformTenant → ModuleId → Bool
is_blocked grants tenant id = exists (λ m. includes (modules_of grants tenant) m) (dependents_of id)

abbrev pub check_override : Host → ModuleOverrideInput → PlatformTenant → Grants → Throws (Unit {0})
check_override host input tenant grants =
    if host.trim input.reason == ""
    then err (refused 422 "invalid")
    else if is_always_on (module_definition input.module_id).kind
    then err (refused 409 "always_on")
    else if not input.entitled && is_blocked grants tenant input.module_id
    then err (refused 409 "dependency")
    else ok tt

unfoldable pub override_module : Host → String → ModuleOverrideInput → Action TenantDetail
override_module host id input = do
  require_write
  tenant ← reads λ s. require_found (find_tenant id s)
  reads λ s. check_override host input tenant s.grants
  modify (change_tenant id (overridden input.module_id input.entitled))
  modify (
      recorded host "entitlement.changed"
        ((module_definition input.module_id).name
          & (if input.entitled then " granted" else " withdrawn")
          & ". "
          & input.reason)
        (some tenant) none)
  modify (
      recorded host (if input.entitled then "module.enabled" else "module.disabled")
        "Gateway policy cache invalidated." (some tenant) none)
  get_tenant id
