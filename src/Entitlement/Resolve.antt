-- ===== src/Entitlement/Resolve.antt =====
-- packages/entitlement/src/resolve.ts: the entitlement record, and what a change of tier does. With
-- the functions of tiers.ts and profiles.ts that it calls. A field that may be `undefined` or `null`
-- is an Option.
pub mod Holds
use twenty_four.Prelude.{
  ℕ, zero, suc, ◌+◌, ◌-◌, ◌*◌, ◌/◌, ◌%◌, ◌^◌, ◌≤◌, ◌<◌, String, ◌≡◌, refl, sym, ap, ◌∙◌, subst, ◌≢◌,
  ◌↔◌, ◌⊎◌, inl, inr, Bool, true, false, not, ◌&&◌, ◌||◌, Option, none, some, List, [], ◌∷◌, ◌++◌,
  map, arith, ltb, leb, nat_eq, if◌then◌else◌, Bool-cases, Option-cases, length, length-append,
  take, drop, replicate, take-append-drop, length-drop, length-replicate, All, All-append, All-take,
  All-drop, All-replicate, select, find, exists, includes, includes-append, includes-select,
  All-includes,
}
use twenty_four.Prelude.Equality.{Eq, ◌==◌, eq_ℕ, eq_String, by_index, eq_of_==, ==_refl}
use twenty_four.Entitlement.ModuleData.{ModuleId, eq_ModuleId}
use twenty_four.Entitlement.TierData.{TierId, tier_definition, tier_id_index}
use twenty_four.Entitlement.ProfileData.{
  CapabilityId, eq_CapabilityId, capability_definition, IndustryProfile, industry_profiles,
}
use twenty_four.Entitlement.Modules.{resolve_dependencies, requires_specialist}

unfoldable pub tier_modules : TierId → List ModuleId
tier_modules id = resolve_dependencies (tier_definition id).grants

unfoldable pub tier_auto_enabled : TierId → List ModuleId
tier_auto_enabled id = select (λ m. not (includes (tier_definition id).grants m)) (tier_modules id)

abbrev pub tier_rank : TierId → ℕ
tier_rank = tier_id_index

abbrev pub is_upgrade : TierId → TierId → Bool
is_upgrade from to = ltb (tier_rank from) (tier_rank to)

-- The map keeps the last profile of an id.
by_id : String → List IndustryProfile → Option IndustryProfile → Option IndustryProfile
by_id id [] found = found
by_id id (entry ∷ rest) found = by_id id rest (if entry.id == id then some entry else found)

pub industry_profile : Option String → Option IndustryProfile
industry_profile none = none
industry_profile (some id) = if id == "" then none else by_id id industry_profiles none

pub profile_capabilities : Option String → List CapabilityId
profile_capabilities id = elim (industry_profile id) [
  | none ↦ []
  | some found ↦ select (λ c. (capability_definition c).implemented) found.capabilities
]

pub record EntitlementOverride : Type 0 where
  pub module_id : ModuleId
  pub granted_by : String
  pub reason : String
  pub at : String

pub record SeatQuota : Type 0 where
  pub limit : Option ℕ
  pub used : ℕ

pub record EntitlementRecord : Type 0 where
  pub tenant_id : String
  pub tier : TierId
  pub industry : String
  pub modules : List ModuleId
  pub capabilities : List CapabilityId
  pub seats : SeatQuota
  pub overrides : List EntitlementOverride
  pub pending : List ModuleId

-- A seat limit may be left out, or be given as `null`.
pub record ResolveEntitlementInput : Type 0 where
  pub tenant_id : String
  pub tier : TierId
  pub industry : String
  pub overrides : Option (List EntitlementOverride)
  pub seats_used : Option ℕ
  pub seat_limit_override : Option (Option ℕ)
  pub pending : Option (List ModuleId)

-- `value ?? fallback`
abbrev pub or_else {ℓ} : {A : Type ℓ} → Option A → A → A
or_else none fallback = fallback
or_else (some value) fallback = value

-- What the tier grants and what a specialist granted.
abbrev pub selected_modules : ResolveEntitlementInput → List ModuleId
selected_modules input =
    (tier_definition input.tier).grants ++ map (λ o. o.module_id) (or_else input.overrides [])

abbrev pub resolve_entitlement : ResolveEntitlementInput → EntitlementRecord
resolve_entitlement input = record {
  tenant_id = input.tenant_id;
  tier = input.tier;
  industry = input.industry;
  modules = resolve_dependencies (selected_modules input);
  capabilities = profile_capabilities (some input.industry);
  seats = record {
    limit = or_else input.seat_limit_override (tier_definition input.tier).seats;
    used = or_else input.seats_used 0;
  };
  overrides = or_else input.overrides [];
  pending = or_else input.pending [];
}

abbrev pub has_module : EntitlementRecord → ModuleId → Bool
has_module r id = includes r.modules id && not (includes r.pending id)

abbrev pub is_pending : EntitlementRecord → ModuleId → Bool
is_pending r id = includes r.pending id

abbrev pub has_capability : EntitlementRecord → CapabilityId → Bool
has_capability r id = includes r.capabilities id

-- `Math.max(0, limit - used)` is the subtraction of ℕ.
abbrev pub remaining_of : Option ℕ → ℕ → Option ℕ
remaining_of none used = none
remaining_of (some limit) used = some (limit - used)

abbrev pub seats_remaining : EntitlementRecord → Option ℕ
seats_remaining r = remaining_of r.seats.limit r.seats.used

abbrev pub some_left : Option ℕ → Bool
some_left none = true
some_left (some remaining) = ltb 0 remaining

abbrev pub can_add_staff : EntitlementRecord → Bool
can_add_staff r = some_left (seats_remaining r)

pub record UpgradePlan : Type 0 where
  pub from : TierId
  pub to : TierId
  pub adds : List ModuleId
  pub granted_immediately : List ModuleId
  pub queued_to_specialist : List ModuleId
  pub seats_before : Option ℕ
  pub seats_after : Option ℕ

unfoldable pub plan_upgrade : EntitlementRecord → TierId → UpgradePlan
plan_upgrade r to =
    let adds =
      select (λ id. not (includes r.modules id))
        (resolve_dependencies (tier_definition to).grants) in
    let queued = requires_specialist adds in
    record {
      from = r.tier;
      to = to;
      adds = adds;
      granted_immediately = select (λ id. not (includes queued id)) adds;
      queued_to_specialist = queued;
      seats_before = r.seats.limit;
      seats_after = (tier_definition to).seats;
    }

-- What a downgrade takes away.
unfoldable pub plan_downgrade : EntitlementRecord → TierId → List ModuleId
plan_downgrade r to = select (λ id. not (includes (tier_modules to) id)) r.modules
