-- ===== src/Console/Registry.antt =====
-- packages/mock/src/admin/store.ts: what each tier grants.
use twenty_four.Prelude.{
  ℕ, Bool, true, false, not, ◌&&◌, Option, none, List, [], ◌∷◌, map, if◌then◌else◌, length, select,
  includes, String,
}
use twenty_four.Prelude.Equality.{◌==◌, eq_ℕ, eq_String}
use twenty_four.Prelude.Numerals.{◌&◌, number_text}
use twenty_four.Prelude.Results.{ok, err, throw_if}
use twenty_four.Entitlement.ModuleData.{ModuleId, eq_ModuleId}
use twenty_four.Entitlement.TierData.{TierId, eq_TierId, tier_definition, all_tier_ids}
use twenty_four.Entitlement.Modules.{resolve_dependencies, requires_specialist}
use twenty_four.Console.Data.{Grants, grants_of, put_grants, AdminStore, Host}
use twenty_four.Console.Directory.{is_platform_admin, auto_provisionable}
use twenty_four.Console.Doors.{
  refused, Action, Throws, reads, modify, ◌>>=◌, ◌>>◌, require_signed_in, require_write, recorded,
}

-- The monthly price, which only a screen shows, is left out.
pub record TierRegistryEntry : Type 0 where
  pub tier : TierId
  pub grants : List ModuleId
  pub modules : List ModuleId
  pub seats : Option ℕ
  pub tenants : ℕ
  pub auto_provision : Bool
  pub needs_specialist : List ModuleId

abbrev entry_of : AdminStore → TierId → TierRegistryEntry
entry_of s tier =
    let grants = grants_of s.grants tier in
    let modules = resolve_dependencies grants in
    record {
      tier = tier;
      grants = grants;
      modules = modules;
      seats = (tier_definition tier).seats;
      tenants = length (select (λ t. t.tier == tier) s.tenants);
      auto_provision = auto_provisionable grants;
      needs_specialist = requires_specialist modules;
    }

unfoldable pub list_tiers : Action (List TierRegistryEntry)
list_tiers = do reads require_signed_in; reads λ s. ok (map (entry_of s) all_tier_ids)

-- The modules that a higher tier would lose against the one below it.
abbrev pub lost : List ModuleId → List ModuleId → List ModuleId
lost lower higher = select (λ id. not (includes higher id)) lower

abbrev pub is_empty : List ModuleId → Bool
is_empty [] = true
is_empty (id ∷ ids) = false

-- Each rung of the ladder of tiers, against the next one.
abbrev climbs : List (List ModuleId) → Bool
climbs [] = true
climbs (lower ∷ []) = true
climbs (lower ∷ higher ∷ rest) = is_empty (lost lower higher) && climbs (higher ∷ rest)

unfoldable pub is_ladder : Grants → Bool
is_ladder g = climbs (map (λ tier. resolve_dependencies (grants_of g tier)) all_tier_ids)

abbrev pub with_grants : TierId → List ModuleId → AdminStore → AdminStore
with_grants tier ids s = record s { grants = put_grants tier ids s.grants }

-- A ladder that is broken is mended before the refusal.
unfoldable pub keep_ladder : TierId → List ModuleId → Action (Unit {0})
keep_ladder tier previous s =
    if is_ladder s.grants
    then (ok tt, s)
    else (err (refused 409 "ladder"), with_grants tier previous s)

-- An id of a request: that of a module, or a text that is no key of the table of modules.
-- Texts that name what every object inherits, which `in` finds, are left out.
pub data AskedId : Type 0 where
  known : ModuleId → AskedId
  unknown : (text : String) → AskedId

abbrev in_front : ModuleId → Throws (List ModuleId) → Throws (List ModuleId)
in_front id (ok ids) = ok (id ∷ ids)
in_front id (err e) = err e

-- All of the ids, unless one of them is no module.
abbrev pub all_known : List AskedId → Throws (List ModuleId)
all_known [] = ok []
all_known (known id ∷ asked) = in_front id (all_known asked)
all_known (unknown text ∷ asked) = err (refused 422 "invalid")

unfoldable pub set_tier_grants : Host → TierId → List AskedId → Action (List TierRegistryEntry)
set_tier_grants host tier asked = do
  require_write
  reads λ s. throw_if (not (is_platform_admin s.session.role)) (refused 403 "forbidden")
  ids ← reads λ _. all_known asked
  previous ← reads λ s. ok (grants_of s.grants tier)
  modify (with_grants tier ids)
  keep_ladder tier previous
  modify λ s.
      recorded host "registry.tier.changed"
        ((tier_definition tier).name
          & " now grants "
          & number_text (length ids)
          & " modules. "
          & number_text (length (select (λ t. t.tier == tier) s.tenants))
          & " tenants rewritten, gateway cache invalidated.")
        none none s
  list_tiers
