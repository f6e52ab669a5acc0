-- ===== src/Entitlement/Upgrade.antt =====
-- packages/entitlement/src/resolve.ts and tiers.ts: what a change of tier adds and takes away.
use twenty_four.Prelude.{
  ◌≡◌, refl, true, not, ◌&&◌, List, arith, All, select, includes, includes-select, All-includes,
}
use twenty_four.Prelude.Equality.{eq_ℕ, eq_String}
use twenty_four.Entitlement.ModuleData.{ModuleId, eq_ModuleId, module_definition}
use twenty_four.Entitlement.TierData.{TierId, tier_definition, starter, growth, max, enterprise}
use twenty_four.Entitlement.Modules.{resolve_dependencies, requires_specialist}
use twenty_four.Entitlement.Modules.Closure.{In, IsNeeded, needed, resolve_dependencies_iff}
use twenty_four.Entitlement.Resolve.{EntitlementRecord, plan_upgrade, tier_modules, is_upgrade}

includes-requires_specialist :
    (ids : List ModuleId) (m : ModuleId)
    → includes (requires_specialist ids) m
      ≡ (includes ids m && not (module_definition m).self_serve_capable)
unfolding requires_specialist
includes-requires_specialist ids m = includes-select _ ids m

-- What the plan adds is what the new tier resolves to and is not held. It is granted at once or
-- queued to a specialist, never both and never neither, and the specialist's are those that cannot be
-- provisioned unattended.
pub plan_upgrade-splits :
    (r : EntitlementRecord) (to : TierId) (m : ModuleId)
    → (includes (plan_upgrade r to).adds m
        ≡ (includes (tier_modules to) m && not (includes r.modules m)))
      × (includes (plan_upgrade r to).granted_immediately m
          ≡ (includes (plan_upgrade r to).adds m && (module_definition m).self_serve_capable))
      × (includes (plan_upgrade r to).queued_to_specialist m
          ≡ (includes (plan_upgrade r to).adds m && not (module_definition m).self_serve_capable))
unfolding plan_upgrade tier_modules
plan_upgrade-splits r to m =
    let target = resolve_dependencies (tier_definition to).grants in
    let adds = select (λ id. not (includes r.modules id)) target in
    let queued = requires_specialist adds in
    (
      includes-select (λ id. not (includes r.modules id)) target m,
      ground (
        arith,
        includes-select (λ id. not (includes queued id)) adds m,
        includes-requires_specialist adds m,
      ),
      includes-requires_specialist adds m,
    )

In-map : (xs ys : List ModuleId) → All (λ m. In ys m) xs → (m : ModuleId) → In xs m → In ys m
In-map xs ys h m i = All-includes (λ k. In ys k) xs m h i

grants-grow :
    (from to : TierId)
    → is_upgrade from to ≡ true
    → All (λ m. In (tier_definition to).grants m) (tier_definition from).grants
grants-grow starter starter h = cc
grants-grow starter _ h = (refl, (refl, (refl, tt)))
grants-grow growth starter h = cc
grants-grow growth growth h = cc
grants-grow growth _ h = (refl, (refl, (refl, (refl, (refl, tt)))))
grants-grow max enterprise h = (refl, (refl, (refl, (refl, (refl, (refl, (refl, tt)))))))
grants-grow max _ h = cc
grants-grow enterprise starter h = cc
grants-grow enterprise growth h = cc
grants-grow enterprise max h = cc
grants-grow enterprise enterprise h = cc

IsNeeded-grow :
    (xs ys : List ModuleId)
    → ((m : ModuleId) → In xs m → In ys m)
    → (m : ModuleId) → IsNeeded xs m
    → IsNeeded ys m
IsNeeded-grow xs ys h m (needed a i l) = needed a (h a i) l

-- A higher tier resolves to every module of a lower one.
pub tier_modules-grow :
    (from to : TierId) (m : ModuleId)
    → is_upgrade from to ≡ true
    → includes (tier_modules from) m ≡ true
    → includes (tier_modules to) m ≡ true
unfolding tier_modules
tier_modules-grow from to m up h =
    let old = (tier_definition from).grants in
    let new = (tier_definition to).grants in
    (resolve_dependencies_iff new m).1 (
      IsNeeded-grow old new (In-map old new (grants-grow from to up)) m
        ((resolve_dependencies_iff old m).0 h))
