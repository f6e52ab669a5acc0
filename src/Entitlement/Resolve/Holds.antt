-- ===== src/Entitlement/Resolve/Holds.antt =====
-- packages/entitlement/src/resolve.ts: which modules a record holds, and how many seats are left.
use twenty_four.Prelude.{
  ℕ, ◌-◌, ◌<◌, ◌≡◌, refl, subst, sym, ◌∙◌, ◌↔◌, ◌⊎◌, inl, inr, true, false, none, some, arith, ltb,
  Option-cases, Option, List, [], ◌∷◌, map, exists, includes, includes-append, Bool-cases, ap,
}
use twenty_four.Prelude.Equality.{◌==◌, eq_ℕ, eq_String}
use twenty_four.Entitlement.ModuleData.{ModuleId, eq_ModuleId}
use twenty_four.Entitlement.TierData.{tier_definition}
use twenty_four.Entitlement.Modules.Closure.{IsNeeded, needed, Leads, resolve_dependencies_iff}
use twenty_four.Entitlement.Resolve.{
  ResolveEntitlementInput, EntitlementRecord, resolve_entitlement, selected_modules, has_module,
  or_else, EntitlementOverride, can_add_staff, remaining_of, some_left,
}

-- A specialist granted the module.
abbrev pub IsOverride : Option (List EntitlementOverride) → ModuleId → Type 0
IsOverride overrides a =
    (os : List EntitlementOverride) × (overrides ≡ some os)
    × (exists (λ o. a == o.module_id) os ≡ true)

-- The module is being set up.
abbrev pub IsWaiting : Option (List ModuleId) → ModuleId → Type 0
IsWaiting pending m = (ids : List ModuleId) × (pending ≡ some ids) × (includes ids m ≡ true)

abbrev pub IsGranted : ResolveEntitlementInput → ModuleId → Type 0
IsGranted input a =
    (includes (tier_definition input.tier).grants a ≡ true) ⊎ IsOverride input.overrides a

includes-modules :
    (os : List EntitlementOverride) (a : ModuleId)
    → includes (map (λ o. o.module_id) os) a ≡ exists (λ o. a == o.module_id) os
includes-modules [] a = refl
includes-modules (o ∷ os) a = ground (arith, includes-modules os a)

IsOverride-iff :
    (overrides : Option (List EntitlementOverride)) (a : ModuleId)
    → (includes (map (λ o. o.module_id) (or_else overrides [])) a ≡ true) ↔ IsOverride overrides a
IsOverride-iff none a = (λ h. cc, λ h. cc h.1)
IsOverride-iff (some os) a = (
  λ h. (os, refl, sym (includes-modules os a) ∙ h),
  λ h.
      includes-modules os a
      ∙ subst (λ l. exists (λ o. a == o.module_id) l ≡ true) (ap (λ x. or_else x []) (sym h.1)) h.2,
)

IsWaiting-iff :
    (pending : Option (List ModuleId)) (m : ModuleId)
    → (includes (or_else pending []) m ≡ true) ↔ IsWaiting pending m
IsWaiting-iff none m = (λ h. cc, λ h. cc h.1)
IsWaiting-iff (some ids) m = (
  λ h. (ids, refl, h),
  λ h. subst (λ l. includes l m ≡ true) (ap (λ x. or_else x []) (sym h.1)) h.2,
)

not_waiting :
    (pending : Option (List ModuleId)) (m : ModuleId)
    → ¬ IsWaiting pending m
    → includes (or_else pending []) m ≡ false
not_waiting pending m h = elim (Bool-cases (includes (or_else pending []) m)) [
  | inl waits ↦ absurd (h ((IsWaiting-iff pending m).0 waits))
  | inr free ↦ free
]

IsGranted-iff :
    (input : ResolveEntitlementInput) (a : ModuleId)
    → (includes (selected_modules input) a ≡ true) ↔ IsGranted input a
IsGranted-iff input a =
    let grants = (tier_definition input.tier).grants in
    let both = includes-append grants (map (λ o. o.module_id) (or_else input.overrides [])) a in
    let others = IsOverride-iff input.overrides a in
    (
      λ h. elim (Bool-cases (includes grants a)) [
        | inl tier ↦ inl tier
        | inr not_tier ↦ inr (others.0 (ground (arith, both, not_tier, h)))
      ],
      λ h. elim h [
        | inl tier ↦ ground (arith, both, tier)
        | inr other ↦ ground (arith, both, others.1 other)
      ],
    )

-- A tenant has the use of a module exactly when it is not among those that are being set up, and a chain
-- of requirements leads to it from a module that the tier grants or an override names.
pub has_module_iff :
    (input : ResolveEntitlementInput) (m : ModuleId)
    → (has_module (resolve_entitlement input) m ≡ true)
      ↔ (((a : ModuleId) × IsGranted input a × Leads a m) × ¬ IsWaiting input.pending m)
has_module_iff input m =
    let held = resolve_dependencies_iff (selected_modules input) m in
    let waiting = IsWaiting-iff input.pending m in
    (
      λ h. (from_granted (held.0 (ground arith)), λ w. ground (arith, waiting.1 w)),
      λ h.
          let (a, granted, l) = h.0 in
          let needed_by = needed a ((IsGranted-iff input a).1 granted) l in
          rw (held.1 needed_by, not_waiting input.pending m h.1) refl,
    )
  where
    from_granted :
        IsNeeded (selected_modules input) m → (a : ModuleId) × IsGranted input a × Leads a m
    from_granted (needed a i l) = (a, (IsGranted-iff input a).0 i, l)

below_limit : (limit used : ℕ) → ltb 0 (limit - used) ≡ true → used < limit
below_limit limit used h = ground arith

left_below : (limit used : ℕ) → used < limit → ltb 0 (limit - used) ≡ true
left_below limit used h = ground arith

-- A member of staff can be added exactly when the seats are negotiated or fewer are used than the
-- limit.
pub can_add_staff_iff :
    (r : EntitlementRecord)
    → (can_add_staff r ≡ true) ↔ (
        (r.seats.limit ≡ none)
        ⊎ ((limit : ℕ) × (r.seats.limit ≡ some limit) × (r.seats.used < limit)))
can_add_staff_iff r = elim (Option-cases r.seats.limit) [
  | inl unlimited ↦ (λ h. inl unlimited, λ h. rw unlimited refl)
  | inr fixed ↦ (
    λ h. inr (
      fixed.0,
      fixed.1,
      below_limit fixed.0 r.seats.used
          (subst (λ x. some_left (remaining_of x r.seats.used) ≡ true) fixed.1 h),
    ),
    λ h. elim h [
      | inl unlimited ↦ cc (unlimited, fixed.1)
      | inr below ↦ rw below.1 (left_below below.0 r.seats.used below.2)
    ],
  )
]
