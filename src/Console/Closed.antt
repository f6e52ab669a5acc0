-- ===== src/Console/Closed.antt =====
-- packages/mock/src/admin/store.ts, `overrideModule`: a module is withdrawn only where nothing that the
-- tenant holds needs it.
use twenty_four.Prelude.{
  ◌≡◌, ◌∙◌, subst, inl, inr, Bool, true, false, not, ◌||◌, List, [], ◌∷◌, ◌++◌, arith, Bool-cases,
  select, exists, includes, includes-append, includes-select,
}
use twenty_four.Prelude.Equality.{◌==◌, eq_ℕ, eq_String, eq_of_==, ==_refl}
use twenty_four.Prelude.Results.{ok}
use twenty_four.Entitlement.ModuleData.{ModuleId, eq_ModuleId}
use twenty_four.Entitlement.Modules.{resolve_dependencies, dependents_of}
use twenty_four.Entitlement.Modules.Closure.{
  In, Requires, IsNeeded, needed, step, resolve_dependencies_iff, dependents_of-In,
}
use twenty_four.Console.Data.{PlatformTenant, Grants, grants_of, ModuleOverrideInput, Host}
use twenty_four.Console.Directory.{tenant_modules}
use twenty_four.Console.Tenants.{
  modules_of, overridden, check_override, is_blocked, pushed, without,
}

-- Whatever a held module requires is held too.
abbrev pub IsClosed : List ModuleId → Type 0
IsClosed held = (a b : ModuleId) → In held a → Requires a b → In held b

IsNeeded-mono :
    (xs ys : List ModuleId) (m : ModuleId)
    → ((k : ModuleId) → In xs k → In ys k)
    → IsNeeded xs m
    → IsNeeded ys m
IsNeeded-mono xs ys m f (needed a i l) = needed a (f a i) l

resolve_mono :
    (xs ys : List ModuleId) (m : ModuleId)
    → ((k : ModuleId) → In xs k → In ys k)
    → In (resolve_dependencies xs) m
    → In (resolve_dependencies ys) m
resolve_mono xs ys m f h =
    (resolve_dependencies_iff ys m).1
      (IsNeeded-mono xs ys m f ((resolve_dependencies_iff xs m).0 h))

IsNeeded-step : (xs : List ModuleId) (a b : ModuleId) → IsNeeded xs a → Requires a b → IsNeeded xs b
IsNeeded-step xs a b (needed c i l) r = needed c i (step l r)

pub resolve-IsClosed : (xs : List ModuleId) → IsClosed (resolve_dependencies xs)
resolve-IsClosed xs a b h r =
    (resolve_dependencies_iff xs b).1 (IsNeeded-step xs a b ((resolve_dependencies_iff xs a).0 h) r)

includes-pushed :
    (x : ModuleId) (ids : List ModuleId) (m : ModuleId)
    → includes (pushed x ids) m ≡ (includes ids m || m == x)
includes-pushed x ids m = elim (Bool-cases (includes ids x)) [
  | inl there ↦ elim (Bool-cases (m == x)) [
    | inl same ↦ ground (arith, there, eq_of_== m x same)
    | inr other ↦ ground (arith, there)
  ]
  | inr gone ↦ ground (arith, gone, includes-append ids (x ∷ []) m)
]

exists-In :
    (held xs : List ModuleId) (a : ModuleId)
    → In held a
    → In xs a
    → exists (λ m. includes held m) xs ≡ true
exists-In held [] a h i = cc
exists-In held (x ∷ xs) a h i = elim (Bool-cases (a == x)) [
  | inl same ↦ ground (arith, h, eq_of_== a x same)
  | inr other ↦ ground (arith, exists-In held xs a h (ground (arith, i, other)))
]

In-select :
    (p : ModuleId → Bool) (xs : List ModuleId) (m : ModuleId)
    → In (select p xs) m
    → (In xs m) × (p m ≡ true)
In-select p xs m h = let e = includes-select p xs m in (ground (arith, e, h), ground (arith, e, h))

select-In :
    (p : ModuleId → Bool) (xs : List ModuleId) (m : ModuleId)
    → In xs m
    → p m ≡ true
    → In (select p xs) m
select-In p xs m i h = includes-select p xs m ∙ ground (arith, i, h)

module _ (grants : List ModuleId) (t : PlatformTenant) (x : ModuleId) where
  kept_in : ModuleId → Bool
  kept_in m = not (includes t.withdrawn m)

  kept_after : ModuleId → Bool
  kept_after m = not (includes (pushed x t.withdrawn) m)

  -- What is kept afterwards was kept before, and is not the module that goes.
  kept_after-true : (m : ModuleId) → kept_after m ≡ true → (kept_in m ≡ true) × ((m == x) ≡ false)
  unfolding kept_in kept_after
  kept_after-true m h =
      let e = includes-pushed x t.withdrawn m in (ground (arith, e, h), ground (arith, e, h))

  kept_after-other : (m : ModuleId) → kept_in m ≡ true → (m == x) ≡ false → kept_after m ≡ true
  unfolding kept_in kept_after
  kept_after-other m h other = ground (arith, includes-pushed x t.withdrawn m, h, other)

  selected_before : List ModuleId
  selected_before = select kept_in (grants ++ t.overrides)

  selected_after : List ModuleId
  selected_after = select kept_after (grants ++ without x t.overrides)

  selected_after-before : (m : ModuleId) → In selected_after m → In selected_before m
  unfolding selected_after selected_before
  selected_after-before m h =
      let (i, k) = In-select kept_after _ m h in
      select-In kept_in _ m
        (includes-append grants t.overrides m
          ∙ ground (
            arith,
            i,
            includes-append grants (without x t.overrides) m,
            includes-select (λ y. not (y == x)) t.overrides m,
          ))
        (kept_after-true m k).0

  held_before : List ModuleId
  held_before = select kept_in (resolve_dependencies selected_before)

  held_after : List ModuleId
  held_after = select kept_after (resolve_dependencies selected_after)

  held_after-before : (m : ModuleId) → In held_after m → In held_before m
  unfolding held_after held_before
  held_after-before m h =
      let (i, k) = In-select kept_after _ m h in
      select-In kept_in _ m (resolve_mono _ _ m selected_after-before i) (kept_after-true m k).0

  held_after-IsClosed :
      exists (λ m. includes held_before m) (dependents_of x) ≡ false
      → IsClosed held_before
      → IsClosed held_after
  unfolding held_after held_before
  held_after-IsClosed free closed a b h r =
      let before = held_after-before a h in
      let (i, k) = In-select kept_after _ a h in
      let b_before = closed a b before r in
      select-In kept_after _ b (resolve-IsClosed _ a b i r)
        (kept_after-other b (In-select kept_in _ b b_before).1 (not_x a b before r))
    where
      not_x : (a b : ModuleId) → In held_before a → Requires a b → (b == x) ≡ false
      not_x a b before r = elim (Bool-cases (b == x)) [
        | inl same ↦ cc (
          free,
          exists-In held_before (dependents_of x) a before
              (dependents_of-In x a (subst (λ y. Requires a y) (eq_of_== b x same) r)),
        )
        | inr other ↦ other
      ]

  held_after-gone : includes held_after x ≡ false
  unfolding held_after kept_after
  held_after-gone =
      includes-select kept_after (resolve_dependencies selected_after) x
      ∙ ground (arith, includes-pushed x t.withdrawn x, ==_refl x)

-- Where a withdrawal is let through, the tenant no longer holds the module, and still holds whatever
-- its modules require, if it did so before.
pub withdrawal-IsClosed :
    (host : Host) (input : ModuleOverrideInput) (tenant : PlatformTenant) (grants : Grants)
    → input.entitled ≡ false
    → check_override host input tenant grants ≡ ok tt
    → IsClosed (modules_of grants tenant)
    → IsClosed (modules_of grants (overridden input.module_id input.entitled tenant))
      × (includes
            (modules_of grants (overridden input.module_id input.entitled tenant))
            input.module_id
          ≡ false)
unfolding tenant_modules held_before held_after selected_before selected_after kept_in kept_after
withdrawal-IsClosed host input tenant grants off checked closed =
    let free : (is_blocked grants tenant input.module_id ≡ false) = ground (arith, off, checked) in
    rw off (
      held_after-IsClosed (grants_of grants tenant.tier) tenant input.module_id free closed,
      held_after-gone (grants_of grants tenant.tier) tenant input.module_id,
    )
