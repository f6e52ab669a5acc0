-- ===== src/Entitlement/Modules/Closure.antt =====
-- `resolveDependencies` of packages/entitlement/src/modules.ts finds the least set that holds a selection
-- and all that its members require. The search is depth-first with a set of what it has met.
use twenty_four.Prelude.{
  ℕ, zero, suc, ◌<◌, ◌≡◌, refl, sym, ◌∙◌, subst, ◌↔◌, ◌⊎◌, inl, inr, true, List, [], ◌∷◌, arith,
  Bool-cases, All, includes, includes-select, All-includes,
}
use twenty_four.Prelude.Equality.{◌==◌, eq_ℕ, eq_String, eq_of_==, ==_refl}
use twenty_four.Entitlement.ModuleData.{
  ModuleId, eq_ModuleId, all_module_ids, module_definition, module_id_index,
}
use twenty_four.Entitlement.Modules.{
  visit, visit_all, fuel, resolved_set, resolve_dependencies, dependents_of,
}

abbrev pub In : List ModuleId → ModuleId → Type 0
In s m = includes s m ≡ true

abbrev pub Requires : ModuleId → ModuleId → Type 0
Requires a b = In (module_definition a).requires b

-- A chain of requirements leads from `a` to the other module.
pub data Leads (a : ModuleId) : ModuleId → Type 0 where
  here : Leads a a
  step : {b c : ModuleId} → Leads a b → Requires b c → Leads a c

-- Some selected module leads to `m`.
pub data IsNeeded (selected : List ModuleId) (m : ModuleId) : Type 0 where
  needed : (a : ModuleId) → In selected a → Leads a m → IsNeeded selected m

Leads-step_first : {a b m : ModuleId} → Requires a b → Leads b m → Leads a m
Leads-step_first r here = step here r
Leads-step_first r (step l k) = step (Leads-step_first r l) k

IsNeeded-tail :
    {a : ModuleId} {ids : List ModuleId} {m : ModuleId} → IsNeeded ids m → IsNeeded (a ∷ ids) m
IsNeeded-tail (needed b i l) = needed b (ground arith) l

IsNeeded-head :
    {a : ModuleId} {ids : List ModuleId} {m : ModuleId} → IsNeeded (a ∷ []) m → IsNeeded (a ∷ ids) m
IsNeeded-head (needed b i l) = needed b (ground arith) l

IsNeeded-enter :
    (id m : ModuleId) → IsNeeded (module_definition id).requires m → IsNeeded (id ∷ []) m
IsNeeded-enter id m (needed b i l) = needed id (rw (==_refl id) refl) (Leads-step_first i l)

-- What a visit of `from` does to the set: it only grows, and what is new was needed and has all that
-- it requires.
record Visited (from s s' : List ModuleId) : Type 0 where
  grows : (m : ModuleId) → In s m → In s' m
  met : (m : ModuleId) → In from m → In s' m
  fresh :
      (m : ModuleId)
      → In s' m
      → In s m ⊎ (IsNeeded from m × ((b : ModuleId) → Requires m b → In s' b))

requires_low :
    (a : ModuleId) → All (λ b. module_id_index b < module_id_index a) (module_definition a).requires
requires_low ModuleId.identity_tenancy = tt
requires_low _ = omega arith

-- Every requirement stands earlier in the catalog.
Requires-lt : (a b : ModuleId) → Requires a b → module_id_index b < module_id_index a
Requires-lt a b r =
    All-includes (λ c. module_id_index c < module_id_index a) (module_definition a).requires b
      (requires_low a) r

In-cons : (a : ModuleId) (ids : List ModuleId) (m : ModuleId) → In (a ∷ ids) m → (m ≡ a) ⊎ In ids m
In-cons a ids m h = elim (Bool-cases (m == a)) [
  | inl same ↦ inl (eq_of_== m a same)
  | inr other ↦ inr (ground arith)
]

In-one : (a m : ModuleId) → In (a ∷ []) m → m ≡ a
In-one a m h = elim (In-cons a [] m h) [ inl e ↦ e | inr k ↦ cc ]

In-head : (a : ModuleId) (ids : List ModuleId) → In (a ∷ ids) a
In-head a ids = rw (==_refl a) refl

In-tail : (a : ModuleId) (ids : List ModuleId) (m : ModuleId) → In ids m → In (a ∷ ids) m
In-tail a ids m h = ground arith

-- One visit after another.
Visited-cons :
    (id : ModuleId) (ids s s1 s2 : List ModuleId)
    → Visited (id ∷ []) s s1
    → Visited ids s1 s2
    → Visited (id ∷ ids) s s2
Visited-cons id ids s s1 s2 first rest = record {
  grows = λ m h. rest.grows m (first.grows m h);
  met = λ m h. elim (In-cons id ids m h) [
    | inl e ↦ rest.grows m (first.met m (rw e (In-head id [])))
    | inr k ↦ rest.met m k
  ];
  fresh = λ m h. elim (rest.fresh m h) [
    | inl old ↦ elim (first.fresh m old) [
      | inl o ↦ inl o
      | inr new ↦ inr (IsNeeded-head new.0, λ b r. rest.grows b (new.1 b r))
    ]
    | inr new ↦ inr (IsNeeded-tail new.0, new.1)
  ];
}

visit_all-Visited :
    (f : ℕ)
    → ((id : ModuleId) (s : List ModuleId)
        → module_id_index id < f
        → Visited (id ∷ []) s (visit f id s))
    → (ids s : List ModuleId) → ((b : ModuleId) → In ids b → module_id_index b < f)
    → Visited ids s (visit_all (visit f) ids s)
unfolding visit_all
visit_all-Visited f one [] s low = record {
  grows = λ m h. h;
  met = λ m h. cc;
  fresh = λ m h. inl h;
}
visit_all-Visited f one (id ∷ ids) s low =
    Visited-cons id ids s (visit f id s) (visit_all (visit f) ids (visit f id s))
      (one id s (low id (In-head id ids)))
      (visit_all-Visited f one ids (visit f id s) (λ b h. low b (In-tail id ids b h)))

-- To visit a module is to add it and to visit what it requires.
Visited-enter :
    (id : ModuleId) (s s' : List ModuleId)
    → Visited (module_definition id).requires (id ∷ s) s'
    → Visited (id ∷ []) s s'
Visited-enter id s s' below = record {
  grows = λ m h. below.grows m (In-tail id s m h);
  met = λ m h. below.grows m (rw (In-one id m h) (In-head id s));
  fresh = λ m h. elim (below.fresh m h) [
    | inl old ↦ elim (In-cons id s m old) [
      | inl e ↦ inr (
        needed id (In-head id []) (rw e here),
        λ b r. below.met b (subst (λ x. Requires x b) e r),
      )
      | inr o ↦ inl o
    ]
    | inr new ↦ inr (IsNeeded-enter id m new.0, new.1)
  ];
}

Visited-again : (id : ModuleId) (s : List ModuleId) → In s id → Visited (id ∷ []) s s
Visited-again id s known = record {
  grows = λ m h. h;
  met = λ m h. rw (In-one id m h) known;
  fresh = λ m h. inl h;
}

-- The depth of the search is bounded by the place of the module it starts from.
visit-Visited :
    (f : ℕ) (id : ModuleId) (s : List ModuleId)
    → module_id_index id < f
    → Visited (id ∷ []) s (visit f id s)
unfolding visit
visit-Visited zero id s low = record {
  grows = λ m h. h;
  met = λ m h. ground arith;
  fresh = λ m h. inl h;
}
visit-Visited (suc f) id s low = elim (Bool-cases (includes s id)) [
  | inl known ↦ rw known (Visited-again id s known)
  | inr new ↦ rw new (
      Visited-enter id s _ (
        visit_all-Visited f (visit-Visited f) (module_definition id).requires (id ∷ s)
          (λ b r. omega (arith, Requires-lt id b r))))
]

index_lt_fuel : (m : ModuleId) → module_id_index m < fuel
index_lt_fuel m = grind arith

resolved_set-Visited : (selected : List ModuleId) → Visited selected [] (resolved_set selected)
unfolding resolved_set
resolved_set-Visited selected =
    visit_all-Visited fuel (visit-Visited fuel) selected [] (λ b _. index_lt_fuel b)

all_module_ids-In : (m : ModuleId) → In all_module_ids m
all_module_ids-In m = grind arith

includes-resolve_dependencies :
    (selected : List ModuleId) (m : ModuleId)
    → includes (resolve_dependencies selected) m ≡ includes (resolved_set selected) m
unfolding resolve_dependencies
includes-resolve_dependencies selected m = ground (
  arith,
  includes-select (includes (resolved_set selected)) all_module_ids m,
  all_module_ids-In m,
)

-- What a resolved selection holds is closed under what its members require.
resolved_set-closed :
    (selected : List ModuleId) (a b : ModuleId)
    → In (resolved_set selected) a
    → Requires a b
    → In (resolved_set selected) b
resolved_set-closed selected a b i r = elim ((resolved_set-Visited selected).fresh a i) [
  | inl none_yet ↦ cc
  | inr new ↦ new.1 b r
]

resolved_set-Leads :
    (selected : List ModuleId) {a m : ModuleId}
    → In (resolved_set selected) a
    → Leads a m
    → In (resolved_set selected) m
resolved_set-Leads selected i here = i
resolved_set-Leads selected i (step {b} {c} l r) =
    resolved_set-closed selected b c (resolved_set-Leads selected i l) r

resolved_set_complete :
    (selected : List ModuleId) (m : ModuleId) → IsNeeded selected m → In (resolved_set selected) m
resolved_set_complete selected m (needed a i l) =
    resolved_set-Leads selected ((resolved_set-Visited selected).met a i) l

resolved_set_sound :
    (selected : List ModuleId) (m : ModuleId) → In (resolved_set selected) m → IsNeeded selected m
resolved_set_sound selected m h = elim ((resolved_set-Visited selected).fresh m h) [
  | inl none_yet ↦ cc
  | inr new ↦ new.0
]

-- A module is in the resolution of a selection exactly when a chain of requirements leads to it from
-- some selected module.
pub resolve_dependencies_iff :
    (selected : List ModuleId) (m : ModuleId)
    → (includes (resolve_dependencies selected) m ≡ true) ↔ IsNeeded selected m
resolve_dependencies_iff selected m = (
  λ h. resolved_set_sound selected m (sym (includes-resolve_dependencies selected m) ∙ h),
  λ n. includes-resolve_dependencies selected m ∙ resolved_set_complete selected m n,
)

-- Every module that requires another is among its dependents.
pub dependents_of-In : (x a : ModuleId) → Requires a x → In (dependents_of x) a
unfolding dependents_of
dependents_of-In x a r =
    includes-select (λ m. includes (module_definition m).requires x) all_module_ids a
    ∙ ground (arith, r, all_module_ids-In a)
