-- ===== src/Nav/Shown.antt =====
-- packages/entitlement/src/nav.ts: which entries `buildNav` shows.
use twenty_four.Prelude.{
  ◌<◌, ◌≡◌, refl, sym, ap, ◌∙◌, subst, ◌↔◌, ◌⊎◌, inl, inr, true, false, String, Option, none, some,
  List, [], ◌∷◌, ◌++◌, arith, Bool-cases, length, All, includes,
}
use twenty_four.Entitlement.ModuleData.{ModuleId, eq_ModuleId}
use twenty_four.Entitlement.Resolve.{EntitlementRecord}
use twenty_four.Nav.{
  NavItem, NavGroup, is_shown, module_shown, module_pending, launch_of, item_of, items_of,
  push_group, groups_of, build_nav, all_items,
}
use twenty_four.Nav.Data.{
  NavSpec, SpecGroup, LaunchTargets, LaunchKey, to_pos, to_bookings, to_crm, spec,
}

abbrev pub all_specs : List SpecGroup → List NavSpec
all_specs [] = []
all_specs (g ∷ rest) = g.items ++ all_specs rest

abbrev pub In : List ModuleId → ModuleId → Type 0
In ids m = includes ids m ≡ true

-- An entry that is always there, that belongs to no module, or whose module is held or being set up.
abbrev pub Visible : EntitlementRecord → NavSpec → Type 0
Visible r s =
    (s.always ≡ true)
    ⊎ (s.of_module ≡ none)
    ⊎ ((m : ModuleId) × (s.of_module ≡ some m) × (In r.modules m ⊎ In r.pending m))

-- An entry that belongs to a module which is neither held nor being set up.
abbrev pub Hidden : EntitlementRecord → NavSpec → Type 0
Hidden r s =
    (s.always ≡ false)
    × (m : ModuleId) × (s.of_module ≡ some m)
    × (includes r.modules m ≡ false)
    × (includes r.pending m ≡ false)

-- Where an entry that opens an app leads.
abbrev pub Opens : LaunchTargets → Option LaunchKey → Option String → Type 0
Opens t none to = to ≡ none
Opens t (some to_pos) to = to ≡ some t.pos
Opens t (some to_bookings) to = to ≡ some t.bookings_app
Opens t (some to_crm) to = to ≡ some t.crm_app

-- An item as its entry has it, marked where its module is being set up.
pub record Pictures (r : EntitlementRecord) (t : LaunchTargets) (s : NavSpec) (i : NavItem)
    : Type 0 where
  pub same_names : (i.id ≡ s.id) × (i.label ≡ s.label) × (i.full_name ≡ s.full_name)
  pub same_looks : (i.icon ≡ s.icon) × (i.summary ≡ s.summary)
  pub same_route : i.to ≡ s.to
  pub same_permission : i.permission ≡ s.permission
  pub opens : Opens t s.launch_key i.launch
  pub marked : (i.pending ≡ true) ↔ ((m : ModuleId) × (s.of_module ≡ some m) × In r.pending m)

-- The items of some entries, in the order of the entries.
pub data Shows (r : EntitlementRecord) (t : LaunchTargets)
    : List NavSpec → List NavItem → Type 0 where
  none_left : Shows r t [] []
  shows :
      {s : NavSpec} {specs : List NavSpec} {i : NavItem} {items : List NavItem}
      → Visible r s
      → Pictures r t s i
      → Shows r t specs items
      → Shows r t (s ∷ specs) (i ∷ items)
  hides :
      {s : NavSpec} {specs : List NavSpec} {items : List NavItem}
      → Hidden r s
      → Shows r t specs items
      → Shows r t (s ∷ specs) items

module_shown-Visible :
    (r : EntitlementRecord) (of_module : Option ModuleId)
    → module_shown r of_module ≡ true
    → (of_module ≡ none)
      ⊎ ((m : ModuleId) × (of_module ≡ some m) × (In r.modules m ⊎ In r.pending m))
module_shown-Visible r none h = inl refl
module_shown-Visible r (some m) h = inr (
  m,
  refl,
  elim (Bool-cases (includes r.pending m)) [
    | inl waits ↦ inr waits
    | inr free ↦ inl (ground (arith, h, free))
  ],
)

module_shown-Hidden :
    (r : EntitlementRecord) (of_module : Option ModuleId)
    → module_shown r of_module ≡ false
    → (m : ModuleId) × (of_module ≡ some m)
      × (includes r.modules m ≡ false)
      × (includes r.pending m ≡ false)
module_shown-Hidden r none h = cc
module_shown-Hidden r (some m) h = (m, refl, ground (arith, h), ground (arith, h))

is_shown-Visible : (r : EntitlementRecord) (s : NavSpec) → is_shown r s ≡ true → Visible r s
is_shown-Visible r s h = elim (Bool-cases s.always) [
  | inl always ↦ inl always
  | inr gated ↦ inr (module_shown-Visible r s.of_module (ground (arith, h, gated)))
]

is_shown-Hidden : (r : EntitlementRecord) (s : NavSpec) → is_shown r s ≡ false → Hidden r s
is_shown-Hidden r s h =
    let (m, of_module, not_held, not_pending) =
      module_shown-Hidden r s.of_module (ground (arith, h)) in
    (ground (arith, h), m, of_module, not_held, not_pending)

launch_of-Opens : (t : LaunchTargets) (key : Option LaunchKey) → Opens t key (launch_of t key)
launch_of-Opens t none = refl
launch_of-Opens t (some to_pos) = refl
launch_of-Opens t (some to_bookings) = refl
launch_of-Opens t (some to_crm) = refl

module_pending_iff :
    (r : EntitlementRecord) (of_module : Option ModuleId)
    → (module_pending r of_module ≡ true) ↔ ((m : ModuleId) × (of_module ≡ some m) × In r.pending m)
module_pending_iff r none = (λ h. cc, λ h. cc h.1)
module_pending_iff r (some m) = (
  λ h. (m, refl, h),
  λ h. subst (In r.pending) (ap (λ x. elim x [ none ↦ m | some k ↦ k ]) (sym h.1)) h.2,
)

item_of-Pictures :
    (r : EntitlementRecord) (t : LaunchTargets) (s : NavSpec) → Pictures r t s (item_of r t s)
item_of-Pictures r t s = record {
  same_names = (refl, refl, refl);
  same_looks = (refl, refl);
  same_route = refl;
  same_permission = refl;
  opens = launch_of-Opens t s.launch_key;
  marked = module_pending_iff r s.of_module;
}

items_of-Shows :
    (r : EntitlementRecord) (t : LaunchTargets) (specs : List NavSpec)
    → Shows r t specs (items_of r t specs)
unfolding items_of
items_of-Shows r t [] = none_left
items_of-Shows r t (s ∷ rest) = elim (Bool-cases (is_shown r s)) [
  | inl shown ↦
      rw shown
        (shows (is_shown-Visible r s shown) (item_of-Pictures r t s) (items_of-Shows r t rest))
  | inr hidden ↦ rw hidden (hides (is_shown-Hidden r s hidden) (items_of-Shows r t rest))
]

items_of-append :
    (r : EntitlementRecord) (t : LaunchTargets) (xs ys : List NavSpec)
    → items_of r t (xs ++ ys) ≡ items_of r t xs ++ items_of r t ys
unfolding items_of
items_of-append r t [] ys = refl
items_of-append r t (s ∷ rest) ys = elim (Bool-cases (is_shown r s)) [
  | inl shown ↦ rw (shown, items_of-append r t rest ys) refl
  | inr hidden ↦ rw (hidden, items_of-append r t rest ys) refl
]

all_items-push_group :
    (g : SpecGroup) (items : List NavItem) (groups : List NavGroup)
    → all_items (push_group g items groups) ≡ items ++ all_items groups
all_items-push_group g [] groups = refl
all_items-push_group g (i ∷ items) groups = refl

all_items-groups_of :
    (r : EntitlementRecord) (t : LaunchTargets) (gs : List SpecGroup)
    → all_items (groups_of r t gs) ≡ items_of r t (all_specs gs)
unfolding groups_of items_of
all_items-groups_of r t [] = refl
all_items-groups_of r t (g ∷ rest) =
    all_items-push_group g (items_of r t g.items) (groups_of r t rest)
    ∙ ap (λ x. items_of r t g.items ++ x) (all_items-groups_of r t rest)
    ∙ sym (items_of-append r t g.items (all_specs rest))

abbrev pub HasItems : NavGroup → Type 0
HasItems g = 0 < length g.items

push_group-HasItems :
    (g : SpecGroup) (items : List NavItem) (groups : List NavGroup)
    → All HasItems groups
    → All HasItems (push_group g items groups)
push_group-HasItems g [] groups h = h
push_group-HasItems g (i ∷ items) groups h = (omega arith, h)

groups_of-HasItems :
    (r : EntitlementRecord) (t : LaunchTargets) (gs : List SpecGroup)
    → All HasItems (groups_of r t gs)
unfolding groups_of
groups_of-HasItems r t [] = tt
groups_of-HasItems r t (g ∷ rest) =
    push_group-HasItems g (items_of r t g.items) (groups_of r t rest) (groups_of-HasItems r t rest)

-- The navigation goes through the entries in their order. It shows each that is always there, that
-- belongs to no module or whose module is held or being set up, with the names, icon, summary, route
-- and permission of the entry, the address of the app that it opens, and a mark exactly where its
-- module is being set up. It shows no other entry, and has no group without entries.
pub build_nav-Shows :
    (r : EntitlementRecord) (t : LaunchTargets)
    → Shows r t (all_specs spec) (all_items (build_nav r t)) × All HasItems (build_nav r t)
unfolding build_nav
build_nav-Shows r t = (
  subst (Shows r t (all_specs spec)) (sym (all_items-groups_of r t spec))
      (items_of-Shows r t (all_specs spec)),
  groups_of-HasItems r t spec,
)
