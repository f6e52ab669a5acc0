-- ===== src/Staff/CustomRoles/Apart.antt =====
-- packages/mock/src/store.ts: the roles that a tenant defines keep apart from each other and from the
-- built-in ones.
use twenty_four.Prelude.{
  String, ◌≡◌, refl, sym, ap, ◌∙◌, subst, inl, inr, Bool, true, false, some, List, [], ◌∷◌, ◌++◌,
  map, arith, Bool-cases, Option-cases, All, All-append, find, exists, All-map, All-select,
}
use twenty_four.Prelude.Equality.{◌==◌, eq_ℕ, eq_String, eq_of_==}
use twenty_four.Prelude.Results.{ok, ok-injective}
use twenty_four.Rbac.Roles.{RoleDefinition, built_in_roles, custom_role_rank}
use twenty_four.Staff.RoleId.{role_id}
use twenty_four.Staff.CustomRoles.{
  list_roles, RoleInput, RoleChange, has_id, new_role, create_role, changed, put_role, update_role,
  remove_role, IsCustom, Sane, exists-append, IsUnique-append, IsUnique-select, IsUnique-map,
}

-- A call that returns, and the roles that it leaves.
pub data RoleStep (custom : List RoleDefinition) : List RoleDefinition → Type 0 where
  creates :
      (trim lowercase : String → String) (input : RoleInput) (role : RoleDefinition)
      {after : List RoleDefinition}
      → create_role trim lowercase input custom ≡ ok (role, after)
      → RoleStep custom after
  updates :
      (trim : String → String) (id : String) (input : RoleChange) (role : RoleDefinition)
      {after : List RoleDefinition}
      → update_role trim id input custom ≡ ok (role, after)
      → RoleStep custom after
  removes : (id : String) → RoleStep custom (remove_role id custom)

pub data RolesReach (custom : List RoleDefinition) : List RoleDefinition → Type 0 where
  here : RolesReach custom custom
  then_step :
      {one two : List RoleDefinition}
      → RolesReach custom one
      → RoleStep one two
      → RolesReach custom two

created-Sane :
    (role : RoleDefinition) (custom : List RoleDefinition)
    → role.built_in ≡ false
    → role.rank ≡ custom_role_rank
    → exists (has_id role.id) (list_roles custom) ≡ false
    → Sane custom
    → Sane (custom ++ (role ∷ []))
created-Sane role custom own rank free h =
    let (free_built_in, free_custom) = exists-append (has_id role.id) built_in_roles custom free in
    record {
      unique = IsUnique-append role custom free_custom h.unique;
      own = All-append IsCustom custom (role ∷ []) h.own ((free_built_in, own, rank), tt);
    }

create_role-Sane :
    (trim lowercase : String → String) (input : RoleInput) (custom after : List RoleDefinition)
    (role : RoleDefinition)
    → create_role trim lowercase input custom ≡ ok (role, after)
    → Sane custom
    → Sane after
unfolding create_role
create_role-Sane trim lowercase input custom after role made h =
    elim (Bool-cases (role_id trim lowercase input.name == "")) [
      | inl empty ↦ cc (rw empty at made)
      | inr named ↦
          elim (Bool-cases
            (exists (has_id (role_id trim lowercase input.name)) (list_roles custom))) [
              | inl taken ↦ cc (rw (named, taken) at made)
              | inr free ↦ subst Sane (ap (λ x. x.1) (ok-injective (rw (named, free) at made))) (
                  created-Sane (new_role trim (role_id trim lowercase input.name) input) custom refl
                    refl free h)
            ]
    ]

-- What is found passes the test, and is one of the list.
find-passes :
    (P : RoleDefinition → Type 0) (p : RoleDefinition → Bool) (rs : List RoleDefinition)
    {r : RoleDefinition}
    → find p rs ≡ some r
    → All P rs
    → (p r ≡ true) × P r
find-passes P p [] e h = cc
find-passes P p (q ∷ rs) {r} e h = elim (Bool-cases (p q)) [
  | inl found ↦
      let same : (q ≡ r) = ground (arith, found, e) in
      (subst (λ x. p x ≡ true) same found, subst P same h.0)
  | inr other ↦ find-passes P p rs (ground (arith, other, e)) h.1
]

put_role-id :
    (id : String) (updated r : RoleDefinition)
    → has_id id updated ≡ true
    → (put_role id updated r).id ≡ r.id
put_role-id id updated r same = elim (Bool-cases (has_id id r)) [
  | inl there ↦ rw there (eq_of_== updated.id id same ∙ sym (eq_of_== r.id id there))
  | inr other ↦ rw other refl
]

put_role-IsCustom :
    (id : String) (updated r : RoleDefinition)
    → IsCustom updated
    → IsCustom r
    → IsCustom (put_role id updated r)
put_role-IsCustom id updated r new old = elim (Bool-cases (has_id id r)) [
  | inl there ↦ rw there new
  | inr other ↦ rw other old
]

updated-Sane :
    (trim : String → String) (id : String) (input : RoleChange) (custom : List RoleDefinition)
    (existing : RoleDefinition)
    → find (has_id id) custom ≡ some existing
    → Sane custom
    → Sane (map (put_role id (changed trim input existing)) custom)
updated-Sane trim id input custom existing found h =
    let (same, own) = find-passes IsCustom (has_id id) custom found h.own in
    record {
      unique =
          IsUnique-map (put_role id (changed trim input existing)) custom
            (λ r. put_role-id id (changed trim input existing) r same) h.unique;
      own =
          All-map IsCustom IsCustom (put_role id (changed trim input existing)) custom
            (λ r old. put_role-IsCustom id (changed trim input existing) r own old) h.own;
    }

update_role-Sane :
    (trim : String → String) (id : String) (input : RoleChange) (custom after : List RoleDefinition)
    (role : RoleDefinition)
    → update_role trim id input custom ≡ ok (role, after)
    → Sane custom
    → Sane after
unfolding update_role
update_role-Sane trim id input custom after role made h =
    elim (Option-cases (find (has_id id) custom)) [
      | inl none_there ↦ cc (rw none_there at made)
      | inr (existing, found) ↦
          subst Sane (ap (λ x. x.1) (ok-injective (rw found at made)))
            (updated-Sane trim id input custom existing found h)
    ]

RoleStep-Sane :
    {custom after : List RoleDefinition} → RoleStep custom after → Sane custom → Sane after
RoleStep-Sane {custom} {after} (creates trim lowercase input role made) h =
    create_role-Sane trim lowercase input custom after role made h
RoleStep-Sane {custom} {after} (updates trim id input role made) h =
    update_role-Sane trim id input custom after role made h
RoleStep-Sane {custom} (removes id) h = record {
  unique = IsUnique-select _ custom h.unique;
  own = All-select IsCustom _ custom h.own;
}

-- After any number of roles have been created, updated or removed, no two custom roles share an id, none
-- takes the id of a built-in one, and each keeps the rank of a custom role, if that was so before.
pub RolesReach-Sane :
    {custom after : List RoleDefinition} → RolesReach custom after → Sane custom → Sane after
RolesReach-Sane here h = h
RolesReach-Sane (then_step r step) h = RoleStep-Sane step (RolesReach-Sane r h)
