-- ===== src/Staff/CustomRoles.antt =====
-- packages/mock/src/store.ts: the roles that a tenant defines. `trim` and `toLowerCase` are
-- arguments. The methods only store roles; who may define one is decided elsewhere.
pub mod Apart
use twenty_four.Prelude.{
  String, ◌≡◌, refl, sym, subst, inl, inr, Bool, true, false, not, Option, none, some, List, [],
  ◌∷◌, ◌++◌, map, arith, if◌then◌else◌, Bool-cases, All, All-append, select, find, exists, All-map,
  All-select,
}
use twenty_four.Prelude.Equality.{◌==◌, eq_ℕ, eq_String, eq_of_==, ==_refl}
use twenty_four.Prelude.Results.{Result, ok, err}
use twenty_four.Rbac.PermissionIds.{PermissionId}
use twenty_four.Rbac.Roles.{RoleDefinition, built_in_roles, custom_role_rank}
use twenty_four.Staff.RoleId.{role_id}
use twenty_four.Staff.{MockError, mock_error}

abbrev pub list_roles : List RoleDefinition → List RoleDefinition
list_roles custom = built_in_roles ++ custom

pub record RoleInput : Type 0 where
  pub name : String
  pub description : String
  pub permissions : List PermissionId

-- A part that is left out stays.
pub record RoleChange : Type 0 where
  pub name : Option String
  pub description : Option String
  pub permissions : Option (List PermissionId)

abbrev pub has_id : String → RoleDefinition → Bool
has_id id role = role.id == id

abbrev pub new_role : (trim : String → String) → String → RoleInput → RoleDefinition
new_role trim id input = record {
  id = id;
  name = trim input.name;
  description = trim input.description;
  built_in = false;
  rank = custom_role_rank;
  permissions = input.permissions;
}

unfoldable pub create_role :
    (trim lowercase : String → String)
    → RoleInput
    → List RoleDefinition
    → Result MockError (RoleDefinition × List RoleDefinition)
create_role trim lowercase input custom =
    let id = role_id trim lowercase input.name in
    if id == ""
    then err (mock_error 422 "name_required")
    else if exists (has_id id) (list_roles custom)
    then err (mock_error 409 "name_taken")
    else ok (new_role trim id input, custom ++ (new_role trim id input ∷ []))

-- An empty name is left out too.
abbrev name_after : (trim : String → String) → Option String → String → String
name_after trim none old = old
name_after trim (some name) old = if name == "" then old else trim name

abbrev description_after : (trim : String → String) → Option String → String → String
description_after trim none old = old
description_after trim (some description) old = trim description

abbrev permissions_after : Option (List PermissionId) → List PermissionId → List PermissionId
permissions_after none old = old
permissions_after (some permissions) old = permissions

abbrev pub changed : (trim : String → String) → RoleChange → RoleDefinition → RoleDefinition
changed trim input role = record role {
  name = name_after trim input.name role.name;
  description = description_after trim input.description role.description;
  permissions = permissions_after input.permissions role.permissions;
}

abbrev pub put_role : String → RoleDefinition → RoleDefinition → RoleDefinition
put_role id updated role = if has_id id role then updated else role

abbrev update_found :
    (trim : String → String)
    → String
    → RoleChange
    → List RoleDefinition
    → Option RoleDefinition
    → Result MockError (RoleDefinition × List RoleDefinition)
update_found trim id input custom none = err (mock_error 404 "not_found")
update_found trim id input custom (some existing) =
    ok (changed trim input existing, map (put_role id (changed trim input existing)) custom)

unfoldable pub update_role :
    (trim : String → String)
    → String
    → RoleChange
    → List RoleDefinition
    → Result MockError (RoleDefinition × List RoleDefinition)
update_role trim id input custom = update_found trim id input custom (find (has_id id) custom)

abbrev pub remove_role : String → List RoleDefinition → List RoleDefinition
remove_role id custom = select (λ r. not (has_id id r)) custom

-- No two of the roles share an id.
abbrev pub IsUnique : List RoleDefinition → Type 0
IsUnique [] = Unit
IsUnique (r ∷ rs) = All (λ q. has_id r.id q ≡ false) rs × IsUnique rs

-- The role takes no built-in id, and ranks as a custom role does.
abbrev pub IsCustom : RoleDefinition → Type 0
IsCustom r =
    (exists (has_id r.id) built_in_roles ≡ false)
    × (r.built_in ≡ false)
    × (r.rank ≡ custom_role_rank)

pub record Sane (custom : List RoleDefinition) : Type 0 where
  pub unique : IsUnique custom
  pub own : All IsCustom custom

pub exists-append :
    (p : RoleDefinition → Bool) (xs ys : List RoleDefinition)
    → exists p (xs ++ ys) ≡ false
    → (exists p xs ≡ false) × (exists p ys ≡ false)
exists-append p [] ys h = (refl, h)
exists-append p (x ∷ xs) ys h = elim (Bool-cases (p x)) [
  | inl found ↦ ground (arith, found, h)
  | inr other ↦
      let (a, b) = exists-append p xs ys (ground (arith, other, h)) in (ground (arith, other, a), b)
]

pub IsUnique-append :
    (r : RoleDefinition) (rs : List RoleDefinition)
    → exists (has_id r.id) rs ≡ false
    → IsUnique rs
    → IsUnique (rs ++ (r ∷ []))
IsUnique-append r [] h u = (tt, tt)
IsUnique-append r (q ∷ rs) h (apart, u) =
    let other : (has_id r.id q ≡ false) = ground (arith, h) in
    (
      All-append (λ x. has_id q.id x ≡ false) rs (r ∷ []) apart (flipped q r other, tt),
      IsUnique-append r rs (ground (arith, h)) u,
    )
  where
    flipped : (a b : RoleDefinition) → has_id b.id a ≡ false → has_id a.id b ≡ false
    flipped a b h = elim (Bool-cases (b.id == a.id)) [
      | inl same ↦
          let again =
            subst (λ x. (a.id == x) ≡ true) (sym (eq_of_== b.id a.id same)) (==_refl a.id) in
          cc (again, h)
      | inr other ↦ other
    ]

pub IsUnique-select :
    (p : RoleDefinition → Bool) (rs : List RoleDefinition) → IsUnique rs → IsUnique (select p rs)
IsUnique-select p [] h = tt
IsUnique-select p (r ∷ rs) (apart, u) = elim (Bool-cases (p r)) [
  | inl kept ↦ rw kept (All-select (λ q. has_id r.id q ≡ false) p rs apart, IsUnique-select p rs u)
  | inr gone ↦ rw gone (IsUnique-select p rs u)
]

pub IsUnique-map :
    (f : RoleDefinition → RoleDefinition) (rs : List RoleDefinition)
    → ((r : RoleDefinition) → (f r).id ≡ r.id)
    → IsUnique rs
    → IsUnique (map f rs)
IsUnique-map f [] same h = tt
IsUnique-map f (r ∷ rs) same (apart, u) = (
  All-map (λ q. has_id r.id q ≡ false) (λ q. has_id (f r).id q ≡ false) f rs
      (λ q other. rw (same r, same q) other) apart,
  IsUnique-map f rs same u,
)
