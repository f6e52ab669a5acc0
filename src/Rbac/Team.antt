-- ===== src/Rbac/Team.antt =====
-- packages/rbac/src/roles.ts: the rules that stop a team from locking itself out, and its seats.
-- A refusal keeps its reason; the text that goes with it is left out.
pub mod Owners
pub mod Seats
use twenty_four.Prelude.{
  ℕ, zero, suc, ◌+◌, ◌-◌, ◌*◌, ◌/◌, ◌%◌, ◌^◌, ◌≤◌, ◌<◌, String, ◌≡◌, refl, sym, ap, ◌∙◌, subst, ◌≢◌,
  ◌↔◌, ◌⊎◌, inl, inr, Bool, true, false, not, ◌&&◌, ◌||◌, Option, none, some, List, [], ◌∷◌, ◌++◌,
  map, arith, ltb, leb, nat_eq, if◌then◌else◌, Bool-cases, Option-cases, length, length-append,
  take, drop, replicate, take-append-drop, length-drop, length-replicate, All, All-append, All-take,
  All-drop, All-replicate, select, find, exists, includes, includes-append, includes-select,
  All-includes,
}
use twenty_four.Prelude.Equality.{Eq, ◌==◌, eq_ℕ, eq_String, by_index, eq_of_==, ==_refl}
use twenty_four.Prelude.Results.{
  Result, ok, err, ◌>>=◌, ◌>>◌, throw_if, traverse, >>=-eq-ok, throw_if-eq-ok, traverse-nil-eq-ok,
  traverse-cons-eq-ok, ok-injective,
}
use twenty_four.Rbac.PermissionIds.{PermissionId, staff_roles, staff_manage}
use twenty_four.Rbac.Roles.{RoleCatalog, can, can_assign_role}

pub data Status : Type 0 where
  active invited deactivated : Status

abbrev pub is_deactivated : Status → Bool
is_deactivated deactivated = true
is_deactivated _ = false

pub record TeamMember : Type 0 where
  pub id : String
  pub role : String
  pub status : Status

abbrev pub is_owner : TeamMember → Bool
is_owner m = (m.role == "owner") && not (is_deactivated m.status)

unfoldable pub active_owners : List TeamMember → List TeamMember
active_owners members = select is_owner members

abbrev pub sole : List TeamMember → String → Bool
sole [] member_id = false
sole (m ∷ []) member_id = m.id == member_id
sole (m ∷ n ∷ ms) member_id = false

unfoldable pub is_last_owner : List TeamMember → String → Bool
is_last_owner members member_id = sole (active_owners members) member_id

pub data MemberActionRefusal : Type 0 where
  not_permitted last_owner self_role self_deactivate outranked : MemberActionRefusal

-- `allowed` is `ok`.
abbrev pub ActionCheck : Type 0
ActionCheck = Result MemberActionRefusal (Unit {0})

unfoldable pub check_role_change :
    TeamMember → TeamMember → String → List TeamMember → RoleCatalog → ActionCheck
check_role_change actor target next_role members catalog = do
  throw_if (not (can actor.role staff_roles catalog)) not_permitted
  throw_if (actor.id == target.id) self_role
  throw_if (not (can_assign_role actor.role next_role catalog)) outranked
  throw_if (not (can_assign_role actor.role target.role catalog)) outranked
  throw_if (not (next_role == "owner") && is_last_owner members target.id) last_owner

unfoldable pub check_deactivate :
    TeamMember → TeamMember → List TeamMember → RoleCatalog → ActionCheck
check_deactivate actor target members catalog = do
  throw_if (not (can actor.role staff_manage catalog)) not_permitted
  throw_if (actor.id == target.id) self_deactivate
  throw_if (not (can_assign_role actor.role target.role catalog)) outranked
  throw_if (is_last_owner members target.id) last_owner

unfoldable pub seats_used : List TeamMember → ℕ
seats_used members = length (select (λ m. not (is_deactivated m.status)) members)

abbrev below : Option ℕ → ℕ → Bool
below none used = true
below (some limit) used = ltb used limit

unfoldable pub can_invite : Option ℕ → List TeamMember → Bool
can_invite limit members = below limit (seats_used members)
