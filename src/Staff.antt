-- ===== src/Staff.antt =====
-- packages/mock/src/store.ts: the staff of a tenant and its seats. Methods are functions from the state
-- to a result with the new state; each throws before it assigns. The clock and `toLowerCase` are
-- arguments. The roles are the built-in ones, since the methods pass no catalog.
use twenty_four.Prelude.Numerals.{◌&◌, number_text}
pub mod Seats
pub mod KeepsOwner
pub mod RoleId
pub mod CustomRoles
mod Tests
use twenty_four.Prelude.{
  ℕ, zero, suc, ◌+◌, ◌-◌, ◌*◌, ◌/◌, ◌%◌, ◌^◌, ◌≤◌, ◌<◌, String, ◌≡◌, refl, sym, ap, ◌∙◌, subst, ◌≢◌,
  ◌↔◌, ◌⊎◌, inl, inr, Bool, true, false, not, ◌&&◌, ◌||◌, Option, none, some, List, [], ◌∷◌, ◌++◌,
  map, arith, ltb, leb, nat_eq, if◌then◌else◌, Bool-cases, Option-cases, length, length-append,
  take, drop, replicate, take-append-drop, length-drop, length-replicate, All, All-append, All-take,
  All-drop, All-replicate, select, find, exists, includes, includes-append, includes-select,
  All-includes,
}
use twenty_four.Prelude.Equality.{Eq, ◌==◌, eq_ℕ, eq_String, by_index, eq_of_==, ==_refl}
use Prim.Native.String
use twenty_four.Prelude.Decimal.{Text, digits}
use twenty_four.Prelude.Results.{
  Result, ok, err, ◌>>=◌, ◌>>◌, throw_if, traverse, >>=-eq-ok, throw_if-eq-ok, traverse-nil-eq-ok,
  traverse-cons-eq-ok, ok-injective,
}
use twenty_four.Entitlement.Resolve.{SeatQuota}
use twenty_four.Rbac.PermissionIds.{staff_manage}
use twenty_four.Rbac.Roles.{built_in_roles, can, can_assign_role}
use twenty_four.Rbac.Team.{
  Status, active, invited, deactivated, is_deactivated, TeamMember, MemberActionRefusal,
  not_permitted, last_owner, self_role, self_deactivate, outranked, ActionCheck, check_role_change,
  check_deactivate, seats_used, can_invite,
}

-- The fields of the team, and the rest.
pub record StaffMember : Type 0 where
  pub member : TeamMember
  pub name : String
  pub email : String
  pub colour : String
  pub invited_at : Option String
  pub last_active_at : Option String
  pub is_self : Bool

-- The part of the store that the methods read and write.
pub record Store : Type 0 where
  pub tenant_id : String
  pub user_id : String
  pub staff : List StaffMember
  pub staff_counter : ℕ
  pub seats : SeatQuota

pub record MockError : Type 0 where
  pub status : ℕ
  pub code : String

abbrev pub mock_error : ℕ → String → MockError
mock_error status code = record { status = status; code = code }

abbrev pub is_invited : Status → Bool
is_invited invited = true
is_invited _ = false

abbrev pub team : Store → List TeamMember
team s = map (λ m. m.member) s.staff

abbrev pub find_in : String → List StaffMember → Option StaffMember
find_in id = find λ m. m.member.id == id

abbrev or_throw {ℓ} : {A : Type ℓ} → Option A → MockError → Result MockError A
or_throw none e = err e
or_throw (some a) e = ok a

unfoldable pub actor : Store → Result MockError TeamMember
actor s = do
  found ← or_throw (find_in s.user_id s.staff) (mock_error 403 "not_a_member")
  ok found.member

unfoldable pub find_staff : String → Store → Result MockError StaffMember
find_staff id s = or_throw (find_in id s.staff) (mock_error 404 "not_found")

abbrev is_user : Store → StaffMember → Bool
is_user s m = m.member.id == s.user_id

abbrev seen_by : Store → StaffMember → StaffMember
seen_by s m = record m { is_self = is_user s m }

unfoldable pub list_staff : Store → List StaffMember
list_staff s = map (seen_by s) s.staff

-- `this.staff = staff`, and `syncSeats`.
abbrev pub with_staff : List StaffMember → Store → Store
with_staff staff s = record s {
  staff = staff;
  seats = record s.seats { used = seats_used (map (λ m. m.member) staff) };
}

-- `this.staff.map((member) => (member.id === id ? updated : member))`
abbrev pub put : String → StaffMember → List StaffMember → List StaffMember
put id updated = map λ m. if m.member.id == id then updated else m

pub record InviteInput : Type 0 where
  pub email : String
  pub name : String
  pub role : String

abbrev staff_id : String → ℕ → String
staff_id tenant n = tenant & "-staff-" & number_text n

-- The id comes from the counter, which only grows.
abbrev pub invitation : (now : String) → InviteInput → Store → StaffMember
invitation now input s = record {
  member = record {
    id = staff_id s.tenant_id (s.staff_counter + 1);
    role = input.role;
    status = invited;
  };
  name = input.name;
  email = input.email;
  colour = "#71717a";
  invited_at = some now;
  last_active_at = none;
  is_self = false;
}

unfoldable pub invite_staff :
    (lower : String → String) (now : String)
    → InviteInput
    → Store
    → Result MockError (StaffMember × Store)
invite_staff lower now input s = do
  me ← actor s
  throw_if (not (can me.role staff_manage built_in_roles)) (mock_error 403 "not_permitted")
  throw_if (not (can_assign_role me.role input.role built_in_roles)) (mock_error 403 "outranked")
  throw_if (not (can_invite s.seats.limit (team s))) (mock_error 409 "seat_limit_reached")
  throw_if (exists (λ m. lower m.email == lower input.email) s.staff)
      (mock_error 409 "already_invited")
  let member = invitation now input s
  ok (
    member,
    with_staff (s.staff ++ member ∷ []) (record s { staff_counter = s.staff_counter + 1 }),
  )

abbrev reason : MemberActionRefusal → MockError
reason not_permitted = mock_error 403 "not_permitted"
reason last_owner = mock_error 409 "last_owner"
reason self_role = mock_error 403 "self_role"
reason self_deactivate = mock_error 403 "self_deactivate"
reason outranked = mock_error 403 "outranked"

abbrev pub allow : ActionCheck → Result MockError (Unit {0})
allow (ok u) = ok u
allow (err e) = err (reason e)

-- `if (c) { ... }` around code that may throw.
abbrev pub when : Bool → Result MockError (Unit {0}) → Result MockError (Unit {0})
when true m = m
when false m = ok tt

-- A status that is not `invited`.
pub data NewStatus : Type 0 where
  activate deactivate : NewStatus

pub record UpdateInput : Type 0 where
  pub role : Option String
  pub status : Option NewStatus

-- `input.role ? input.role : role`: the empty string is no role.
abbrev pub role_after : Option String → String → String
role_after none role = role
role_after (some next) role = if next == "" then role else next

abbrev pub status_after : Option NewStatus → Status → Status
status_after none status = status
status_after (some activate) status = active
status_after (some deactivate) status = deactivated

abbrev pub is_activate : Option NewStatus → Bool
is_activate (some activate) = true
is_activate _ = false

abbrev pub is_deactivate : Option NewStatus → Bool
is_deactivate (some deactivate) = true
is_deactivate _ = false

abbrev pub updated_member : UpdateInput → TeamMember → TeamMember
updated_member input t = record t {
  role = role_after input.role t.role;
  status = status_after input.status t.status;
}

-- The checks of `updateStaff`, in their order.
unfoldable pub check_update : UpdateInput → TeamMember → Store → Result MockError (Unit {0})
check_update input t s = do
  when (not (role_after input.role t.role == t.role)) do
    me ← actor s
    allow (check_role_change me t (role_after input.role t.role) (team s) built_in_roles)
  when (is_deactivate input.status && not (is_deactivated t.status))
      do me ← actor s; allow (check_deactivate me t (team s) built_in_roles)
  when (is_activate input.status && is_deactivated t.status)
      (throw_if (not (can_invite s.seats.limit (team s))) (mock_error 409 "seat_limit_reached"))

unfoldable pub update_staff : String → UpdateInput → Store → Result MockError (StaffMember × Store)
update_staff id input s = do
  target ← find_staff id s
  _ ← check_update input target.member s
  let updated = record target { member = updated_member input target.member }
  ok (seen_by s updated, with_staff (put id updated s.staff) s)

unfoldable pub resend_invitation :
    (now : String) → String → Store → Result MockError (StaffMember × Store)
resend_invitation now id s = do
  target ← find_staff id s
  throw_if (not (is_invited target.member.status)) (mock_error 422 "not_invited")
  let updated = record target { invited_at = some now }
  ok (updated, record s { staff = put id updated s.staff })

unfoldable pub remove_staff : String → Store → Result MockError Store
remove_staff id s = do
  target ← find_staff id s
  me ← actor s
  throw_if (not (can me.role staff_manage built_in_roles)) (mock_error 403 "not_permitted")
  throw_if (not (is_invited target.member.status)) (mock_error 422 "has_history")
  ok (with_staff (select (λ m. not (m.member.id == id)) s.staff) s)
