-- ===== src/Staff/Tests.antt =====
-- Runs of the staff methods of packages/mock/src/store.ts, and their theorems at a concrete team.
use twenty_four.Prelude.{ℕ, ◌≤◌, String, ◌≡◌, refl, false, Option, none, some, [], ◌∷◌, arith}
use twenty_four.Prelude.Equality.{eq_ℕ, eq_String}
use twenty_four.Prelude.Results.{ok}
use twenty_four.Entitlement.Resolve.{EntitlementRecord, resolve_entitlement, can_add_staff}
use twenty_four.Entitlement.TierData.{starter}
use twenty_four.Rbac.Roles.{RoleDefinition, can}
use twenty_four.Rbac.Team.{Status, active, invited, deactivated, seats_used, can_invite}
use twenty_four.Rbac.Team.Owners.{Distinct}
use twenty_four.Staff.{
  StaffMember, Store, InviteInput, UpdateInput, activate, team, actor, find_staff, check_update,
  invite_staff, update_staff, resend_invitation, remove_staff,
}
use twenty_four.Staff.CustomRoles.{RoleInput, new_role, create_role, remove_role, Sane}
use twenty_four.Staff.RoleId.{role_id, underscored, back_off}
use twenty_four.Staff.CustomRoles.Apart.{RolesReach-Sane, here, then_step, creates, removes}
use twenty_four.Staff.Seats.{SeatsHold, staff-SeatsHold, can_add_staff-eq-can_invite}

abbrev person : String → String → Status → StaffMember
person id role status = record {
  member = record { id = id; role = role; status = status };
  name = id;
  email = id;
  colour = "#71717a";
  invited_at = none;
  last_active_at = none;
  is_self = false;
}

-- Ada and Bo own the shop, Cy manages it, Di is a member of staff. Ada is signed in.
abbrev shop : Store
shop = record {
  tenant_id = "t1";
  user_id = "ada";
  staff =
      person "ada" "owner" active
      ∷ person "bo" "owner" active
      ∷ person "cy" "manager" active
      ∷ person "di" "staff" deactivated
      ∷ [];
  staff_counter = 4;
  seats = record { limit = some 5; used = 3 };
}

-- Bo becomes a manager.
abbrev demotion : UpdateInput
demotion = record { role = some "manager"; status = none }

abbrev bo_after : StaffMember
bo_after = person "bo" "manager" active

abbrev shop_after : Store
shop_after = record shop {
  staff =
      person "ada" "owner" active
      ∷ bo_after
      ∷ person "cy" "manager" active
      ∷ person "di" "staff" deactivated
      ∷ [];
}

shop-Distinct : Distinct (team shop)
shop-Distinct = ((refl, (refl, (refl, tt))), ((refl, (refl, tt)), ((refl, tt), (tt, tt))))

shop-SeatsHold : SeatsHold shop
unfolding seats_used
shop-SeatsHold = record { synced = refl; within = λ limit e. three_of limit e }
  where
    three_of : (limit : ℕ) → Path (Option ℕ) (some 5) (some limit) → 3 ≤ limit
    three_of limit e = ground arith

staff-SeatsHold_example :
    ((input : InviteInput) (m : StaffMember) (s' : Store)
      → invite_staff (λ x. x) "now" input shop ≡ ok (m, s')
      → SeatsHold s')
    × ((input : UpdateInput) (m : StaffMember) (s' : Store)
        → update_staff "bo" input shop ≡ ok (m, s')
        → SeatsHold s')
    × ((m : StaffMember) (s' : Store)
        → resend_invitation "now" "bo" shop ≡ ok (m, s')
        → SeatsHold s')
    × ((s' : Store) → remove_staff "bo" shop ≡ ok s' → SeatsHold s')
staff-SeatsHold_example = staff-SeatsHold (λ x. x) "now" "bo" shop shop-Distinct shop-SeatsHold

abbrev plan : EntitlementRecord
plan = resolve_entitlement (record {
  tenant_id = "t1";
  tier = starter;
  industry = "bar_pub";
  overrides = none;
  seats_used = some 3;
  seat_limit_override = none;
  pending = none;
})

three_seats : 3 ≡ seats_used (team shop)
unfolding seats_used
three_seats = refl

can_add_staff-eq-can_invite_example : can_add_staff plan ≡ can_invite plan.seats.limit (team shop)
can_add_staff-eq-can_invite_example = can_add_staff-eq-can_invite plan (team shop) three_seats

-- A team whose one owner has not accepted the invitation yet, seen by the manager.
abbrev early : Store
early = record {
  tenant_id = "t1";
  user_id = "cy";
  staff = person "bo" "owner" invited ∷ person "cy" "manager" active ∷ [];
  staff_counter = 2;
  seats = record { limit = some 5; used = 2 };
}

-- Nothing in `removeStaff` asks for the rank of the person removed, or for another owner.
last_owner_removed :
    remove_staff "bo" early
    ≡ ok (record early {
      staff = person "cy" "manager" active ∷ [];
      seats = record { limit = some 5; used = 1 };
    })
unfolding remove_staff find_staff actor can seats_used
last_owner_removed = refl

-- A member of staff, who may not change who has access, lets an owner back in.
abbrev later : Store
later = record {
  tenant_id = "t1";
  user_id = "di";
  staff = person "bo" "owner" deactivated ∷ person "di" "staff" active ∷ [];
  staff_counter = 2;
  seats = record { limit = some 5; used = 1 };
}

reactivated_by_staff :
    update_staff "bo" (record { role = none; status = some activate }) later
    ≡ ok (
      person "bo" "owner" active,
      record later {
        staff = person "bo" "owner" active ∷ person "di" "staff" active ∷ [];
        seats = record { limit = some 5; used = 2 };
      },
    )
unfolding update_staff find_staff check_update can_invite seats_used
reactivated_by_staff = refl

shift_lead_id : role_id (λ x. x) (λ x. x) "shift lead (nights)" ≡ "shift_lead_nights"
unfolding role_id underscored back_off
shift_lead_id = refl

abbrev stock_taker : RoleInput
stock_taker = record { name = "counter"; description = "Counts the stock."; permissions = [] }

abbrev counter_role : RoleDefinition
counter_role = new_role (λ x. x) "counter" stock_taker

counter_made : create_role (λ x. x) (λ x. x) stock_taker [] ≡ ok (counter_role, counter_role ∷ [])
unfolding create_role role_id underscored back_off
counter_made = refl

RolesReach-Sane_example : Sane (remove_role "owner" (counter_role ∷ []))
RolesReach-Sane_example =
    RolesReach-Sane {custom = []}
      (then_step (then_step here (creates (λ x. x) (λ x. x) stock_taker counter_role counter_made))
        (removes "owner"))
      (record { unique = tt; own = tt })
