-- ===== src/Staff/Seats.antt =====
-- packages/mock/src/store.ts: the seats of the entitlement through every operation on staff.
use twenty_four.Prelude.{
  ◌-◌, ltb, ap, subst, ◌≤◌, ℕ, ◌-◌, ◌≤◌, ◌<◌, String, ◌≡◌, refl, sym, ap, ◌∙◌, subst, inl, inr,
  true, false, not, ◌&&◌, Option, some, List, [], ◌∷◌, ◌++◌, map, arith, ltb, Option-cases, select,
  exists,
}
use twenty_four.Prelude.Equality.{◌==◌, eq_ℕ, eq_String}
use twenty_four.Prelude.Results.{ok, >>=-eq-ok, ok-injective, >>-eq-ok}
use twenty_four.Entitlement.Resolve.{EntitlementRecord, can_add_staff}
use twenty_four.Rbac.PermissionIds.{staff_manage}
use twenty_four.Rbac.Roles.{built_in_roles, can, can_assign_role}
use twenty_four.Rbac.Team.{TeamMember, is_deactivated, seats_used, can_invite}
use twenty_four.Rbac.Team.Owners.{Distinct}
use twenty_four.Rbac.Team.Seats.{
  seat, seats_used-append, seats_used-select, seats_used-replace, can_invite_iff,
}
use twenty_four.Staff.{
  StaffMember, Store, team, find_in, actor, find_staff, put, InviteInput, UpdateInput, is_activate,
  is_invited, updated_member, invite_staff, update_staff, resend_invitation, remove_staff,
  invitation,
}
use twenty_four.Staff.KeepsOwner.{update_staff-ok, find-team, or_throw-ok, map-put, not-false}

-- The entitlement counts the seats of the team, and they are within its limit.
pub record SeatsHold (s : Store) : Type 0 where
  pub synced : s.seats.used ≡ seats_used (team s)
  pub within : (limit : ℕ) → s.seats.limit ≡ some limit → seats_used (team s) ≤ limit

map-append :
    (xs ys : List StaffMember)
    → map (λ m. m.member) (xs ++ ys) ≡ map (λ m. m.member) xs ++ map (λ m. m.member) ys
map-append [] ys = refl
map-append (x ∷ xs) ys = rw (map-append xs ys) refl

map-select :
    (id : String) (xs : List StaffMember)
    → map (λ m. m.member) (select (λ m. not (m.member.id == id)) xs)
      ≡ select (λ m. not (m.id == id)) (map (λ m. m.member) xs)
map-select id [] = refl
map-select id (x ∷ xs) = ground (arith, map-select id xs)

can_invite-lt :
    (o : Option ℕ) (ms : List TeamMember) (limit : ℕ)
    → can_invite o ms ≡ true
    → o ≡ some limit
    → seats_used ms < limit
can_invite-lt o ms limit h e = (can_invite_iff limit ms).0 (subst (λ x. can_invite x ms ≡ true) e h)

seat_le_one : (m : TeamMember) → seat m ≤ 1
seat_le_one m = ground arith

left_iff_below : (limit used n : ℕ) → used ≡ n → ltb 0 (limit - used) ≡ ltb n limit
left_iff_below limit used n e = ground arith

invite_staff-SeatsHold :
    (lower : String → String) (now : String) (input : InviteInput) (s : Store) {m : StaffMember}
    {s' : Store}
    → invite_staff lower now input s ≡ ok (m, s')
    → SeatsHold s'
unfolding invite_staff
invite_staff-SeatsHold lower now input s h =
    let (me, _, asked) = >>=-eq-ok (actor s) _ h in
    let (_, ranked) = >>-eq-ok (not (can me.role staff_manage built_in_roles)) _ _ asked in
    let (_, counted) =
      >>-eq-ok (not (can_assign_role me.role input.role built_in_roles)) _ _ ranked in
    let (left, new) = >>-eq-ok (not (can_invite s.seats.limit (team s))) _ _ counted in
    let (_, last) = >>-eq-ok (exists (λ n. lower n.email == lower input.email) s.staff) _ _ new in
    let one = (invitation now input s).member in
    subst SeatsHold (ap (λ r. r.1) (ok-injective last)) (record {
      synced = refl;
      within = λ limit e. rw (map-append s.staff (invitation now input s ∷ [])) (
          omega (
            arith,
            seats_used-append (team s) one,
            seat_le_one one,
            can_invite-lt s.seats.limit (team s) limit (not-false _ left) e,
          ));
    })

resend_invitation-SeatsHold :
    (now id : String) (s : Store) {m : StaffMember} {s' : Store}
    → Distinct (team s)
    → SeatsHold s
    → resend_invitation now id s ≡ ok (m, s')
    → SeatsHold s'
unfolding resend_invitation find_staff
resend_invitation-SeatsHold now id s distinct hold h =
    let (target, found, h1) = >>=-eq-ok (find_staff id s) _ h in
    let (_, last) = >>-eq-ok (not (is_invited target.member.status)) _ _ h1 in
    let known = find-team id s.staff target (or_throw-ok (find_in id s.staff) _ found) in
    let updated = record target { invited_at = some now } in
    let count = seats_used-replace id target.member target.member (team s) distinct known.0 in
    let same_count : seats_used (map (λ n. n.member) (put id updated s.staff))
        ≡ seats_used (team s) =
      rw (map-put id updated s.staff) (omega (arith, count)) in
    subst SeatsHold (ap (λ r. r.1) (ok-injective last)) (record {
      synced = omega (arith, hold.synced, same_count);
      within = λ limit e. omega (arith, hold.within limit e, same_count);
    })

remove_staff-SeatsHold :
    (id : String) (s : Store) {s' : Store} → SeatsHold s → remove_staff id s ≡ ok s' → SeatsHold s'
unfolding remove_staff
remove_staff-SeatsHold id s hold h =
    let (target, _, asked) = >>=-eq-ok (find_staff id s) _ h in
    let (me, _, allowed) = >>=-eq-ok (actor s) _ asked in
    let (_, fresh) = >>-eq-ok (not (can me.role staff_manage built_in_roles)) _ _ allowed in
    let (_, last) = >>-eq-ok (not (is_invited target.member.status)) _ _ fresh in
    subst SeatsHold (ok-injective last) (record {
      synced = refl;
      within = λ limit e.
          rw (map-select id s.staff) (
            omega (arith, hold.within limit e, seats_used-select (λ m. not (m.id == id)) (team s)));
    })

-- Only a deactivated account that becomes active takes a seat.
seat-updated :
    (input : UpdateInput) (t : TeamMember)
    → (is_activate input.status && is_deactivated t.status) ≡ false
    → seat (updated_member input t) ≤ seat t
seat-updated input t h = ground arith

update_staff-SeatsHold :
    (id : String) (input : UpdateInput) (s : Store) {m : StaffMember} {s' : Store}
    → Distinct (team s)
    → SeatsHold s
    → update_staff id input s ≡ ok (m, s')
    → SeatsHold s'
update_staff-SeatsHold id input s distinct hold h =
    let (t, found, _, checked, after, limit_kept, synced) = update_staff-ok id input s h in
    let u = updated_member input t in
    let count = seats_used-replace id t u (team s) distinct found in
    record {
      synced = synced;
      within = λ limit e. rw after (elim checked.start_allowed [
        | inl still ↦
            omega (arith, count, seat-updated input t still, hold.within limit (sym limit_kept ∙ e))
        | inr left ↦ omega (
          arith,
          count,
          seat_le_one u,
          can_invite-lt s.seats.limit (team s) limit left (sym limit_kept ∙ e),
        )
      ]);
    }

-- Every operation on a staff of distinct ids keeps the seats counted and within the limit, if they
-- were.
pub staff-SeatsHold :
    (lower : String → String) (now id : String) (s : Store)
    → Distinct (team s)
    → SeatsHold s
    → ((input : InviteInput) (m : StaffMember) (s' : Store)
        → invite_staff lower now input s ≡ ok (m, s')
        → SeatsHold s')
      × ((input : UpdateInput) (m : StaffMember) (s' : Store)
          → update_staff id input s ≡ ok (m, s')
          → SeatsHold s')
      × ((m : StaffMember) (s' : Store) → resend_invitation now id s ≡ ok (m, s') → SeatsHold s')
      × ((s' : Store) → remove_staff id s ≡ ok s' → SeatsHold s')
staff-SeatsHold lower now id s distinct hold = (
  λ input m s' h. invite_staff-SeatsHold lower now input s h,
  λ input m s' h. update_staff-SeatsHold id input s distinct hold h,
  λ m s' h. resend_invitation-SeatsHold now id s distinct hold h,
  λ s' h. remove_staff-SeatsHold id s hold h,
)

-- Where the entitlement counts the seats of the team, the dashboard's test for another member of staff
-- and the store's test for an invitation agree.
pub can_add_staff-eq-can_invite :
    (r : EntitlementRecord) (ms : List TeamMember)
    → r.seats.used ≡ seats_used ms
    → can_add_staff r ≡ can_invite r.seats.limit ms
unfolding can_invite
can_add_staff-eq-can_invite r ms e = elim (Option-cases r.seats.limit) [
  | inl unlimited ↦ rw unlimited refl
  | inr fixed ↦ rw fixed.1 (left_iff_below fixed.0 r.seats.used (seats_used ms) e)
]
