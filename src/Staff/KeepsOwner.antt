-- ===== src/Staff/KeepsOwner.antt =====
-- packages/mock/src/store.ts, `updateStaff`: what its checks guard.
use twenty_four.Rbac.Team.Owners.{replace}
use twenty_four.Prelude.{
  ℕ, String, ◌≡◌, refl, sym, ap, ◌∙◌, subst, ◌⊎◌, inl, inr, Bool, true, false, not, ◌&&◌, Option,
  none, some, List, [], ◌∷◌, map, arith, Bool-cases, find,
}
use twenty_four.Prelude.Equality.{◌==◌, eq_ℕ, eq_String, eq_of_==}
use twenty_four.Prelude.Results.{
  Result, ok, err, ◌>>=◌, throw_if, >>=-eq-ok, throw_if-eq-ok, ok-injective,
}
use twenty_four.Rbac.Roles.{built_in_roles, role_definition}
use twenty_four.Rbac.Team.{
  TeamMember, ActionCheck, check_role_change, check_deactivate, is_deactivated, can_invite,
  seats_used,
}
use twenty_four.Staff.{
  MockError, allow, when, update_staff, Store, UpdateInput, check_update, StaffMember, find_in,
  find_staff, team, or_throw, actor, role_after, put, is_deactivate, updated_member, is_activate,
  mock_error, with_staff,
}

abbrev pub rank_of : String → ℕ
rank_of role = (role_definition role built_in_roles).rank

allow-ok : (c : ActionCheck) {u : Unit {0}} → allow c ≡ ok u → c ≡ ok tt
allow-ok (ok u) h = refl
allow-ok (err e) h = cc

when-ok :
    (b : Bool) (m : Result MockError (Unit {0})) {u : Unit {0}}
    → when b m ≡ ok u
    → (b ≡ false) ⊎ (m ≡ ok tt)
when-ok true m h = inr h
when-ok false m h = inl refl

-- What an update asks of the state it starts from.
pub record Checked (input : UpdateInput) (t : TeamMember) (s : Store) : Type 0 where
  pub role_allowed :
      ((role_after input.role t.role == t.role) ≡ true)
      ⊎ ((a : TeamMember) × (actor s ≡ ok a)
          × (check_role_change a t (role_after input.role t.role) (team s) built_in_roles ≡ ok tt))
  pub stop_allowed :
      ((is_deactivate input.status && not (is_deactivated t.status)) ≡ false)
      ⊎ ((a : TeamMember) × (actor s ≡ ok a)
          × (check_deactivate a t (team s) built_in_roles ≡ ok tt))
  pub start_allowed :
      ((is_activate input.status && is_deactivated t.status) ≡ false)
      ⊎ (can_invite s.seats.limit (team s) ≡ true)

pub not-false : (b : Bool) → not b ≡ false → b ≡ true
not-false b h = ground arith

asked_of_actor :
    (s : Store) (check : TeamMember → ActionCheck) {u : Unit {0}}
    → (actor s >>= λ me. allow (check me)) ≡ ok u
    → (a : TeamMember) × (actor s ≡ ok a) × (check a ≡ ok tt)
asked_of_actor s check h =
    let (a, known, allowed) = >>=-eq-ok (actor s) (λ me. allow (check me)) h in
    (a, known, allow-ok (check a) allowed)

pub check_update-Checked :
    (input : UpdateInput) (t : TeamMember) (s : Store) {u : Unit {0}}
    → check_update input t s ≡ ok u
    → Checked input t s
unfolding check_update
check_update-Checked input t s h =
    let next = role_after input.role t.role in
    let change : TeamMember → ActionCheck =
      λ me. check_role_change me t next (team s) built_in_roles in
    let stop : TeamMember → ActionCheck = λ me. check_deactivate me t (team s) built_in_roles in
    let stops = is_deactivate input.status && not (is_deactivated t.status) in
    let starts = is_activate input.status && is_deactivated t.status in
    let seat =
      throw_if (not (can_invite s.seats.limit (team s))) (mock_error 409 "seat_limit_reached") in
    let (_, first, more) =
      >>=-eq-ok (when (not (next == t.role)) (actor s >>= λ me. allow (change me))) _ h in
    let (_, second, third) = >>=-eq-ok (when stops (actor s >>= λ me. allow (stop me))) _ more in
    record {
      role_allowed = elim (when-ok (not (next == t.role)) _ first) [
        | inl off ↦ inl (not-false (next == t.role) off)
        | inr on ↦ inr (asked_of_actor s change on)
      ];
      stop_allowed = elim (when-ok stops _ second) [
        | inl off ↦ inl off
        | inr on ↦ inr (asked_of_actor s stop on)
      ];
      start_allowed = elim (when-ok starts seat third) [
        | inl off ↦ inl off
        | inr on ↦ inr (not-false _ (throw_if-eq-ok (not (can_invite s.seats.limit (team s))) _ on))
      ];
    }

pub find-team :
    (id : String) (staff : List StaffMember) (m : StaffMember)
    → find_in id staff ≡ some m
    → (find (λ n. n.id == id) (map (λ n. n.member) staff) ≡ some m.member) × (m.member.id ≡ id)
find-team id [] m h = cc
find-team id (n ∷ staff) m h = elim (Bool-cases (n.member.id == id)) [
  | inl same ↦ ground (arith, eq_of_== n.member.id id same)
  | inr other ↦ ground (arith, find-team id staff m)
]

pub map-put :
    (id : String) (u : StaffMember) (staff : List StaffMember)
    → map (λ n. n.member) (put id u staff) ≡ replace id u.member (map (λ n. n.member) staff)
map-put id u [] = refl
map-put id u (n ∷ staff) = ground (arith, map-put id u staff)

pub or_throw-ok {ℓ} :
    {A : Type ℓ} (o : Option A) (e : MockError) {a : A} → or_throw o e ≡ ok a → o ≡ some a
or_throw-ok none e h = cc
or_throw-ok (some a) e h = cc

used_counted :
    (r : StaffMember × Store) (m : StaffMember) (staff : List StaffMember) (s : Store)
    → Path (StaffMember × Store) (m, with_staff staff s) r
    → r.1.seats.used ≡ seats_used (team r.1)
used_counted r m staff s e = subst (λ x. x.1.seats.used ≡ seats_used (team x.1)) e refl

-- What an update that succeeds has found, checked and stored.
pub update_staff-ok :
    (id : String) (input : UpdateInput) (s : Store) {m : StaffMember} {s' : Store}
    → update_staff id input s ≡ ok (m, s')
    → (t : TeamMember) × (find (λ n. n.id == id) (team s) ≡ some t)
      × (t.id ≡ id)
      × Checked input t s
      × (team s' ≡ replace id (updated_member input t) (team s))
      × (s'.seats.limit ≡ s.seats.limit)
      × (s'.seats.used ≡ seats_used (team s'))
unfolding update_staff find_staff
update_staff-ok id input s h =
    let (target, found, more) = >>=-eq-ok (find_staff id s) _ h in
    let (_, checked, last) = >>=-eq-ok (check_update input target.member s) _ more in
    let (known, same) = find-team id s.staff target (or_throw-ok (find_in id s.staff) _ found) in
    (
      target.member,
      known,
      same,
      check_update-Checked input target.member s checked,
      sym (ap (λ r. team r.1) (ok-injective last)) ∙ map-put id _ s.staff,
      sym (ap (λ r. r.1.seats.limit) (ok-injective last)),
      used_counted _ _
          (put id (record target { member = updated_member input target.member }) s.staff) s
          (ok-injective last),
    )
