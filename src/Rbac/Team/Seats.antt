-- ===== src/Rbac/Team/Seats.antt =====
-- packages/rbac/src/roles.ts: how the seats in use change when the team does.
use twenty_four.Prelude.{
  ℕ, ◌+◌, ◌≤◌, ◌<◌, String, ◌≡◌, refl, sym, subst, ◌↔◌, inl, inr, Bool, true, false, some, List, [],
  ◌∷◌, ◌++◌, arith, if◌then◌else◌, Bool-cases, All, select, find,
}
use twenty_four.Prelude.Equality.{◌==◌, eq_ℕ, eq_String, eq_of_==}
use twenty_four.Rbac.Team.{TeamMember, is_deactivated, seats_used, can_invite}
use twenty_four.Rbac.Team.Owners.{Distinct, replace}

abbrev pub seat : TeamMember → ℕ
seat m = if is_deactivated m.status then 0 else 1

pub seats_used-cons :
    (m : TeamMember) (ms : List TeamMember) → seats_used (m ∷ ms) ≡ seat m + seats_used ms
unfolding seats_used
seats_used-cons m ms = ground arith

pub seats_used-append :
    (ms : List TeamMember) (m : TeamMember) → seats_used (ms ++ m ∷ []) ≡ seats_used ms + seat m
seats_used-append [] m = omega (arith, seats_used-cons m [])
seats_used-append (n ∷ ms) m =
    omega (arith, seats_used-cons n (ms ++ m ∷ []), seats_used-cons n ms, seats_used-append ms m)

pub seats_used-select :
    (p : TeamMember → Bool) (ms : List TeamMember) → seats_used (select p ms) ≤ seats_used ms
seats_used-select p [] = omega arith
seats_used-select p (m ∷ ms) = elim (Bool-cases (p m)) [
  | inl kept ↦
      rw kept (
        omega
          (arith, seats_used-cons m (select p ms), seats_used-cons m ms, seats_used-select p ms))
  | inr out ↦ rw out (omega (arith, seats_used-cons m ms, seats_used-select p ms))
]

replace_absent :
    (id : String) (u : TeamMember) (ms : List TeamMember)
    → All (λ n. (n.id == id) ≡ false) ms
    → replace id u ms ≡ ms
replace_absent id u [] h = refl
replace_absent id u (m ∷ ms) h = rw (h.0, replace_absent id u ms h.1) refl

-- To replace the member of an id is to give back one seat and to take another.
pub seats_used-replace :
    (id : String) (t u : TeamMember) (ms : List TeamMember)
    → Distinct ms
    → find (λ m. m.id == id) ms ≡ some t
    → seats_used (replace id u ms) + seat t ≡ seats_used ms + seat u
seats_used-replace id t u [] d h = cc
seats_used-replace id t u (m ∷ ms) d h = elim (Bool-cases (m.id == id)) [
  | inl same ↦
      let e : m ≡ t = cc (h, same) in
      let absent =
        replace_absent id u ms
          (subst (λ i. All (λ n. (n.id == i) ≡ false) ms) (eq_of_== m.id id same) d.0) in
      rw (same, absent, sym e) (omega (arith, seats_used-cons u ms, seats_used-cons m ms))
  | inr other ↦ rw other (
      omega (
        arith,
        seats_used-cons m (replace id u ms),
        seats_used-cons m ms,
        seats_used-replace id t u ms d.1 (cc (h, other)),
      ))
]

pub can_invite_iff :
    (limit : ℕ) (ms : List TeamMember)
    → (can_invite (some limit) ms ≡ true) ↔ (seats_used ms < limit)
unfolding can_invite
can_invite_iff limit ms = ground arith
