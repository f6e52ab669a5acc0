-- ===== src/Rbac/Team/Owners.antt =====
-- packages/rbac/src/roles.ts: what `isLastOwner` guards. Members are told apart by their ids.
use twenty_four.Prelude.{
  ◌<◌, String, ◌≡◌, refl, sym, ◌∙◌, subst, inl, inr, Bool, true, false, not, ◌&&◌, some, List, [],
  ◌∷◌, map, arith, if◌then◌else◌, Bool-cases, length, All, select, find, exists, All-select,
  All-weaken,
}
use twenty_four.Prelude.Equality.{◌==◌, eq_ℕ, eq_String, eq_of_==}
use twenty_four.Rbac.Team.{TeamMember, is_owner, active_owners, sole, is_last_owner}

-- No two members have one id.
abbrev pub Distinct : List TeamMember → Type 0
Distinct [] = Unit
Distinct (m ∷ ms) = All (λ n. (n.id == m.id) ≡ false) ms × Distinct ms

abbrev pub HasOwner : List TeamMember → Type 0
HasOwner members = 0 < length (active_owners members)

-- `members.map((m) => (m.id === id ? updated : m))`
abbrev pub replace : String → TeamMember → List TeamMember → List TeamMember
replace id updated = map λ m. if m.id == id then updated else m

Distinct-select :
    (p : TeamMember → Bool) (ms : List TeamMember) → Distinct ms → Distinct (select p ms)
Distinct-select p [] h = tt
Distinct-select p (m ∷ ms) h = elim (Bool-cases (p m)) [
  | inl true_here ↦ rw true_here (All-select _ p ms h.0, Distinct-select p ms h.1)
  | inr false_here ↦ rw false_here (Distinct-select p ms h.1)
]

exists-select {ℓ} :
    {A : Type ℓ} (p q : A → Bool) (xs : List A)
    → exists q (select p xs) ≡ exists (λ x. p x && q x) xs
exists-select p q [] = refl
exists-select p q (x ∷ xs) = ground (arith, exists-select p q xs)

pub HasOwner-exists : (ms : List TeamMember) → HasOwner ms → exists is_owner ms ≡ true
unfolding active_owners
HasOwner-exists [] h = ground arith
HasOwner-exists (m ∷ ms) h = elim (Bool-cases (is_owner m)) [
  | inl true_here ↦ rw true_here refl
  | inr false_here ↦ ground (
    arith,
    HasOwner-exists ms (
        subst (λ b. 0 < length (if b then m ∷ select is_owner ms else select is_owner ms))
          false_here h),
  )
]

pub exists-HasOwner : (ms : List TeamMember) → exists is_owner ms ≡ true → HasOwner ms
unfolding active_owners
exists-HasOwner [] h = cc
exists-HasOwner (m ∷ ms) h = elim (Bool-cases (is_owner m)) [
  | inl true_here ↦ rw true_here (omega arith)
  | inr false_here ↦ rw false_here (exists-HasOwner ms (ground arith))
]

abbrev is_not : String → TeamMember → Bool
is_not id m = not (m.id == id)

other_of_owners :
    (id : String) (owners : List TeamMember)
    → Distinct owners
    → 0 < length owners
    → sole owners id ≡ false
    → exists (is_not id) owners ≡ true
other_of_owners id [] d h l = ground arith
other_of_owners id (o ∷ []) d h l = ground arith
other_of_owners id (o ∷ p ∷ rest) d h l = elim (Bool-cases (o.id == id)) [
  | inl same ↦ ground (arith, subst (λ x. (p.id == x) ≡ false) (eq_of_== o.id id same) d.0.0)
  | inr other ↦ rw other refl
]

-- Unless a member is the last owner, there is an owner beside that member.
pub other_owner :
    (id : String) (ms : List TeamMember)
    → Distinct ms
    → HasOwner ms
    → is_last_owner ms id ≡ false
    → exists (λ m. is_owner m && is_not id m) ms ≡ true
unfolding active_owners is_last_owner
other_owner id ms d h l =
    sym (exists-select is_owner (is_not id) ms)
    ∙ other_of_owners id (select is_owner ms) (Distinct-select is_owner ms d) h l

exists-replace :
    (id : String) (u : TeamMember) (ms : List TeamMember)
    → exists (λ m. is_owner m && is_not id m) ms ≡ true
    → exists is_owner (replace id u ms) ≡ true
exists-replace id u [] h = cc
exists-replace id u (m ∷ ms) h = elim (Bool-cases (m.id == id)) [
  | inl same ↦ ground (arith, exists-replace id u ms (ground arith))
  | inr other ↦ ground (arith, exists-replace id u ms)
]

-- An owner that is not replaced stays.
pub other_owner-stays :
    (id : String) (u : TeamMember) (ms : List TeamMember)
    → exists (λ m. is_owner m && is_not id m) ms ≡ true
    → HasOwner (replace id u ms)
other_owner-stays id u ms h = exists-HasOwner (replace id u ms) (exists-replace id u ms h)

-- The member that an id finds is the only one of that id.
pub find-only :
    (id : String) (ms : List TeamMember) (t : TeamMember)
    → Distinct ms
    → find (λ m. m.id == id) ms ≡ some t
    → All (λ m. (m.id == id) ≡ true → m ≡ t) ms
find-only id [] t d h = tt
find-only id (m ∷ ms) t d h = elim (Bool-cases (m.id == id)) [
  | inl same ↦ (
    λ _. cc (h, same),
    All-weaken ms
        (λ n apart again.
          ground (arith, subst (λ x. (n.id == x) ≡ false) (eq_of_== m.id id same) apart))
        d.0,
  )
  | inr other ↦ (λ again. ground arith, find-only id ms t d.1 (cc (h, other)))
]

exists-replace_owner :
    (id : String) (u : TeamMember) (ms : List TeamMember)
    → All (λ m. (m.id == id) ≡ true → is_owner m ≡ true → is_owner u ≡ true) ms
    → exists is_owner ms ≡ true
    → exists is_owner (replace id u ms) ≡ true
exists-replace_owner id u [] a h = cc
exists-replace_owner id u (m ∷ ms) a h = elim (Bool-cases (m.id == id)) [
  | inl same ↦ ground (arith, a.0, exists-replace_owner id u ms a.1)
  | inr other ↦ ground (arith, exists-replace_owner id u ms a.1)
]

-- A member who is replaced by an owner, if an owner at all, leaves an owner.
pub HasOwner-replace :
    (id : String) (t u : TeamMember) (ms : List TeamMember)
    → Distinct ms
    → find (λ m. m.id == id) ms ≡ some t
    → (is_owner t ≡ true → is_owner u ≡ true)
    → HasOwner ms
    → HasOwner (replace id u ms)
HasOwner-replace id t u ms d f keep h = exists-HasOwner (replace id u ms) (
    exists-replace_owner id u ms
      (All-weaken ms (λ m only same owner. keep (subst (λ x. is_owner x ≡ true) (only same) owner))
        (find-only id ms t d f))
      (HasOwner-exists ms h))
