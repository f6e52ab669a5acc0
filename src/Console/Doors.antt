-- ===== src/Console/Doors.antt =====
-- packages/mock/src/admin/store.ts: who is signed in, the trail, and how a support session ends.
use twenty_four.Prelude.{
  ℕ, ◌+◌, String, Bool, true, false, not, ◌&&◌, Option, none, some, List, [], ◌∷◌, ltb,
  if◌then◌else◌, length, select, find,
}
use twenty_four.Prelude.Equality.{◌==◌, eq_ℕ, eq_String}
use twenty_four.Prelude.Numerals.{◌&◌, number_text}
use twenty_four.Prelude.Results.{Result, ok, err, throw_if}
unfoldable pub use twenty_four.Prelude.Stateful.{go_on, when}
pub use twenty_four.Prelude.Stateful.{pure, reads, modify, after, ◌>>=◌, ◌>>◌}
use twenty_four.Console.Data.{
  AdminRole, AdminSession, AdminStaffMember, PlatformTenant, AuditEvent, accepted, SupportSession,
  Handoff, AdminStore, Host,
}
use twenty_four.Console.Directory.{staff, role_text, is_support}

pub data Refusal : Type 0 where
  refused : (status : ℕ) (code : String) → Refusal

abbrev pub Throws : Type 0 → Type 0
Throws = Result Refusal

abbrev pub Action : Type 0 → Type 0
Action A = AdminStore → Throws A × AdminStore

abbrev pub require_found {ℓ} : {A : Type ℓ} → Option A → Result Refusal A
require_found none = err (refused 404 "not_found")
require_found (some a) = ok a

-- An assignment to the first element that passes the test.
unfoldable pub replace_first {ℓ} : {A : Type ℓ} → (A → Bool) → (A → A) → List A → List A
replace_first p f [] = []
replace_first p f (x ∷ xs) = let rest = replace_first p f xs in if p x then f x ∷ xs else x ∷ rest

abbrev pub or_else {ℓ} : {A : Type ℓ} → Option A → Option A → Option A
or_else none b = b
or_else (some a) b = some a

abbrev pub is_some : Option String → Bool
is_some none = false
is_some (some a) = true

abbrev pub has_factor : AdminStaffMember → Bool
has_factor m = is_some m.mfa

-- `find` with a test on a text that may be missing.
abbrev pub by_text : (AdminStaffMember → String → Bool) → Option String → Option AdminStaffMember
by_text test none = none
by_text test (some text) = find (λ m. test m text) staff

abbrev pub first_of : List AdminStaffMember → Option AdminStaffMember
first_of [] = none
first_of (m ∷ ms) = some m

abbrev pub find_member : Option String → Option AdminStaffMember
find_member who = or_else (by_text (λ m text. m.staff_id == text) who) (
    or_else (by_text (λ m text. role_text m.role == text && has_factor m) who)
      (or_else (by_text (λ m text. role_text m.role == text) who) (first_of staff)))

abbrev session_of : Host → AdminStaffMember → String → AdminSession
session_of host m mfa = record {
  staff_id = m.staff_id;
  name = m.name;
  email = m.email;
  role = m.role;
  mfa = mfa;
  source_ip = "84.21.66.12";
  signed_in_at = host.now;
}

abbrev pub check_factor : AdminStaffMember → Option String → Throws (AdminStaffMember × String)
check_factor m none = err (refused 403 "mfa_required")
check_factor m (some mfa) = ok (m, mfa)

abbrev pub check_member : Option AdminStaffMember → Throws (AdminStaffMember × String)
check_member none = err (refused 404 "not_found")
check_member (some m) = check_factor m m.mfa

unfoldable pub sign_in : Host → Option String → Action AdminSession
sign_in host who = do
  (member, mfa) ← reads λ _. check_member (find_member who)
  let session = session_of host member mfa
  modify λ s. record s { signed_in = true; session = session }
  pure session

abbrev new_handoff : Host → AdminStaffMember → Handoff
new_handoff host m = record {
  code = "hc_" & host.random_base36 & host.now_base36;
  role = m.role;
  expires_at = host.now_millis + 30_000;
}

-- A code for an address that belongs to the staff.
abbrev issue_to : Host → Option AdminStaffMember → AdminStore → Option String × AdminStore
issue_to host none s = (none, s)
issue_to host (some m) s =
    let handoff = new_handoff host m in
    (
      some handoff.code,
      record s { handoffs = handoff ∷ select (λ h. not (h.code == handoff.code)) s.handoffs },
    )

unfoldable pub issue_handoff : Host → String → AdminStore → Option String × AdminStore
issue_handoff host email =
    issue_to host (find (λ m. host.lower m.email == host.lower (host.trim email)) staff)

abbrev pub check_handoff : Host → Option Handoff → Throws AdminRole
check_handoff host none = err (refused 401 "unauthenticated")
check_handoff host (some h) =
    if ltb h.expires_at host.now_millis then err (refused 401 "unauthenticated") else ok h.role

-- The code is deleted whatever the outcome.
unfoldable pub redeem_handoff : Host → String → Action AdminSession
redeem_handoff host code = do
  entry ← reads λ s. ok (find (λ h. h.code == code) s.handoffs)
  modify λ s. record s { handoffs = select (λ h. not (h.code == code)) s.handoffs }
  role ← reads λ _. check_handoff host entry
  sign_in host (some (role_text role))

abbrev pub require_signed_in : AdminStore → Throws (Unit {0})
require_signed_in s = throw_if (not s.signed_in) (refused 401 "unauthenticated")

abbrev pub may_write : AdminStore → Throws (Unit {0})
may_write s = throw_if (is_support s.session.role) (refused 403 "forbidden")

abbrev pub require_write : Action (Unit {0})
require_write = do reads require_signed_in; reads may_write

abbrev tenant_id_of : Option PlatformTenant → Option String
tenant_id_of none = none
tenant_id_of (some t) = some t.tenant_id

abbrev tenant_name_of : Option PlatformTenant → Option String
tenant_name_of none = none
tenant_name_of (some t) = some t.name

abbrev pub event_of :
    Host → String → String → Option PlatformTenant → Option String → AdminStore → AuditEvent
event_of host event detail tenant scope s = record {
  event_id = "ev_" & host.now_base36 & number_text (length s.audit);
  at = host.now;
  actor = s.session.name;
  event = event;
  tenant_id = tenant_id_of tenant;
  tenant_name = tenant_name_of tenant;
  detail = detail;
  source_ip = s.session.source_ip;
  result = accepted;
  scope = scope;
}

abbrev pub recorded :
    Host → String → String → Option PlatformTenant → Option String → AdminStore → AdminStore
recorded host event detail tenant scope s = record s {
  audit = event_of host event detail tenant scope s ∷ s.audit;
}

abbrev pub find_tenant : String → AdminStore → Option PlatformTenant
find_tenant id s = find (λ t. t.tenant_id == id) s.tenants

abbrev pub is_open : SupportSession → Bool
is_open e = not (is_some e.ended_at)

abbrev pub find_session : String → AdminStore → Option SupportSession
find_session id s = find (λ e. e.session_id == id) s.sessions

abbrev pub end_session : Host → String → AdminStore → AdminStore
end_session host id s = record s {
  sessions =
      replace_first (λ e. e.session_id == id) (λ e. record e { ended_at = some host.now })
        s.sessions;
}

unfoldable pub close_session : Host → String → String → Action (Unit {0})
close_session host id why = do
  session ← reads λ s. require_found (find_session id s)
  when (is_open session) (do
    modify (end_session host id)
    modify λ s. recorded host "impersonation.ended" why (find_tenant session.tenant_id s) none s)

unfoldable pub close_all : Host → List SupportSession → Action (Unit {0})
close_all host [] = pure tt
close_all host (e ∷ es) = do
  close_session host e.session_id "admin session ended"
  close_all host es

unfoldable pub sign_out : Host → Action (Unit {0})
sign_out host = do
  opened ← reads λ s. ok (select is_open s.sessions)
  close_all host opened
  modify λ s. record s { signed_in = false }
