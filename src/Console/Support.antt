-- ===== src/Console/Support.antt =====
-- packages/mock/src/admin/store.ts: the support sessions.
use twenty_four.Prelude.{
  ℕ, ◌+◌, String, Bool, true, false, not, ◌&&◌, Option, none, some, ◌∷◌, find, exists,
}
use twenty_four.Prelude.Equality.{◌==◌, eq_ℕ, eq_String}
use twenty_four.Prelude.Numerals.{◌&◌, number_text}
use twenty_four.Prelude.Results.{ok, err, throw_if}
use twenty_four.Console.Data.{
  ImpersonationMode, read, write, AdminRoleDefinition, PlatformTenant, SupportSession,
  StartSupportSessionInput, AdminStore, Host,
}
use twenty_four.Console.Directory.{admin_roles, role_text, environment}
use twenty_four.Console.Doors.{
  refused, Throws, Action, reads, modify, pure, ◌>>=◌, ◌>>◌, require_found, require_signed_in,
  replace_first, find_tenant, find_session, is_open, close_session, recorded,
}

abbrev mode_of : Option AdminRoleDefinition → Option ImpersonationMode
mode_of none = none
mode_of (some role) = role.impersonation

abbrev pub role_mode : AdminStore → Option ImpersonationMode
role_mode s = mode_of (find (λ r. role_text r.id == role_text s.session.role) admin_roles)

abbrev pub is_write : ImpersonationMode → Bool
is_write write = true
is_write read = false

abbrev pub may_open : ImpersonationMode → Option ImpersonationMode → Throws (Unit {0})
may_open mode none = err (refused 403 "forbidden")
may_open mode (some allowed) =
    throw_if (is_write mode && not (is_write allowed)) (refused 403 "forbidden")

abbrev pub may_elevate : Option ImpersonationMode → Bool
may_elevate none = false
may_elevate (some allowed) = is_write allowed

abbrev minutes_of : ImpersonationMode → ℕ
minutes_of write = environment.write_token_minutes
minutes_of read = environment.read_token_minutes

abbrev scope_of : ImpersonationMode → String
scope_of write = "tenant:read, tenant:write"
scope_of read = "tenant:read"

abbrev mode_words : ImpersonationMode → String
mode_words write = "Read and write"
mode_words read = "Read-only"

abbrev pub new_session :
    Host → PlatformTenant → StartSupportSessionInput → AdminStore → SupportSession
new_session host tenant input s = record {
  session_id = "ss_" & number_text s.session_seq & "_" & host.now_base36;
  tenant_id = tenant.tenant_id;
  tenant_name = tenant.name;
  staff_name = s.session.name;
  mode = input.mode;
  reason = host.trim input.reason;
  started_at = host.now;
  expires_at = host.in_minutes (minutes_of input.mode);
  ended_at = none;
  handoff_url = "http://app.twentyfour.localhost/";
}

abbrev pub with_session : SupportSession → AdminStore → AdminStore
with_session session s = record s {
  sessions = session ∷ s.sessions;
  session_seq = s.session_seq + 1;
}

unfoldable pub start_session : Host → StartSupportSessionInput → Action SupportSession
start_session host input = do
  reads require_signed_in
  tenant ← reads λ s. require_found (find_tenant input.tenant_id s)
  reads λ s. may_open input.mode (role_mode s)
  reads λ s. throw_if (exists is_open s.sessions) (refused 409 "session_open")
  reads λ _. throw_if (host.trim input.reason == "") (refused 422 "invalid")
  session ← reads λ s. ok (new_session host tenant input s)
  modify (with_session session)
  modify (
      recorded host "impersonation.started"
        (mode_words input.mode
          & " token for "
          & number_text (minutes_of input.mode)
          & " minutes. "
          & session.reason)
        (some tenant) (some (scope_of input.mode)))
  pure session

abbrev pub change_session : String → (SupportSession → SupportSession) → AdminStore → AdminStore
change_session id f s = record s { sessions = replace_first (λ e. e.session_id == id) f s.sessions }

abbrev pub raised : Host → String → SupportSession → SupportSession
raised host reason e = record e {
  mode = write;
  reason = host.trim reason;
  started_at = host.now;
  expires_at = host.in_minutes environment.write_token_minutes;
}

unfoldable pub elevate_session : Host → String → String → Action SupportSession
elevate_session host id reason = do
  reads require_signed_in
  session ← reads λ s. require_found (find_session id s)
  reads λ _. throw_if (not (is_open session)) (refused 409 "ended")
  reads λ _. throw_if (is_write session.mode) (refused 409 "already_write")
  reads λ s. throw_if (not (may_elevate (role_mode s))) (refused 403 "forbidden")
  reads λ _. throw_if (host.trim reason == "") (refused 422 "invalid")
  modify (change_session id (raised host reason))
  tenant ← reads λ s. require_found (find_tenant session.tenant_id s)
  modify (
      recorded host "impersonation.started"
        ("Elevated to write for "
          & number_text environment.write_token_minutes
          & " minutes. "
          & host.trim reason)
        (some tenant) (some "tenant:read, tenant:write"))
  pure (raised host reason session)

abbrev pub extended : Host → SupportSession → SupportSession
extended host e = record e { expires_at = host.ten_minutes_past e.expires_at }

unfoldable pub extend_session : Host → String → Action SupportSession
extend_session host id = do
  reads require_signed_in
  session ← reads λ s. require_found (find_session id s)
  reads λ _. throw_if (not (is_open session)) (refused 409 "ended")
  modify (change_session id (extended host))
  tenant ← reads λ s. require_found (find_tenant session.tenant_id s)
  modify (recorded host "impersonation.extended" "Ten more minutes." (some tenant) none)
  pure (extended host session)

unfoldable pub revoke_session : Host → String → Action (Unit {0})
revoke_session host id = do
  reads require_signed_in
  close_session host id "closed by the specialist"
