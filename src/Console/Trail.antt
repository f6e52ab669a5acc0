-- ===== src/Console/Trail.antt =====
-- packages/mock/src/admin/store.ts: a change of a tenant or of the tiers leaves a trail, and is made by
-- someone who may write.
pub mod Events
pub mod Sessions
pub mod Tenants
use twenty_four.Prelude.{
  ℕ, zero, suc, ◌+◌, ◌-◌, ◌*◌, ◌/◌, ◌%◌, ◌^◌, ◌≤◌, ◌<◌, String, ◌≡◌, refl, sym, ap, ◌∙◌, subst, ◌≢◌,
  ◌↔◌, ◌⊎◌, inl, inr, Bool, true, false, not, ◌&&◌, ◌||◌, Option, none, some, List, [], ◌∷◌, ◌++◌,
  map, arith, ltb, leb, nat_eq, if◌then◌else◌, Bool-cases, Option-cases, length, length-append,
  take, drop, replicate, take-append-drop, length-drop, length-replicate, All, All-append, All-take,
  All-drop, All-replicate, select, find, exists, includes, includes-append, includes-select,
  All-includes, All-map, All-weaken, All-select,
}
use twenty_four.Prelude.Equality.{Eq, ◌==◌, eq_ℕ, eq_String, by_index, eq_of_==, ==_refl}
use twenty_four.Prelude.Results.{ok, err, throw_if-eq-ok}
use twenty_four.Prelude.Stateful.{Leaves, leaves, next, past, past_eq, then_leaves, go_on, when}
use twenty_four.Entitlement.ModuleData.{ModuleId}
use twenty_four.Entitlement.TierData.{TierId, starter, growth, max, enterprise}
use twenty_four.Console.Data.{
  AdminStore, AuditEvent, SupportSession, Host, ModuleOverrideInput, StartSupportSessionInput,
  TenantStatus, Grants, grants_of, put_grants,
}
use twenty_four.Console.Directory.{is_support, is_platform_admin}
use twenty_four.Console.Doors.{
  is_open, close_session, close_all, sign_out, sign_in, redeem_handoff, issue_handoff,
}
use twenty_four.Console.Tenants.{set_status, set_tier, override_module}
use twenty_four.Console.Provisioning.{retry_step}
use twenty_four.Console.Support.{start_session, elevate_session, extend_session, revoke_session}
use twenty_four.Console.Registry.{set_tier_grants, with_grants, is_ladder}
use twenty_four.Console.Guards.{
  require_write_then, get_tenant_leaves, provisioning_run_leaves, list_tiers_leaves,
  keep_ladder_then,
}
use twenty_four.Console.Steps.{
  Step, Reach, here, then_step, signs_in, hands_off, redeems, signs_out, sets_status, sets_tier,
  overrides, retries, starts, elevates, extends, revokes, sets_grants,
}
use twenty_four.Console.Trail.Events.{
  Unchanged, MayWrite, RegistryKept, Trail, Traced, Noted, Noted-next, nothing-Noted, event-Noted,
  Noted-Traced, silent-Traced, written, of_not, nothing-Traced,
}
use twenty_four.Console.Trail.Sessions.{
  sign_out-Traced, sign_in-Traced, redeem_handoff-Traced, issue_handoff-Traced,
  start_session-Traced, elevate_session-Traced, extend_session-Traced, revoke_session-Traced,
}
use twenty_four.Console.Trail.Tenants.{
  set_status-Traced, set_tier-Traced, override_module-Traced, retry_step-Traced,
  set_tier_grants-Traced,
}

-- The trail of the console: a call adds events at its front, each of which names who was signed in, and
-- changes nothing of what is there. Where it changes a tenant or what a tier grants, it adds at
-- least one, whoever is signed in has no support role, and a change of the tiers is made by a platform
-- admin and keeps their ladder. A call that throws counts too.
pub Step-Traced : {host : Host} {s t : AdminStore} → Step host s t → Traced s t
Step-Traced {host} {s} (signs_in who) = (sign_in-Traced host who s).holds
Step-Traced {host} {s} (hands_off email) = issue_handoff-Traced host email s
Step-Traced {host} {s} (redeems code) = (redeem_handoff-Traced host code s).holds
Step-Traced {host} {s} signs_out = (sign_out-Traced host s).holds
Step-Traced {host} {s} (sets_status id status reason) =
    (set_status-Traced host id status reason s).holds
Step-Traced {host} {s} (sets_tier id tier reason) = (set_tier-Traced host id tier reason s).holds
Step-Traced {host} {s} (overrides id input) = (override_module-Traced host id input s).holds
Step-Traced {host} {s} (retries id step_id) = (retry_step-Traced host id step_id s).holds
Step-Traced {host} {s} (starts input) = (start_session-Traced host input s).holds
Step-Traced {host} {s} (elevates id reason) = (elevate_session-Traced host id reason s).holds
Step-Traced {host} {s} (extends id) = (extend_session-Traced host id s).holds
Step-Traced {host} {s} (revokes id) = (revoke_session-Traced host id s).holds
Step-Traced {host} {s} (sets_grants tier ids) = (set_tier_grants-Traced host tier ids s).holds
