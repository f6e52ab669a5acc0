-- ===== src/Console/OneOpen.antt =====
-- packages/mock/src/admin/store.ts, the support sessions: one is open at a time, and none once the
-- specialist has signed out.
pub mod Ended
pub mod Sessions
pub mod Doors
pub mod Tenants
use twenty_four.Prelude.{
  ℕ, zero, suc, ◌+◌, ◌-◌, ◌*◌, ◌/◌, ◌%◌, ◌^◌, ◌≤◌, ◌<◌, String, ◌≡◌, refl, sym, ap, ◌∙◌, subst, ◌≢◌,
  ◌↔◌, ◌⊎◌, inl, inr, Bool, true, false, not, ◌&&◌, ◌||◌, Option, none, some, List, [], ◌∷◌, ◌++◌,
  map, arith, ltb, leb, nat_eq, if◌then◌else◌, Bool-cases, Option-cases, length, length-append,
  take, drop, replicate, take-append-drop, length-drop, length-replicate, All, All-append, All-take,
  All-drop, All-replicate, select, find, exists, includes, includes-append, includes-select,
  All-includes, All-map, All-weaken, All-select,
}
use twenty_four.Prelude.Equality.{Eq, ◌==◌, eq_ℕ, eq_String, by_index, eq_of_==, ==_refl}
use twenty_four.Prelude.Results.{ok, err, throw_if-eq-ok}
use twenty_four.Prelude.Stateful.{Leaves, leaves, next, past, past_eq, then_leaves, go_on, when}
use twenty_four.Entitlement.ModuleData.{ModuleId}
use twenty_four.Entitlement.TierData.{TierId}
use twenty_four.Console.Guards.{
  require_write_then, get_tenant_leaves, provisioning_run_leaves, list_tiers_leaves,
  keep_ladder_then,
}
use twenty_four.Console.Data.{
  AdminStore, SupportSession, Host, ModuleOverrideInput, StartSupportSessionInput, TenantStatus,
}
use twenty_four.Console.Doors.{
  Action, replace_first, is_open, is_some, close_session, close_all, sign_out, sign_in,
  redeem_handoff, issue_handoff, require_write, require_signed_in, end_session, require_found,
  find_session,
}
use twenty_four.Console.Tenants.{set_status, set_tier, override_module, get_tenant}
use twenty_four.Console.Provisioning.{retry_step, provisioning_run}
use twenty_four.Console.Support.{start_session, elevate_session, extend_session, revoke_session}
use twenty_four.Console.Registry.{set_tier_grants, keep_ladder, list_tiers}
use twenty_four.Console.Steps.{
  Step, Reach, signs_in, hands_off, redeems, signs_out, sets_status, sets_tier, overrides, retries,
  starts, elevates, extends, revokes, sets_grants, here, then_step,
}
use twenty_four.Console.OneOpen.Ended.{
  IsEnded, EndedButFirst, Desk, desk, Guarded, GuardedStore, count_open, count_open-ended,
  count_open-EndedButFirst, All-EndedButFirst, replaced-Guarded, open_first,
}
use twenty_four.Console.OneOpen.Sessions.{
  close_session-Guarded, start_session-Guarded, elevate_session-Guarded, extend_session-Guarded,
  revoke_session-Guarded,
}
use twenty_four.Console.OneOpen.Doors.{
  sign_in-Guarded, redeem_handoff-Guarded, issue_handoff-desk, sign_out-Guarded,
}
use twenty_four.Console.OneOpen.Tenants.{
  set_status-Guarded, set_tier-Guarded, override_module-Guarded, retry_step-Guarded,
  set_tier_grants-Guarded,
}

Step-Guarded : {host : Host} {s t : AdminStore} → Step host s t → GuardedStore s → GuardedStore t
Step-Guarded {host} {s} (signs_in who) h = (sign_in-Guarded host who s h).holds
Step-Guarded {host} {s} (hands_off email) h =
    subst Guarded (sym (issue_handoff-desk host email s)) h
Step-Guarded {host} {s} (redeems code) h = (redeem_handoff-Guarded host code s h).holds
Step-Guarded {host} {s} signs_out h = (sign_out-Guarded host s h).holds
Step-Guarded {host} {s} (sets_status id status reason) h =
    (set_status-Guarded host id status reason s h).holds
Step-Guarded {host} {s} (sets_tier id tier reason) h =
    (set_tier-Guarded host id tier reason s h).holds
Step-Guarded {host} {s} (overrides id input) h = (override_module-Guarded host id input s h).holds
Step-Guarded {host} {s} (retries id step_id) h = (retry_step-Guarded host id step_id s h).holds
Step-Guarded {host} {s} (starts input) h = (start_session-Guarded host input s h).holds
Step-Guarded {host} {s} (elevates id reason) h = (elevate_session-Guarded host id reason s h).holds
Step-Guarded {host} {s} (extends id) h = (extend_session-Guarded host id s h).holds
Step-Guarded {host} {s} (revokes id) h = (revoke_session-Guarded host id s h).holds
Step-Guarded {host} {s} (sets_grants tier ids) h = (set_tier_grants-Guarded host tier ids s h).holds

Reach-Guarded : {s t : AdminStore} → Reach s t → GuardedStore s → GuardedStore t
Reach-Guarded here h = h
Reach-Guarded (then_step host r step) h = Step-Guarded step (Reach-Guarded r h)

-- After any calls, in any order and whether they return or throw, at most one support session is open,
-- and none where nobody is signed in, if none was open to begin with.
pub Reach-count_open :
    {s t : AdminStore}
    → Reach s t
    → All IsEnded s.sessions
    → (count_open t.sessions ≤ 1) × (t.signed_in ≡ false → count_open t.sessions ≡ 0)
Reach-count_open {s} {t} r ended =
    let h =
      Reach-Guarded r
        (record { others = All-EndedButFirst s.sessions ended; when_out = λ _. ended }) in
    (
      count_open-EndedButFirst t.sessions h.others,
      λ out. count_open-ended t.sessions (h.when_out out),
    )
