-- ===== src/Console/Steps.antt =====
-- The calls that the console may get, in any order.
use twenty_four.Prelude.{String, Option, List}
use twenty_four.Entitlement.TierData.{TierId}
use twenty_four.Console.Data.{
  AdminStore, Host, TenantStatus, ModuleOverrideInput, StartSupportSessionInput,
}
use twenty_four.Console.Doors.{after, sign_in, redeem_handoff, issue_handoff, sign_out}
use twenty_four.Console.Tenants.{set_status, set_tier, override_module}
use twenty_four.Console.Provisioning.{retry_step}
use twenty_four.Console.Support.{start_session, elevate_session, extend_session, revoke_session}
use twenty_four.Console.Registry.{AskedId, set_tier_grants}

-- A call that changes something, and the state that it leaves, whether it returned or threw.
pub data Step (host : Host) (s : AdminStore) : AdminStore → Type 0 where
  signs_in : (who : Option String) → Step host s (after (sign_in host who s))
  hands_off : (email : String) → Step host s (issue_handoff host email s).1
  redeems : (code : String) → Step host s (after (redeem_handoff host code s))
  signs_out : Step host s (after (sign_out host s))
  sets_status :
      (id : String) (status : TenantStatus) (reason : String)
      → Step host s (after (set_status host id status reason s))
  sets_tier :
      (id : String) (tier : TierId) (reason : String)
      → Step host s (after (set_tier host id tier reason s))
  overrides :
      (id : String) (input : ModuleOverrideInput)
      → Step host s (after (override_module host id input s))
  retries : (id step_id : String) → Step host s (after (retry_step host id step_id s))
  starts : (input : StartSupportSessionInput) → Step host s (after (start_session host input s))
  elevates : (id reason : String) → Step host s (after (elevate_session host id reason s))
  extends : (id : String) → Step host s (after (extend_session host id s))
  revokes : (id : String) → Step host s (after (revoke_session host id s))
  sets_grants :
      (tier : TierId) (ids : List AskedId) → Step host s (after (set_tier_grants host tier ids s))

pub data Reach (s : AdminStore) : AdminStore → Type 0 where
  here : Reach s s
  then_step : {t u : AdminStore} (host : Host) → Reach s t → Step host t u → Reach s u
