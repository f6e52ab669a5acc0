-- ===== src/Console/Data.antt =====
-- The data of the console: packages/api/src/admin.ts, the onboarding steps of types.ts, and the state of
-- `AdminStore`. A field that may be null is an Option. Of a tenant, the contact details and the figures of
-- its trade are left out.
use twenty_four.Prelude.{ℕ, String, Bool, Option, List}
use twenty_four.Entitlement.ModuleData.{ModuleId}
use twenty_four.Entitlement.TierData.{TierId, starter, growth, max, enterprise}

pub data AdminRole : Type 0 where
  platform_admin specialist support : AdminRole

pub data ImpersonationMode : Type 0 where
  read write : ImpersonationMode

pub record AdminRoleDefinition : Type 0 where
  pub id : AdminRole
  pub name : String
  pub summary : String
  pub impersonation : Option ImpersonationMode
  pub impersonation_note : String

pub record AdminSession : Type 0 where
  pub staff_id : String
  pub name : String
  pub email : String
  pub role : AdminRole
  pub mfa : String
  pub source_ip : String
  pub signed_in_at : String

pub record AdminStaffMember : Type 0 where
  pub staff_id : String
  pub name : String
  pub email : String
  pub role : AdminRole
  pub mfa : Option String
  pub last_seen_at : Option String
  pub impersonations : ℕ

pub record AdminEnvironment : Type 0 where
  pub market : String
  pub environment : String
  pub currency : String
  pub locale : String
  pub timezone : String
  pub release : String
  pub fiscal_authority : String
  pub go_live_hours : ℕ
  pub audit_retention_years : ℕ
  pub read_token_minutes : ℕ
  pub write_token_minutes : ℕ

pub data TenantStatus : Type 0 where
  live provisioning suspended trial : TenantStatus

pub data TenantHealth : Type 0 where
  healthy attention failing : TenantHealth

pub data OnboardingStepStatus : Type 0 where
  pending in_progress done failed awaiting_specialist : OnboardingStepStatus

pub data OnboardingStepOwner : Type 0 where
  by_platform by_specialist by_merchant : OnboardingStepOwner

pub record OnboardingStep : Type 0 where
  pub id : String
  pub title : String
  pub description : String
  pub hour : ℕ
  pub status : OnboardingStepStatus
  pub owner : OnboardingStepOwner
  pub completed_at : Option String

pub record OnboardingState : Type 0 where
  pub started_at : String
  pub due_at : String
  pub completed_at : Option String
  pub steps : List OnboardingStep

pub record PlatformTenant : Type 0 where
  pub tenant_id : String
  pub name : String
  pub merchant_code : String
  pub industry : String
  pub tier : TierId
  pub status : TenantStatus
  pub health : TenantHealth
  pub health_note : String
  pub onboarded_at : String
  pub seats_used : ℕ
  pub overrides : List ModuleId
  pub withdrawn : List ModuleId
  pub onboarding : Option OnboardingState
  pub specialist : String
  pub payment_method : String
  pub dunning_state : Option String

pub data GrantSource : Type 0 where
  from_tier from_profile from_override : GrantSource

pub record ModuleGrant : Type 0 where
  pub module_id : ModuleId
  pub source : GrantSource
  pub is_pending : Bool

pub record ProvisioningRun : Type 0 where
  pub tenant_id : String
  pub tenant_name : String
  pub tier : TierId
  pub saga_id : String
  pub specialist : String
  pub state : OnboardingState

pub data AuditResult : Type 0 where
  accepted denied : AuditResult

pub record AuditEvent : Type 0 where
  pub event_id : String
  pub at : String
  pub actor : String
  pub event : String
  pub tenant_id : Option String
  pub tenant_name : Option String
  pub detail : String
  pub source_ip : String
  pub result : AuditResult
  pub scope : Option String

pub record SupportSession : Type 0 where
  pub session_id : String
  pub tenant_id : String
  pub tenant_name : String
  pub staff_name : String
  pub mode : ImpersonationMode
  pub reason : String
  pub started_at : String
  pub expires_at : String
  pub ended_at : Option String
  pub handoff_url : String

pub record StartSupportSessionInput : Type 0 where
  pub tenant_id : String
  pub mode : ImpersonationMode
  pub reason : String

pub record ModuleOverrideInput : Type 0 where
  pub module_id : ModuleId
  pub entitled : Bool
  pub reason : String

-- What each tier grants.
pub record Grants : Type 0 where
  pub of_starter : List ModuleId
  pub of_growth : List ModuleId
  pub of_max : List ModuleId
  pub of_enterprise : List ModuleId

abbrev pub grants_of : Grants → TierId → List ModuleId
grants_of g starter = g.of_starter
grants_of g growth = g.of_growth
grants_of g max = g.of_max
grants_of g enterprise = g.of_enterprise

abbrev pub put_grants : TierId → List ModuleId → Grants → Grants
put_grants starter ids g = record g { of_starter = ids }
put_grants growth ids g = record g { of_growth = ids }
put_grants max ids g = record g { of_max = ids }
put_grants enterprise ids g = record g { of_enterprise = ids }

-- A code that waits to be redeemed.
pub record Handoff : Type 0 where
  pub code : String
  pub role : AdminRole
  pub expires_at : ℕ

pub record AdminStore : Type 0 where
  pub signed_in : Bool
  pub handoffs : List Handoff
  pub session : AdminSession
  pub tenants : List PlatformTenant
  pub grants : Grants
  pub audit : List AuditEvent
  pub sessions : List SupportSession
  pub session_seq : ℕ

-- What the host does with texts and the clock at the time of a call: `trim`, `toLowerCase`, the moment as
-- a text, in base 36 and in milliseconds, the moment some minutes later, ten minutes past a moment that a
-- text names, and a random text in base 36.
pub record Host : Type 0 where
  pub trim : String → String
  pub lower : String → String
  pub now : String
  pub now_base36 : String
  pub now_millis : ℕ
  pub in_minutes : ℕ → String
  pub ten_minutes_past : String → String
  pub random_base36 : String
