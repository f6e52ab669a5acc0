-- ===== src/Console/Provisioning.antt =====
-- packages/mock/src/admin/store.ts: the provisioning runs.
use twenty_four.Prelude.{String, Bool, true, false, Option, none, some, map, if◌then◌else◌, find}
use twenty_four.Prelude.Equality.{◌==◌, eq_ℕ, eq_String}
use twenty_four.Prelude.Numerals.{◌&◌}
use twenty_four.Prelude.Results.{throw_if}
use twenty_four.Entitlement.ModuleData.{eq_ModuleId}
use twenty_four.Entitlement.TierData.{eq_TierId}
use twenty_four.Console.Data.{
  PlatformTenant, OnboardingState, OnboardingStepStatus, in_progress, done, ProvisioningRun, Host,
}
use twenty_four.Console.Doors.{
  refused, Action, reads, modify, ◌>>=◌, ◌>>◌, require_found, require_signed_in, require_write,
  find_tenant, recorded,
}
use twenty_four.Console.Tenants.{change_tenant}

abbrev run_with : Host → PlatformTenant → Option OnboardingState → Option ProvisioningRun
run_with host tenant none = none
run_with host tenant (some state) = some (record {
  tenant_id = tenant.tenant_id;
  tenant_name = tenant.name;
  tier = tenant.tier;
  saga_id = "sg_" & host.lower tenant.merchant_code;
  specialist = tenant.specialist;
  state = state;
})

abbrev run_of : Host → PlatformTenant → Option ProvisioningRun
run_of host tenant = run_with host tenant tenant.onboarding

unfoldable pub provisioning_run : Host → String → Action ProvisioningRun
provisioning_run host id = do
  reads require_signed_in
  tenant ← reads λ s. require_found (find_tenant id s)
  reads λ _. require_found (run_of host tenant)

abbrev is_done : OnboardingStepStatus → Bool
is_done done = true
is_done _ = false

abbrev rerun : String → OnboardingState → OnboardingState
rerun step_id state = record state {
  steps = map (λ e. if e.id == step_id then record e { status = in_progress } else e) state.steps;
}

unfoldable pub retry_step : Host → String → String → Action ProvisioningRun
retry_step host id step_id = do
  require_write
  tenant ← reads λ s. require_found (find_tenant id s)
  state ← reads λ _. require_found tenant.onboarding
  step ← reads λ _. require_found (find (λ e. e.id == step_id) state.steps)
  reads λ _. throw_if (is_done step.status) (refused 409 "already_done")
  modify (change_tenant id (λ t. record t { onboarding = some (rerun step_id state) }))
  modify (recorded host "provisioning.step.retried" (step.title & " re-run.") (some tenant) none)
  provisioning_run host id
