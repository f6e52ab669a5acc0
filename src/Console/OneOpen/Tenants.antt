-- ===== src/Console/OneOpen/Tenants.antt =====
-- packages/mock/src/admin/store.ts: the calls on tenants and tiers leave the support sessions alone.
use twenty_four.Prelude.{String, List}
use twenty_four.Prelude.Equality.{eq_ℕ, eq_String}
use twenty_four.Prelude.Stateful.{Leaves, next, past}
use twenty_four.Entitlement.TierData.{TierId}
use twenty_four.Console.Guards.{
  require_write_then, get_tenant_leaves, provisioning_run_leaves, list_tiers_leaves,
  keep_ladder_then,
}
use twenty_four.Console.Data.{AdminStore, Host, ModuleOverrideInput, TenantStatus}
use twenty_four.Console.Tenants.{set_status, set_tier, override_module}
use twenty_four.Console.Provisioning.{retry_step}
use twenty_four.Console.Registry.{AskedId, set_tier_grants}
use twenty_four.Console.OneOpen.Ended.{GuardedStore}

pub set_status-Guarded :
    (host : Host) (id : String) (status : TenantStatus) (reason : String) (s : AdminStore)
    → GuardedStore s
    → Leaves GuardedStore (set_status host id status reason s)
unfolding set_status
set_status-Guarded host id status reason s h =
    require_write_then s _ h (λ _ _.
      next _ h (λ _ _. next _ h (λ _ _. past _ _ _ (past _ _ _ (get_tenant_leaves id _ h)))))

pub set_tier-Guarded :
    (host : Host) (id : String) (tier : TierId) (reason : String) (s : AdminStore)
    → GuardedStore s
    → Leaves GuardedStore (set_tier host id tier reason s)
unfolding set_tier
set_tier-Guarded host id tier reason s h =
    require_write_then s _ h (λ _ _.
      next _ h (λ _ _. next _ h (λ _ _. past _ _ _ (past _ _ _ (get_tenant_leaves id _ h)))))

pub override_module-Guarded :
    (host : Host) (id : String) (input : ModuleOverrideInput) (s : AdminStore)
    → GuardedStore s
    → Leaves GuardedStore (override_module host id input s)
unfolding override_module
override_module-Guarded host id input s h = require_write_then s _ h (λ _ _.
    next _ h
      (λ _ _. next _ h (λ _ _. past _ _ _ (past _ _ _ (past _ _ _ (get_tenant_leaves id _ h))))))

pub retry_step-Guarded :
    (host : Host) (id step_id : String) (s : AdminStore)
    → GuardedStore s
    → Leaves GuardedStore (retry_step host id step_id s)
unfolding retry_step
retry_step-Guarded host id step_id s h = require_write_then s _ h (λ _ _. next _ h (λ _ _.
    next _ h (λ _ _.
      next _ h
        (λ _ _. next _ h (λ _ _. past _ _ _ (past _ _ _ (provisioning_run_leaves host id _ h)))))))

pub set_tier_grants-Guarded :
    (host : Host) (tier : TierId) (ids : List AskedId) (s : AdminStore)
    → GuardedStore s
    → Leaves GuardedStore (set_tier_grants host tier ids s)
unfolding set_tier_grants
set_tier_grants-Guarded host tier ids s h = require_write_then s _ h (λ _ _. next _ h (λ _ _.
    next _ h (λ _ _. next _ h (λ _ _.
      past _ _ _ (keep_ladder_then tier _ _ _ h (λ _. past _ _ _ (list_tiers_leaves _ h)))))))
