-- ===== src/Console/Trail/Tenants.antt =====
-- packages/mock/src/admin/store.ts: the trail of the calls on tenants and tiers.
use twenty_four.Prelude.{String, ◌≡◌, refl, inl, inr, List, [], ◌∷◌}
use twenty_four.Prelude.Equality.{eq_ℕ, eq_String}
use twenty_four.Prelude.Results.{throw_if-eq-ok}
use twenty_four.Prelude.Stateful.{Leaves, next, past}
use twenty_four.Entitlement.ModuleData.{ModuleId}
use twenty_four.Entitlement.TierData.{TierId, starter, growth, max, enterprise}
use twenty_four.Console.Data.{
  AdminStore, Host, ModuleOverrideInput, TenantStatus, Grants, grants_of, put_grants,
}
use twenty_four.Console.Tenants.{set_status, set_tier, override_module}
use twenty_four.Console.Provisioning.{retry_step}
use twenty_four.Console.Registry.{AskedId, set_tier_grants}
use twenty_four.Console.Guards.{
  require_write_then, get_tenant_leaves, provisioning_run_leaves, list_tiers_leaves,
  keep_ladder_then,
}
use twenty_four.Console.Trail.Events.{Traced, silent-Traced, written, of_not, nothing-Traced}

pub set_status-Traced :
    (host : Host) (id : String) (status : TenantStatus) (reason : String) (s : AdminStore)
    → Leaves (Traced s) (set_status host id status reason s)
unfolding set_status
set_status-Traced host id status reason s =
    let h = nothing-Traced s in
    require_write_then s _ h (λ inside writer. next _ h (λ _ _. next _ h (λ _ _. past _ _ _ (
      past _ _ _
        (get_tenant_leaves id _ (written s _ _ [] refl (refl, tt) inside writer (inl refl)))))))

pub set_tier-Traced :
    (host : Host) (id : String) (tier : TierId) (reason : String) (s : AdminStore)
    → Leaves (Traced s) (set_tier host id tier reason s)
unfolding set_tier
set_tier-Traced host id tier reason s =
    let h = nothing-Traced s in
    require_write_then s _ h (λ inside writer. next _ h (λ _ _. next _ h (λ _ _. past _ _ _ (
      past _ _ _
        (get_tenant_leaves id _ (written s _ _ [] refl (refl, tt) inside writer (inl refl)))))))

pub override_module-Traced :
    (host : Host) (id : String) (input : ModuleOverrideInput) (s : AdminStore)
    → Leaves (Traced s) (override_module host id input s)
unfolding override_module
override_module-Traced host id input s =
    let h = nothing-Traced s in
    require_write_then s _ h (λ inside writer. next _ h (λ _ _. next _ h (λ _ _. past _ _ _ (
      past _ _ _ (
        past _ _ _ (
          get_tenant_leaves id _
            (written s _ _ (_ ∷ []) refl (refl, (refl, tt)) inside writer (inl refl))))))))

pub retry_step-Traced :
    (host : Host) (id step_id : String) (s : AdminStore)
    → Leaves (Traced s) (retry_step host id step_id s)
unfolding retry_step
retry_step-Traced host id step_id s =
    let h = nothing-Traced s in
    require_write_then s _ h (λ inside writer. next _ h (λ _ _. next _ h (λ _ _. next _ h (λ _ _.
      next _ h (λ _ _. past _ _ _ (
        past _ _ _ (
          provisioning_run_leaves host id _
            (written s _ _ [] refl (refl, tt) inside writer (inl refl)))))))))

-- What a tier granted is put back.
put_back :
    (tier : TierId) (ids : List ModuleId) (g : Grants)
    → put_grants tier (grants_of g tier) (put_grants tier ids g) ≡ g
put_back starter ids g = refl
put_back growth ids g = refl
put_back max ids g = refl
put_back enterprise ids g = refl

pub set_tier_grants-Traced :
    (host : Host) (tier : TierId) (asked : List AskedId) (s : AdminStore)
    → Leaves (Traced s) (set_tier_grants host tier asked s)
unfolding set_tier_grants
set_tier_grants-Traced host tier asked s =
    let h = nothing-Traced s in
    require_write_then s _ h (λ inside writer. next _ h (λ _ admin. next _ h (λ ids _. past _ _ _ (
      past _ _ _ (
        keep_ladder_then tier _ _ _ (silent-Traced s _ refl (refl, put_back tier ids s.grants))
          (λ ladder. past _ _ _ (
            list_tiers_leaves _ (
              written s _ _ [] refl (refl, tt) inside writer
                (inr (of_not _ (throw_if-eq-ok _ _ admin), ladder))))))))))
