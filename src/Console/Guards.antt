-- ===== src/Console/Guards.antt =====
-- packages/mock/src/admin/store.ts: the calls that only look at the console leave it as it was.
use twenty_four.Prelude.{String, ◌≡◌, refl, inl, inr, Bool, true, false, not, List, Bool-cases}
use twenty_four.Prelude.Results.{throw_if, throw_if-eq-ok}
use twenty_four.Prelude.Stateful.{Leaves, leaves, next, go_on}
use twenty_four.Entitlement.ModuleData.{ModuleId}
use twenty_four.Entitlement.TierData.{TierId}
use twenty_four.Console.Data.{AdminStore, Host}
use twenty_four.Console.Directory.{is_support}
use twenty_four.Console.Doors.{Action, Refusal, require_write}
use twenty_four.Console.Tenants.{get_tenant}
use twenty_four.Console.Provisioning.{provisioning_run}
use twenty_four.Console.Registry.{list_tiers, keep_ladder, is_ladder, with_grants}

module _ {P : AdminStore → Type 0} where
  -- Two tests, the second on the state.
  twice_then :
      {B : Type 0} (a : Bool) (x y : Refusal) (b : AdminStore → Bool) (s : AdminStore)
      (k : Unit {0} → Action B)
      → P s
      → (a ≡ false → b s ≡ false → Leaves P (k tt s))
      → Leaves P (go_on (go_on (throw_if a x, s) (λ _ t. (throw_if (b t) y, t))) k)
  unfolding go_on
  twice_then true x y b s k h then_k = leaves h
  twice_then false x y b s k h then_k = next k h (λ _ e. then_k refl (throw_if-eq-ok (b s) y e))

  pub require_write_then :
      {B : Type 0} (s : AdminStore) (k : Unit {0} → Action B)
      → P s
      → (not s.signed_in ≡ false → is_support s.session.role ≡ false → Leaves P (k tt s))
      → Leaves P (go_on (require_write s) k)
  require_write_then s k h then_k = twice_then _ _ _ (λ t. is_support t.session.role) s k h then_k

  pub get_tenant_leaves : (id : String) (s : AdminStore) → P s → Leaves P (get_tenant id s)
  unfolding get_tenant
  get_tenant_leaves id s h = next _ h (λ _ _. next _ h (λ _ _. leaves h))

  pub provisioning_run_leaves :
      (host : Host) (id : String) (s : AdminStore) → P s → Leaves P (provisioning_run host id s)
  unfolding provisioning_run
  provisioning_run_leaves host id s h = next _ h (λ _ _. next _ h (λ _ _. leaves h))

  pub list_tiers_leaves : (s : AdminStore) → P s → Leaves P (list_tiers s)
  unfolding list_tiers
  list_tiers_leaves s h = next _ h (λ _ _. leaves h)

  -- The ladder of tiers holds and the call goes on, or what a tier granted is put back.
  pub keep_ladder_then :
      {B : Type 0} (tier : TierId) (previous : List ModuleId) (s : AdminStore)
      (k : Unit {0} → Action B)
      → P (with_grants tier previous s)
      → (is_ladder s.grants ≡ true → Leaves P (k tt s))
      → Leaves P (go_on (keep_ladder tier previous s) k)
  unfolding go_on keep_ladder
  keep_ladder_then tier previous s k back then_k = elim (Bool-cases (is_ladder s.grants)) [
    | inl holds ↦ rw holds (then_k holds)
    | inr broken ↦ rw broken (leaves back)
  ]
