-- ===== src/Entitlement/Modules.antt =====
-- packages/entitlement/src/modules.ts: what a selection of modules pulls in.
pub mod Closure
use twenty_four.Prelude.{ℕ, zero, suc, not, List, [], ◌∷◌, if◌then◌else◌, select, includes}
use twenty_four.Prelude.Equality.{eq_ℕ, eq_String}
use twenty_four.Entitlement.ModuleData.{ModuleId, eq_ModuleId, all_module_ids, module_definition}

-- `visit`, and the loop over what a module requires, both on the set found so far. The fuel bounds
-- the depth of the calls; Closure shows that the number of modules is enough.
unfoldable pub visit_all :
    (ModuleId → List ModuleId → List ModuleId) → List ModuleId → List ModuleId → List ModuleId
visit_all visit [] resolved = resolved
visit_all visit (id ∷ ids) resolved = visit_all visit ids (visit id resolved)

unfoldable pub visit : ℕ → ModuleId → List ModuleId → List ModuleId
visit zero id resolved = resolved
visit (suc fuel) id resolved =
    let entered = visit_all (visit fuel) (module_definition id).requires (id ∷ resolved) in
    if includes resolved id then resolved else entered

abbrev pub fuel : ℕ
fuel = 14

-- The set that the loop over the selection leaves.
unfoldable pub resolved_set : List ModuleId → List ModuleId
resolved_set selected = visit_all (visit fuel) selected []

unfoldable pub resolve_dependencies : List ModuleId → List ModuleId
resolve_dependencies selected = select (includes (resolved_set selected)) all_module_ids

pub auto_enabled_by : List ModuleId → List ModuleId
auto_enabled_by selected = select (λ id. not (includes selected id)) (resolve_dependencies selected)

unfoldable pub dependents_of : ModuleId → List ModuleId
dependents_of id = select (λ m. includes (module_definition m).requires id) all_module_ids

unfoldable pub requires_specialist : List ModuleId → List ModuleId
requires_specialist = select λ id. not (module_definition id).self_serve_capable
