-- ===== src/Console/Ladder.antt =====
-- packages/mock/src/admin/store.ts, `setTierGrants`: the ladder of the tiers.
use twenty_four.Prelude.{
  ◌≡◌, refl, sym, subst, inl, inr, true, false, List, [], ◌∷◌, arith, not, includes,
  includes-select,
}
use twenty_four.Entitlement.ModuleData.{ModuleId, eq_ModuleId}
use twenty_four.Entitlement.TierData.{TierId, starter, growth, max, enterprise}
use twenty_four.Entitlement.Modules.{resolve_dependencies}
use twenty_four.Entitlement.Modules.Closure.{In, IsNeeded, resolve_dependencies_iff}
use twenty_four.Entitlement.Resolve.{is_upgrade}
use twenty_four.Console.Data.{AdminStore, Grants, grants_of}
use twenty_four.Console.Registry.{is_ladder, is_empty, lost}
use twenty_four.Console.Steps.{Reach, here, then_step}
use twenty_four.Console.Trail.{Step-Traced}
use twenty_four.Console.Trail.Events.{Traced}

-- Whatever a tier's grants need, the grants of every higher tier need too.
abbrev pub IsLadder : Grants → Type 0
IsLadder g =
    (lower higher : TierId)
    → is_upgrade lower higher ≡ true
    → (m : ModuleId) → IsNeeded (grants_of g lower) m
    → IsNeeded (grants_of g higher) m

none_inside : (ids : List ModuleId) (m : ModuleId) → is_empty ids ≡ true → includes ids m ≡ false
none_inside [] m h = refl
none_inside (id ∷ ids) m h = cc

rung :
    (lower higher : List ModuleId)
    → is_empty (lost lower higher) ≡ true
    → (m : ModuleId) → In lower m
    → In higher m
rung lower higher h m i = ground (
  arith,
  includes-select (λ id. not (includes higher id)) lower m,
  none_inside (lost lower higher) m h,
)

record Rungs (g : Grants) : Type 0 where
  first :
      is_empty (
        lost
          (resolve_dependencies (grants_of g starter))
          (resolve_dependencies (grants_of g growth)))
      ≡ true
  second :
      is_empty
        (lost (resolve_dependencies (grants_of g growth)) (resolve_dependencies (grants_of g max)))
      ≡ true
  third :
      is_empty (
        lost
          (resolve_dependencies (grants_of g max))
          (resolve_dependencies (grants_of g enterprise)))
      ≡ true

is_ladder-Rungs : (g : Grants) → is_ladder g ≡ true → Rungs g
unfolding is_ladder
is_ladder-Rungs g h = record { first = ground arith; second = ground arith; third = ground arith }

abbrev Rises : Grants → TierId → TierId → Type 0
Rises g lower higher =
    (m : ModuleId)
    → In (resolve_dependencies (grants_of g lower)) m
    → In (resolve_dependencies (grants_of g higher)) m

module _ (g : Grants) (r : Rungs g) where
  to_growth : Rises g starter growth
  to_growth = rung _ _ r.first

  to_max : Rises g growth max
  to_max = rung _ _ r.second

  to_enterprise : Rises g max enterprise
  to_enterprise = rung _ _ r.third

  Rungs-Rises : (lower higher : TierId) → is_upgrade lower higher ≡ true → Rises g lower higher
  Rungs-Rises starter growth h m i = to_growth m i
  Rungs-Rises starter max h m i = to_max m (to_growth m i)
  Rungs-Rises starter enterprise h m i = to_enterprise m (to_max m (to_growth m i))
  Rungs-Rises growth max h m i = to_max m i
  Rungs-Rises growth enterprise h m i = to_enterprise m (to_max m i)
  Rungs-Rises max enterprise h m i = to_enterprise m i
  Rungs-Rises starter starter h m i = cc
  Rungs-Rises growth starter h m i = cc
  Rungs-Rises growth growth h m i = cc
  Rungs-Rises max starter h m i = cc
  Rungs-Rises max growth h m i = cc
  Rungs-Rises max max h m i = cc
  Rungs-Rises enterprise starter h m i = cc
  Rungs-Rises enterprise growth h m i = cc
  Rungs-Rises enterprise max h m i = cc
  Rungs-Rises enterprise enterprise h m i = cc

pub is_ladder-IsLadder : (g : Grants) → is_ladder g ≡ true → IsLadder g
is_ladder-IsLadder g h lower higher up m n = (resolve_dependencies_iff (grants_of g higher) m).0 (
    Rungs-Rises g (is_ladder-Rungs g h) lower higher up m
      ((resolve_dependencies_iff (grants_of g lower) m).1 n))

Traced-IsLadder : {s t : AdminStore} → Traced s t → IsLadder s.grants → IsLadder t.grants
Traced-IsLadder {s} {t} traced h = elim traced.kept [
  | inl unchanged ↦ subst IsLadder (sym unchanged.1) h
  | inr (_, _, inl same) ↦ subst IsLadder (sym same) h
  | inr (_, _, inr (_, ladder)) ↦ is_ladder-IsLadder t.grants ladder
]

-- No calls, in any order, make an upgrade take a module away: where every module that a tier's grants
-- need is needed by the grants of each higher tier, that is so after the calls.
pub Reach-IsLadder :
    {s t : AdminStore} (lower higher : TierId) (m : ModuleId)
    → Reach s t
    → IsLadder s.grants
    → is_upgrade lower higher ≡ true
    → IsNeeded (grants_of t.grants lower) m
    → IsNeeded (grants_of t.grants higher) m
Reach-IsLadder {s} {t} lower higher m r h up n = all_kept r h lower higher up m n
  where
    all_kept : {s t : AdminStore} → Reach s t → IsLadder s.grants → IsLadder t.grants
    all_kept here ladder = ladder
    all_kept (then_step host r step) ladder = Traced-IsLadder (Step-Traced step) (all_kept r ladder)
