-- ===== src/Console/Tests.antt =====
-- Runs of the console of packages/mock/src/admin, and its theorems at concrete calls.
use twenty_four.Prelude.{◌≤◌, ◌≡◌, refl, true, false, none, some, [], ◌∷◌, includes}
use twenty_four.Prelude.Equality.{eq_ℕ, eq_String}
use twenty_four.Prelude.Decimal.{digits}
use twenty_four.Prelude.Stateful.{go_on}
use twenty_four.Entitlement.ModuleData.{
  eq_ModuleId, payments, pos_orders, bookings, marketing_ads, advanced_analytics, crm,
}
use twenty_four.Entitlement.TierData.{starter, growth, max}
use twenty_four.Entitlement.Modules.{
  dependents_of, resolve_dependencies, resolved_set, visit, visit_all,
}
use twenty_four.Console.Data.{
  AdminStore, AdminSession, PlatformTenant, Host, StartSupportSessionInput, ModuleOverrideInput,
  live, healthy, platform_admin, write, read, grants_of,
}
use twenty_four.Console.Directory.{build_grants, tenant_modules}
use twenty_four.Console.Doors.{after, sign_in, sign_out}
use twenty_four.Console.Tenants.{set_tier, modules_of, granted, withdrawn_from, overridden}
use twenty_four.Console.Support.{start_session}
use twenty_four.Console.Registry.{known, keep_ladder, list_tiers, is_ladder, set_tier_grants}
use twenty_four.Console.Steps.{here, then_step, starts, sets_tier, sets_grants, signs_out}
use twenty_four.Console.OneOpen.{Reach-count_open}
use twenty_four.Console.OneOpen.Ended.{count_open}
use twenty_four.Console.Trail.{Step-Traced}
use twenty_four.Console.Ladder.{Reach-IsLadder, is_ladder-IsLadder}
use twenty_four.Entitlement.Modules.Closure.{IsNeeded, needed, Leads}
use twenty_four.Console.Trail.Events.{Traced}
use twenty_four.Console.Closed.{IsClosed, withdrawal-IsClosed, resolve-IsClosed}

abbrev evening : Host
evening = record {
  trim = λ x. x;
  lower = λ x. x;
  now = "2026-09-06T18:00:00.000Z";
  now_base36 = "m";
  now_millis = 1_000_000;
  in_minutes = λ n. "later";
  ten_minutes_past = λ x. x;
  random_base36 = "r";
}

abbrev adam : AdminSession
adam = record {
  staff_id = "st_adam";
  name = "Adam";
  email = "adam@twentyfour.hu";
  role = platform_admin;
  mfa = "TOTP";
  source_ip = "84.21.66.12";
  signed_in_at = "2026-09-06T09:00:00.000Z";
}

abbrev bakery : PlatformTenant
bakery = record {
  tenant_id = "tn_pekseg";
  name = "Bodnar";
  merchant_code = "B1";
  industry = "bakery";
  tier = starter;
  status = live;
  health = healthy;
  health_note = "";
  onboarded_at = "2026-01-01T00:00:00.000Z";
  seats_used = 2;
  overrides = [];
  withdrawn = [];
  onboarding = none;
  specialist = "Judit Vas";
  payment_method = "card";
  dunning_state = none;
}

abbrev office : AdminStore
office = record {
  signed_in = true;
  handoffs = [];
  session = adam;
  tenants = bakery ∷ [];
  grants = build_grants;
  audit = [];
  sessions = [];
  session_seq = 0;
}

abbrev look : StartSupportSessionInput
look = record { tenant_id = "tn_pekseg"; mode = read; reason = "Ticket 4776" }

abbrev opened : AdminStore
opened = after (start_session evening look office)

Reach-count_open_example :
    (count_open (after (sign_out evening opened)).sessions ≤ 1)
    × ((after (sign_out evening opened)).signed_in ≡ false
        → count_open (after (sign_out evening opened)).sessions ≡ 0)
Reach-count_open_example =
    Reach-count_open {s = office}
      (then_step evening (then_step evening here (starts look)) signs_out) tt

one_open : count_open opened.sessions ≡ 1
unfolding start_session go_on digits
one_open = refl

Step-Traced_example : Traced office (after (set_tier evening "tn_pekseg" growth "Upgrade" office))
Step-Traced_example = Step-Traced {host = evening} (sets_tier "tn_pekseg" growth "Upgrade")

ladder_at_first : is_ladder build_grants ≡ true
unfolding is_ladder resolve_dependencies resolved_set visit visit_all
ladder_at_first = refl

starter_needs_payments :
    IsNeeded
      (grants_of (after (set_tier_grants evening growth (known crm ∷ []) office)).grants starter)
      payments
unfolding set_tier_grants go_on keep_ladder is_ladder list_tiers resolve_dependencies resolved_set
    visit visit_all
starter_needs_payments = needed payments refl Leads.here

-- Growth would lose what Starter has: the change is refused and undone.
Reach-IsLadder_example :
    IsNeeded
      (grants_of (after (set_tier_grants evening growth (known crm ∷ []) office)).grants max)
      payments
Reach-IsLadder_example =
    Reach-IsLadder {s = office} starter max payments
      (then_step evening here (sets_grants growth (known crm ∷ [])))
      (is_ladder-IsLadder build_grants ladder_at_first) refl starter_needs_payments

abbrev no_bookings : ModuleOverrideInput
no_bookings = record { module_id = bookings; entitled = false; reason = "No table service" }

bakery-IsClosed : IsClosed (modules_of build_grants bakery)
unfolding tenant_modules resolve_dependencies resolved_set visit visit_all
bakery-IsClosed = resolve-IsClosed (pos_orders ∷ bookings ∷ payments ∷ [])

withdrawal-IsClosed_example :
    IsClosed (modules_of build_grants (overridden bookings false bakery))
    × (includes (modules_of build_grants (overridden bookings false bakery)) bookings ≡ false)
unfolding dependents_of tenant_modules resolve_dependencies resolved_set visit visit_all
withdrawal-IsClosed_example =
    withdrawal-IsClosed evening no_bookings bakery build_grants refl refl bakery-IsClosed

-- A module is granted whose requirement was withdrawn: it is held, and what it needs is not.
granted_without_need :
    let bare =
      withdrawn_from payments (withdrawn_from bookings (withdrawn_from pos_orders bakery)) in
    let again = granted pos_orders bare in
    (includes (modules_of build_grants again) pos_orders ≡ true)
    × (includes (modules_of build_grants again) payments ≡ false)
unfolding tenant_modules resolve_dependencies resolved_set visit visit_all
granted_without_need = (refl, refl)

-- On Starter nothing needs the analytics, so they can go; Growth then has the ads without them.
upgraded_without_need :
    let bare = withdrawn_from advanced_analytics bakery in
    let moved = record bare { tier = growth } in
    (includes (modules_of build_grants moved) marketing_ads ≡ true)
    × (includes (modules_of build_grants moved) advanced_analytics ≡ false)
unfolding tenant_modules resolve_dependencies resolved_set visit visit_all
upgraded_without_need = (refl, refl)

abbrev fix : StartSupportSessionInput
fix = record { tenant_id = "tn_pekseg"; mode = write; reason = "Ticket 4777" }

-- Someone else signs in over a session that may write: it stays open.
session_outlives :
    count_open
      (after (sign_in evening (some "support") (after (start_session evening fix office)))).sessions
    ≡ 1
unfolding start_session sign_in go_on digits
session_outlives = refl
