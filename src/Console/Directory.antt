-- ===== src/Console/Directory.antt =====
-- packages/mock/src/admin/platform.ts: who works the console, what each role may do, and what follows
-- from a tenant's row.
use twenty_four.Prelude.{
  ℕ, String, Bool, true, false, not, Option, none, some, List, [], ◌∷◌, ◌++◌, select, exists,
  includes,
}
use twenty_four.Prelude.Equality.{eq_ℕ, eq_String}
use twenty_four.Entitlement.ModuleData.{ModuleId, eq_ModuleId, module_definition}
use twenty_four.Entitlement.TierData.{tier_definition, starter, growth, max, enterprise}
use twenty_four.Entitlement.Modules.{resolve_dependencies}
use twenty_four.Console.Data.{
  AdminRole, platform_admin, specialist, support, read, write, AdminRoleDefinition,
  AdminStaffMember, AdminEnvironment, PlatformTenant, Grants,
}

abbrev pub environment : AdminEnvironment
environment = record {
  market = "Hungary";
  environment = "production";
  currency = "HUF";
  locale = "hu-HU";
  timezone = "Europe/Budapest";
  release = "2026.09.3";
  fiscal_authority = "National tax authority";
  go_live_hours = 24;
  audit_retention_years = 7;
  read_token_minutes = 30;
  write_token_minutes = 15;
}

-- The id of a role, as a text.
abbrev pub role_text : AdminRole → String
role_text platform_admin = "platform_admin"
role_text specialist = "specialist"
role_text support = "support"

abbrev pub is_support : AdminRole → Bool
is_support support = true
is_support _ = false

abbrev pub is_platform_admin : AdminRole → Bool
is_platform_admin platform_admin = true
is_platform_admin _ = false

abbrev pub admin_roles : List AdminRoleDefinition
admin_roles =
    record {
      id = platform_admin;
      name = "Platform Admin";
      summary = "Full access to the admin console for this market, including the tier registry.";
      impersonation = some write;
      impersonation_note = "Read and write";
    }
    ∷ record {
      id = specialist;
      name = "Specialist";
      summary = "Onboards and supports tenants. Can provision and impersonate, not change pricing.";
      impersonation = some write;
      impersonation_note = "Read and write, with a reason";
    }
    ∷ record {
      id = support;
      name = "Support";
      summary = "Reads tenant state to answer questions. Cannot change entitlements.";
      impersonation = some read;
      impersonation_note = "Read only";
    }
    ∷ []

abbrev pub staff : List AdminStaffMember
staff =
    record {
      staff_id = "st_adam";
      name = "Ádám Bíró";
      email = "adam@twentyfour.hu";
      role = platform_admin;
      mfa = some "Passkey and TOTP";
      last_seen_at = some "2026-09-06T06:12:00.000Z";
      impersonations = 6;
    }
    ∷ record {
      staff_id = "st_dora";
      name = "Dóra Halász";
      email = "dora@twentyfour.hu";
      role = specialist;
      mfa = some "TOTP";
      last_seen_at = some "2026-09-06T05:40:00.000Z";
      impersonations = 11;
    }
    ∷ record {
      staff_id = "st_mark";
      name = "Márk Szendrei";
      email = "mark@twentyfour.hu";
      role = support;
      mfa = some "TOTP";
      last_seen_at = some "2026-09-05T16:22:00.000Z";
      impersonations = 19;
    }
    ∷ record {
      staff_id = "st_judit";
      name = "Judit Vas";
      email = "judit@twentyfour.hu";
      role = specialist;
      mfa = some "Passkey and TOTP";
      last_seen_at = some "2026-09-05T14:05:00.000Z";
      impersonations = 4;
    }
    ∷ record {
      staff_id = "st_bence";
      name = "Bence Tímár";
      email = "bence@twentyfour.hu";
      role = support;
      mfa = some "TOTP";
      last_seen_at = some "2026-09-02T07:31:00.000Z";
      impersonations = 0;
    }
    ∷ record {
      staff_id = "st_zita";
      name = "Zita Kelemen";
      email = "zita@twentyfour.hu";
      role = support;
      mfa = none;
      last_seen_at = none;
      impersonations = 0;
    }
    ∷ []

abbrev select_modules : PlatformTenant → List ModuleId → List ModuleId
select_modules tenant grants =
    select (λ id. not (includes tenant.withdrawn id)) (grants ++ tenant.overrides)

-- What a tenant holds once tier, dependencies and overrides resolve.
unfoldable pub tenant_modules : PlatformTenant → List ModuleId → List ModuleId
tenant_modules tenant grants =
    select (λ id. not (includes tenant.withdrawn id))
      (resolve_dependencies (select_modules tenant grants))

abbrev pub seat_limit_of : PlatformTenant → Option ℕ
seat_limit_of tenant = (tier_definition tenant.tier).seats

abbrev pub build_grants : Grants
build_grants = record {
  of_starter = (tier_definition starter).grants;
  of_growth = (tier_definition growth).grants;
  of_max = (tier_definition max).grants;
  of_enterprise = (tier_definition enterprise).grants;
}

unfoldable pub auto_provisionable : List ModuleId → Bool
auto_provisionable grants =
    not (exists (λ id. not (module_definition id).self_serve_capable) (resolve_dependencies grants))
