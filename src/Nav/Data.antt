-- ===== src/Nav/Data.antt =====
-- packages/entitlement/src/nav.ts: the entries of the dashboard's navigation, as data. An optional
-- field is an Option; a flag that is left out is false. The unused field `capability` is left out.
use twenty_four.Prelude.{String, Bool, true, false, Option, none, some, List, [], ◌∷◌}
use twenty_four.Entitlement.ModuleData.{
  ModuleId, advanced_analytics, ai_creative, bookings, catalog, crm, inventory, marketing_ads,
  payments, pos_orders, staff_rota, website_storefront,
}
use twenty_four.Rbac.PermissionIds.{PermissionId, reports_financial}

pub data NavLabel : Type 0 where
  term : (key : String) (plural : Bool) → NavLabel
  static : String → NavLabel

pub record LaunchTargets : Type 0 where
  pub pos : String
  pub bookings_app : String
  pub crm_app : String

pub data LaunchKey : Type 0 where
  to_pos to_bookings to_crm : LaunchKey

abbrev pub default_launch_targets : LaunchTargets
default_launch_targets = record { pos = "/pos/"; bookings_app = "/bookings/"; crm_app = "/crm/" }

pub record NavSpec : Type 0 where
  pub id : String
  pub label : NavLabel
  pub full_name : Option String
  pub icon : String
  pub to : Option String
  pub summary : Option String
  pub permission : Option PermissionId
  pub of_module : Option ModuleId
  pub launch_key : Option LaunchKey
  pub always : Bool

pub record SpecGroup : Type 0 where
  pub id : String
  pub label : Option String
  pub items : List NavSpec

abbrev group : String → Option String → List NavSpec → SpecGroup
group id label items = record { id = id; label = label; items = items }

abbrev item_overview : NavSpec
item_overview = record {
  id = "overview";
  label = static "Overview";
  full_name = none;
  icon = "LayoutDashboard";
  to = some "/";
  summary = none;
  permission = none;
  of_module = none;
  launch_key = none;
  always = true;
}

abbrev item_financials : NavSpec
item_financials = record {
  id = "financials";
  label = static "Financials";
  full_name = none;
  icon = "ChartNoAxesCombined";
  to = some "/financials";
  summary = none;
  permission = none;
  of_module = some payments;
  launch_key = none;
  always = false;
}

abbrev item_products : NavSpec
item_products = record {
  id = "products";
  label = term "catalog_item" true;
  full_name = none;
  icon = "Package";
  to = some "/products";
  summary = none;
  permission = none;
  of_module = some advanced_analytics;
  launch_key = none;
  always = false;
}

abbrev item_customers : NavSpec
item_customers = record {
  id = "customers";
  label = term "customer" true;
  full_name = none;
  icon = "Contact";
  to = some "/customers";
  summary = none;
  permission = none;
  of_module = some advanced_analytics;
  launch_key = none;
  always = false;
}

abbrev item_pos : NavSpec
item_pos = record {
  id = "pos";
  label = static "Point of sale";
  full_name = none;
  icon = "ScanLine";
  to = none;
  summary = some "Register a sale, take payment, close the day.";
  permission = none;
  of_module = some pos_orders;
  launch_key = some to_pos;
  always = false;
}

abbrev item_bookings : NavSpec
item_bookings = record {
  id = "bookings";
  label = static "Bookings";
  full_name = some "Bookings and appointments";
  icon = "CalendarDays";
  to = none;
  summary = some "Calendar, availability, deposits and no-shows.";
  permission = none;
  of_module = some bookings;
  launch_key = some to_bookings;
  always = false;
}

abbrev item_inventory : NavSpec
item_inventory = record {
  id = "inventory";
  label = static "Inventory";
  full_name = none;
  icon = "Boxes";
  to = some "/inventory";
  summary = none;
  permission = none;
  of_module = some inventory;
  launch_key = none;
  always = false;
}

abbrev item_orders : NavSpec
item_orders = record {
  id = "orders";
  label = term "order" true;
  full_name = none;
  icon = "ReceiptText";
  to = some "/orders";
  summary = none;
  permission = none;
  of_module = some pos_orders;
  launch_key = none;
  always = false;
}

abbrev item_staff : NavSpec
item_staff = record {
  id = "staff";
  label = static "Team";
  full_name = none;
  icon = "Users";
  to = some "/staff";
  summary = none;
  permission = none;
  of_module = some staff_rota;
  launch_key = none;
  always = false;
}

abbrev item_payments : NavSpec
item_payments = record {
  id = "payments";
  label = static "Payments";
  full_name = none;
  icon = "CreditCard";
  to = some "/payments";
  summary = none;
  permission = none;
  of_module = some payments;
  launch_key = none;
  always = false;
}

abbrev item_documents : NavSpec
item_documents = record {
  id = "documents";
  label = static "Invoices and receipts";
  full_name = none;
  icon = "FileText";
  to = some "/documents";
  summary = none;
  permission = none;
  of_module = some payments;
  launch_key = none;
  always = false;
}

abbrev item_payouts : NavSpec
item_payouts = record {
  id = "payouts";
  label = static "Payouts";
  full_name = none;
  icon = "Wallet";
  to = some "/payouts";
  summary = none;
  permission = none;
  of_module = some payments;
  launch_key = none;
  always = false;
}

abbrev item_books : NavSpec
item_books = record {
  id = "books";
  label = static "Books";
  full_name = none;
  icon = "ReceiptText";
  to = some "/books";
  summary = none;
  permission = some reports_financial;
  of_module = some payments;
  launch_key = none;
  always = false;
}

abbrev item_discounts : NavSpec
item_discounts = record {
  id = "discounts";
  label = static "Coupons and discounts";
  full_name = none;
  icon = "Percent";
  to = some "/discounts";
  summary = none;
  permission = none;
  of_module = some catalog;
  launch_key = none;
  always = false;
}

abbrev item_loyalty : NavSpec
item_loyalty = record {
  id = "loyalty";
  label = static "Loyalty";
  full_name = none;
  icon = "Sparkles";
  to = some "/loyalty";
  summary = none;
  permission = none;
  of_module = some catalog;
  launch_key = none;
  always = false;
}

abbrev item_marketing : NavSpec
item_marketing = record {
  id = "marketing";
  label = static "Marketing and ads";
  full_name = none;
  icon = "Megaphone";
  to = some "/marketing";
  summary = none;
  permission = none;
  of_module = some marketing_ads;
  launch_key = none;
  always = false;
}

abbrev item_creative : NavSpec
item_creative = record {
  id = "creative";
  label = static "Creative";
  full_name = none;
  icon = "Sparkles";
  to = some "/creative";
  summary = none;
  permission = none;
  of_module = some ai_creative;
  launch_key = none;
  always = false;
}

abbrev item_site : NavSpec
item_site = record {
  id = "site";
  label = static "Website";
  full_name = none;
  icon = "Globe";
  to = some "/site";
  summary = none;
  permission = none;
  of_module = some website_storefront;
  launch_key = none;
  always = false;
}

abbrev item_crm : NavSpec
item_crm = record {
  id = "crm";
  label = static "CRM";
  full_name = none;
  icon = "ExternalLink";
  to = none;
  summary = some "Contacts, pipeline and history in your own workspace.";
  permission = none;
  of_module = some crm;
  launch_key = some to_crm;
  always = false;
}

abbrev pub spec : List SpecGroup
spec =
    group "insight" none (item_overview ∷ [])
    ∷ group "analyse" (some "Understand") (item_financials ∷ item_products ∷ item_customers ∷ [])
    ∷ group "apps" (some "Applications") (item_pos ∷ item_bookings ∷ [])
    ∷ group "operate" (some "Operate") (item_inventory ∷ item_orders ∷ item_staff ∷ [])
    ∷ group "money" (some "Money") (item_payments ∷ item_documents ∷ item_payouts ∷ item_books ∷ [])
    ∷ group "grow" (some "Grow")
        (item_discounts ∷ item_loyalty ∷ item_marketing ∷ item_creative ∷ item_site ∷ item_crm ∷ [])
    ∷ []
