-- ===== src/Rbac/PermissionData.antt =====
-- packages/rbac/src/permissions.ts: the permissions, as data.
use twenty_four.Prelude.{String, Bool, true, false, Option, none, some, List, [], ◌∷◌}
use twenty_four.Prelude.Equality.{eq_ℕ, eq_String}
use twenty_four.Entitlement.ModuleData.{
  ModuleId, catalog, inventory, payments, pos_orders, bookings, marketing_ads,
}
use twenty_four.Rbac.PermissionIds.{
  PermissionId, catalog_view, catalog_edit, pos_sell, pos_discount, pos_void, pos_refund,
  pos_close_day, bookings_view, bookings_manage, bookings_cancel, inventory_view, inventory_adjust,
  staff_view, staff_manage, staff_roles, payments_view, payments_refund, documents_view,
  documents_correct, reports_operational, reports_financial, marketing_view, marketing_manage,
  settings_business, settings_tax, settings_billing,
}

pub data PermissionGroup : Type 0 where
  selling calendar stock people money insight configuration : PermissionGroup

-- With no module a permission is always available.
pub record PermissionDefinition : Type 0 where
  pub id : PermissionId
  pub name : String
  pub description : String
  pub group : PermissionGroup
  pub of_module : Option ModuleId
  pub sensitive : Bool

-- `PERMISSIONS[id]`
abbrev pub permission_definition : PermissionId → PermissionDefinition
permission_definition catalog_view = record {
  id = catalog_view;
  name = "See prices and items";
  description = "Read the catalog, including cost and tax settings.";
  group = PermissionGroup.selling;
  of_module = some catalog;
  sensitive = false;
}
permission_definition catalog_edit = record {
  id = catalog_edit;
  name = "Change prices and items";
  description = "Add, edit and archive items, and set tax treatment.";
  group = PermissionGroup.selling;
  of_module = some catalog;
  sensitive = true;
}
permission_definition pos_sell = record {
  id = pos_sell;
  name = "Register a sale";
  description = "Use the till and take payment.";
  group = PermissionGroup.selling;
  of_module = some pos_orders;
  sensitive = false;
}
permission_definition pos_discount = record {
  id = pos_discount;
  name = "Apply a discount";
  description = "Reduce a line or a whole sale at the till.";
  group = PermissionGroup.selling;
  of_module = some pos_orders;
  sensitive = true;
}
permission_definition pos_void = record {
  id = pos_void;
  name = "Void a sale";
  description = "Cancel a registered sale and return the stock.";
  group = PermissionGroup.selling;
  of_module = some pos_orders;
  sensitive = true;
}
permission_definition pos_refund = record {
  id = pos_refund;
  name = "Refund a sale";
  description = "Return money to a customer and issue a correcting document.";
  group = PermissionGroup.selling;
  of_module = some pos_orders;
  sensitive = true;
}
permission_definition pos_close_day = record {
  id = pos_close_day;
  name = "Close the day";
  description = "Run the day report and reconcile the drawer.";
  group = PermissionGroup.selling;
  of_module = some pos_orders;
  sensitive = false;
}
permission_definition bookings_view = record {
  id = bookings_view;
  name = "See the calendar";
  description = "Read every booking, not only their own.";
  group = PermissionGroup.calendar;
  of_module = some bookings;
  sensitive = false;
}
permission_definition bookings_manage = record {
  id = bookings_manage;
  name = "Take and move bookings";
  description = "Create, reschedule and reassign.";
  group = PermissionGroup.calendar;
  of_module = some bookings;
  sensitive = false;
}
permission_definition bookings_cancel = record {
  id = bookings_cancel;
  name = "Cancel and mark no-shows";
  description = "Which is what deposit rules and reporting hang off.";
  group = PermissionGroup.calendar;
  of_module = some bookings;
  sensitive = true;
}
permission_definition inventory_view = record {
  id = inventory_view;
  name = "See stock levels";
  description = "Read counts and low-stock warnings.";
  group = PermissionGroup.stock;
  of_module = some inventory;
  sensitive = false;
}
permission_definition inventory_adjust = record {
  id = inventory_adjust;
  name = "Adjust stock";
  description = "Record deliveries, waste and count corrections.";
  group = PermissionGroup.stock;
  of_module = some inventory;
  sensitive = true;
}
permission_definition staff_view = record {
  id = staff_view;
  name = "See the team";
  description = "Read who has an account and what they can do.";
  group = PermissionGroup.people;
  of_module = none;
  sensitive = false;
}
permission_definition staff_manage = record {
  id = staff_manage;
  name = "Invite and remove people";
  description = "Add accounts, deactivate them, and use seats.";
  group = PermissionGroup.people;
  of_module = none;
  sensitive = true;
}
permission_definition staff_roles = record {
  id = staff_roles;
  name = "Change what people can do";
  description = "Assign roles. Anyone with this can grant themselves anything.";
  group = PermissionGroup.people;
  of_module = none;
  sensitive = true;
}
permission_definition payments_view = record {
  id = payments_view;
  name = "See payments";
  description = "Read transactions, their status and their references.";
  group = PermissionGroup.money;
  of_module = some payments;
  sensitive = false;
}
permission_definition payments_refund = record {
  id = payments_refund;
  name = "Refund a payment";
  description = "Return money outside the till.";
  group = PermissionGroup.money;
  of_module = some payments;
  sensitive = true;
}
permission_definition documents_view = record {
  id = documents_view;
  name = "See invoices and receipts";
  description = "Read issued documents and their reporting state.";
  group = PermissionGroup.money;
  of_module = some payments;
  sensitive = false;
}
permission_definition documents_correct = record {
  id = documents_correct;
  name = "Issue a correction";
  description = "Raise a credit note against an issued document.";
  group = PermissionGroup.money;
  of_module = some payments;
  sensitive = true;
}
permission_definition reports_operational = record {
  id = reports_operational;
  name = "See operational reporting";
  description = "Takings, busiest hours, what sells.";
  group = PermissionGroup.insight;
  of_module = none;
  sensitive = false;
}
permission_definition reports_financial = record {
  id = reports_financial;
  name = "See financial reporting";
  description = "Margin, tax position and payouts.";
  group = PermissionGroup.insight;
  of_module = none;
  sensitive = true;
}
permission_definition marketing_view = record {
  id = marketing_view;
  name = "See campaigns";
  description = "Read spend, reach and results.";
  group = PermissionGroup.insight;
  of_module = some marketing_ads;
  sensitive = false;
}
permission_definition marketing_manage = record {
  id = marketing_manage;
  name = "Change campaigns and budget";
  description = "Set budgets and approve creative.";
  group = PermissionGroup.insight;
  of_module = some marketing_ads;
  sensitive = true;
}
permission_definition settings_business = record {
  id = settings_business;
  name = "Change business details";
  description = "Name, opening hours, branding and notifications.";
  group = PermissionGroup.configuration;
  of_module = none;
  sensitive = false;
}
permission_definition settings_tax = record {
  id = settings_tax;
  name = "Change tax settings";
  description = "Rates and categories. Wrong here means wrong on every receipt.";
  group = PermissionGroup.configuration;
  of_module = none;
  sensitive = true;
}
permission_definition settings_billing = record {
  id = settings_billing;
  name = "Change the plan and payment method";
  description = "Upgrade, downgrade and pay the subscription.";
  group = PermissionGroup.configuration;
  of_module = none;
  sensitive = true;
}

abbrev pub group_label : PermissionGroup → String
group_label selling = "Selling"
group_label calendar = "Calendar"
group_label stock = "Stock"
group_label people = "People"
group_label money = "Money"
group_label insight = "Insight"
group_label configuration = "Configuration"

abbrev pub group_order : List PermissionGroup
group_order = selling ∷ calendar ∷ stock ∷ money ∷ insight ∷ people ∷ configuration ∷ []
