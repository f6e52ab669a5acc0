-- ===== src/Entitlement/ModuleData.antt =====
-- packages/entitlement/src/modules.ts: the catalog of modules, as data. An icon's name is left out.
use twenty_four.Prelude.{
  ℕ, zero, suc, String, ◌≡◌, refl, ◌↔◌, Bool, true, false, List, [], ◌∷◌, nat_eq,
}
use twenty_four.Prelude.Equality.{Eq, eq_ℕ, eq_String, by_index}

pub data ModuleId : Type 0 where
  identity_tenancy notifications audit_documents catalog inventory staff_rota payments pos_orders
        bookings website_storefront advanced_analytics marketing_ads ai_creative crm :
      ModuleId

abbrev pub all_module_ids : List ModuleId
all_module_ids =
    identity_tenancy ∷ notifications ∷ audit_documents ∷ catalog ∷ inventory ∷ staff_rota ∷ payments
    ∷ pos_orders ∷ bookings ∷ website_storefront ∷ advanced_analytics ∷ marketing_ads ∷ ai_creative
    ∷ crm ∷ []

-- The place in the list above.
abbrev pub module_id_index : ModuleId → ℕ
module_id_index identity_tenancy = 0
module_id_index notifications = 1
module_id_index audit_documents = 2
module_id_index catalog = 3
module_id_index inventory = 4
module_id_index staff_rota = 5
module_id_index payments = 6
module_id_index pos_orders = 7
module_id_index bookings = 8
module_id_index website_storefront = 9
module_id_index advanced_analytics = 10
module_id_index marketing_ads = 11
module_id_index ai_creative = 12
module_id_index crm = 13

abbrev module_id_of_index : ℕ → ModuleId
module_id_of_index zero = identity_tenancy
module_id_of_index (suc zero) = notifications
module_id_of_index (suc (suc zero)) = audit_documents
module_id_of_index (suc (suc (suc zero))) = catalog
module_id_of_index (suc (suc (suc (suc zero)))) = inventory
module_id_of_index (suc (suc (suc (suc (suc zero))))) = staff_rota
module_id_of_index (suc (suc (suc (suc (suc (suc zero)))))) = payments
module_id_of_index (suc (suc (suc (suc (suc (suc (suc zero))))))) = pos_orders
module_id_of_index (suc (suc (suc (suc (suc (suc (suc (suc zero)))))))) = bookings
module_id_of_index (suc (suc (suc (suc (suc (suc (suc (suc (suc zero))))))))) = website_storefront
module_id_of_index (suc (suc (suc (suc (suc (suc (suc (suc (suc (suc zero)))))))))) =
    advanced_analytics
module_id_of_index (suc (suc (suc (suc (suc (suc (suc (suc (suc (suc (suc zero))))))))))) =
    marketing_ads
module_id_of_index (suc (suc (suc (suc (suc (suc (suc (suc (suc (suc (suc (suc zero)))))))))))) =
    ai_creative
module_id_of_index _ = crm

module_id_of_index-index : (x : ModuleId) → module_id_of_index (module_id_index x) ≡ x
module_id_of_index-index identity_tenancy = refl
module_id_of_index-index notifications = refl
module_id_of_index-index audit_documents = refl
module_id_of_index-index catalog = refl
module_id_of_index-index inventory = refl
module_id_of_index-index staff_rota = refl
module_id_of_index-index payments = refl
module_id_of_index-index pos_orders = refl
module_id_of_index-index bookings = refl
module_id_of_index-index website_storefront = refl
module_id_of_index-index advanced_analytics = refl
module_id_of_index-index marketing_ads = refl
module_id_of_index-index ai_creative = refl
module_id_of_index-index crm = refl

pub module_id_eq_iff :
    (a b : ModuleId) → (nat_eq (module_id_index a) (module_id_index b) ≡ true) ↔ (a ≡ b)
module_id_eq_iff = by_index module_id_index module_id_of_index module_id_of_index-index

instance abbrev pub eq_ModuleId : Eq ModuleId
eq_ModuleId = record {
  test = λ a b. nat_eq (module_id_index a) (module_id_index b);
  agrees = λ a. (module_id_eq_iff a a).1 refl;
  sound = λ a b. (module_id_eq_iff a b).0;
}

pub data ModuleKind : Type 0 where
  always_on sold dependency : ModuleKind

pub record ModuleDefinition : Type 0 where
  pub id : ModuleId
  pub name : String
  pub summary : String
  pub kind : ModuleKind
  pub requires : List ModuleId
  pub services : List String
  pub self_serve_capable : Bool

-- `MODULES[id]`
abbrev pub module_definition : ModuleId → ModuleDefinition
module_definition identity_tenancy = record {
  id = identity_tenancy;
  name = "Identity and tenancy";
  summary = "Accounts, staff logins, roles and the business profile.";
  kind = ModuleKind.always_on;
  requires = [];
  services = "Auth" ∷ "RBAC" ∷ "Tenant" ∷ "Entitlement" ∷ [];
  self_serve_capable = true;
}
module_definition notifications = record {
  id = notifications;
  name = "Notifications";
  summary = "Every outbound email and SMS, with your branding and quiet hours.";
  kind = ModuleKind.always_on;
  requires = [];
  services = "Notification" ∷ [];
  self_serve_capable = true;
}
module_definition audit_documents = record {
  id = audit_documents;
  name = "Audit and documents";
  summary = "A plain-language record of every automated decision, and stored files.";
  kind = ModuleKind.always_on;
  requires = [];
  services = "Audit Log" ∷ "Media & Document" ∷ [];
  self_serve_capable = true;
}
module_definition catalog = record {
  id = catalog;
  name = "Catalog";
  summary = "Whatever you sell, with prices and tax rules. One source of truth.";
  kind = ModuleKind.dependency;
  requires = [];
  services = "Product & Service Catalog" ∷ [];
  self_serve_capable = true;
}
module_definition inventory = record {
  id = inventory;
  name = "Inventory";
  summary = "Live stock levels, reservations and low-stock alerts.";
  kind = ModuleKind.dependency;
  requires = catalog ∷ [];
  services = "Real-time Inventory" ∷ [];
  self_serve_capable = true;
}
module_definition staff_rota = record {
  id = staff_rota;
  name = "Staff and rota";
  summary = "Staff records, roles, shifts and per-person availability.";
  kind = ModuleKind.sold;
  requires = [];
  services = "Staff & Scheduling" ∷ [];
  self_serve_capable = true;
}
module_definition payments = record {
  id = payments;
  name = "Payments";
  summary = "Taking money, refunds, receipts and the books behind them.";
  kind = ModuleKind.sold;
  requires = [];
  services = "Payments" ∷ "Invoice & Receipt" ∷ "Ledger & Reconciliation" ∷ [];
  self_serve_capable = false;
}
module_definition pos_orders = record {
  id = pos_orders;
  name = "POS and orders";
  summary =
      "A till that registers a sale: cart, tender, discounts, voids, refunds, receipt and the day’s takings.";
  kind = ModuleKind.sold;
  requires = catalog ∷ inventory ∷ payments ∷ [];
  services = "POS & Orders" ∷ [];
  self_serve_capable = true;
}
module_definition bookings = record {
  id = bookings;
  name = "Bookings";
  summary = "Calendar, deposits, no-show handling, buffers, and never double-booking a person.";
  kind = ModuleKind.sold;
  requires = catalog ∷ staff_rota ∷ payments ∷ [];
  services = "Bookings & Appointments" ∷ [];
  self_serve_capable = true;
}
module_definition website_storefront = record {
  id = website_storefront;
  name = "Website and storefront";
  summary = "A public site built from your trade’s template, with online ordering or booking.";
  kind = ModuleKind.sold;
  requires = catalog ∷ [];
  services = "Website Builder" ∷ "Storefront BFF" ∷ [];
  self_serve_capable = true;
}
module_definition advanced_analytics = record {
  id = advanced_analytics;
  name = "Advanced analytics";
  summary = "Revenue, occupancy and channel reporting beyond the basic dashboard.";
  kind = ModuleKind.sold;
  requires = [];
  services = "Reporting & Analytics API" ∷ [];
  self_serve_capable = true;
}
module_definition marketing_ads = record {
  id = marketing_ads;
  name = "Marketing and ads";
  summary = "Ad spend reallocated every six hours against booked revenue, across your channels.";
  kind = ModuleKind.sold;
  requires = advanced_analytics ∷ [];
  services = "AI Marketing Engine" ∷ "Ad Account Sync" ∷ [];
  self_serve_capable = false;
}
module_definition ai_creative = record {
  id = ai_creative;
  name = "AI creative";
  summary = "Ad copy and imagery generated, and variants tested against performance.";
  kind = ModuleKind.sold;
  requires = marketing_ads ∷ [];
  services = "AI Creative Generation" ∷ [];
  self_serve_capable = true;
}
module_definition crm = record {
  id = crm;
  name = "CRM";
  summary = "Contacts, pipeline, history and tasks, in your own workspace.";
  kind = ModuleKind.sold;
  requires = [];
  services = "Twenty CRM (forked)" ∷ "CRM Sync" ∷ [];
  self_serve_capable = true;
}
