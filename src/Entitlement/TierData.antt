-- ===== src/Entitlement/TierData.antt =====
-- packages/entitlement/src/tiers.ts: the subscription tiers, as data. Prices are in minor units.
use twenty_four.Prelude.{
  ℕ, zero, suc, String, ◌≡◌, refl, ◌↔◌, Bool, true, false, Option, none, some, List, [], ◌∷◌,
  nat_eq,
}
use twenty_four.Prelude.Equality.{Eq, eq_ℕ, eq_String, by_index}
use twenty_four.Entitlement.ModuleData.{
  ModuleId, payments, pos_orders, bookings, website_storefront, marketing_ads, ai_creative, crm,
}

pub data TierId : Type 0 where
  starter growth max enterprise : TierId

abbrev pub all_tier_ids : List TierId
all_tier_ids = starter ∷ growth ∷ max ∷ enterprise ∷ []

-- The place in the list above.
abbrev pub tier_id_index : TierId → ℕ
tier_id_index starter = 0
tier_id_index growth = 1
tier_id_index max = 2
tier_id_index enterprise = 3

abbrev tier_id_of_index : ℕ → TierId
tier_id_of_index zero = starter
tier_id_of_index (suc zero) = growth
tier_id_of_index (suc (suc zero)) = max
tier_id_of_index _ = enterprise

tier_id_of_index-index : (x : TierId) → tier_id_of_index (tier_id_index x) ≡ x
tier_id_of_index-index starter = refl
tier_id_of_index-index growth = refl
tier_id_of_index-index max = refl
tier_id_of_index-index enterprise = refl

pub tier_id_eq_iff : (a b : TierId) → (nat_eq (tier_id_index a) (tier_id_index b) ≡ true) ↔ (a ≡ b)
tier_id_eq_iff = by_index tier_id_index tier_id_of_index tier_id_of_index-index

instance abbrev pub eq_TierId : Eq TierId
eq_TierId = record {
  test = λ a b. nat_eq (tier_id_index a) (tier_id_index b);
  agrees = λ a. (tier_id_eq_iff a a).1 refl;
  sound = λ a b. (tier_id_eq_iff a b).0;
}

pub record TierPerk : Type 0 where
  pub label : String
  pub coming_soon : Bool

-- `none` seats are negotiated, and a tier with no list price is quoted.
pub record TierDefinition : Type 0 where
  pub id : TierId
  pub name : String
  pub tagline : String
  pub grants : List ModuleId
  pub seats : Option ℕ
  pub perks : List TierPerk
  pub monthly_minor : Option ℕ
  pub currency : String
  pub recommended : Bool

abbrev perk : String → TierPerk
perk label = record { label = label; coming_soon = false }

abbrev perk_soon : String → TierPerk
perk_soon label = record { label = label; coming_soon = true }

-- `TIERS[id]`
abbrev pub tier_definition : TierId → TierDefinition
tier_definition starter = record {
  id = starter;
  name = "Starter";
  tagline = "Everything needed to trade on day one.";
  grants = pos_orders ∷ bookings ∷ payments ∷ [];
  seats = some 3;
  perks = perk "Deployment and training included" ∷ [];
  monthly_minor = some 8900;
  currency = "EUR";
  recommended = false;
}
tier_definition growth = record {
  id = growth;
  name = "Growth";
  tagline = "Add a public storefront and put the ad budget to work.";
  grants = pos_orders ∷ bookings ∷ payments ∷ website_storefront ∷ marketing_ads ∷ [];
  seats = some 5;
  perks =
      perk "Deployment and training included"
      ∷ perk "Budget reallocation across your ad channels"
      ∷ [];
  monthly_minor = some 18900;
  currency = "EUR";
  recommended = true;
}
tier_definition max = record {
  id = max;
  name = "Max";
  tagline = "The full platform, with creative generation and your own CRM.";
  grants =
      pos_orders ∷ bookings ∷ payments ∷ website_storefront ∷ marketing_ads ∷ ai_creative ∷ crm
      ∷ [];
  seats = some 15;
  perks =
      perk "Deployment and training included"
      ∷ perk "Budget reallocation across your ad channels"
      ∷ perk_soon "Custom domain"
      ∷ [];
  monthly_minor = some 34900;
  currency = "EUR";
  recommended = false;
}
tier_definition enterprise = record {
  id = enterprise;
  name = "Enterprise";
  tagline = "Provisioned to fit. The override is the tier.";
  grants =
      pos_orders ∷ bookings ∷ payments ∷ website_storefront ∷ marketing_ads ∷ ai_creative ∷ crm
      ∷ [];
  seats = none;
  perks =
      perk "Named account team and an SLA"
      ∷ perk "Custom integration work"
      ∷ perk_soon "Custom domain"
      ∷ perk_soon "API access"
      ∷ [];
  monthly_minor = none;
  currency = "EUR";
  recommended = false;
}
