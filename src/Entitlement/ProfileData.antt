-- ===== src/Entitlement/ProfileData.antt =====
-- packages/entitlement/src/profiles.ts: capabilities and the profiles of the business types, as data.
-- An icon's name is left out.
use twenty_four.Prelude.{ℕ, zero, suc, String, ◌≡◌, refl, ◌↔◌, Bool, true, List, [], ◌∷◌, nat_eq}
use twenty_four.Prelude.Equality.{Eq, eq_ℕ, eq_String, by_index}

pub data CapabilityId : Type 0 where
  kitchen_display table_management : CapabilityId

abbrev pub all_capability_ids : List CapabilityId
all_capability_ids = kitchen_display ∷ table_management ∷ []

-- The place in the list above.
abbrev pub capability_id_index : CapabilityId → ℕ
capability_id_index kitchen_display = 0
capability_id_index table_management = 1

abbrev capability_id_of_index : ℕ → CapabilityId
capability_id_of_index zero = kitchen_display
capability_id_of_index _ = table_management

capability_id_of_index-index :
    (x : CapabilityId) → capability_id_of_index (capability_id_index x) ≡ x
capability_id_of_index-index kitchen_display = refl
capability_id_of_index-index table_management = refl

pub capability_id_eq_iff :
    (a b : CapabilityId) → (nat_eq (capability_id_index a) (capability_id_index b) ≡ true) ↔ (a ≡ b)
capability_id_eq_iff =
    by_index capability_id_index capability_id_of_index capability_id_of_index-index

instance abbrev pub eq_CapabilityId : Eq CapabilityId
eq_CapabilityId = record {
  test = λ a b. nat_eq (capability_id_index a) (capability_id_index b);
  agrees = λ a. (capability_id_eq_iff a a).1 refl;
  sound = λ a b. (capability_id_eq_iff a b).0;
}

pub data TermFamily : Type 0 where
  food_service salon retail accommodation trades : TermFamily

abbrev pub all_term_familys : List TermFamily
all_term_familys = food_service ∷ salon ∷ retail ∷ accommodation ∷ trades ∷ []

-- The place in the list above.
abbrev pub term_family_index : TermFamily → ℕ
term_family_index food_service = 0
term_family_index salon = 1
term_family_index retail = 2
term_family_index accommodation = 3
term_family_index trades = 4

abbrev term_family_of_index : ℕ → TermFamily
term_family_of_index zero = food_service
term_family_of_index (suc zero) = salon
term_family_of_index (suc (suc zero)) = retail
term_family_of_index (suc (suc (suc zero))) = accommodation
term_family_of_index _ = trades

term_family_of_index-index : (x : TermFamily) → term_family_of_index (term_family_index x) ≡ x
term_family_of_index-index food_service = refl
term_family_of_index-index salon = refl
term_family_of_index-index retail = refl
term_family_of_index-index accommodation = refl
term_family_of_index-index trades = refl

pub term_family_eq_iff :
    (a b : TermFamily) → (nat_eq (term_family_index a) (term_family_index b) ≡ true) ↔ (a ≡ b)
term_family_eq_iff = by_index term_family_index term_family_of_index term_family_of_index-index

instance abbrev pub eq_TermFamily : Eq TermFamily
eq_TermFamily = record {
  test = λ a b. nat_eq (term_family_index a) (term_family_index b);
  agrees = λ a. (term_family_eq_iff a a).1 refl;
  sound = λ a b. (term_family_eq_iff a b).0;
}

pub record CapabilityDefinition : Type 0 where
  pub id : CapabilityId
  pub name : String
  pub summary : String
  pub part_of : String
  pub implemented : Bool

-- `CAPABILITIES[id]`
abbrev pub capability_definition : CapabilityId → CapabilityDefinition
capability_definition kitchen_display = record {
  id = kitchen_display;
  name = "Kitchen display";
  summary = "Order lines on prep screens, course timing, and bump when done.";
  part_of = "pos_orders";
  implemented = true;
}
capability_definition table_management = record {
  id = table_management;
  name = "Tables and floor plan";
  summary = "Table state, party size, and moving a check between tables.";
  part_of = "pos_orders";
  implemented = true;
}

pub record IndustryProfile : Type 0 where
  pub id : String
  pub name : String
  pub family : TermFamily
  pub capabilities : List CapabilityId
  pub catalog_template : String

abbrev profile : String → String → TermFamily → List CapabilityId → IndustryProfile
profile id name family capabilities = record {
  id = id;
  name = name;
  family = family;
  capabilities = capabilities;
  catalog_template = id;
}

abbrev kitchen : List CapabilityId
kitchen = kitchen_display ∷ []

abbrev kitchen_and_tables : List CapabilityId
kitchen_and_tables = kitchen_display ∷ table_management ∷ []

-- `INDUSTRY_PROFILES`
abbrev pub industry_profiles : List IndustryProfile
industry_profiles =
    profile "restaurant" "Restaurant" food_service kitchen_and_tables
    ∷ profile "cafe" "Cafe or coffee shop" food_service kitchen_and_tables
    ∷ profile "bakery" "Bakery" food_service kitchen
    ∷ profile "pizzeria" "Pizzeria" food_service kitchen_and_tables
    ∷ profile "bar_pub" "Bar or pub" food_service kitchen_and_tables
    ∷ profile "food_truck" "Food truck" food_service kitchen
    ∷ profile "catering" "Catering" food_service kitchen
    ∷ profile "ice_cream" "Ice cream or dessert shop" food_service []
    ∷ profile "hair_salon" "Hair salon" salon []
    ∷ profile "barbershop" "Barbershop" salon []
    ∷ profile "nail_salon" "Nail salon" salon []
    ∷ profile "beauty_salon" "Beauty salon" salon []
    ∷ profile "spa" "Spa" salon []
    ∷ profile "massage" "Massage therapy" salon []
    ∷ profile "tattoo_studio" "Tattoo or piercing studio" salon []
    ∷ profile "barber_academy" "Training academy" salon []
    ∷ profile "clothing" "Clothing and fashion" retail []
    ∷ profile "grocery" "Grocery" retail []
    ∷ profile "convenience" "Convenience store" retail []
    ∷ profile "bookshop" "Bookshop" retail []
    ∷ profile "florist" "Florist" retail []
    ∷ profile "pharmacy" "Pharmacy" retail []
    ∷ profile "electronics" "Electronics" retail []
    ∷ profile "pet_shop" "Pet shop" retail []
    ∷ profile "gift_shop" "Gift shop" retail []
    ∷ profile "jewellery" "Jewellery" retail []
    ∷ profile "sports_shop" "Sports and outdoor" retail []
    ∷ profile "hardware" "Hardware and DIY" retail []
    ∷ profile "hotel" "Hotel" accommodation []
    ∷ profile "guesthouse" "Guesthouse or B&B" accommodation []
    ∷ profile "hostel" "Hostel" accommodation []
    ∷ profile "apartment_rental" "Short-stay apartments" accommodation []
    ∷ profile "plumber" "Plumbing" trades []
    ∷ profile "electrician" "Electrical" trades []
    ∷ profile "cleaning" "Cleaning services" trades []
    ∷ profile "garage" "Garage and auto repair" trades []
    ∷ profile "landscaping" "Landscaping and garden" trades []
    ∷ profile "photographer" "Photography" trades []
    ∷ profile "gym" "Gym or fitness studio" salon []
    ∷ profile "yoga_studio" "Yoga or pilates studio" salon []
    ∷ profile "dental_clinic" "Dental clinic" salon []
    ∷ profile "veterinary" "Veterinary clinic" salon []
    ∷ profile "physiotherapy" "Physiotherapy" salon []
    ∷ []
