-- ===== src/Till/Data.antt =====
-- The data of the till: packages/api/src/types.ts and endpoints.ts, and the part of `TenantStore` of
-- packages/mock/src/store.ts that the till reads and writes. A field that may be null or absent is an
-- Option; `open` is spelled `parked`. A price that a request carries stands here behind
-- `Number(...)`, which turns its text into a number.
use twenty_four.Prelude.{ℕ, String, Bool, true, false, Option, List}
use twenty_four.Prelude.Equality.{eq_ℕ, eq_String}
use twenty_four.Prelude.Int.{ℤ}
use twenty_four.Prelude.Number.{Number}
use twenty_four.Money.{Money}
use twenty_four.Pricing.{Amounts}

-- What the till reads of a catalog item.
pub record CatalogItem : Type 0 where
  pub id : String
  pub name : String
  pub unit_price : Money
  pub tax_basis_points : Number
  pub tax_included : Bool

pub record OrderLine : Type 0 where
  pub id : String
  pub item_id : String
  pub name : String
  pub quantity : ℕ
  pub unit_price : Money
  pub tax_basis_points : Number
  pub tax_included : Bool
  pub discount : Option Money
  pub amounts : Amounts

pub data TenderMethod : Type 0 where
  cash card wallet transfer voucher : TenderMethod

abbrev pub is_cash : TenderMethod → Bool
is_cash cash = true
is_cash _ = false

pub record Tender : Type 0 where
  pub id : String
  pub method : TenderMethod
  pub amount : Money
  pub tendered : Option Money
  pub change : Option Money
  pub reference : Option String

pub data OrderStatus : Type 0 where
  parked paid refunded partly_refunded voided : OrderStatus

abbrev pub is_parked : OrderStatus → Bool
is_parked parked = true
is_parked _ = false

abbrev pub is_voided : OrderStatus → Bool
is_voided voided = true
is_voided _ = false

pub record Order : Type 0 where
  pub id : String
  pub number : String
  pub placed_at : String
  pub status : OrderStatus
  pub customer_id : Option String
  pub customer_name : Option String
  pub discount_code : Option String
  pub discount : Option Money
  pub lines : List OrderLine
  pub amounts : Amounts
  pub tenders : List Tender
  pub staff_id : Option String
  pub note : String
  pub table_id : Option String
  pub refunded_total : Money
  pub refunded_line_ids : List String

pub data TableStatus : Type 0 where
  free seated ordered bill_requested : TableStatus

pub record DiningTable : Type 0 where
  pub id : String
  pub status : TableStatus
  pub order_id : Option String

pub data PaymentStatus : Type 0 where
  pending authorised captured given_back failed cancelled : PaymentStatus

pub record Payment : Type 0 where
  pub id : String
  pub order_id : String
  pub amount : Money
  pub refunded_part : Money
  pub method : TenderMethod
  pub status : PaymentStatus
  pub created_at : String
  pub provider_reference : Option String

pub data DocumentKind : Type 0 where
  receipt credit_note : DocumentKind

pub data ReportingStatus : Type 0 where
  not_required queued reported retrying failed_to_report : ReportingStatus

pub record FiscalDocument : Type 0 where
  pub id : String
  pub number : String
  pub kind : DocumentKind
  pub issued_at : String
  pub order_id : String
  pub amounts : Amounts
  pub customer_name : Option String
  pub reporting_status : ReportingStatus
  pub artifact_url : String
  pub corrected_by : Option String
  pub corrects : Option String

-- Counts of stock are whole numbers, which doubles add exactly below 2^53.
pub record StockRow : Type 0 where
  pub item_id : String
  pub on_hand : ℤ
  pub reserved : ℕ

pub record Customer : Type 0 where
  pub id : String
  pub name : String

-- What a count of the drawer recorded.
pub record DayRecord : Type 0 where
  pub date : String
  pub opening_float : ℤ
  pub counted_cash : ℤ
  pub counted_by : String
  pub counted_at : String
  pub note : String

pub record Till : Type 0 where
  pub tenant_id : String
  pub currency : String
  pub user_name : String
  pub items : List CatalogItem
  pub customers : List Customer
  pub first_staff : Option String
  pub tables : List DiningTable
  pub orders : List Order
  pub payments : List Payment
  pub documents : List FiscalDocument
  pub stock : List StockRow
  pub days : List DayRecord
  pub order_counter : ℕ
  pub payment_counter : ℕ
  pub document_counter : ℕ

-- What the clock says: the moment, its day without dashes, and its year.
pub record Clock : Type 0 where
  pub iso : String
  pub day : String
  pub year : String

pub record WireMoney : Type 0 where
  pub minor : Number
  pub currency : String

pub record OrderLineInput : Type 0 where
  pub item_id : String
  pub quantity : Number
  pub discount : Option WireMoney

pub record TenderInput : Type 0 where
  pub method : TenderMethod
  pub amount : WireMoney
  pub tendered : Option WireMoney

pub record PlaceOrderInput : Type 0 where
  pub lines : List OrderLineInput
  pub tenders : List TenderInput
  pub note : Option String
  pub staff_id : Option String
  pub customer_id : Option String
  pub discount_code : Option String

-- The table may be left out, or be given as `null`.
pub record ParkOrderInput : Type 0 where
  pub lines : List OrderLineInput
  pub note : Option String
  pub staff_id : Option String
  pub customer_id : Option String
  pub table_id : Option (Option String)
