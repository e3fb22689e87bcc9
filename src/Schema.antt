-- ===== src/Schema.antt =====
-- The rows of prisma/schema.prisma that the modelled code reads and writes. Money is counted in
-- cents (`Decimal(18,2)`), instants in seconds; a nullable column is an `Option`.
use node_b2b_orders.Base.{ℕ, String, Bool, ◌&&◌, Option, List, str_eq}
use node_b2b_orders.Base.Int.{ℤ}

-- The values that the code writes to `Order.status`.
pub data Status : Type 0 where
  created reserved confirmed cancelled paid shipped delivered : Status

unfoldable pub status_text : Status → String
status_text created = "CREATED"
status_text reserved = "RESERVED"
status_text confirmed = "CONFIRMED"
status_text cancelled = "CANCELLED"
status_text paid = "PAID"
status_text shipped = "SHIPPED"
status_text delivered = "DELIVERED"

pub record OrderItem : Type 0 where
  pub sku : String
  pub qty : ℕ
  pub price : ℕ

pub record Order : Type 0 where
  pub id : String
  pub tenant_id : String
  pub customer_id : String
  pub status : Status
  pub total_amount : Option ℕ
  pub tracking_code : Option String
  pub tracking_url : Option String
  pub shipped_at : Option ℕ
  pub delivered_at : Option ℕ
  pub items : List OrderItem

-- The unique key `(tenantId, sku)` of inventory items and products.
pub record ItemKey : Type 0 where
  pub tenant_id : String
  pub sku : String

unfoldable pub key_eq : ItemKey → ItemKey → Bool
key_eq k j = str_eq k.tenant_id j.tenant_id && str_eq k.sku j.sku

-- The columns are 32-bit integers. The limit is checked where a request sets a quantity, in the
-- adjustments and the import of stock (`accepts_stock` of Database); the loops over the items of an
-- order are modelled without it.
pub record InventoryItem : Type 0 where
  pub available_qty : ℤ
  pub reserved_qty : ℤ

pub data AdjustmentType : Type 0 where
  stock_in stock_out adjustment : AdjustmentType

pub record InventoryAdjustment : Type 0 where
  pub tenant_id : String
  pub sku : String
  pub type : AdjustmentType
  pub qty : ℕ
  pub reason : String
  pub actor_sub : String
  pub correlation_id : String
  pub idempotency_key : Option String

pub record Product : Type 0 where
  pub name : String
  pub description : String
  pub price : ℕ
  pub currency : String
  pub category : String
  pub image_url : String
  pub in_stock : Bool
  pub active : Bool

-- What the payload of an event holds beside the three ids.
pub data PayloadDetail : Type 0 where
  plain : PayloadDetail
  charge :
      (customer_id : String) (items : List OrderItem) (total_amount : ℕ) (currency : String)
      → PayloadDetail
  shipment : (tracking_code : String) (tracking_url : Option String) → PayloadDetail

pub record Payload : Type 0 where
  pub order_id : String
  pub tenant_id : String
  pub correlation_id : String
  pub detail : PayloadDetail

-- The columns that `outboxEvent.create` is given; the others have their defaults.
pub record OutboxEvent : Type 0 where
  pub tenant_id : String
  pub event_type : String
  pub aggregate_type : String
  pub aggregate_id : String
  pub payload : Payload

pub record AuditLog : Type 0 where
  pub tenant_id : String
  pub actor_sub : String
  pub action : String
  pub target : String
  pub correlation_id : String
