-- ===== src/Csv/Export.antt =====
-- The exports of src/interfaces/export/export.service.ts as CSV texts. `chars` gives the code units of
-- a text and `number` prints a number; the JSON of the items of an order is a parameter.
use node_b2b_orders.Base.{
  ℕ, String, Bool, true, false, ◌&&◌, ◌||◌, Option, none, some, List, [], ◌∷◌, map, leb, str_eq,
}
use node_b2b_orders.Base.Int.{ℤ}
use node_b2b_orders.Schema.{OrderItem, Order, status_text, ItemKey, InventoryItem, Product}
use node_b2b_orders.Queries.{find_many}
use node_b2b_orders.Maps.{or_default}
use node_b2b_orders.Csv.{Text, to_csv}

pub record ExportedOrder : Type 0 where
  pub order : Order
  pub created_at : ℕ
  pub updated_at : ℕ

pub record ExportedProduct : Type 0 where
  pub id : String
  pub tenant_id : String
  pub sku : String
  pub created_at : ℕ
  pub product : Product

pub record ExportedItem : Type 0 where
  pub id : String
  pub key : ItemKey
  pub item : InventoryItem

pub record ExportFilters : Type 0 where
  pub status : Option String
  pub date_from : Option ℕ
  pub date_to : Option ℕ

-- How the runtime prints: texts, numbers (those of prices in cents), instants, and the items as JSON.
pub record Print : Type 0 where
  pub chars : String → Text
  pub number : ℤ → Text
  pub amount : ℕ → Text
  pub iso_date : ℕ → Text
  pub items_json : List OrderItem → Text

abbrev from_date : Option ℕ → ℕ → Bool
from_date none at = true
from_date (some d) at = leb d at

abbrev to_date : Option ℕ → ℕ → Bool
to_date none at = true
to_date (some d) at = leb at d

abbrev exported_status : Option String → Order → Bool
exported_status none o = true
exported_status (some s) o = str_eq s "" || str_eq (status_text o.status) s

-- `order_by` is `orderBy: { createdAt: 'desc' }`.
unfoldable pub fetch_orders :
    (order_by : List ExportedOrder → List ExportedOrder) (tenant : String)
    → ExportFilters
    → List ExportedOrder
    → List ExportedOrder
fetch_orders order_by tenant f rows = order_by (
    find_many
      (λ o.
        str_eq o.order.tenant_id tenant
        && (exported_status f.status o.order
            && (from_date f.date_from o.created_at && to_date f.date_to o.created_at)))
      rows)

abbrev optional_amount : Print → Option ℕ → Text
optional_amount p none = []
optional_amount p (some n) = p.amount n

abbrev bool_text : Bool → String
bool_text true = "true"
bool_text false = "false"

abbrev pub order_cells : Print → ExportedOrder → List Text
order_cells p o =
    p.chars o.order.id
    ∷ p.chars o.order.customer_id
    ∷ p.chars (status_text o.order.status)
    ∷ optional_amount p o.order.total_amount
    ∷ p.chars (or_default "" o.order.tracking_code)
    ∷ p.iso_date o.created_at
    ∷ p.iso_date o.updated_at
    ∷ p.items_json o.order.items
    ∷ []

abbrev pub product_cells : Print → ExportedProduct → List Text
product_cells p r =
    p.chars r.id
    ∷ p.chars r.sku
    ∷ p.chars r.product.name
    ∷ p.chars r.product.description
    ∷ p.amount r.product.price
    ∷ p.chars r.product.currency
    ∷ p.chars r.product.category
    ∷ p.chars (bool_text r.product.in_stock)
    ∷ p.iso_date r.created_at
    ∷ []

abbrev pub item_cells : Print → ExportedItem → List Text
item_cells p i =
    p.chars i.id
    ∷ p.chars i.key.sku
    ∷ p.number i.item.available_qty
    ∷ p.number i.item.reserved_qty
    ∷ []

abbrev pub order_headers : List String
order_headers =
    "id" ∷ "customerId" ∷ "status" ∷ "totalAmount" ∷ "trackingCode" ∷ "createdAt" ∷ "updatedAt"
    ∷ "items" ∷ []

abbrev pub product_headers : List String
product_headers =
    "id" ∷ "sku" ∷ "name" ∷ "description" ∷ "price" ∷ "currency" ∷ "category" ∷ "inStock"
    ∷ "createdAt" ∷ []

abbrev pub item_headers : List String
item_headers = "id" ∷ "sku" ∷ "availableQty" ∷ "reservedQty" ∷ []

unfoldable pub export_orders :
    Print
    → (order_by : List ExportedOrder → List ExportedOrder) (tenant : String) → ExportFilters
    → List ExportedOrder
    → Text
unfolding fetch_orders to_csv
export_orders p order_by tenant f rows =
    to_csv (map p.chars order_headers) (map (order_cells p) (fetch_orders order_by tenant f rows))

unfoldable pub export_products :
    Print
    → (order_by : List ExportedProduct → List ExportedProduct) (tenant : String)
    → List ExportedProduct
    → Text
unfolding to_csv
export_products p order_by tenant rows = to_csv (map p.chars product_headers) (
    map (product_cells p)
      (order_by (find_many (λ r. str_eq r.tenant_id tenant && r.product.active) rows)))

unfoldable pub export_inventory :
    Print
    → (order_by : List ExportedItem → List ExportedItem) (tenant : String) → List ExportedItem
    → Text
unfolding to_csv
export_inventory p order_by tenant rows =
    to_csv (map p.chars item_headers)
      (map (item_cells p) (order_by (find_many (λ i. str_eq i.key.tenant_id tenant) rows)))
