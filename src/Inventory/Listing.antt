-- ===== src/Inventory/Listing.antt =====
-- `list` and `listAdjustments` of src/interfaces/inventory/inventory.service.ts, on the rows of their
-- tables. How the database orders rows is a parameter.
use node_b2b_orders.Base.{String, Bool, true, ◌&&◌, Option, none, some, List, str_eq, ◌||◌}
use node_b2b_orders.Base.Int.{ℤ}
use node_b2b_orders.Schema.{ItemKey, InventoryItem, InventoryAdjustment}
use node_b2b_orders.Queries.{find_many}
use node_b2b_orders.Sorting.{SortOrder, desc, Sort, resolve_inventory_sort}
use node_b2b_orders.Pagination.{CursorText, PaginatedResponse, list_page}

pub record ItemRow : Type 0 where
  pub id : String
  pub key : ItemKey
  pub item : InventoryItem

pub record AdjustmentRow : Type 0 where
  pub id : String
  pub created_at : String
  pub adjustment : InventoryAdjustment

-- `if (sku) where.sku = sku`
abbrev pub sku_filter : Option String → String → Bool
sku_filter none sku = true
sku_filter (some wanted) sku = str_eq wanted "" || str_eq sku wanted

-- The cursor of an item has the instant `now` in place of that of its creation.
unfoldable pub list_inventory :
    (order_by : Sort → List ItemRow → List ItemRow) (text : CursorText) (now tenant : String)
    (sku : Option String) (cursor : Option text.Cursor) (sort_by : Option String)
    → Option SortOrder
    → (raw_limit : Option ℤ) → List ItemRow
    → PaginatedResponse text.Cursor ItemRow
unfolding list_page
list_inventory order_by text now tenant sku cursor sort_by order raw_limit rows =
    list_page text (λ i. i.id) (λ i. now) raw_limit cursor
      (order_by (resolve_inventory_sort sort_by order)
        (find_many (λ i. str_eq i.key.tenant_id tenant && sku_filter sku i.key.sku) rows))

unfoldable pub list_adjustments :
    (order_by : Sort → List AdjustmentRow → List AdjustmentRow) (text : CursorText)
    (tenant : String) (sku : Option String) (cursor : Option text.Cursor)
    → (raw_limit : Option ℤ) → List AdjustmentRow
    → PaginatedResponse text.Cursor AdjustmentRow
unfolding list_page
list_adjustments order_by text tenant sku cursor raw_limit rows =
    list_page text (λ a. a.id) (λ a. a.created_at) raw_limit cursor
      (order_by (record { field = "createdAt"; order = desc })
        (find_many (λ a. str_eq a.adjustment.tenant_id tenant && sku_filter sku a.adjustment.sku)
          rows))
