-- ===== src/Sorting.antt =====
-- The sort keys of the listings: src/shared/sorting/sort-query.dto.ts.
use node_b2b_orders.Base.{String, Option, none, some, List, [], ◌∷◌, if◌then◌else◌}
use node_b2b_orders.Queries.{includes}
use node_b2b_orders.Maps.{or_default}

pub data SortOrder : Type 0 where
  asc desc : SortOrder

-- `{ [field]: order }`
pub record Sort : Type 0 where
  pub field : String
  pub order : SortOrder

abbrev resolve_sort :
    (fields : List String) (fallback : String) → Option String → Option SortOrder → Sort
resolve_sort fields fallback none order = record { field = fallback; order = or_default desc order }
resolve_sort fields fallback (some field) order = record {
  field = if includes field fields then field else fallback;
  order = or_default desc order;
}

abbrev pub sortable_products : List String
sortable_products = "createdAt" ∷ "name" ∷ "price" ∷ []

unfoldable pub resolve_product_sort : (sort_by : Option String) → Option SortOrder → Sort
resolve_product_sort sort_by order = resolve_sort sortable_products "createdAt" sort_by order

abbrev pub sortable_orders : List String
sortable_orders = "createdAt" ∷ "totalAmount" ∷ "status" ∷ []

unfoldable pub resolve_order_sort : (sort_by : Option String) → Option SortOrder → Sort
resolve_order_sort sort_by order = resolve_sort sortable_orders "createdAt" sort_by order

abbrev pub sortable_inventory : List String
sortable_inventory = "sku" ∷ "availableQty" ∷ "updatedAt" ∷ []

unfoldable pub resolve_inventory_sort : (sort_by : Option String) → Option SortOrder → Sort
resolve_inventory_sort sort_by order = resolve_sort sortable_inventory "sku" sort_by order
