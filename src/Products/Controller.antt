-- ===== src/Products/Controller.antt =====
-- src/interfaces/products/products.controller.ts: the routes of the products, behind the guards. The
-- bodies and the filters have passed the `ValidationPipe`; `is_uuid` is the test of `ParseUUIDPipe`.
pub mod Isolation
mod Tests
use node_b2b_orders.Base.{
  ℕ, String, Bool, Option, none, some, List, Error, Result, ok, err, bad_request, if◌then◌else◌,
}
use node_b2b_orders.Base.Int.{ℤ}
use node_b2b_orders.Pagination.{CursorText, PaginatedResponse}
use node_b2b_orders.Sorting.{SortOrder, Sort}
use node_b2b_orders.Guards.{Request, Policy, guards}
use node_b2b_orders.Products.{
  ProductRow, ProductData, ProductUpdate, create, find_one, update, soft_delete,
}
use node_b2b_orders.Products.Listing.{
  ProductFilters, list_products, categories, PriceRange, price_range,
}

pub data ProductCall (Cursor : Type 0) : Type 0 where
  get_categories : ProductCall Cursor
  get_price_range : ProductCall Cursor
  list :
      ProductFilters
      → (cursor : Option Cursor) (sort_by : Option String) (order : Option SortOrder)
        (limit : Option ℤ)
      → ProductCall Cursor
  get_one : (id : String) → ProductCall Cursor
  post : ProductData → ProductCall Cursor
  patch : (id : String) → ProductUpdate → ProductCall Cursor
  remove : (id : String) → ProductCall Cursor

pub data ProductAnswer (Cursor : Type 0) : Type 0 where
  names : List String → ProductAnswer Cursor
  range : PriceRange → ProductAnswer Cursor
  rows : PaginatedResponse Cursor ProductRow → ProductAnswer Cursor
  one : ProductRow → ProductAnswer Cursor

-- `@Permission`
abbrev pub permission_of : {Cursor : Type 0} → ProductCall Cursor → String
permission_of (post d) = "products:write"
permission_of (patch id u) = "products:write"
permission_of (remove id) = "products:write"
permission_of get_categories = "products:read"
permission_of get_price_range = "products:read"
permission_of (list f cursor sort_by order limit) = "products:read"
permission_of (get_one id) = "products:read"

abbrev not_uuid : Error
not_uuid = bad_request "Validation failed (uuid is expected)"

-- The header, which `TenantGuard` has found not to be empty.
abbrev pub header_of : Request → String
header_of req = elim req.x_tenant_id [ none ↦ "" | some tenant ↦ tenant ]

module _ (order_by : Sort → List ProductRow → List ProductRow) (contains : String → String → Bool)
    (text : CursorText) (is_uuid : String → Bool) (new_id created_at : String) where
  abbrev answered :
      Result ProductRow → List ProductRow → Result (ProductAnswer text.Cursor) × List ProductRow
  answered (ok p) table = (ok (one p), table)
  answered (err e) table = (err e, table)

  -- The methods of the controller.
  unfoldable pub call_method :
      (tenant : String)
      → ProductCall text.Cursor
      → List ProductRow
      → Result (ProductAnswer text.Cursor) × List ProductRow
  unfolding create find_one update soft_delete list_products categories price_range
  call_method tenant get_categories table =
      (ok (names (categories order_by contains tenant table)), table)
  call_method tenant get_price_range table = (ok (range (price_range tenant table)), table)
  call_method tenant (list f cursor sort_by order limit) table = (
    ok (rows (list_products order_by contains text tenant f cursor sort_by order limit table)),
    table,
  )
  call_method tenant (get_one id) table =
      if is_uuid id then answered (find_one tenant id table) table else (err not_uuid, table)
  call_method tenant (post d) table =
      let (p, table') = create new_id created_at tenant d table in (ok (one p), table')
  call_method tenant (patch id u) table =
      if is_uuid id
      then (let (r, table') = update tenant id u table in answered r table')
      else (err not_uuid, table)
  call_method tenant (remove id) table =
      if is_uuid id
      then (let (r, table') = soft_delete tenant id table in answered r table')
      else (err not_uuid, table)

  module _ (normal upper : String → String) (parse_array : String → Option (List String))
      (policy : String → Option Policy) where
    -- The route: the guards, then the method.
    unfoldable pub serve :
        Request
        → ProductCall text.Cursor
        → List ProductRow
        → Result (ProductAnswer text.Cursor) × List ProductRow
    unfolding call_method guards
    serve req call table =
        elim (guards normal upper parse_array policy (some (permission_of call)) req).0 [
          | err e ↦ (err e, table)
          | ok passed ↦ call_method (header_of req) call table
        ]
