-- ===== src/Products.antt =====
-- `ProductsService` of src/interfaces/products/products.service.ts. A product is stored with its
-- identifier; prices are in cents. How the database orders rows and compares texts without case are
-- parameters.
mod Tests
pub mod Listing
pub mod Removal
pub mod Controller
use node_b2b_orders.Base.{
  ℕ, String, ◌≡◌, Bool, true, false, ◌&&◌, ◌||◌, not, Option, none, some, List, [], ◌∷◌, ◌++◌, map,
  leb, min, max, str_eq, Error, Result, ok, err, not_found, if◌then◌else◌,
}
use node_b2b_orders.Base.Int.{ℤ}
use node_b2b_orders.Schema.{Product}
use node_b2b_orders.Queries.{find_many, find_first, includes, distinct}
use node_b2b_orders.Maps.{or_default}
use node_b2b_orders.Pagination.{CursorText, PaginatedResponse, list_page}

pub record ProductRow : Type 0 where
  pub id : String
  pub tenant_id : String
  pub sku : String
  pub created_at : String
  pub product : Product

-- `tenantFilter`, and the filter on `active` that every operation adds.
abbrev pub tenant_filter : String → ProductRow → Bool
tenant_filter tenant p = str_eq tenant "*" || str_eq p.tenant_id tenant

abbrev pub is_visible : String → ProductRow → Bool
is_visible tenant p = tenant_filter tenant p && p.product.active

pub record ProductData : Type 0 where
  pub name : String
  pub sku : String
  pub price : ℕ
  pub description : Option String
  pub category : Option String
  pub image_url : Option String
  pub currency : Option String

unfoldable pub create :
    (id created_at tenant : String) → ProductData → List ProductRow → ProductRow × List ProductRow
create id created_at tenant d rows =
    let row : ProductRow = record {
      id = id;
      tenant_id = tenant;
      sku = d.sku;
      created_at = created_at;
      product = record {
        name = d.name;
        description = or_default "" d.description;
        price = d.price;
        currency = or_default "BRL" d.currency;
        category = or_default "" d.category;
        image_url = or_default "" d.image_url;
        in_stock = true;
        active = true;
      };
    } in
    (row, rows ++ row ∷ [])

abbrev pub has_id : (tenant id : String) → ProductRow → Bool
has_id tenant id p = str_eq p.id id && is_visible tenant p

unfoldable pub find_one : (tenant id : String) → List ProductRow → Result ProductRow
find_one tenant id rows = elim (find_first (has_id tenant id) rows) [
  | none ↦ err (not_found "product not found")
  | some p ↦ ok p
]

-- `update({ where: { id }, data })` on the rows.
unfoldable pub update_row :
    (id : String) → (ProductRow → ProductRow) → List ProductRow → List ProductRow
update_row id change [] = []
update_row id change (p ∷ rows) =
    let rest = update_row id change rows in if str_eq p.id id then change p ∷ rest else p ∷ rest

-- A change of a product; what is `none` stays.
pub record ProductUpdate : Type 0 where
  pub name : Option String
  pub sku : Option String
  pub price : Option ℕ
  pub description : Option String
  pub category : Option String
  pub image_url : Option String
  pub currency : Option String
  pub in_stock : Option Bool

abbrev pub with_update : ProductUpdate → ProductRow → ProductRow
with_update u p = record p {
  sku = or_default p.sku u.sku;
  product = record (p.product) {
    name = or_default p.product.name u.name;
    price = or_default p.product.price u.price;
    description = or_default p.product.description u.description;
    category = or_default p.product.category u.category;
    image_url = or_default p.product.image_url u.image_url;
    currency = or_default p.product.currency u.currency;
    in_stock = or_default p.product.in_stock u.in_stock;
  };
}

abbrev update_found :
    (id : String)
    → (ProductRow → ProductRow)
    → List ProductRow
    → Result ProductRow
    → Result ProductRow × List ProductRow
update_found id change rows (ok p) = (ok (change p), update_row id change rows)
update_found id change rows (err e) = (err e, rows)

unfoldable pub update :
    (tenant id : String) → ProductUpdate → List ProductRow → Result ProductRow × List ProductRow
unfolding find_one update_row
update tenant id u rows = update_found id (with_update u) rows (find_one tenant id rows)

abbrev pub deactivated : ProductRow → ProductRow
deactivated p = record p { product = record (p.product) { active = false } }

unfoldable pub soft_delete :
    (tenant id : String) → List ProductRow → Result ProductRow × List ProductRow
unfolding find_one update_row
soft_delete tenant id rows = update_found id deactivated rows (find_one tenant id rows)
