-- ===== src/Products/Listing.antt =====
-- The listings of `ProductsService` of src/interfaces/products/products.service.ts.
use node_b2b_orders.Base.{
  ℕ, String, Bool, true, false, ◌&&◌, ◌||◌, not, Option, none, some, List, [], ◌∷◌, map, leb, min,
  max, str_eq,
}
use node_b2b_orders.Base.Int.{ℤ}
use node_b2b_orders.Queries.{find_many, distinct}
use node_b2b_orders.Pagination.{CursorText, PaginatedResponse, list_page}
use node_b2b_orders.Sorting.{SortOrder, asc, Sort, resolve_product_sort}
use node_b2b_orders.Products.{ProductRow, is_visible}

pub record ProductFilters : Type 0 where
  pub category : Option String
  pub min_price : Option ℕ
  pub max_price : Option ℕ
  pub in_stock : Option Bool
  pub search_term : Option String

-- A filter that is missing, or empty, passes everything.
abbrev text_filter : Option String → (String → Bool) → Bool
text_filter none test = true
text_filter (some s) test = str_eq s "" || test s

abbrev pub optional {ℓ} : {A : Type ℓ} → Option A → (A → Bool) → Bool
optional none test = true
optional (some a) test = test a

abbrev same_flag : Bool → Bool → Bool
same_flag true b = b
same_flag false b = not b

-- `order_by` sorts rows as the database does; `contains` is `{ contains, mode: 'insensitive' }`.
module _ (order_by : Sort → List ProductRow → List ProductRow)
    (contains : (text part : String) → Bool) where
  abbrev pub passes : ProductFilters → ProductRow → Bool
  passes f p =
      text_filter f.category (λ c. str_eq p.product.category c)
      && (optional f.in_stock (λ b. same_flag b p.product.in_stock)
          && (optional f.min_price (λ n. leb n p.product.price)
              && (optional f.max_price (λ n. leb p.product.price n)
                  && text_filter f.search_term (λ s.
                    contains p.product.name s
                    || (contains p.product.description s || contains p.sku s)))))

  -- The rows of the listing, in its order, before they are cut into pages.
  unfoldable pub listed :
      (tenant : String)
      → ProductFilters
      → (sort_by : Option String) → Option SortOrder
      → List ProductRow
      → List ProductRow
  listed tenant f sort_by order rows =
      order_by (resolve_product_sort sort_by order)
        (find_many (λ p. is_visible tenant p && passes f p) rows)

  unfoldable pub list_products :
      (text : CursorText) (tenant : String)
      → ProductFilters
      → Option text.Cursor
      → (sort_by : Option String) → Option SortOrder
      → (raw_limit : Option ℤ) → List ProductRow
      → PaginatedResponse text.Cursor ProductRow
  unfolding listed list_page
  list_products text tenant f cursor sort_by order raw_limit rows =
      list_page text (λ p. p.id) (λ p. p.created_at) raw_limit cursor
        (listed tenant f sort_by order rows)

  -- `distinct: ['category'], orderBy: { category: 'asc' }`
  unfoldable pub categories : (tenant : String) → List ProductRow → List String
  unfolding distinct
  categories tenant rows = distinct (
      map (λ p. p.product.category)
        (order_by (record { field = "category"; order = asc })
          (find_many (λ p. is_visible tenant p && not (str_eq p.product.category "")) rows)))

-- `Number(_min ?? 0)` and `Number(_max ?? 0)`
abbrev least : ℕ → List ProductRow → ℕ
least n [] = n
least n (p ∷ rows) = least (min n p.product.price) rows

abbrev greatest : ℕ → List ProductRow → ℕ
greatest n [] = n
greatest n (p ∷ rows) = greatest (max n p.product.price) rows

pub record PriceRange : Type 0 where
  pub min_price : ℕ
  pub max_price : ℕ

abbrev range_of : List ProductRow → PriceRange
range_of [] = record { min_price = 0; max_price = 0 }
range_of (p ∷ rows) = record {
  min_price = least p.product.price rows;
  max_price = greatest p.product.price rows;
}

unfoldable pub price_range : (tenant : String) → List ProductRow → PriceRange
price_range tenant rows = range_of (find_many (is_visible tenant) rows)
