-- ===== src/Search/Products.antt =====
-- `searchProducts` of src/interfaces/ai/nlp-search.service.ts. `nameSearch` is never set by the parser,
-- and is left out. The order of the database and the comparison without case are parameters.
use node_b2b_orders.Base.{
  String, Bool, true, false, ◌&&◌, not, Option, none, some, List, take, leb, str_eq, if◌then◌else◌,
}
use node_b2b_orders.Queries.{find_many}
use node_b2b_orders.Maps.{or_default}
use node_b2b_orders.Sorting.{SortOrder, desc, Sort}
use node_b2b_orders.Products.{ProductRow}
use node_b2b_orders.Products.Listing.{optional}
use node_b2b_orders.Search.{Query}
use node_b2b_orders.Search.Stock.{parse_product_query}

abbrev same_stock : Bool → Bool → Bool
same_stock true b = b
same_stock false b = not b

-- The column of a key of the parser.
abbrev column : String → String
column key = if str_eq key "sales" then "reviewCount" else key

abbrev product_order : Option String → Option SortOrder → Sort
product_order none order = record { field = "createdAt"; order = desc }
product_order (some key) order = record { field = column key; order = or_default desc order }

unfoldable pub search_products :
    (order_by : Sort → List ProductRow → List ProductRow) (contains : (text part : String) → Bool)
    (tenant : String)
    → Query
    → List ProductRow
    → List ProductRow
unfolding parse_product_query
search_products order_by contains tenant q rows =
    let f = parse_product_query q in
    take (or_default 20 f.limit) (
      order_by (product_order f.sort_by f.sort_order) (
        find_many
          (λ p.
            (str_eq p.tenant_id tenant && p.product.active)
            && (optional f.category (λ c. contains p.product.category c)
                && (optional f.in_stock (λ b. same_stock b p.product.in_stock)
                    && (optional f.min_price (λ n. leb n p.product.price)
                        && optional f.max_price (λ n. leb p.product.price n)))))
          rows))
