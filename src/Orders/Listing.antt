-- ===== src/Orders/Listing.antt =====
-- `listOrders` and `buildListOrdersWhere` of src/interfaces/orders/orders.service.ts. The rows carry
-- the text of their instant for the cursor; instants of filters are parsed by the caller. The order of
-- the database, the comparison of texts without case, `trim` and the cache with its keys are
-- parameters.
use node_b2b_orders.Base.{
  ℕ, String, Bool, true, ◌&&◌, ◌||◌, Option, none, some, List, map, any, str_eq,
}
use node_b2b_orders.Base.Int.{ℤ}
use node_b2b_orders.Schema.{Order, status_text}
use node_b2b_orders.Queries.{at_least, at_most, find_many, includes}
use node_b2b_orders.Database.{Cache}
use node_b2b_orders.Sorting.{SortOrder, Sort, resolve_order_sort}
use node_b2b_orders.Pagination.{CursorText, PaginatedResponse, list_page}
use node_b2b_orders.Products.{ProductRow}

pub record ListedOrder : Type 0 where
  pub order : Order
  pub created_at : ℕ
  pub created_text : String

-- `q` is trimmed; an instant that is missing or does not parse is `none`.
pub record OrderFilters : Type 0 where
  pub q : Option String
  pub min_amount : Option ℕ
  pub max_amount : Option ℕ
  pub date_from : Option ℕ
  pub date_to : Option ℕ

abbrev status_filter : Option String → Order → Bool
status_filter none o = true
status_filter (some s) o = str_eq s "" || str_eq (status_text o.status) s

module _ (contains : (text part : String) → Bool) where
  -- The SKUs of the products of the tenant whose name contains the term.
  abbrev pub named_skus : (tenant q : String) → List ProductRow → List String
  named_skus tenant q products =
      map (λ (p : ProductRow). p.sku)
        (find_many (λ p. str_eq p.tenant_id tenant && contains p.product.name q) products)

  abbrev pub term_filter : (tenant : String) → Option String → List ProductRow → Order → Bool
  term_filter tenant none products o = true
  term_filter tenant (some q) products o =
      str_eq q ""
      || (contains o.customer_id q
          || (contains (status_text o.status) q
              || (any (λ i. contains i.sku q) o.items
                  || any (λ i. includes i.sku (named_skus tenant q products)) o.items)))

  unfoldable pub order_where :
      (tenant : String) (status : Option String)
      → OrderFilters
      → List ProductRow
      → ListedOrder
      → Bool
  order_where tenant status f products r =
      str_eq r.order.tenant_id tenant
      && (status_filter status r.order
          && (at_least f.min_amount r.order.total_amount
              && (at_most f.max_amount r.order.total_amount
                  && (at_least f.date_from (some r.created_at)
                      && (at_most f.date_to (some r.created_at)
                          && term_filter tenant f.q products r.order)))))

  -- `FRONT_LIST_ORDERS_TTL`
  abbrev pub list_ttl : ℕ
  list_ttl = 30

  -- `key` makes the key of the cache from the query; a page is read from the cache or put there.
  unfoldable pub list_orders :
      (text : CursorText) (cache : Cache (PaginatedResponse text.Cursor ListedOrder))
      (order_by : Sort → List ListedOrder → List ListedOrder) (key : String) (now : ℕ)
      (tenant : String) (status : Option String) (cursor : Option text.Cursor)
      (sort_by : Option String)
      → Option SortOrder
      → (raw_limit : Option ℤ) → OrderFilters
      → List ProductRow
      → List ListedOrder
      → cache.Rep
      → PaginatedResponse text.Cursor ListedOrder × cache.Rep
  unfolding order_where list_page
  list_orders text cache order_by key now tenant status cursor sort_by order raw_limit f products
        rows c =
      elim (cache.get now key c) [
        | some page ↦ (page, c)
        | none ↦
            let page =
              list_page text (λ r. r.order.id) (λ r. r.created_text) raw_limit cursor
                (order_by (resolve_order_sort sort_by order)
                  (find_many (order_where tenant status f products) rows)) in
            (page, cache.set now key page list_ttl c)
      ]
