-- ===== src/Import/Orders.antt =====
-- `importOrders` of src/interfaces/import/import.service.ts. The amounts are in cents.
use node_b2b_orders.Base.{
  ℕ, ◌+◌, String, true, Option, none, some, List, [], ◌∷◌, ◌++◌, ◌==◌, str_eq, Error, Result, ok,
  err, invalid_value, if◌then◌else◌,
}
use node_b2b_orders.Schema.{created, OrderItem, Order}
use node_b2b_orders.Database.{Database}
use node_b2b_orders.World.{Exec, ◌>>=◌, pure, throw, gets, modify}
use node_b2b_orders.Services.{template}
use node_b2b_orders.Orders.{total_amount}
use node_b2b_orders.Import.{
  nan, below, hundredths, Value, text, number, flag, Runtime, ImportResult, number_of,
  non_empty_text, non_negative, positive_integer, error_unless, Check, refused, accepted, Caller,
  import_rows,
}
use node_b2b_orders.Import.Parse.{
  ImportFormat, csv, json, RawData, array, not_array, ItemRow, OrderImportRow, parse_orders_csv,
}

-- An item that passed the checks: its SKU is only known not to be falsy.
pub record ItemImport : Type 0 where
  pub sku : Value
  pub qty : ℕ
  pub price : ℕ

pub record OrderImport : Type 0 where
  pub customer_id : String
  pub items : List ItemImport

-- What `!value` is false for.
abbrev pub truthy : Option Value → Option Value
truthy (some (text s)) = if str_eq s "" then none else some (text s)
truthy (some (number nan)) = none
truthy (some (number (hundredths n))) = if n == 0 then none else some (number (hundredths n))
truthy (some (number (below n))) = some (number (below n))
truthy (some (flag b)) = if b then some (flag true) else none
truthy none = none

-- `items[${j}].<what>`
abbrev item_error : Runtime → ℕ → String → String
item_error js j what = template ("items[" ∷ js.index_text j ∷ "]." ∷ what ∷ [])

abbrev checked_item :
    Option Value
    → Option ℕ
    → Option ℕ
    → (messages : List String) → Check (List ItemImport)
    → Check (List ItemImport)
checked_item (some sku) (some qty) (some price) messages (accepted items) =
    accepted (record { sku = sku; qty = qty; price = price } ∷ items)
checked_item (some sku) (some qty) (some price) messages (refused rest) = refused rest
checked_item _ _ _ messages (accepted items) = refused messages
checked_item _ _ _ messages (refused rest) = refused (messages ++ rest)

-- The loop on the items, from index `j`.
unfoldable pub check_items : Runtime → (j : ℕ) → List ItemRow → Check (List ItemImport)
check_items js j [] = accepted []
check_items js j (i ∷ items) =
    let sku = truthy i.sku in
    let qty = positive_integer (number_of js i.qty) in
    let price = non_negative (number_of js i.price) in
    checked_item sku qty price
      (error_unless sku (item_error js j "sku is required")
        ++ error_unless qty (item_error js j "qty must be a positive integer")
        ++ error_unless price (item_error js j "price must be non-negative"))
      (check_items js (j + 1) items)

unfoldable pub check_row_items : Runtime → Option (List ItemRow) → Check (List ItemImport)
unfolding check_items
check_row_items js (some (i ∷ items)) = check_items js 0 (i ∷ items)
check_row_items js _ = refused ("items must be a non-empty array" ∷ [])

abbrev order_row : Option String → List String → Check (List ItemImport) → Check OrderImport
order_row (some customer) messages (accepted items) =
    accepted (record { customer_id = customer; items = items })
order_row (some customer) messages (refused rest) = refused rest
order_row none messages (accepted items) = refused messages
order_row none messages (refused rest) = refused (messages ++ rest)

unfoldable pub check_order : Runtime → OrderImportRow → Check OrderImport
unfolding check_row_items
check_order js row =
    let customer = non_empty_text row.customer_id in
    order_row customer (error_unless customer "customerId is required")
      (check_row_items js row.items)

abbrev pub order_rows :
    Runtime → ImportFormat → RawData OrderImportRow → Result (List OrderImportRow)
order_rows js csv raw = parse_orders_csv js raw
order_rows js json (array rows) = ok rows
order_rows js json _ = err not_array

module _ {db : Database} where
  -- The items as rows of the database, whose SKU is a text.
  unfoldable pub item_rows : List ItemImport → Exec db (List OrderItem)
  item_rows [] = pure []
  item_rows (i ∷ items) = elim i.sku [
    | text sku ↦ do
      rest ← item_rows items
      pure (record { sku = sku; qty = i.qty; price = i.price } ∷ rest)
    | _ ↦ throw invalid_value
  ]

  -- `order.create`; `fresh` makes the identifier of the new row.
  unfoldable pub create_imported :
      (fresh : db.orders.Rep → String) (tenant : String) → OrderImport → Exec db (Unit {0})
  unfolding item_rows
  create_imported fresh tenant o = do
    items ← item_rows o.items
    id ← gets (λ w. fresh w.orders)
    let order : Order = record {
      id = id;
      tenant_id = tenant;
      customer_id = o.customer_id;
      status = created;
      total_amount = some (total_amount items);
      tracking_code = none;
      tracking_url = none;
      shipped_at = none;
      delivered_at = none;
      items = items;
    }
    modify (λ w. record w { orders = db.orders.put id order w.orders })

  unfoldable pub import_orders :
      Runtime
      → (fresh : db.orders.Rep → String) → (message : Error → String) → Caller
      → ImportFormat
      → RawData OrderImportRow
      → Exec db ImportResult
  unfolding parse_orders_csv check_order create_imported import_rows
  import_orders js fresh message caller format raw = elim (order_rows js format raw) [
    | err e ↦ throw e
    | ok rows ↦
        import_rows message caller "import.orders" "Orders" "orders" (check_order js)
          (create_imported fresh caller.tenant_id) rows
  ]
