-- ===== src/Import/Stock.antt =====
-- `importInventory` of src/interfaces/import/import.service.ts.
use node_b2b_orders.Base.{
  ℕ, String, not, Option, none, some, List, [], ◌∷◌, ◌++◌, str_eq, Error, ok, err, bad_request,
  invalid_value, if◌then◌else◌,
}
use node_b2b_orders.Base.Int.{ℤ, pos, ◌+ℤ◌, ◌-ℤ◌, ltb_ℤ}
use node_b2b_orders.Schema.{
  AdjustmentType, stock_in, stock_out, adjustment, ItemKey, InventoryItem, InventoryAdjustment,
}
use node_b2b_orders.Maps.{get, or_default}
use node_b2b_orders.Database.{Database}
use node_b2b_orders.World.{Exec, ◌>>=◌, ◌>>◌, pure, throw, throw_if, gets, modify}
use node_b2b_orders.Services.{template, update_item}
use node_b2b_orders.Inventory.{new_item}
use node_b2b_orders.Import.{
  Value, text, Fields, Runtime, ImportResult, number_of, non_empty_text, positive_integer,
  error_unless, Check, refused, accepted, Caller, import_rows,
}
use node_b2b_orders.Import.Parse.{ImportFormat, RawData, parse_rows}
use node_b2b_orders.Import.Products.{text_column}

-- A row that passed the checks.
pub record StockImportRow : Type 0 where
  pub sku : String
  pub qty : ℕ
  pub type : AdjustmentType
  pub reason : Option Value

abbrev type_named : String → Option AdjustmentType
type_named name =
    if str_eq name "IN"
    then some stock_in
    else if str_eq name "OUT"
    then some stock_out
    else if str_eq name "ADJUSTMENT"
    then some adjustment
    else none

-- `String(row.type).toUpperCase()`, which is a type for a text alone.
abbrev type_of : Runtime → Option Value → Option AdjustmentType
type_of js (some (text s)) = type_named (js.to_upper_case s)
type_of js _ = none

abbrev stock_row :
    Option Value
    → Option String
    → Option ℕ
    → Option AdjustmentType
    → List String
    → Check StockImportRow
stock_row reason (some sku) (some qty) (some type) errors =
    accepted (record { sku = sku; qty = qty; type = type; reason = reason })
stock_row reason _ _ _ errors = refused errors

unfoldable pub check_stock : Runtime → Fields → Check StockImportRow
unfolding get
check_stock js row =
    let sku = non_empty_text (get "sku" row) in
    let qty = positive_integer (number_of js (get "qty" row)) in
    let type = type_of js (get "type" row) in
    stock_row (get "reason" row) sku qty type (
      error_unless sku "sku is required"
      ++ error_unless qty "qty must be a positive integer"
      ++ error_unless type "type must be one of: IN, OUT, ADJUSTMENT")

abbrev pub stock_key : String → StockImportRow → ItemKey
stock_key tenant r = record { tenant_id = tenant; sku = r.sku }

-- The message of an OUT that is not covered; `qty_text` prints a quantity.
abbrev pub short_import : (ℤ → String) → ℤ → StockImportRow → Error
short_import qty_text available r = bad_request (
    template (
      "Insufficient qty ("
      ∷ qty_text available
      ∷ ") for OUT of "
      ∷ qty_text (pos r.qty)
      ∷ " on SKU "
      ∷ r.sku
      ∷ []))

abbrev import_adjustment : Caller → StockImportRow → String → InventoryAdjustment
import_adjustment caller r reason = record {
  tenant_id = caller.tenant_id;
  sku = r.sku;
  type = r.type;
  qty = r.qty;
  reason = reason;
  actor_sub = caller.actor_sub;
  correlation_id = caller.correlation_id;
  idempotency_key = none;
}

module _ {db : Database} where
  abbrev pub find_or_create_row :
      String → StockImportRow → Option InventoryItem → Exec db InventoryItem
  find_or_create_row tenant r (some inv) = pure inv
  find_or_create_row tenant r none = elim r.type [
    | stock_out ↦
        throw (bad_request (template ("SKU " ∷ r.sku ∷ " not found for OUT adjustment" ∷ [])))
    | _ ↦ do
      modify
          (λ w. record w { inventory = db.inventory.put (stock_key tenant r) new_item w.inventory })
      pure new_item
  ]

  -- The `switch` on the type.
  abbrev pub new_available_qty : (ℤ → String) → StockImportRow → InventoryItem → Exec db ℤ
  new_available_qty qty_text r inv = elim r.type [
    | stock_in ↦ pure (inv.available_qty +ℤ pos r.qty)
    | stock_out ↦
        if ltb_ℤ inv.available_qty (pos r.qty)
        then throw (short_import qty_text inv.available_qty r)
        else pure (inv.available_qty -ℤ pos r.qty)
    | adjustment ↦ pure (pos r.qty)
  ]

  unfoldable pub import_stock_row : (ℤ → String) → Caller → StockImportRow → Exec db (Unit {0})
  import_stock_row qty_text caller r = do
    found ← gets (λ w. db.inventory.find (stock_key caller.tenant_id r) w.inventory)
    inv ← find_or_create_row caller.tenant_id r found
    available ← new_available_qty qty_text r inv
    throw_if (not (db.accepts_stock caller.tenant_id r.qty available)) invalid_value
    update_item (stock_key caller.tenant_id r) (λ i. record i { available_qty = available })
    reason ← text_column r.reason
    modify (λ w. record w {
      adjustments =
          w.adjustments ++ import_adjustment caller r (or_default "bulk import" reason) ∷ [];
    })

  unfoldable pub import_inventory :
      Runtime
      → (ℤ → String)
      → (message : Error → String) → Caller
      → ImportFormat
      → RawData Fields
      → Exec db ImportResult
  unfolding parse_rows check_stock import_stock_row import_rows
  import_inventory js qty_text message caller format raw =
      elim (parse_rows js format raw ("sku" ∷ "qty" ∷ "type" ∷ [])) [
        | err e ↦ throw e
        | ok rows ↦
            import_rows message caller "import.inventory" "Inventory" "rows" (check_stock js)
              (import_stock_row qty_text caller) rows
      ]
