-- ===== src/Import/Agreement.antt =====
-- A row of a stock import against the adjustment of one item.
use node_b2b_orders.Base.{String, ◌≡◌, refl, Option, none, some, arith, Result, ok, err}
use node_b2b_orders.Base.Int.{ℤ}
use node_b2b_orders.Schema.{
  AdjustmentType, stock_in, stock_out, adjustment, InventoryItem, InventoryAdjustment,
}
use node_b2b_orders.Database.{Database}
use node_b2b_orders.World.{World}
use node_b2b_orders.Stock.{key_eq_refl}
use node_b2b_orders.Inventory.{Adjustment, new_item, adjust_in_transaction}
use node_b2b_orders.Import.{text, Caller}
use node_b2b_orders.Import.Stock.{StockImportRow, stock_key, import_stock_row}

-- The request of `createAdjustment` for a row, without an idempotency key.
abbrev pub request_of : Caller → StockImportRow → (reason : String) → Adjustment
request_of caller r reason = record {
  tenant_id = caller.tenant_id;
  correlation_id = caller.correlation_id;
  actor_sub = caller.actor_sub;
  idempotency_key = "";
  sku = r.sku;
  type = r.type;
  qty = r.qty;
  reason = reason;
}

-- Both succeed, with the same writes, or both throw.
abbrev pub SameEffect :
    {db : Database} → Result InventoryAdjustment × World db → Result (Unit {0}) × World db → Type 0
SameEffect (ok _, w) (ok _, w') = w ≡ w'
SameEffect (err _, w) (err _, w') = Unit
SameEffect (ok _, w) (err _, w') = ⊥
SameEffect (err _, w) (ok _, w') = ⊥

module _ {db : Database} (qty_text : ℤ → String) (caller : Caller) (r : StockImportRow)
    (reason : String) (w : World db) (given : r.reason ≡ some (text reason)) where
  same :
      (type : AdjustmentType) (old : Option InventoryItem)
      → r.type ≡ type
      → db.inventory.find (stock_key caller.tenant_id r) w.inventory ≡ old
      → SameEffect
          (adjust_in_transaction qty_text (request_of caller r reason) w)
          (import_stock_row qty_text caller r w)
  unfolding adjust_in_transaction import_stock_row
  same stock_out none t e = ground arith
  same stock_out (some i) t e = ground arith
  same stock_in (some i) t e = ground arith
  same adjustment (some i) t e = ground arith
  same stock_in none t e = ground (
    arith,
    key_eq_refl (stock_key caller.tenant_id r),
    db.inventory.find-put (stock_key caller.tenant_id r) (stock_key caller.tenant_id r) new_item
        w.inventory,
  )
  same adjustment none t e = ground (
    arith,
    key_eq_refl (stock_key caller.tenant_id r),
    db.inventory.find-put (stock_key caller.tenant_id r) (stock_key caller.tenant_id r) new_item
        w.inventory,
  )

-- A row of a stock import with a given reason succeeds exactly if the transaction of an adjustment with
-- the same contents does, and then leaves the same state.
pub import_stock_row-adjust :
    {db : Database} (qty_text : ℤ → String) (caller : Caller) (r : StockImportRow) (reason : String)
    (w : World db)
    → r.reason ≡ some (text reason)
    → SameEffect
        (adjust_in_transaction qty_text (request_of caller r reason) w)
        (import_stock_row qty_text caller r w)
import_stock_row-adjust {db} qty_text caller r reason w given =
    same qty_text caller r reason w given r.type
      (db.inventory.find (stock_key caller.tenant_id r) w.inventory) refl refl
