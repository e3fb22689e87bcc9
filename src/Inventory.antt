-- ===== src/Inventory.antt =====
-- `createAdjustment` of src/interfaces/inventory/inventory.service.ts. The quantity of a request is a
-- positive integer (`@IsInt() @Min(1)` of dto.ts), the quantities of a row are signed.

pub mod Controller
mod Tests
pub mod Adjust
pub mod Listing
use node_b2b_orders.Base.{
  ℕ, String, Bool, true, false, not, Option, none, some, List, [], ◌∷◌, ◌++◌, str_eq, Error,
  not_found, conflict, invalid_value, if◌then◌else◌,
}
use node_b2b_orders.Base.Int.{ℤ, pos, ◌+ℤ◌, ◌-ℤ◌, ltb_ℤ}
use node_b2b_orders.Schema.{
  AdjustmentType, stock_in, stock_out, adjustment, ItemKey, InventoryItem, InventoryAdjustment,
}
use node_b2b_orders.Database.{Database, Response, adjusted}
use node_b2b_orders.World.{
  World, Exec, ◌>>=◌, ◌>>◌, pure, throw, throw_if, gets, modify, transaction,
}
use node_b2b_orders.Services.{template, update_item, audit_log, count, idem_get, idem_set, or_hit}
use node_b2b_orders.Orders.{when_key}

-- What the request asks for; `idempotency_key` is empty where it is missing.
pub record Adjustment : Type 0 where
  pub tenant_id : String
  pub correlation_id : String
  pub actor_sub : String
  pub idempotency_key : String
  pub sku : String
  pub type : AdjustmentType
  pub qty : ℕ
  pub reason : String

abbrev pub adjustment_key : Adjustment → ItemKey
adjustment_key a = record { tenant_id = a.tenant_id; sku = a.sku }

abbrev pub idem_key : Adjustment → String
idem_key a = template ("idem:" ∷ a.tenant_id ∷ ":inv-adj:" ∷ a.idempotency_key ∷ [])

-- `idempotencyKey || null`
abbrev pub key_or_null : String → Option String
key_or_null key = if str_eq key "" then none else some key

-- The row that `inventoryAdjustment.create` writes.
abbrev pub adjustment_row : Adjustment → InventoryAdjustment
adjustment_row a = record {
  tenant_id = a.tenant_id;
  sku = a.sku;
  type = a.type;
  qty = a.qty;
  reason = a.reason;
  actor_sub = a.actor_sub;
  correlation_id = a.correlation_id;
  idempotency_key = key_or_null a.idempotency_key;
}

abbrev pub new_item : InventoryItem
new_item = record { available_qty = pos 0; reserved_qty = pos 0 }

-- The message of an OUT that is not covered; `qty_text` prints a quantity.
abbrev pub short_stock : (ℤ → String) → ℤ → ℕ → Error
short_stock qty_text available qty = conflict (
    template (
      "Insufficient available qty ("
      ∷ qty_text available
      ∷ ") for OUT of "
      ∷ qty_text (pos qty)
      ∷ []))

module _ {db : Database} where
  -- `findUnique`, and the creation of the row where the request is no OUT
  abbrev find_or_create : Adjustment → Option InventoryItem → Exec db InventoryItem
  find_or_create a (some inv) = pure inv
  find_or_create a none = elim a.type [
    | stock_out ↦ throw (not_found (template ("SKU " ∷ a.sku ∷ " not found for tenant" ∷ [])))
    | _ ↦ do
      modify
          (λ w. record w { inventory = db.inventory.put (adjustment_key a) new_item w.inventory })
      pure new_item
  ]

  -- The `switch` on the type: the new available quantity.
  abbrev new_available : (ℤ → String) → Adjustment → InventoryItem → Exec db ℤ
  new_available qty_text a inv = elim a.type [
    | stock_in ↦ pure (inv.available_qty +ℤ pos a.qty)
    | stock_out ↦
        if ltb_ℤ inv.available_qty (pos a.qty)
        then throw (short_stock qty_text inv.available_qty a.qty)
        else pure (inv.available_qty -ℤ pos a.qty)
    | adjustment ↦ pure (pos a.qty)
  ]

  unfoldable pub adjust_in_transaction : (ℤ → String) → Adjustment → Exec db InventoryAdjustment
  adjust_in_transaction qty_text a = do
    found ← gets (λ w. db.inventory.find (adjustment_key a) w.inventory)
    inv ← find_or_create a found
    available ← new_available qty_text a inv
    throw_if (not (db.accepts_stock a.tenant_id a.qty available)) invalid_value
    update_item (adjustment_key a) (λ i. record i { available_qty = available })
    modify (λ w. record w { adjustments = w.adjustments ++ adjustment_row a ∷ [] })
    pure (adjustment_row a)

  pub create_adjustment : (ℤ → String) → (now : ℕ) → Adjustment → Exec db Response
  unfolding adjust_in_transaction
  create_adjustment qty_text now a = do
    hit ← when_key a.idempotency_key (pure none) (idem_get now (idem_key a))
    or_hit hit (do
      result ← transaction (adjust_in_transaction qty_text a)
      count "inventory_adjusted_total" a.tenant_id
      audit_log a.tenant_id a.actor_sub "inventory.adjustment"
          (template ("InventoryItem:" ∷ a.tenant_id ∷ ":" ∷ a.sku ∷ [])) a.correlation_id
      when_key a.idempotency_key (pure tt) (idem_set now (idem_key a) (adjusted result))
      pure (adjusted result))
