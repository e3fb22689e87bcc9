-- ===== src/Worker/Conserve.antt =====
-- No message of an order makes or loses a unit: available and reserved quantity keep their sum.
use mathlib.Core.Option
use node_b2b_orders.Base.{
  ℕ, String, ◌≡◌, refl, ap, Option, none, some, List, arith, ok, inl, inr, Option-cases,
}
use node_b2b_orders.Base.Int.{ℤ, ◌+ℤ◌, int_laws}
use node_b2b_orders.Schema.{OrderItem, ItemKey, InventoryItem}
use node_b2b_orders.Database.{Database}
use node_b2b_orders.World.{World}
use node_b2b_orders.Stock.Loop.{After, for_each_item}
use node_b2b_orders.Stock.{for_each_item_find, apply_all, ordered}
use node_b2b_orders.Worker.{
  OrderEventBody, reserve, release, after_reserve, after_release, on_order_created,
  on_order_cancelled, on_order_confirmed, handle_order_message, reserve_or_cancel,
  release_and_cancel,
}
use node_b2b_orders.Worker.Amounts.{taken, given_back, apply_all-reserve, apply_all-release}

abbrev pub units : InventoryItem → ℤ
units i = i.available_qty +ℤ i.reserved_qty

units-taken : (n : ℕ) (i : InventoryItem) → units (taken n i) ≡ units i
units-taken n i = omega int_laws

units-given_back : (n : ℕ) (i : InventoryItem) → units (given_back n i) ≡ units i
units-given_back n i = omega int_laws

-- Every row of `inv'` stands in `inv` too, and holds as many units there.
abbrev pub SameUnits : (db : Database) → db.inventory.Rep → db.inventory.Rep → Type 0
SameUnits db inv inv' =
    (k : ItemKey)
    → Option.map units (db.inventory.find k inv') ≡ Option.map units (db.inventory.find k inv)

module _ {db : Database} (change : OrderItem → InventoryItem → InventoryItem) (after : After db)
    (tenant : String)
    (keeps : (k : ItemKey) (items : List OrderItem) (i : InventoryItem)
      → units (apply_all change tenant k items i) ≡ units i) where
  loop-units :
      (items : List OrderItem) (w : World db) (k : ItemKey)
      → (for_each_item change after tenant items w).0 ≡ ok tt
      → Option.map units
          (db.inventory.find k (for_each_item change after tenant items w).1.inventory)
        ≡ Option.map units (db.inventory.find k w.inventory)
  loop-units items w k done =
      rw (for_each_item_find change after tenant items w done k)
        (row (db.inventory.find k w.inventory))
    where
      row :
          (found : Option InventoryItem)
          → Option.map units (Option.map (apply_all change tenant k items) found)
            ≡ Option.map units found
      row none = refl
      row (some i) = ap some (keeps k items i)

reserve-keeps :
    (tenant : String) (k : ItemKey) (items : List OrderItem) (i : InventoryItem)
    → units (apply_all reserve tenant k items i) ≡ units i
reserve-keeps tenant k items i = rw apply_all-reserve (units-taken (ordered tenant k items) i)

release-keeps :
    (tenant : String) (k : ItemKey) (items : List OrderItem) (i : InventoryItem)
    → units (apply_all release tenant k items i) ≡ units i
release-keeps tenant k items i = rw apply_all-release (units-given_back (ordered tenant k items) i)

module _ {db : Database} (body : OrderEventBody) (w : World db) (k : ItemKey) where
  created-units :
      Option.map units (db.inventory.find k (on_order_created body w).1.inventory)
      ≡ Option.map units (db.inventory.find k w.inventory)
  unfolding on_order_created reserve_or_cancel
  created-units = elim (Option-cases (db.orders.find body.order_id w.orders)) [
    | inl absent ↦ ground arith
    | inr (o, found) ↦ ground (
      arith,
      loop-units reserve (after_reserve db) body.tenant_id (reserve-keeps body.tenant_id) o.items w
          k,
    )
  ]

  cancelled-units :
      Option.map units (db.inventory.find k (on_order_cancelled body w).1.inventory)
      ≡ Option.map units (db.inventory.find k w.inventory)
  unfolding on_order_cancelled release_and_cancel
  cancelled-units = elim (Option-cases (db.orders.find body.order_id w.orders)) [
    | inl absent ↦ ground arith
    | inr (o, found) ↦ ground (
      arith,
      loop-units release (after_release db) body.tenant_id (release-keeps body.tenant_id) o.items w
          k,
    )
  ]

  confirmed-units :
      Option.map units (db.inventory.find k (on_order_confirmed body w).1.inventory)
      ≡ Option.map units (db.inventory.find k w.inventory)
  unfolding on_order_confirmed
  confirmed-units = ground arith

-- Whatever message of an order arrives, in whatever state, and whether or not the handler throws,
-- every inventory row is there exactly if it was there before, and its available and reserved
-- quantities have the sum that they had.
pub handle_order_message-SameUnits :
    {db : Database} (routing_key : String) (body : OrderEventBody) (w : World db)
    → SameUnits db w.inventory (handle_order_message routing_key body w).1.inventory
unfolding handle_order_message
handle_order_message-SameUnits routing_key body w k =
    ground (arith, created-units body w k, cancelled-units body w k, confirmed-units body w k)
