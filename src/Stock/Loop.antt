-- ===== src/Stock/Loop.antt =====
-- The loop, with the change that it makes to a row and what it does to the products afterwards.
use node_b2b_orders.Base.{String, List, [], ◌∷◌}
use node_b2b_orders.Schema.{OrderItem, ItemKey, InventoryItem}
use node_b2b_orders.Database.{Database}
use node_b2b_orders.World.{Exec, ◌>>=◌, ◌>>◌, pure, modify}
use node_b2b_orders.Services.{update_item}

abbrev pub key_of : String → OrderItem → ItemKey
key_of tenant item = record { tenant_id = tenant; sku = item.sku }

module _ (db : Database) where
  -- The write to the products that follows the update of a row.
  abbrev pub After : Type 0
  After = ItemKey → InventoryItem → db.products.Rep → db.products.Rep

module _ {db : Database} where
  unfoldable pub for_each_item :
      (OrderItem → InventoryItem → InventoryItem)
      → After db
      → String
      → List OrderItem
      → Exec db (Unit {0})
  for_each_item change after tenant [] = pure tt
  for_each_item change after tenant (item ∷ rest) = do
    updated ← update_item (key_of tenant item) (change item)
    modify (λ w. record w { products = after (key_of tenant item) updated w.products })
    for_each_item change after tenant rest
