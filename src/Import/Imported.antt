-- ===== src/Import/Imported.antt =====
-- What an import of orders does beside the table of orders.
use node_b2b_orders.Base.{Result-cases, String, ◌≡◌, refl, List, [], ◌∷◌, arith, Error, inl, inr}
use node_b2b_orders.Database.{Database}
use node_b2b_orders.World.{World}
use node_b2b_orders.Import.{Runtime, Caller}
use node_b2b_orders.Import.Parse.{ImportFormat, RawData, OrderImportRow}
use node_b2b_orders.Import.Orders.{
  ItemImport, OrderImport, item_rows, create_imported, check_order, order_rows, import_orders,
}
use node_b2b_orders.Import.Outcome.{import_rows_invariant}

module _ {db : Database} where
  -- Only the orders and the audit log differ.
  abbrev pub SameBesideOrders : World db → World db → Type 0
  SameBesideOrders w w' = w' ≡ record w { orders = w'.orders; audit = w'.audit }

  item_rows_frame : (items : List ItemImport) (w : World db) → (item_rows items w).1 ≡ w
  unfolding item_rows
  item_rows_frame [] w = refl
  item_rows_frame (i ∷ items) w = ground (arith, item_rows_frame items w)

  create_imported_frame :
      (fresh : db.orders.Rep → String) (tenant : String) (o : OrderImport) (start w : World db)
      → SameBesideOrders start w
      → SameBesideOrders start (create_imported fresh tenant o w).1
  unfolding create_imported
  create_imported_frame fresh tenant o start w h = ground (arith, item_rows_frame o.items w)

  -- An import of orders, also one that fails, writes to the tables of the orders and the audit log
  -- alone: no event `order.created` is put in the outbox for the new orders.
  pub import_orders_frame :
      (js : Runtime) (fresh : db.orders.Rep → String) (message : Error → String) (caller : Caller)
      (format : ImportFormat) (raw : RawData OrderImportRow) (w : World db)
      → SameBesideOrders w (import_orders js fresh message caller format raw w).1
  unfolding import_orders
  import_orders_frame js fresh message caller format raw w =
      elim (Result-cases (order_rows js format raw)) [
        | inl (rows, e) ↦
            rw (import_orders, e)
              (import_rows_invariant (λ v. SameBesideOrders w v) message caller "import.orders"
                "Orders" "orders" (check_order js) (create_imported fresh caller.tenant_id)
                (λ o v hv. create_imported_frame fresh caller.tenant_id o w v hv)
                (λ v hv. ground arith) rows w refl)
        | inr (x, e) ↦ rw (import_orders, e) refl
      ]
