-- ===== src/Import/Covered.antt =====
-- What an import of stock keeps, and how its rows compare with single adjustments.
use node_b2b_orders.Base.{
  Result-cases, String, ◌≡◌, refl, none, some, [], ◌∷◌, Option, arith, Bool-cases, inl, inr, Error,
  if◌then◌else◌,
}
use node_b2b_orders.Base.Int.{ℤ, pos, ◌+ℤ◌, ◌-ℤ◌, ◌≤ℤ◌, ltb_ℤ, +ℤ_parts, -ℤ_parts}
use node_b2b_orders.Schema.{
  AdjustmentType, stock_in, stock_out, adjustment, ItemKey, key_eq, InventoryItem,
}
use node_b2b_orders.Database.{Database}
use node_b2b_orders.World.{World}
use node_b2b_orders.Stock.{key_eq_refl}
use node_b2b_orders.Inventory.{new_item}
use node_b2b_orders.Import.{Fields, Runtime, Caller}
use node_b2b_orders.Import.Parse.{ImportFormat, RawData, parse_rows}
use node_b2b_orders.Import.Stock.{
  StockImportRow, stock_key, import_stock_row, import_inventory, check_stock,
}
use node_b2b_orders.Import.Outcome.{import_rows_invariant}

-- A row, where there is one, has no negative available quantity.
abbrev pub IsCovered : Option InventoryItem → Type 0
IsCovered none = Unit
IsCovered (some i) = pos 0 ≤ℤ i.available_qty

abbrev pub AllCovered : (db : Database) → db.inventory.Rep → Type 0
AllCovered db inventory = (k : ItemKey) → IsCovered (db.inventory.find k inventory)

put_covered :
    (db : Database) (key : ItemKey) (i : InventoryItem) (inventory : db.inventory.Rep)
    → AllCovered db inventory
    → IsCovered (some i)
    → AllCovered db (db.inventory.put key i inventory)
put_covered db key i inventory h new k = elim (Bool-cases (key_eq key k)) [
  | inl e ↦ rw (db.inventory.find-put, e) new
  | inr e ↦ rw (db.inventory.find-put, e) (h k)
]

module _ {db : Database} where
  module _ (qty_text : ℤ → String) (caller : Caller) (r : StockImportRow) (w : World db) where
    -- The new available quantity is written where the database accepts it.
    abbrev set_available : ℤ → InventoryItem → db.inventory.Rep → db.inventory.Rep
    set_available available i inventory =
        if db.accepts_stock caller.tenant_id r.qty available
        then db.inventory.put (stock_key caller.tenant_id r)
            (record i { available_qty = available }) inventory
        else inventory

    set_available_covered :
        (available : ℤ) (i : InventoryItem) (inventory : db.inventory.Rep)
        → AllCovered db inventory
        → pos 0 ≤ℤ available
        → AllCovered db (set_available available i inventory)
    set_available_covered available i inventory h le =
        elim (Bool-cases (db.accepts_stock caller.tenant_id r.qty available)) [
          | inl e ↦ rw e (put_covered db _ _ inventory h le)
          | inr e ↦ rw e h
        ]

    -- The inventory that a row leaves, by its type and the row that was there.
    abbrev row_inventory : AdjustmentType → Option InventoryItem → db.inventory.Rep
    row_inventory stock_out none = w.inventory
    row_inventory stock_out (some i) =
        if ltb_ℤ i.available_qty (pos r.qty)
        then w.inventory
        else set_available (i.available_qty -ℤ pos r.qty) i w.inventory
    row_inventory stock_in (some i) = set_available (i.available_qty +ℤ pos r.qty) i w.inventory
    row_inventory stock_in none =
        set_available (pos 0 +ℤ pos r.qty) new_item
          (db.inventory.put (stock_key caller.tenant_id r) new_item w.inventory)
    row_inventory adjustment (some i) = set_available (pos r.qty) i w.inventory
    row_inventory adjustment none =
        set_available (pos r.qty) new_item
          (db.inventory.put (stock_key caller.tenant_id r) new_item w.inventory)

    import_stock_row-stored :
        (type : AdjustmentType) (old : Option InventoryItem)
        → r.type ≡ type
        → db.inventory.find (stock_key caller.tenant_id r) w.inventory ≡ old
        → (import_stock_row qty_text caller r w).1.inventory ≡ row_inventory type old
    unfolding import_stock_row
    import_stock_row-stored stock_out none t e = ground arith
    import_stock_row-stored stock_out (some i) t e = ground arith
    import_stock_row-stored stock_in (some i) t e = ground arith
    import_stock_row-stored adjustment (some i) t e = ground arith
    import_stock_row-stored stock_in none t e = ground (
      arith,
      key_eq_refl (stock_key caller.tenant_id r),
      db.inventory.find-put (stock_key caller.tenant_id r) (stock_key caller.tenant_id r) new_item
          w.inventory,
    )
    import_stock_row-stored adjustment none t e = ground (
      arith,
      key_eq_refl (stock_key caller.tenant_id r),
      db.inventory.find-put (stock_key caller.tenant_id r) (stock_key caller.tenant_id r) new_item
          w.inventory,
    )

    stored_covered :
        (type : AdjustmentType) (old : Option InventoryItem)
        → AllCovered db w.inventory
        → IsCovered old
        → AllCovered db (row_inventory type old)
    stored_covered stock_out none h o = h
    stored_covered stock_out (some i) h o = elim (Bool-cases (ltb_ℤ i.available_qty (pos r.qty))) [
      | inl e ↦ rw e h
      | inr e ↦ rw e (
          set_available_covered _ i w.inventory h
            (ground (arith, -ℤ_parts i.available_qty (pos r.qty))))
    ]
    stored_covered stock_in none h o =
        set_available_covered _ new_item _ (put_covered db _ new_item w.inventory h (ground arith))
          (ground (arith, +ℤ_parts (pos 0) (pos r.qty)))
    stored_covered stock_in (some i) h o =
        set_available_covered _ i w.inventory h
          (ground (arith, +ℤ_parts i.available_qty (pos r.qty)))
    stored_covered adjustment none h o =
        set_available_covered _ new_item _ (put_covered db _ new_item w.inventory h (ground arith))
          (ground arith)
    stored_covered adjustment (some i) h o = set_available_covered _ i w.inventory h (ground arith)

  import_stock_row_covered :
      (qty_text : ℤ → String) (caller : Caller) (r : StockImportRow) (w : World db)
      → AllCovered db w.inventory
      → AllCovered db (import_stock_row qty_text caller r w).1.inventory
  import_stock_row_covered qty_text caller r w h =
      let old = db.inventory.find (stock_key caller.tenant_id r) w.inventory in
      rw (import_stock_row-stored qty_text caller r w r.type old refl refl)
        (stored_covered qty_text caller r w r.type old h (h (stock_key caller.tenant_id r)))

  -- An import of stock, with rows of any kind and also one that fails, leaves no item with a negative
  -- available quantity where there was none before.
  pub import_inventory_covered :
      (js : Runtime) (qty_text : ℤ → String) (message : Error → String) (caller : Caller)
      (format : ImportFormat) (raw : RawData Fields) (w : World db)
      → AllCovered db w.inventory
      → AllCovered db (import_inventory js qty_text message caller format raw w).1.inventory
  unfolding import_inventory
  import_inventory_covered js qty_text message caller format raw w h =
      elim (Result-cases (parse_rows js format raw ("sku" ∷ "qty" ∷ "type" ∷ []))) [
        | inl (rows, e) ↦
            rw (import_inventory, e)
              (import_rows_invariant (λ v. AllCovered db v.inventory) message caller
                "import.inventory" "Inventory" "rows" (check_stock js)
                (import_stock_row qty_text caller)
                (λ r v hv. import_stock_row_covered qty_text caller r v hv) (λ v hv. hv) rows w h)
        | inr (x, e) ↦ rw (import_inventory, e) h
      ]
