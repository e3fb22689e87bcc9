-- ===== src/Inventory/Adjust.antt =====
-- What an adjustment does to the inventory, and when it is refused.
use node_b2b_orders.Base.{
  ℕ, String, ◌≡◌, refl, true, Option, none, some, [], ◌∷◌, ◌++◌, arith, Error, ok, err,
  if◌then◌else◌, not_found,
}
use node_b2b_orders.Base.Int.{ℤ, pos, ◌+ℤ◌, ◌-ℤ◌, ◌≤ℤ◌}
use node_b2b_orders.Schema.{
  AdjustmentType, stock_in, stock_out, adjustment, ItemKey, key_eq, InventoryItem,
}
use node_b2b_orders.Database.{Database, adjusted}
use node_b2b_orders.World.{World}
use node_b2b_orders.Services.{template, cached}
use node_b2b_orders.Stock.{key_eq_refl}
use node_b2b_orders.Inventory.{
  Adjustment, adjustment_key, adjustment_row, idem_key, new_item, short_stock, create_adjustment,
}

-- The available quantity that an adjustment is meant to leave.
abbrev pub target : AdjustmentType → ℕ → ℤ → ℤ
target stock_in qty available = available +ℤ pos qty
target stock_out qty available = available -ℤ pos qty
target adjustment qty available = pos qty

-- A row that is missing counts as an empty one, but an OUT needs a row that covers it.
abbrev pub IsPermitted : AdjustmentType → ℕ → Option InventoryItem → Type 0
IsPermitted stock_out qty none = ⊥
IsPermitted stock_out qty (some i) = pos qty ≤ℤ i.available_qty
IsPermitted _ qty _ = Unit

abbrev pub or_new : Option InventoryItem → InventoryItem
or_new none = new_item
or_new (some i) = i

-- A refused adjustment, or one that fails for any reason, has changed nothing.
pub create_adjustment_atomic :
    {db : Database} (qty_text : ℤ → String) (now : ℕ) (a : Adjustment) (w : World db) (e : Error)
    → (create_adjustment qty_text now a w).0 ≡ err e
    → (create_adjustment qty_text now a w).1 ≡ w
unfolding create_adjustment
create_adjustment_atomic qty_text now a w e h = ground arith

module _ {db : Database} (qty_text : ℤ → String) (now : ℕ) (a : Adjustment) (w : World db)
    (miss : cached db now (idem_key a) w.redis ≡ none) where
  applied :
      (type : AdjustmentType) (old : Option InventoryItem)
      → a.type ≡ type
      → db.inventory.find (adjustment_key a) w.inventory ≡ old
      → IsPermitted type a.qty old
      → db.accepts_stock a.tenant_id a.qty (target type a.qty (or_new old).available_qty) ≡ true
      → (k : ItemKey)
      → let (r, w') = create_adjustment qty_text now a w in
        (r ≡ ok (adjusted (adjustment_row a)))
        × (w'.adjustments ≡ w.adjustments ++ adjustment_row a ∷ [])
        × (db.inventory.find k w'.inventory ≡ (
            if key_eq (adjustment_key a) k
            then some (record (or_new old) {
              available_qty = target type a.qty (or_new old).available_qty;
            })
            else db.inventory.find k w.inventory))
  unfolding create_adjustment
  applied stock_in none t found h fits k = ground (
    arith,
    key_eq_refl (adjustment_key a),
    db.inventory.find-put (adjustment_key a) (adjustment_key a) new_item w.inventory,
    db.inventory.find-put (adjustment_key a) k new_item w.inventory,
    db.inventory.find-put (adjustment_key a) k
        (record new_item { available_qty = pos 0 +ℤ pos a.qty })
        (db.inventory.put (adjustment_key a) new_item w.inventory),
  )
  applied stock_in (some i) t found h fits k = ground (
    arith,
    db.inventory.find-put (adjustment_key a) k
        (record i { available_qty = i.available_qty +ℤ pos a.qty }) w.inventory,
  )
  applied stock_out none t found h fits k = absurd h
  applied stock_out (some i) t found h fits k = ground (
    arith,
    db.inventory.find-put (adjustment_key a) k
        (record i { available_qty = i.available_qty -ℤ pos a.qty }) w.inventory,
  )
  applied adjustment none t found h fits k = ground (
    arith,
    key_eq_refl (adjustment_key a),
    db.inventory.find-put (adjustment_key a) (adjustment_key a) new_item w.inventory,
    db.inventory.find-put (adjustment_key a) k new_item w.inventory,
    db.inventory.find-put (adjustment_key a) k (record new_item { available_qty = pos a.qty })
        (db.inventory.put (adjustment_key a) new_item w.inventory),
  )
  applied adjustment (some i) t found h fits k = ground (
    arith,
    db.inventory.find-put (adjustment_key a) k (record i { available_qty = pos a.qty }) w.inventory,
  )

  refused :
      (type : AdjustmentType) (old : Option InventoryItem)
      → a.type ≡ type
      → db.inventory.find (adjustment_key a) w.inventory ≡ old
      → ¬ IsPermitted type a.qty old
      → (e : Error) × (create_adjustment qty_text now a w ≡ (err e, w))
  unfolding create_adjustment
  refused stock_in none t found h = absurd (h tt)
  refused stock_in (some i) t found h = absurd (h tt)
  refused stock_out none t found h =
      (not_found (template ("SKU " ∷ a.sku ∷ " not found for tenant" ∷ [])), ground arith)
  refused stock_out (some i) t found h = (short_stock qty_text i.available_qty a.qty, ground arith)
  refused adjustment none t found h = absurd (h tt)
  refused adjustment (some i) t found h = absurd (h tt)

-- A permitted adjustment, with no response kept under its key and with a tenant and quantities that the
-- database accepts, succeeds: it records one adjustment row, sets the available quantity of its own row (made first where it is missing) to the quantity that its
-- type means, leaves the reserved quantity, and touches no other row.
pub create_adjustment_applies :
    {db : Database} (qty_text : ℤ → String) (now : ℕ) (a : Adjustment) (w : World db) (k : ItemKey)
    → cached db now (idem_key a) w.redis ≡ none
    → IsPermitted a.type a.qty (db.inventory.find (adjustment_key a) w.inventory)
    → db.accepts_stock a.tenant_id a.qty (
        target a.type a.qty
          (or_new (db.inventory.find (adjustment_key a) w.inventory)).available_qty)
      ≡ true
    → let (r, w') = create_adjustment qty_text now a w in
      let old = or_new (db.inventory.find (adjustment_key a) w.inventory) in
      (r ≡ ok (adjusted (adjustment_row a)))
      × (w'.adjustments ≡ w.adjustments ++ adjustment_row a ∷ [])
      × (db.inventory.find k w'.inventory ≡ (
          if key_eq (adjustment_key a) k
          then some (record old { available_qty = target a.type a.qty old.available_qty })
          else db.inventory.find k w.inventory))
create_adjustment_applies qty_text now a w k miss permitted fits =
    applied qty_text now a w miss a.type _ refl refl permitted fits k

-- An OUT of an unknown SKU, or of more than the row has available, throws and changes nothing.
pub create_adjustment_refuses :
    {db : Database} (qty_text : ℤ → String) (now : ℕ) (a : Adjustment) (w : World db)
    → cached db now (idem_key a) w.redis ≡ none
    → ¬ IsPermitted a.type a.qty (db.inventory.find (adjustment_key a) w.inventory)
    → (e : Error) × (create_adjustment qty_text now a w ≡ (err e, w))
create_adjustment_refuses qty_text now a w miss denied =
    refused qty_text now a w miss a.type _ refl refl denied
