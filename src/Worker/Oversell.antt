-- ===== src/Worker/Oversell.antt =====
-- The availability test of `order.created` looks at each item alone.
use mathlib.Core.Path.{subst}
use mathlib.Core.Option
use node_b2b_orders.Base.{
  ℕ, ◌+◌, String, ◌≡◌, ◌≢◌, refl, sym, ap, ◌∙◌, some, List, [], ◌∷◌, arith, eq_iff, true, true,
  false, All, Bool-cases, inl, inr,
}
use node_b2b_orders.Base.Int.{pos, ◌≤ℤ◌, int_laws}
use node_b2b_orders.Schema.{OrderItem, Order, ItemKey, key_eq, InventoryItem}
use node_b2b_orders.Database.{Database}
use node_b2b_orders.World.{World}
use node_b2b_orders.Stock.Loop.{key_of}
use node_b2b_orders.Stock.{ordered, eq-of_key_eq, key_eq_refl}
use node_b2b_orders.Worker.{OrderEventBody, lacks_stock, on_order_created}
use node_b2b_orders.Worker.Amounts.{taken}
use node_b2b_orders.Worker.Reserve.{on_order_created_takes}

-- No SKU stands in two items.
abbrev pub HasDistinctSkus : List OrderItem → Type 0
HasDistinctSkus [] = Unit
HasDistinctSkus (item ∷ rest) = All (λ other. item.sku ≢ other.sku) rest × HasDistinctSkus rest

ordered-absent :
    (tenant : String) (item : OrderItem) (k : ItemKey) (rest : List OrderItem)
    → All (λ other. item.sku ≢ other.sku) rest
    → key_eq (key_of tenant item) k ≡ true
    → ordered tenant k rest ≡ 0
unfolding key_eq
ordered-absent tenant item k [] h e = refl
ordered-absent tenant item k (other ∷ rest) (ne, h) e =
    ground
      (arith, ordered-absent tenant item k rest h e, eq_iff item.sku k.sku, eq_iff other.sku k.sku)

-- With distinct SKUs the test covers the whole order.
ordered-le :
    (db : Database) (tenant : String) (k : ItemKey) (items : List OrderItem)
    (inv : db.inventory.Rep) (i : InventoryItem)
    → HasDistinctSkus items
    → lacks_stock db tenant items inv ≡ false
    → db.inventory.find k inv ≡ some i
    → pos 0 ≤ℤ i.available_qty
    → pos (ordered tenant k items) ≤ℤ i.available_qty
unfolding lacks_stock
ordered-le db tenant k [] inv i d h e p = p
ordered-le db tenant k (item ∷ rest) inv i (ne, d) h e p =
    elim (Bool-cases (key_eq (key_of tenant item) k)) [
      | inl here ↦
          let row : db.inventory.find (key_of tenant item) inv ≡ some i =
            subst (λ j. db.inventory.find j inv ≡ some i)
              (sym (eq-of_key_eq (key_of tenant item) k here)) e in
          rw (here, ordered-absent tenant item k rest ne here) (ground (arith, row))
      | inr other ↦ rw other (omega (arith, ordered-le db tenant k rest inv i d (ground arith) e p))
    ]

same_row : (i j : InventoryItem) → some i ≡ some j → i ≡ j
same_row i j h = cc

-- If the items of an order have distinct SKUs, a row of the inventory whose available quantity is not
-- negative is not made negative by the message that reserves the order.
pub reserve_nonneg :
    {db : Database} (w : World db) (body : OrderEventBody) (o : Order) (k : ItemKey)
    (i i' : InventoryItem)
    → db.orders.find body.order_id w.orders ≡ some o
    → o.tenant_id ≡ body.tenant_id
    → HasDistinctSkus o.items
    → lacks_stock db body.tenant_id o.items w.inventory ≡ false
    → db.inventory.find k w.inventory ≡ some i
    → pos 0 ≤ℤ i.available_qty
    → db.inventory.find k (on_order_created body w).1.inventory ≡ some i'
    → pos 0 ≤ℤ i'.available_qty
reserve_nonneg {db} w body o k i i' found owner distinct enough row nonneg after =
    let (_, _, _, rows) = on_order_created_takes w body o found owner enough in
    let n = ordered body.tenant_id k o.items in
    let same : i' ≡ taken n i = same_row _ _ (sym after ∙ rows k ∙ ap (Option.map (taken n)) row) in
    rw same (
      omega
        (int_laws, ordered-le db body.tenant_id k o.items w.inventory i distinct enough row nonneg))

module _ (tenant sku : String) (a b p q : ℕ) where
  abbrev twice : List OrderItem
  twice = record { sku = sku; qty = a; price = p } ∷ record { sku = sku; qty = b; price = q } ∷ []

  abbrev sku_key : ItemKey
  sku_key = record { tenant_id = tenant; sku = sku }

  ordered-twice : ordered tenant sku_key twice ≡ a + b
  ordered-twice = rw key_eq_refl (omega arith)

  twice-enough :
      (db : Database) (inv : db.inventory.Rep) (i : InventoryItem)
      → db.inventory.find sku_key inv ≡ some i
      → pos a ≤ℤ i.available_qty
      → pos b ≤ℤ i.available_qty
      → lacks_stock db tenant twice inv ≡ false
  unfolding lacks_stock
  twice-enough db inv i row covers_a covers_b = ground arith

-- Two items of one SKU, each of which is available alone, are both taken: where they exceed together
-- what is there, the handler reserves the order and leaves the available quantity below zero.
pub duplicate_sku_oversells :
    {db : Database} (w : World db) (body : OrderEventBody) (o : Order) (i : InventoryItem)
    (sku : String) (a b p q : ℕ)
    → db.orders.find body.order_id w.orders ≡ some o
    → o.tenant_id ≡ body.tenant_id
    → o.items
      ≡ record { sku = sku; qty = a; price = p } ∷ record { sku = sku; qty = b; price = q } ∷ []
    → db.inventory.find (record { tenant_id = body.tenant_id; sku = sku }) w.inventory ≡ some i
    → pos a ≤ℤ i.available_qty
    → pos b ≤ℤ i.available_qty
    → ¬ (pos (a + b) ≤ℤ i.available_qty)
    → (i' : InventoryItem) × (db.inventory.find
          (record { tenant_id = body.tenant_id; sku = sku })
          (on_order_created body w).1.inventory
        ≡ some i')
      × ¬ (pos 0 ≤ℤ i'.available_qty)
duplicate_sku_oversells {db} w body o i sku a b p q found owner items row covers_a covers_b short =
    let n = ordered body.tenant_id (sku_key body.tenant_id sku a b p q) o.items in
    let enough : lacks_stock db body.tenant_id o.items w.inventory ≡ false =
      rw items (twice-enough body.tenant_id sku a b p q db w.inventory i row covers_a covers_b) in
    let units : n ≡ a + b = rw items (ordered-twice body.tenant_id sku a b p q) in
    let (_, _, _, rows) = on_order_created_takes w body o found owner enough in
    (
      taken n i,
      rows (sku_key body.tenant_id sku a b p q) ∙ ap (Option.map (taken n)) row,
      λ h. short (omega (int_laws, units, h)),
    )
