-- ===== src/Worker/Shortage.antt =====
-- When `order.created` takes the stock, and when it cancels the order.
use mathlib.Core.Logic.{◌⊎◌}
use node_b2b_orders.Base.{
  ℕ, ◌<◌, ◌≤◌, String, ◌≡◌, refl, inl, inr, Option, none, some, List, [], ◌∷◌, ◌++◌, All, arith,
  eq_iff, ok, true, false, Bool-cases, Result,
}
use node_b2b_orders.Base.Int.{ℤ, pos, negsuc, ltb_ℤ}
use node_b2b_orders.Schema.{OrderItem, Order, InventoryItem, OutboxEvent, reserved, cancelled}
use node_b2b_orders.Database.{Database}
use node_b2b_orders.World.{World}
use node_b2b_orders.Worker.{
  OrderEventBody, or_else, is_short, lacks_stock, on_order_created, reserve_or_cancel,
}
use node_b2b_orders.Worker.Reserve.{ids_event, on_order_created_takes}

-- The row is missing, or holds fewer units than are ordered.
abbrev Misses : ℤ → ℕ → Type 0
Misses (pos n) qty = n < qty
Misses (negsuc n) qty = Unit

abbrev IsShort : Option InventoryItem → ℕ → Type 0
IsShort none qty = Unit
IsShort (some row) qty = Misses row.available_qty qty

-- The row is there, and holds the ordered units.
abbrev Holds : ℤ → ℕ → Type 0
Holds (pos n) qty = qty ≤ n
Holds (negsuc n) qty = ⊥

abbrev IsCovered : Option InventoryItem → ℕ → Type 0
IsCovered none qty = ⊥
IsCovered (some row) qty = Holds row.available_qty qty

module _ (db : Database) (tenant : String) (inv : db.inventory.Rep) where
  abbrev row_of : OrderItem → Option InventoryItem
  row_of item = db.inventory.find (record { tenant_id = tenant; sku = item.sku }) inv

  abbrev pub AllCovered : List OrderItem → Type 0
  AllCovered = All λ item. IsCovered (row_of item) item.qty

  abbrev pub SomeShort : List OrderItem → Type 0
  SomeShort [] = ⊥
  SomeShort (item ∷ rest) = IsShort (row_of item) item.qty ⊎ SomeShort rest

Holds-or_Misses :
    (z : ℤ) (qty : ℕ)
    → ((ltb_ℤ z (pos qty) ≡ true) × Misses z qty) ⊎ ((ltb_ℤ z (pos qty) ≡ false) × Holds z qty)
Holds-or_Misses (pos n) qty = elim (Bool-cases (ltb_ℤ (pos n) (pos qty))) [
  | inl e ↦ inl (e, ground arith)
  | inr e ↦ inr (e, ground arith)
]
Holds-or_Misses (negsuc n) qty = inl (ground arith, tt)

is_short-cases :
    (row : Option InventoryItem) (qty : ℕ)
    → ((is_short row qty ≡ true) × IsShort row qty)
      ⊎ ((is_short row qty ≡ false) × IsCovered row qty)
is_short-cases none qty = inl (refl, tt)
is_short-cases (some row) qty = Holds-or_Misses row.available_qty qty

lacks_stock-cases :
    (db : Database) (tenant : String) (items : List OrderItem) (inv : db.inventory.Rep)
    → ((lacks_stock db tenant items inv ≡ true) × SomeShort db tenant inv items)
      ⊎ ((lacks_stock db tenant items inv ≡ false) × AllCovered db tenant inv items)
unfolding lacks_stock
lacks_stock-cases db tenant [] inv = inr (refl, tt)
lacks_stock-cases db tenant (item ∷ rest) inv =
    elim (is_short-cases (row_of db tenant inv item) item.qty) [
      | inl (e, short) ↦ inl (rw e refl, inl short)
      | inr (e, covered) ↦ elim (lacks_stock-cases db tenant rest inv) [
        | inl (e', short) ↦ inl (rw (e, e') refl, inr short)
        | inr (e', all) ↦ inr (rw (e, e') refl, (covered, all))
      ]
    ]

module _ {db : Database} (w : World db) (body : OrderEventBody) (o : Order) where
  abbrev event_of : String → List OutboxEvent
  event_of event_type =
      ids_event body.tenant_id (or_else body.correlation_id "") body.order_id event_type ∷ []

  -- No stock moves and no product changes: the order is CANCELLED and one order.cancelled event joins
  -- the outbox. The reservation counter goes up all the same.
  abbrev pub CancelsOrder : Result (Unit {0}) × World db → Type 0
  CancelsOrder run = run ≡ (
    ok tt,
    record w {
      orders = db.orders.put body.order_id (record o { status = cancelled }) w.orders;
      outbox = w.outbox ++ event_of "order.cancelled";
      metrics = w.metrics ++ ("inventory_reserved_total", body.tenant_id) ∷ [];
    },
  )

  -- The order is RESERVED, and one stock.reserved event joins the outbox.
  abbrev pub ReservesOrder : Result (Unit {0}) × World db → Type 0
  ReservesOrder (r, w') =
      (r ≡ ok tt)
      × (db.orders.find body.order_id w'.orders ≡ some (record o { status = reserved }))
      × (w'.outbox ≡ w.outbox ++ event_of "stock.reserved")

module _ {db : Database} (w : World db) (body : OrderEventBody) (o : Order)
    (found : db.orders.find body.order_id w.orders ≡ some o)
    (owner : o.tenant_id ≡ body.tenant_id) where
  on_order_created-cancels :
      lacks_stock db body.tenant_id o.items w.inventory ≡ true
      → CancelsOrder w body o (on_order_created body w)
  unfolding on_order_created reserve_or_cancel
  on_order_created-cancels short = ground (arith, eq_iff o.tenant_id body.tenant_id)

  -- An `order.created` message of an order of the tenant. Either some item is short, in that the
  -- tenant has no row for its SKU or the row holds fewer available units than the item orders: then no
  -- stock moves and no product changes, the order is CANCELLED, one order.cancelled event joins the
  -- outbox, and the reservation counter goes up all the same. Or the row of every item holds the units
  -- of that item: then the order is RESERVED and one stock.reserved event joins the outbox.
  pub on_order_created_lem :
      (SomeShort db body.tenant_id w.inventory o.items
        × CancelsOrder w body o (on_order_created body w))
      ⊎ (AllCovered db body.tenant_id w.inventory o.items
          × ReservesOrder w body o (on_order_created body w))
  on_order_created_lem = elim (lacks_stock-cases db body.tenant_id o.items w.inventory) [
    | inl (e, short) ↦ inl (short, on_order_created-cancels e)
    | inr (e, covered) ↦
        let (r, order, outbox, stock) = on_order_created_takes w body o found owner e in
        inr (covered, (r, order, outbox))
  ]
