-- ===== src/Orders/Confirm.antt =====
-- What a confirmation does to the order, the stock and the outbox.
use mathlib.Core.Option
use mathlib.Core.List.{foldl}
use mathlib.Core.Path.{fun_ext}
use node_b2b_orders.Base.{
  ℕ, ◌+◌, ◌*◌, String, ◌≡◌, ◌∙◌, ap, Option, none, some, List, [], ◌∷◌, ◌++◌, arith, eq_iff,
  eq_refl, ok, Bool-cases, inl, inr, false, str_eq,
}
use node_b2b_orders.Base.Int.{pos, ◌-ℤ◌, int_laws}
use node_b2b_orders.Schema.{
  OrderItem, Order, ItemKey, key_eq, InventoryItem, OutboxEvent, charge, reserved, confirmed,
}
use node_b2b_orders.Database.{Database, order_status}
use node_b2b_orders.World.{World}
use node_b2b_orders.Services.{template, cached}
use node_b2b_orders.Stock.Loop.{key_of, for_each_item}
use node_b2b_orders.Stock.{
  for_each_item_frame, for_each_item_find, for_each_item_ok, IsStocked, apply_all, ordered,
}
use node_b2b_orders.Orders.{confirm_order, total_amount, unreserve, ids_payload, add_price}

-- The price of the items, as a plain sum.
unfoldable pub price_of : List OrderItem → ℕ
price_of [] = 0
price_of (item ∷ rest) = item.price * item.qty + price_of rest

foldl-add_price :
    (items : List OrderItem) (sum : ℕ) → foldl add_price sum items ≡ sum + price_of items
unfolding price_of
foldl-add_price [] sum = omega arith
foldl-add_price (item ∷ rest) sum =
    rw (foldl-add_price rest (sum + item.price * item.qty)) (omega arith)

-- The total of the items, which the code folds from 0, is the sum of their prices times quantities.
pub total_amount-eq-price_of : (items : List OrderItem) → total_amount items ≡ price_of items
unfolding total_amount
total_amount-eq-price_of items = rw foldl-add_price (omega arith)

-- A row that has given up `n` of its reserved units.
abbrev pub unreserved : ℕ → InventoryItem → InventoryItem
unreserved n i = record i { reserved_qty = i.reserved_qty -ℤ pos n }

-- Giving up the units of each item in turn is giving up their sum.
apply_all-unreserve :
    (tenant : String) (k : ItemKey) (items : List OrderItem) (i : InventoryItem)
    → apply_all unreserve tenant k items i ≡ unreserved (ordered tenant k items) i
apply_all-unreserve tenant k [] i = ap (λ r. record i { reserved_qty = r }) (omega int_laws)
apply_all-unreserve tenant k (item ∷ rest) i = elim (Bool-cases (key_eq (key_of tenant item) k)) [
  | inl here ↦ rw here (
      apply_all-unreserve tenant k rest (unreserve item i)
      ∙ ap (λ r. record i { reserved_qty = r }) (omega int_laws))
  | inr other ↦ rw other (
      apply_all-unreserve tenant k rest i
      ∙ ap (λ r. record i { reserved_qty = r }) (omega int_laws))
]

abbrev pub confirmed_event : (tenant correlation id : String) → Order → OutboxEvent
confirmed_event tenant correlation id o = record {
  tenant_id = tenant;
  event_type = "order.confirmed";
  aggregate_type = "Order";
  aggregate_id = id;
  payload =
      ids_payload id tenant correlation (charge o.customer_id o.items (price_of o.items) "BRL");
}

-- The fields of the state after the confirmation, over the loop's.
confirm_order-fields :
    {db : Database} (w : World db) (now : ℕ) (tenant correlation key id : String)
    (actor : Option String) (o : Order)
    → str_eq key "" ≡ false
    → cached db now (template ("idem:" ∷ tenant ∷ ":confirm-order:" ∷ id ∷ ":" ∷ key ∷ [])) w.redis
      ≡ none
    → db.orders.find id w.orders ≡ some o
    → o.tenant_id ≡ tenant
    → o.status ≡ reserved
    → IsStocked db tenant o.items w.inventory
    → let (r, w') = confirm_order now tenant correlation key id actor w in
      let looped = (for_each_item unreserve (λ k i products. products) tenant o.items w).1 in
      (r ≡ ok (order_status o.id confirmed))
      × (w'.orders
          ≡ db.orders.put id
              (record o { status = confirmed; total_amount = some (total_amount o.items) })
              w.orders)
      × (w'.outbox ≡ w.outbox ++ confirmed_event tenant correlation id o ∷ [])
      × (w'.inventory ≡ looped.inventory)
unfolding confirm_order
confirm_order-fields {db} w now tenant correlation key id actor o nonempty miss found owner status
      stocked =
    ground (
      arith,
      eq_iff o.tenant_id tenant,
      for_each_item_frame unreserve (λ k i products. products) tenant o.items w,
      for_each_item_ok unreserve (λ k i products. products) tenant o.items w stocked,
      total_amount-eq-price_of o.items,
    )

-- Confirming a reserved order of the tenant, all of whose SKUs have an inventory row, under a fresh
-- idempotency key, succeeds: the order is CONFIRMED with the sum of its prices as its amount, one
-- order.confirmed event with that amount joins the outbox, and of every inventory row the reserved
-- quantity falls by exactly the units that the order has of it; nothing is available that was not.
pub confirm_order-Effect :
    {db : Database} (w : World db) (now : ℕ) (tenant correlation key id : String)
    (actor : Option String) (o : Order)
    → str_eq key "" ≡ false
    → cached db now (template ("idem:" ∷ tenant ∷ ":confirm-order:" ∷ id ∷ ":" ∷ key ∷ [])) w.redis
      ≡ none
    → db.orders.find id w.orders ≡ some o
    → o.tenant_id ≡ tenant
    → o.status ≡ reserved
    → IsStocked db tenant o.items w.inventory
    → let (r, w') = confirm_order now tenant correlation key id actor w in
      (r ≡ ok (order_status o.id confirmed))
      × (db.orders.find id w'.orders
          ≡ some (record o { status = confirmed; total_amount = some (price_of o.items) }))
      × (w'.outbox ≡ w.outbox ++ confirmed_event tenant correlation id o ∷ [])
      × ((k : ItemKey)
          → db.inventory.find k w'.inventory
            ≡ Option.map (unreserved (ordered tenant k o.items)) (db.inventory.find k w.inventory))
confirm_order-Effect {db} w now tenant correlation key id actor o nonempty miss found owner status
      stocked =
    let (r, orders, outbox, inventory) =
      confirm_order-fields w now tenant correlation key id actor o nonempty miss found owner status
        stocked in
    (
      r,
      rw (orders, db.orders.find-put, eq_refl id, total_amount-eq-price_of),
      outbox,
      λ k. rw inventory (
          for_each_item_find unreserve (λ k' i products. products) tenant o.items w
            (for_each_item_ok unreserve (λ k' i products. products) tenant o.items w stocked) k
          ∙ ap (λ f. Option.map f (db.inventory.find k w.inventory))
              (fun_ext (apply_all-unreserve tenant k o.items))),
    )
