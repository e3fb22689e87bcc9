-- ===== src/Worker/Tests.antt =====
-- The theorems on the worker at concrete messages, over the database in memory.
use mathlib.Core.Logic.{◌⊎◌}
use node_b2b_orders.Base.{ℕ, ◌≡◌, refl, none, some, List, [], ◌∷◌, arith, record_missing}
use node_b2b_orders.Base.Int.{pos, ◌-ℤ◌, ◌+ℤ◌, ◌≤ℤ◌, int_laws}
use node_b2b_orders.Schema.{reserved, confirmed, OrderItem, Order, ItemKey, key_eq, InventoryItem}
use node_b2b_orders.Database.Memory.{memory}
use node_b2b_orders.World.{World}
use node_b2b_orders.Services.{cached}
use node_b2b_orders.Stock.Loop.{for_each_item}
use node_b2b_orders.Orders.{new_order, cancel_order}
use node_b2b_orders.Orders.Tests.{world, order, pens, stock, empty_world}
use node_b2b_orders.Worker.{
  OrderEventBody, PaymentEventBody, on_order_created, on_order_cancelled, handle_order_message,
  lacks_stock, reserve_or_cancel, take_stock, cancel_short, after_reserve, release_and_cancel,
  after_release,
}
use node_b2b_orders.Worker.Reserve.{on_order_created_takes}
use node_b2b_orders.Worker.Shortage.{
  SomeShort, AllCovered, CancelsOrder, ReservesOrder, on_order_created_lem,
}
use node_b2b_orders.Worker.Conserve.{SameUnits, handle_order_message-SameUnits}
use node_b2b_orders.Worker.Oversell.{reserve_nonneg, duplicate_sku_oversells}
use node_b2b_orders.Worker.Cancel.{cancellation_keeps_stock}
use node_b2b_orders.Worker.Consumer.{Message, Inbox, consume, ack, reject}
use node_b2b_orders.Worker.Consumer.Delivery.{at_most_once, failed_message_is_lost}

abbrev body : OrderEventBody
body = record {
  order_id = "o1";
  tenant_id = "acme";
  correlation_id = some "x";
  total_amount = none;
  customer_id = none;
  items = none;
  currency = none;
}

abbrev pen_key : ItemKey
pen_key = record { tenant_id = "acme"; sku = "pen" }

abbrev pen : ℕ → OrderItem
pen n = record { sku = "pen"; qty = n; price = 250 }

abbrev order_of : List OrderItem → Order
order_of items = new_order "o1" "acme" "c1" items

abbrev world_of : Order → World memory
world_of o = record world { orders = memory.orders.put "o1" o (λ k. none) }

abbrev two_pens : Order
two_pens = order_of (pen 3 ∷ pen 2 ∷ [])

on_order_created_takes_example :
    memory.orders.find "o1" (on_order_created body (world_of two_pens)).1.orders
    ≡ some (record two_pens { status = reserved })
unfolding lacks_stock key_eq
on_order_created_takes_example =
    (on_order_created_takes (world_of two_pens) body two_pens refl refl refl).1

-- There are ten pens, but there is no ink.
on_order_created_lem_example :
    let w = world_of (order_of pens) in
    let run = on_order_created body w in
    (SomeShort memory "acme" stock pens × CancelsOrder w body (order_of pens) run)
    ⊎ (AllCovered memory "acme" stock pens × ReservesOrder w body (order_of pens) run)
on_order_created_lem_example =
    on_order_created_lem (world_of (order_of pens)) body (order_of pens) refl refl

handle_order_message-SameUnits_example :
    SameUnits memory stock
      (handle_order_message "order.created" body (world_of two_pens)).1.inventory
handle_order_message-SameUnits_example =
    handle_order_message-SameUnits "order.created" body (world_of two_pens)

worker : Unit {0}
unfolding on_order_created reserve_or_cancel take_stock cancel_short for_each_item after_reserve
    lacks_stock key_eq ◌-ℤ◌ ◌+ℤ◌ on_order_cancelled release_and_cancel after_release cached
worker = tt

reserve_nonneg_example : pos 0 ≤ℤ pos 7
unfolding worker
reserve_nonneg_example =
    reserve_nonneg (world_of (order_of (pen 3 ∷ []))) body (order_of (pen 3 ∷ [])) pen_key
      (record { available_qty = pos 10; reserved_qty = pos 5 })
      (record { available_qty = pos 7; reserved_qty = pos 8 }) refl refl (tt, tt) refl refl
      (omega int_laws) refl

duplicate_sku_oversells_example :
    (i' : InventoryItem) × ((on_order_created body
          (world_of (order_of (pen 6 ∷ pen 7 ∷ [])))).1.inventory
        pen_key
      ≡ some i')
    × ¬ (pos 0 ≤ℤ i'.available_qty)
unfolding key_eq
duplicate_sku_oversells_example =
    duplicate_sku_oversells (world_of (order_of (pen 6 ∷ pen 7 ∷ []))) body
      (order_of (pen 6 ∷ pen 7 ∷ [])) (record { available_qty = pos 10; reserved_qty = pos 5 })
      "pen" 6 7 250 250 refl refl refl refl (omega int_laws) (omega int_laws) (λ h. omega int_laws)

cancellation_keeps_stock_example :
    let after = (cancel_order 100 "acme" "x" "k" "o1" none world).1 in
    ((on_order_cancelled body after).1.inventory ≡ after.inventory)
    × ((on_order_cancelled body after).1.products ≡ after.products)
unfolding cached
cancellation_keeps_stock_example =
    cancellation_keeps_stock world (cancel_order 100 "acme" "x" "k" "o1" none world).1 100 "acme"
      "x" "k" "o1" none body order refl refl refl refl refl refl

abbrev payment : PaymentEventBody
payment = record {
  order_id = none;
  order_id_snake = some "o1";
  tenant_id = some "acme";
  tenant_id_snake = none;
}

abbrev confirmed_order : Order
confirmed_order = record order { status = confirmed }

abbrev message : Message
message = record {
  routing_key = "order.cancelled";
  body = some body;
  message_id = none;
  delivery_tag = "7";
}

abbrev inbox : Inbox memory
inbox = record { world = world_of two_pens; dedup = some (λ k. none) }

at_most_once_example :
    consume 200 message (consume 100 message inbox).1 ≡ (ack, (consume 100 message inbox).1)
at_most_once_example =
    at_most_once 100 200 message message body body inbox (λ k. none) refl refl refl refl refl refl
      (omega arith) (omega arith)

-- The order is RESERVED, and there is no row of the inventory to give the units back to.
abbrev bare_inbox : Inbox memory
bare_inbox = record {
  world = record empty_world { orders = memory.orders.put "o1" order (λ k. none) };
  dedup = some (λ k. none);
}

failed_message_is_lost_example :
    ((consume 100 message bare_inbox).0 ≡ reject)
    × (consume 200 message (consume 100 message bare_inbox).1
        ≡ (ack, (consume 100 message bare_inbox).1))
unfolding worker handle_order_message
failed_message_is_lost_example =
    failed_message_is_lost 100 200 message body bare_inbox (λ k. none) record_missing refl refl refl
      refl (omega arith) (omega arith)
