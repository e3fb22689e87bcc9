-- ===== src/Orders/Tests.antt =====
-- Runs of the order service over the database in memory, and the theorems at these inputs.
use mathlib.Core.Option
use node_b2b_orders.Base.{
  ◌≡◌, refl, Option, none, some, List, [], ◌∷◌, arith, ok, err, conflict, if◌then◌else◌,
}
use node_b2b_orders.Base.Int.{pos, ◌-ℤ◌}
use node_b2b_orders.Schema.{
  reserved, confirmed, cancelled, OrderItem, Order, ItemKey, key_eq, InventoryItem, status_text,
}
use node_b2b_orders.Database.{order_status}
use node_b2b_orders.Database.Memory.{memory}
use node_b2b_orders.World.{World}
use node_b2b_orders.Services.{cached, remember}
use node_b2b_orders.Stock.Loop.{for_each_item}
use node_b2b_orders.Stock.{ordered}
use node_b2b_orders.Orders.{
  new_order, create_order, confirm_order, cancel_order, ship_order, deliver_order, total_amount,
}
use node_b2b_orders.Orders.Controller.{Call, confirm, ship, handle}
use node_b2b_orders.Orders.Transitions.{RowStep, handle-RowStep}
use node_b2b_orders.Orders.Replay.{handle_replay}
use node_b2b_orders.Orders.Cancel.{cancel_order_by_status}
use node_b2b_orders.Orders.Confirm.{confirm_order-Effect, price_of, confirmed_event, unreserved}

abbrev pub pens : List OrderItem
pens =
    record { sku = "pen"; qty = 3; price = 250 }
    ∷ record { sku = "ink"; qty = 1; price = 900 }
    ∷ record { sku = "pen"; qty = 2; price = 250 }
    ∷ []

abbrev pub order : Order
order = record (new_order "o1" "acme" "c1" pens) { status = reserved }

abbrev pub stock : ItemKey → Option InventoryItem
stock k =
    if key_eq (record { tenant_id = "acme"; sku = "pen" }) k
    then some (record { available_qty = pos 10; reserved_qty = pos 5 })
    else if key_eq (record { tenant_id = "acme"; sku = "ink" }) k
    then some (record { available_qty = pos 0; reserved_qty = pos 1 })
    else none

abbrev pub empty_world : World memory
empty_world = record {
  orders = λ k. none;
  inventory = λ k. none;
  products = λ k. none;
  redis = λ k. none;
  outbox = [];
  adjustments = [];
  audit = [];
  metrics = [];
  broadcasts = [];
}

abbrev pub world : World memory
world = record empty_world { orders = memory.orders.put "o1" order (λ k. none); inventory = stock }

abbrev pub call : Call
call = record {
  now = 100;
  new_id = "o2";
  tenant_id = "acme";
  correlation_id = "x";
  idempotency_key = "k";
  user_sub = some "ann";
}

service : Unit {0}
unfolding handle create_order confirm_order cancel_order ship_order deliver_order cached remember
    for_each_item key_eq total_amount status_text ◌-ℤ◌
service = tt

confirm_runs : (handle call (confirm "o1") world).0 ≡ ok (order_status "o1" confirmed)
unfolding service
confirm_runs = refl

confirm_unreserves :
    (handle call (confirm "o1") world).1.inventory (record { tenant_id = "acme"; sku = "pen" })
    ≡ some (record { available_qty = pos 10; reserved_qty = pos 0 })
unfolding service
confirm_unreserves = refl

ship_too_early :
    (handle call (ship "o1" "BR1" none) world).0
    ≡ err (conflict "cannot ship order with status RESERVED")
unfolding service
ship_too_early = refl

handle-RowStep_example :
    RowStep "acme" (world.orders "o1") ((handle call (confirm "o1") world).1.orders "o1")
handle-RowStep_example = handle-RowStep call (confirm "o1") world "o1" refl

handle_replay_example :
    handle (record call { now = 200 }) (confirm "o1") (handle call (confirm "o1") world).1
    ≡ (ok (order_status "o1" confirmed), (handle call (confirm "o1") world).1)
unfolding service
handle_replay_example =
    handle_replay call (record call { now = 200 }) (confirm "o1") world
      (order_status "o1" confirmed) refl refl refl refl refl (omega arith) (omega arith)

confirm_order-Effect_example :
    let (r, w') = confirm_order 100 "acme" "x" "k" "o1" none world in
    (r ≡ ok (order_status "o1" confirmed))
    × (w'.orders "o1"
        ≡ some (record order { status = confirmed; total_amount = some (price_of pens) }))
    × (w'.outbox ≡ confirmed_event "acme" "x" "o1" order ∷ [])
    × ((k : ItemKey) → w'.inventory k ≡ Option.map (unreserved (ordered "acme" k pens)) (stock k))
unfolding service
confirm_order-Effect_example =
    confirm_order-Effect world 100 "acme" "x" "k" "o1" none order refl refl refl refl refl
      (λ e. cc, (λ e. cc, (λ e. cc, tt)))

cancel_order_by_status_example :
    memory.orders.find "o1" (cancel_order 100 "acme" "x" "k" "o1" none world).1.orders
    ≡ some (record order { status = cancelled })
unfolding cached
cancel_order_by_status_example =
    (cancel_order_by_status world 100 "acme" "x" "k" "o1" none order refl refl refl).1
