-- ===== src/System/Tests.antt =====
-- A confirmation, the settled payment and a late `order.created`, on the database in memory.
use node_b2b_orders.Base.{refl, none, some, List, [], ◌∷◌, inl}
use node_b2b_orders.Database.Memory.{memory}
use node_b2b_orders.Orders.Controller.{confirm}
use node_b2b_orders.Orders.Tests.{call, world, order}
use node_b2b_orders.Worker.Consumer.{Inbox}
use node_b2b_orders.System.{Event, route, order_message, payment_message, run}
use node_b2b_orders.System.Lifecycle.{Continues, IsSound}
use node_b2b_orders.System.Runs.{row, run-Continues, run-IsSound}

abbrev pub inbox : Inbox memory
inbox = record { world = world; dedup = none }

abbrev pub events : List Event
events =
    route call (confirm "o1")
    ∷ payment_message 101 (record {
      routing_key = "payment.settled";
      body = some (record {
        order_id = some "o1";
        order_id_snake = none;
        tenant_id = some "acme";
        tenant_id_snake = none;
      });
      message_id = none;
      delivery_tag = "1";
    })
    ∷ order_message 102 (record {
      routing_key = "order.created";
      body = some (record {
        order_id = "o1";
        tenant_id = "acme";
        correlation_id = none;
        total_amount = none;
        customer_id = none;
        items = none;
        currency = none;
      });
      message_id = none;
      delivery_tag = "2";
    })
    ∷ []

run-Continues_example : Continues order (row "o1" (run events inbox))
run-Continues_example = run-Continues events inbox "o1" order (refl, tt) refl

run-IsSound_example : IsSound (row "o1" (run events inbox))
run-IsSound_example = run-IsSound events inbox "o1" (refl, tt) (inl refl, tt)
