-- ===== src/System.antt =====
-- The program as a whole, seen from the table of orders: the routes of orders.controller.ts and the
-- two consumers of src/worker/main.ts work on one database, and their calls come in any order.
pub mod Lifecycle
pub mod Rows
pub mod Runs
pub mod Tests
use node_b2b_orders.Base.{ℕ, List, [], ◌∷◌}
use node_b2b_orders.Database.{Database}
use node_b2b_orders.Orders.Controller.{Call, Action, handle}
use node_b2b_orders.Worker.Consumer.{Message, PaymentMessage, Inbox, consume, consume_payment}

-- One call of a route, or one delivery from a queue at an instant.
pub data Event : Type 0 where
  route : (call : Call) (action : Action) → Event
  order_message : (now : ℕ) (message : Message) → Event
  payment_message : (now : ℕ) (message : PaymentMessage) → Event

module _ {db : Database} where
  unfoldable pub step : Event → Inbox db → Inbox db
  step (route call action) s = record s { world = (handle call action s.world).1 }
  step (order_message now message) s = (consume now message s).1
  step (payment_message now message) s = (consume_payment now message s).1

  unfoldable pub run : List Event → Inbox db → Inbox db
  unfolding step
  run [] s = s
  run (e ∷ es) s = run es (step e s)
