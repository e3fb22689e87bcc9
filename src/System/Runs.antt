-- ===== src/System/Runs.antt =====
-- What holds of the orders after any sequence of calls and deliveries.
use node_b2b_orders.Base.{ℕ, String, ◌≡◌, Option, none, some, List, [], ◌∷◌, inl, inr, subst}
use node_b2b_orders.Schema.{Order}
use node_b2b_orders.Database.{Database}
use node_b2b_orders.Worker.Consumer.{Inbox, Message, PaymentMessage, consume, consume_payment}
use node_b2b_orders.Worker.Consumer.Orders.{consume_orders, consume_payment_orders}
use node_b2b_orders.System.{Event, route, order_message, payment_message, step, run}
use node_b2b_orders.System.Lifecycle.{
  Lives, Lives-trans, idle, Continues, Lives-Continues, IsSound, Lives-IsSound,
}
use node_b2b_orders.System.Rows.{handle-Lives, order_message-Lives, payment_message-Lives}

module _ {db : Database} where
  abbrev pub row : String → Inbox db → Option Order
  row j s = db.orders.find j s.world.orders

  -- The database gives a new row an identifier that is not in use, at each call of the sequence.
  abbrev pub IsFresh : List Event → Inbox db → Type 0
  IsFresh [] s = Unit
  IsFresh (route call action ∷ es) s =
      (row call.new_id s ≡ none) × IsFresh es (step (route call action) s)
  IsFresh (e ∷ es) s = IsFresh es (step e s)

  consume-Lives :
      (now : ℕ) (m : Message) (s : Inbox db) (j : String)
      → Lives (row j s) (row j (consume now m s).1)
  consume-Lives now m s j = elim (consume_orders now m s) [
    | inl e ↦ rw (row, e) idle
    | inr (body, e) ↦ rw (row, e) (order_message-Lives m.routing_key body s.world j)
  ]

  consume_payment-Lives :
      (now : ℕ) (m : PaymentMessage) (s : Inbox db) (j : String)
      → Lives (row j s) (row j (consume_payment now m s).1)
  consume_payment-Lives now m s j = elim (consume_payment_orders now m s) [
    | inl e ↦ rw (row, e) idle
    | inr (body, e) ↦ rw (row, e) (payment_message-Lives m.routing_key body s.world j)
  ]

  run-Lives :
      (es : List Event) (s : Inbox db) (j : String)
      → IsFresh es s
      → Lives (row j s) (row j (run es s))
  unfolding run step
  run-Lives [] s j fresh = idle
  run-Lives (route call action ∷ es) s j (free, fresh) =
      Lives-trans (handle-Lives call action s.world j free) (run-Lives es _ j fresh)
  run-Lives (order_message now m ∷ es) s j fresh =
      Lives-trans (consume-Lives now m s j) (run-Lives es _ j fresh)
  run-Lives (payment_message now m ∷ es) s j fresh =
      Lives-trans (consume_payment-Lives now m s j) (run-Lives es _ j fresh)

  -- Whatever calls of the routes and deliveries from the two queues come, in any order, an order stays
  -- in the table with its identifier, tenant, customer and items, and its status went along the arrows
  -- of the life of an order: to RESERVED and to CANCELLED from any status, and otherwise from RESERVED
  -- over CONFIRMED, PAID and SHIPPED to DELIVERED, each only from the one before. The condition: the
  -- database gives a new row an identifier that is not in use.
  pub run-Continues :
      (es : List Event) (s : Inbox db) (j : String) (o : Order)
      → IsFresh es s
      → row j s ≡ some o
      → Continues o (row j (run es s))
  run-Continues es s j o fresh found =
      Lives-Continues o (row j (run es s))
        (subst (λ r. Lives r (row j (run es s))) found (run-Lives es s j fresh))

  -- In any such sequence each row that is sound at the start is sound at the end, and so is each row
  -- that the sequence places: its total is missing or the sum of its items; it is that sum if the order
  -- is CONFIRMED, PAID, SHIPPED or DELIVERED; a SHIPPED or DELIVERED order has its tracking code and
  -- its time of shipping, a DELIVERED one its time of delivery, and a CREATED one none of the three.
  pub run-IsSound :
      (es : List Event) (s : Inbox db) (j : String)
      → IsFresh es s
      → IsSound (row j s)
      → IsSound (row j (run es s))
  run-IsSound es s j fresh h = Lives-IsSound _ _ (run-Lives es s j fresh) h
