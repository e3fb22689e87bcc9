-- ===== src/Worker/Consumer/Orders.antt =====
-- The table of orders after a delivery: the handler has run on the message, or nothing was written.
use node_b2b_orders.Base.{
  ℕ, ◌≡◌, ◌⊎◌, inl, inr, refl, Option, none, some, Result, ok, err, Option-cases,
}
use node_b2b_orders.Database.{Database}
use node_b2b_orders.World.{World}
use node_b2b_orders.Worker.{
  OrderEventBody, PaymentEventBody, handle_order_message, handle_payment_message,
}
use node_b2b_orders.Worker.Consumer.{
  Message, PaymentMessage, Inbox, settled, mark_processed, event_id, payment_event_id, consume,
  consume_payment,
}

settled_orders :
    {db : Database} (run : Result (Unit {0}) × World db) (dedup : Option db.dedup.Rep)
    → (settled run dedup).1.world ≡ run.1
settled_orders (ok _, w) dedup = refl
settled_orders (err _, w) dedup = refl

module _ {db : Database} (now : ℕ) where
  pub consume_orders :
      (m : Message) (s : Inbox db)
      → ((consume now m s).1.world ≡ s.world)
        ⊎ ((body : OrderEventBody) × ((consume now m s).1.world
              ≡ (handle_order_message m.routing_key body s.world).1))
  unfolding consume
  consume_orders m s = elim (Option-cases m.body) [
    | inl e ↦ inl (rw (consume, e) refl)
    | inr (body, e) ↦ elim (Option-cases s.dedup) [
      | inl off ↦ inr (
        body,
        rw (consume, e, off)
            (settled_orders (handle_order_message m.routing_key body s.world) none),
      )
      | inr (c, on) ↦
          elim (Option-cases (mark_processed db now m.routing_key (event_id m body) c)) [
            | inl seen ↦ inl (rw (consume, e, on, seen) refl)
            | inr (marked, new) ↦ inr (
              body,
              rw (consume, e, on, new)
                  (settled_orders (handle_order_message m.routing_key body s.world) (some marked)),
            )
          ]
    ]
  ]

  pub consume_payment_orders :
      (m : PaymentMessage) (s : Inbox db)
      → ((consume_payment now m s).1.world ≡ s.world)
        ⊎ ((body : PaymentEventBody) × ((consume_payment now m s).1.world
              ≡ (handle_payment_message m.routing_key body s.world).1))
  unfolding consume_payment
  consume_payment_orders m s = elim (Option-cases m.body) [
    | inl e ↦ inl (rw (consume_payment, e) refl)
    | inr (body, e) ↦ elim (Option-cases s.dedup) [
      | inl off ↦ inr (
        body,
        rw (consume_payment, e, off)
            (settled_orders (handle_payment_message m.routing_key body s.world) none),
      )
      | inr (c, on) ↦
          elim (Option-cases (mark_processed db now m.routing_key (payment_event_id m body) c)) [
            | inl seen ↦ inl (rw (consume_payment, e, on, seen) refl)
            | inr (marked, new) ↦ inr (
              body,
              rw (consume_payment, e, on, new)
                  (settled_orders (handle_payment_message m.routing_key body s.world)
                    (some marked)),
            )
          ]
    ]
  ]
