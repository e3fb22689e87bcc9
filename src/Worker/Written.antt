-- ===== src/Worker/Written.antt =====
-- The event that a message makes the worker write to the outbox.
use node_b2b_orders.Base.{String, ◌≡◌, ◌⊎◌, inl, inr, refl, arith, str_eq, Option-cases, Bool-cases}
use node_b2b_orders.Schema.{plain, charge}
use node_b2b_orders.Database.{Database}
use node_b2b_orders.World.{World}
use node_b2b_orders.Stock.{for_each_item_outbox}
use node_b2b_orders.Orders.{total_amount, ids_payload}
use node_b2b_orders.Orders.Written.{Writes, written}
use node_b2b_orders.Worker.{
  OrderEventBody, PaymentEventBody, or_else, or_items, or_total, reserve, release, after_reserve,
  after_release, lacks_stock, on_order_created, on_order_cancelled, on_order_confirmed,
  reserve_or_cancel, cancel_short, take_stock, release_and_cancel, handle_order_message,
  handle_payment_message,
}
use node_b2b_orders.Worker.Payments.{payment_only_settles}

module _ {db : Database} (w : World db) (body : OrderEventBody) where
  created_event :
      Writes "stock.reserved" w.outbox (on_order_created body w).1.outbox
      ⊎ Writes "order.cancelled" w.outbox (on_order_created body w).1.outbox
  unfolding on_order_created reserve_or_cancel cancel_short take_stock
  created_event =
      let payload =
        ids_payload body.order_id body.tenant_id (or_else body.correlation_id "") plain in
      elim (Option-cases (db.orders.find body.order_id w.orders)) [
        | inl e ↦ inl (inl (ground (arith, e)))
        | inr (o, e) ↦ elim (Bool-cases (str_eq o.tenant_id body.tenant_id)) [
          | inr other ↦ inl (inl (ground (arith, e, other)))
          | inl owner ↦ elim (Bool-cases (lacks_stock db body.tenant_id o.items w.inventory)) [
            | inl short ↦ inr (
                written body.tenant_id "order.cancelled" body.order_id payload
                  (ground (arith, e, owner, short)))
            | inr enough ↦ inl (
                written body.tenant_id "stock.reserved" body.order_id payload (
                  ground (
                    arith,
                    e,
                    owner,
                    enough,
                    for_each_item_outbox reserve (after_reserve db) body.tenant_id o.items w,
                  )))
          ]
        ]
      ]

  cancelled_event : (on_order_cancelled body w).1.outbox ≡ w.outbox
  unfolding on_order_cancelled release_and_cancel
  cancelled_event = elim (Option-cases (db.orders.find body.order_id w.orders)) [
    | inl e ↦ ground (arith, e)
    | inr (o, e) ↦
        ground (arith, e, for_each_item_outbox release (after_release db) body.tenant_id o.items w)
  ]

  confirmed_event : Writes "payment.charge_requested" w.outbox (on_order_confirmed body w).1.outbox
  unfolding on_order_confirmed
  confirmed_event = elim (Option-cases (db.orders.find body.order_id w.orders)) [
    | inl e ↦ inl (ground (arith, e))
    | inr (o, e) ↦
        written body.tenant_id "payment.charge_requested" body.order_id
          (ids_payload body.order_id body.tenant_id (or_else body.correlation_id "") (
            charge (or_else body.customer_id o.customer_id) (or_items body.items o.items)
              (or_total body.total_amount (total_amount o.items)) (or_else body.currency "BRL")))
          (ground (arith, e))
  ]

  -- The event of the message is one of these, or there is none.
  pub message_event :
      (routing_key : String)
      → let after = (handle_order_message routing_key body w).1.outbox in
        Writes "stock.reserved" w.outbox after
        ⊎ (Writes "order.cancelled" w.outbox after
            ⊎ Writes "payment.charge_requested" w.outbox after)
  unfolding handle_order_message
  message_event routing_key = elim (Bool-cases (str_eq routing_key "order.created")) [
    | inl a ↦
        rw (handle_order_message, a) (elim created_event [ inl h ↦ inl h | inr h ↦ inr (inl h) ])
    | inr a ↦ elim (Bool-cases (str_eq routing_key "order.cancelled")) [
      | inl b ↦ inl (inl (rw (handle_order_message, a, b) cancelled_event))
      | inr b ↦ elim (Bool-cases (str_eq routing_key "order.confirmed")) [
        | inl c ↦ inr (inr (rw (handle_order_message, a, b, c) confirmed_event))
        | inr c ↦ inl (inl (rw (handle_order_message, a, b, c) refl))
      ]
    ]
  ]

pub payment_event :
    {db : Database} (w : World db) (routing_key : String) (body : PaymentEventBody)
    → (handle_payment_message routing_key body w).1.outbox ≡ w.outbox
payment_event w routing_key body = elim (payment_only_settles w routing_key body) [
  | inl e ↦ rw e refl
  | inr (o, found, owner, status, key, e) ↦ rw e refl
]
