-- ===== src/Worker/Statuses.antt =====
-- What a message of the queue of orders does to the table of orders.
use node_b2b_orders.Base.{
  String, ◌≡◌, ◌⊎◌, inl, inr, refl, arith, eq_iff, str_eq, Option-cases, Bool-cases,
}
use node_b2b_orders.Schema.{Status, reserved, cancelled}
use node_b2b_orders.Database.{Database}
use node_b2b_orders.World.{World}
use node_b2b_orders.Stock.{for_each_item_orders}
use node_b2b_orders.Orders.Transitions.{Updates}
use node_b2b_orders.Worker.{
  OrderEventBody, reserve, release, after_reserve, after_release, lacks_stock, on_order_created,
  on_order_cancelled, on_order_confirmed, reserve_or_cancel, cancel_short, take_stock,
  release_and_cancel, handle_order_message,
}

-- The handlers test no status before they set one.
abbrev pub Unchecked : Status → Type 0
Unchecked s = Unit

-- The table after a handler: at most the order of the message is set to a status.
abbrev pub SetsTo :
    (db : Database) → Status → OrderEventBody → (before after : db.orders.Rep) → Type 0
SetsTo db status body before after =
    Updates db body.tenant_id body.order_id (λ o. record o { status = status }) Unchecked before
      after

module _ {db : Database} (w : World db) (body : OrderEventBody) where
  created_orders :
      SetsTo db reserved body w.orders (on_order_created body w).1.orders
      ⊎ SetsTo db cancelled body w.orders (on_order_created body w).1.orders
  unfolding on_order_created reserve_or_cancel cancel_short take_stock
  created_orders = elim (Option-cases (db.orders.find body.order_id w.orders)) [
    | inl e ↦ inl (inl (ground (arith, e)))
    | inr (o, e) ↦ elim (Bool-cases (str_eq o.tenant_id body.tenant_id)) [
      | inr other ↦ inl (inl (ground (arith, e, other)))
      | inl owner ↦
          let owned = (eq_iff o.tenant_id body.tenant_id).0 owner in
          elim (Bool-cases (lacks_stock db body.tenant_id o.items w.inventory)) [
            | inl short ↦ inr (inr (o, e, owned, tt, ground (arith, e, owner, short)))
            | inr enough ↦
                let frame =
                  for_each_item_orders reserve (after_reserve db) body.tenant_id o.items w in
                inl (ground (arith, e, owner, owned, enough, frame))
          ]
    ]
  ]

  cancelled_orders : SetsTo db cancelled body w.orders (on_order_cancelled body w).1.orders
  unfolding on_order_cancelled release_and_cancel
  cancelled_orders = elim (Option-cases (db.orders.find body.order_id w.orders)) [
    | inl e ↦ inl (ground (arith, e))
    | inr (o, e) ↦ elim (Bool-cases (str_eq o.tenant_id body.tenant_id)) [
      | inr other ↦ inl (ground (arith, e, other))
      | inl owner ↦
          let owned = (eq_iff o.tenant_id body.tenant_id).0 owner in
          let frame = for_each_item_orders release (after_release db) body.tenant_id o.items w in
          ground (arith, e, owner, owned, frame)
    ]
  ]

  confirmed_orders : (on_order_confirmed body w).1.orders ≡ w.orders
  unfolding on_order_confirmed
  confirmed_orders = elim (Option-cases (db.orders.find body.order_id w.orders)) [
    | inl e ↦ ground (arith, e)
    | inr (o, e) ↦ ground (arith, e)
  ]

  -- A message sets at most the order that it names to RESERVED or to CANCELLED.
  pub message_orders :
      (routing_key : String)
      → SetsTo db reserved body w.orders (handle_order_message routing_key body w).1.orders
        ⊎ SetsTo db cancelled body w.orders (handle_order_message routing_key body w).1.orders
  unfolding handle_order_message
  message_orders routing_key = elim (Bool-cases (str_eq routing_key "order.created")) [
    | inl a ↦ rw (handle_order_message, a) created_orders
    | inr a ↦ elim (Bool-cases (str_eq routing_key "order.cancelled")) [
      | inl b ↦ inr (rw (handle_order_message, a, b) cancelled_orders)
      | inr b ↦ elim (Bool-cases (str_eq routing_key "order.confirmed")) [
        | inl c ↦ inl (inl (rw (handle_order_message, a, b, c) confirmed_orders))
        | inr c ↦ inl (inl (rw (handle_order_message, a, b, c) refl))
      ]
    ]
  ]
