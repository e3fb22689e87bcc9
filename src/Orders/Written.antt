-- ===== src/Orders/Written.antt =====
-- The event that a route of the orders writes to the outbox.
use node_b2b_orders.Base.{
  ℕ, String, ◌≡◌, ◌⊎◌, inl, inr, Option, List, [], ◌∷◌, ◌++◌, arith, eq_iff, Option-cases,
}
use node_b2b_orders.Schema.{OrderItem, OutboxEvent, Payload, plain, charge, shipment}
use node_b2b_orders.Database.{Database}
use node_b2b_orders.World.{World}
use node_b2b_orders.Stock.{for_each_item_outbox}
use node_b2b_orders.Orders.Controller.{Call, Action, create, confirm, ship, deliver, cancel, handle}
use node_b2b_orders.Orders.{
  create_order, confirm_order, cancel_order, ship_order, deliver_order, ids_payload, total_amount,
  or_null, unreserve,
}

abbrev pub event_of : (tenant event_type id : String) → Payload → OutboxEvent
event_of tenant event_type id payload = record {
  tenant_id = tenant;
  event_type = event_type;
  aggregate_type = "Order";
  aggregate_id = id;
  payload = payload;
}

-- The outbox is as before, or has one more event of the type.
abbrev pub Writes : String → (before after : List OutboxEvent) → Type 0
Writes event_type before after =
    (after ≡ before)
    ⊎ ((tenant id : String) × (payload : Payload) × (after
          ≡ before ++ event_of tenant event_type id payload ∷ []))

pub written :
    {before after : List OutboxEvent} (tenant event_type id : String) (payload : Payload)
    → (after ≡ before) ⊎ (after ≡ before ++ event_of tenant event_type id payload ∷ [])
    → Writes event_type before after
written tenant event_type id payload (inl e) = inl e
written tenant event_type id payload (inr e) = inr (tenant, id, payload, e)

module _ {db : Database} (w : World db) (now : ℕ) (tenant correlation key id : String) where
  cancel_event :
      (actor : Option String)
      → Writes "order.cancelled" w.outbox
          (cancel_order now tenant correlation key id actor w).1.outbox
  unfolding cancel_order
  cancel_event actor = elim (Option-cases (db.orders.find id w.orders)) [
    | inl e ↦ inl (ground arith)
    | inr (o, e) ↦
        written tenant "order.cancelled" id (ids_payload id tenant correlation plain)
          (ground (arith, eq_iff o.tenant_id tenant))
  ]

  ship_event :
      (code : String) (url actor : Option String)
      → Writes "order.shipped" w.outbox
          (ship_order now tenant correlation key id code url actor w).1.outbox
  unfolding ship_order
  ship_event code url actor = elim (Option-cases (db.orders.find id w.orders)) [
    | inl e ↦ inl (ground arith)
    | inr (o, e) ↦
        written tenant "order.shipped" id
          (ids_payload id tenant correlation (shipment code (or_null url)))
          (ground (arith, eq_iff o.tenant_id tenant))
  ]

  deliver_event :
      (actor : Option String)
      → Writes "order.delivered" w.outbox
          (deliver_order now tenant correlation key id actor w).1.outbox
  unfolding deliver_order
  deliver_event actor = elim (Option-cases (db.orders.find id w.orders)) [
    | inl e ↦ inl (ground arith)
    | inr (o, e) ↦
        written tenant "order.delivered" id (ids_payload id tenant correlation plain)
          (ground (arith, eq_iff o.tenant_id tenant))
  ]

  confirm_event :
      (actor : Option String)
      → Writes "order.confirmed" w.outbox
          (confirm_order now tenant correlation key id actor w).1.outbox
  unfolding confirm_order
  confirm_event actor = elim (Option-cases (db.orders.find id w.orders)) [
    | inl e ↦ inl (ground arith)
    | inr (o, e) ↦
        let total = total_amount o.items in
        written tenant "order.confirmed" id
          (ids_payload id tenant correlation (charge o.customer_id o.items total "BRL"))
          (ground (
            arith,
            eq_iff o.tenant_id tenant,
            for_each_item_outbox unreserve (λ key i products. products) tenant o.items w,
          ))
  ]

creation_event :
    {db : Database} (w : World db) (now : ℕ) (new_id tenant correlation key customer : String)
    (items : List OrderItem) (actor : Option String)
    → Writes "order.created" w.outbox
        (create_order now new_id tenant correlation key customer items actor w).1.outbox
unfolding create_order
creation_event {db} w now new_id tenant correlation key customer items actor =
    written tenant "order.created" new_id (ids_payload new_id tenant correlation plain)
      (ground arith)

-- The type of the event of an action.
abbrev pub event_type_of : Action → String
event_type_of (create customer items) = "order.created"
event_type_of (confirm id) = "order.confirmed"
event_type_of (ship id code url) = "order.shipped"
event_type_of (deliver id) = "order.delivered"
event_type_of (cancel id) = "order.cancelled"

pub handle-Writes :
    {db : Database} (c : Call) (a : Action) (w : World db)
    → Writes (event_type_of a) w.outbox (handle c a w).1.outbox
unfolding handle
handle-Writes c (create customer items) w =
    creation_event w c.now c.new_id c.tenant_id c.correlation_id c.idempotency_key customer items _
handle-Writes c (confirm id) w =
    confirm_event w c.now c.tenant_id c.correlation_id c.idempotency_key id _
handle-Writes c (ship id code url) w =
    ship_event w c.now c.tenant_id c.correlation_id c.idempotency_key id code url _
handle-Writes c (deliver id) w =
    deliver_event w c.now c.tenant_id c.correlation_id c.idempotency_key id _
handle-Writes c (cancel id) w =
    cancel_event w c.now c.tenant_id c.correlation_id c.idempotency_key id _
