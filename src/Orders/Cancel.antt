-- ===== src/Orders/Cancel.antt =====
-- What a cancellation does, and what it leaves alone.
use node_b2b_orders.Base.{
  ℕ, String, ◌≡◌, Option, none, some, [], ◌∷◌, ◌++◌, arith, eq_iff, eq_refl, ok, true, false, err,
  conflict, refl, Result,
}
use node_b2b_orders.Schema.{
  Order, OutboxEvent, plain, Status, created, reserved, confirmed, paid, shipped, delivered,
  cancelled, status_text,
}
use node_b2b_orders.Database.{Database, Response, order_status}
use node_b2b_orders.World.{World}
use node_b2b_orders.Services.{template, cached}
use node_b2b_orders.Orders.{cancel_order, is_cancellable, ids_payload}

abbrev pub cancelled_event : (tenant correlation id : String) → OutboxEvent
cancelled_event tenant correlation id = record {
  tenant_id = tenant;
  event_type = "order.cancelled";
  aggregate_type = "Order";
  aggregate_id = id;
  payload = ids_payload id tenant correlation plain;
}

-- The cancellation of an order that passes the test of its status.
pub cancel_order-Effect :
    {db : Database} (w : World db) (now : ℕ) (tenant correlation key id : String)
    (actor : Option String) (o : Order)
    → cached db now (template ("idem:" ∷ tenant ∷ ":cancel-order:" ∷ id ∷ ":" ∷ key ∷ [])) w.redis
      ≡ none
    → db.orders.find id w.orders ≡ some o
    → o.tenant_id ≡ tenant
    → is_cancellable o.status ≡ true
    → let (r, w') = cancel_order now tenant correlation key id actor w in
      (r ≡ ok (order_status o.id cancelled))
      × (db.orders.find id w'.orders ≡ some (record o { status = cancelled }))
      × (w'.outbox ≡ w.outbox ++ cancelled_event tenant correlation id ∷ [])
      × (w'.inventory ≡ w.inventory)
      × (w'.products ≡ w.products)
unfolding cancel_order
cancel_order-Effect {db} w now tenant correlation key id actor o miss found owner test = ground (
  arith,
  eq_iff o.tenant_id tenant,
  eq_refl id,
  db.orders.find-put id id (record o { status = cancelled }) w.orders,
)

module _ {db : Database} (w : World db) (tenant correlation id : String) (o : Order) where
  -- The order is CANCELLED and otherwise as it was, one order.cancelled event joins the outbox, and
  -- neither the inventory nor the products change.
  abbrev Cancels : Result Response × World db → Type 0
  Cancels (r, w') =
      (r ≡ ok (order_status o.id cancelled))
      × (db.orders.find id w'.orders ≡ some (record o { status = cancelled }))
      × (w'.outbox ≡ w.outbox ++ cancelled_event tenant correlation id ∷ [])
      × (w'.inventory ≡ w.inventory)
      × (w'.products ≡ w.products)

  -- 409 with this message, and nothing has changed.
  abbrev Refuses : String → Result Response × World db → Type 0
  Refuses message run = run ≡ (err (conflict message), w)

  abbrev pub CancelOutcome : Status → Result Response × World db → Type 0
  CancelOutcome created = Cancels
  CancelOutcome reserved = Cancels
  CancelOutcome confirmed = Cancels
  CancelOutcome paid = Refuses "cannot cancel order with status PAID"
  CancelOutcome shipped = Refuses "cannot cancel order with status SHIPPED"
  CancelOutcome delivered = Refuses "cannot cancel order with status DELIVERED"
  CancelOutcome cancelled = Refuses "cannot cancel order with status CANCELLED"

cancel_order-refuses :
    {db : Database} (w : World db) (now : ℕ) (tenant correlation key id : String)
    (actor : Option String) (o : Order)
    → cached db now (template ("idem:" ∷ tenant ∷ ":cancel-order:" ∷ id ∷ ":" ∷ key ∷ [])) w.redis
      ≡ none
    → db.orders.find id w.orders ≡ some o
    → o.tenant_id ≡ tenant
    → is_cancellable o.status ≡ false
    → cancel_order now tenant correlation key id actor w ≡ (
      err (conflict (template ("cannot cancel order with status " ∷ status_text o.status ∷ []))),
      w,
    )
unfolding cancel_order
cancel_order-refuses {db} w now tenant correlation key id actor o miss found owner test =
    ground (arith, eq_iff o.tenant_id tenant, eq_refl id)

module _ {db : Database} (w : World db) (now : ℕ) (tenant correlation key id : String)
    (actor : Option String) (o : Order)
    (miss : cached db now
        (template ("idem:" ∷ tenant ∷ ":cancel-order:" ∷ id ∷ ":" ∷ key ∷ []))
        w.redis
      ≡ none)
    (found : db.orders.find id w.orders ≡ some o) (owner : o.tenant_id ≡ tenant) where
  cancels :
      is_cancellable o.status ≡ true
      → Cancels w tenant correlation id o (cancel_order now tenant correlation key id actor w)
  cancels test = cancel_order-Effect w now tenant correlation key id actor o miss found owner test

  refuses :
      (s : Status)
      → o.status ≡ s
      → is_cancellable s ≡ false
      → cancel_order now tenant correlation key id actor w
        ≡ (err (conflict (template ("cannot cancel order with status " ∷ status_text s ∷ []))), w)
  refuses s e test =
      rw (← e)
        (cancel_order-refuses w now tenant correlation key id actor o miss found owner (rw e test))

  cancel_order-at :
      (s : Status)
      → o.status ≡ s
      → CancelOutcome w tenant correlation id o s
          (cancel_order now tenant correlation key id actor w)
  unfolding status_text
  cancel_order-at created e = cancels (rw e refl)
  cancel_order-at reserved e = cancels (rw e refl)
  cancel_order-at confirmed e = cancels (rw e refl)
  cancel_order-at paid e = refuses paid e refl
  cancel_order-at shipped e = refuses shipped e refl
  cancel_order-at delivered e = refuses delivered e refl
  cancel_order-at cancelled e = refuses cancelled e refl

  -- What a cancellation of an order of the tenant does, status by status, where no response is kept
  -- under the key. A CREATED, RESERVED or CONFIRMED order is CANCELLED and otherwise as it was, one
  -- order.cancelled event joins the outbox, and neither the inventory nor the products change. For a
  -- PAID, SHIPPED, DELIVERED or CANCELLED order the call ends in a conflict that names the status, and
  -- nothing has changed.
  pub cancel_order_by_status :
      CancelOutcome w tenant correlation id o o.status
        (cancel_order now tenant correlation key id actor w)
  cancel_order_by_status = cancel_order-at o.status refl
