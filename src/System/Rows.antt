-- ===== src/System/Rows.antt =====
-- What one event of the system does to the row of each order.
use node_b2b_orders.Base.{
  String, ◌≡◌, ◌⊎◌, inl, inr, refl, true, Option, none, some, List, eq_iff, str_eq, Bool-cases,
}
use node_b2b_orders.Schema.{Status, reserved, confirmed, paid, OrderItem, Order}
use node_b2b_orders.Database.{Database}
use node_b2b_orders.World.{World}
use node_b2b_orders.Orders.{new_order, is_reserved, is_paid, is_shipped}
use node_b2b_orders.Orders.Controller.{Call, Action, create, confirm, ship, deliver, cancel, handle}
use node_b2b_orders.Orders.Transitions.{
  Updates, create_orders, confirm_orders, ship_orders, deliver_orders, cancel_orders,
}
use node_b2b_orders.Worker.{
  OrderEventBody, PaymentEventBody, handle_order_message, handle_payment_message,
}
use node_b2b_orders.Worker.Statuses.{message_orders}
use node_b2b_orders.Worker.Payments.{payment_only_settles, order_id_of, tenant_of}
use node_b2b_orders.System.Lifecycle.{
  Change, reserving, confirming, paying, shipping, delivering, cancelling, Lives, idle, placed,
  changed,
}

still : {a b : Option Order} → b ≡ a → Lives a b
still e = rw e idle

once : {a b : Option Order} (o o' : Order) → a ≡ some o → b ≡ some o' → Change o o' → Lives a b
once o o' e f d = rw (e, f) (changed o o' d idle)

is-reserved : (s : Status) → is_reserved s ≡ true → s ≡ reserved
is-reserved reserved h = refl
is-reserved _ h = cc

is-paid : (s : Status) → is_paid s ≡ true → s ≡ paid
is-paid paid h = refl
is-paid _ h = cc

is-shipped : (s : Status) → is_shipped s ≡ true → s ≡ Status.shipped
is-shipped Status.shipped h = refl
is-shipped _ h = cc

Updates-Lives :
    (db : Database) (tenant id j : String) (change : Order → Order) (tested : Status → Type 0)
    (before after : db.orders.Rep)
    → ((o : Order) → tested o.status → Change o (change o))
    → Updates db tenant id change tested before after
    → Lives (db.orders.find j before) (db.orders.find j after)
Updates-Lives db tenant id j change tested before after fits (inl e) = still (rw e refl)
Updates-Lives db tenant id j change tested before after fits (inr (o, found, owner, test, e)) =
    elim (Bool-cases (str_eq id j)) [
      | inl here ↦
          once o (change o) (rw (← (eq_iff id j).0 here) found)
            (rw (e, db.orders.find-put, here) refl) (fits o test)
      | inr other ↦ still (rw (e, db.orders.find-put, other) refl)
    ]

placed-Lives :
    (db : Database) (tenant new_id j customer : String) (items : List OrderItem)
    (before after : db.orders.Rep)
    → db.orders.find new_id before ≡ none
    → (after ≡ before)
      ⊎ (after ≡ db.orders.put new_id (new_order new_id tenant customer items) before)
    → Lives (db.orders.find j before) (db.orders.find j after)
placed-Lives db tenant new_id j customer items before after free (inl e) = still (rw e refl)
placed-Lives db tenant new_id j customer items before after free (inr e) =
    elim (Bool-cases (str_eq new_id j)) [
      | inl here ↦
          rw (e, db.orders.find-put, here, ← (eq_iff new_id j).0 here, free)
            (placed (new_order new_id tenant customer items) refl refl refl refl refl idle)
      | inr other ↦ still (rw (e, db.orders.find-put, other) refl)
    ]

pub handle-Lives :
    {db : Database} (c : Call) (a : Action) (w : World db) (j : String)
    → db.orders.find c.new_id w.orders ≡ none
    → Lives (db.orders.find j w.orders) (db.orders.find j (handle c a w).1.orders)
unfolding handle
handle-Lives {db} c (create customer items) w j free =
    placed-Lives db c.tenant_id c.new_id j customer items w.orders _ free (
      create_orders w c.now c.new_id c.tenant_id c.correlation_id c.idempotency_key customer items
        _)
handle-Lives {db} c (confirm id) w j free =
    Updates-Lives db c.tenant_id id j _ _ _ _ (λ o h. confirming (is-reserved o.status h) refl)
      (confirm_orders w c.now c.tenant_id c.correlation_id c.idempotency_key id _)
handle-Lives {db} c (ship id code url) w j free =
    Updates-Lives db c.tenant_id id j _ _ _ _
      (λ o h. shipping code _ c.now (is-paid o.status h) refl)
      (ship_orders w c.now c.tenant_id c.correlation_id c.idempotency_key id code url _)
handle-Lives {db} c (deliver id) w j free =
    Updates-Lives db c.tenant_id id j _ _ _ _ (λ o h. delivering c.now (is-shipped o.status h) refl)
      (deliver_orders w c.now c.tenant_id c.correlation_id c.idempotency_key id _)
handle-Lives {db} c (cancel id) w j free =
    Updates-Lives db c.tenant_id id j _ _ _ _ (λ o h. cancelling refl)
      (cancel_orders w c.now c.tenant_id c.correlation_id c.idempotency_key id _)

pub order_message-Lives :
    {db : Database} (routing_key : String) (body : OrderEventBody) (w : World db) (j : String)
    → Lives
        (db.orders.find j w.orders)
        (db.orders.find j (handle_order_message routing_key body w).1.orders)
order_message-Lives {db} routing_key body w j = elim (message_orders w body routing_key) [
  | inl h ↦ Updates-Lives db body.tenant_id body.order_id j _ _ _ _ (λ o t. reserving refl) h
  | inr h ↦ Updates-Lives db body.tenant_id body.order_id j _ _ _ _ (λ o t. cancelling refl) h
]

pub payment_message-Lives :
    {db : Database} (routing_key : String) (body : PaymentEventBody) (w : World db) (j : String)
    → Lives
        (db.orders.find j w.orders)
        (db.orders.find j (handle_payment_message routing_key body w).1.orders)
payment_message-Lives {db} routing_key body w j = elim (payment_only_settles w routing_key body) [
  | inl e ↦ still (rw e refl)
  | inr (o, found, owner, status, key, e) ↦
      Updates-Lives db (tenant_of body) (order_id_of body) j (λ p. record p { status = paid })
        (λ s. s ≡ confirmed) w.orders _ (λ p h. paying h refl)
        (inr (o, found, owner, status, rw e refl))
]
