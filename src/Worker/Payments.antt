-- ===== src/Worker/Payments.antt =====
-- The handler of `payment.settled`.
use node_b2b_orders.Base.{
  String, ◌≡◌, ◌⊎◌, some, arith, eq_iff, ok, false, str_eq, inl, inr, Option-cases,
}
use node_b2b_orders.Schema.{Order, confirmed, paid}
use node_b2b_orders.Database.{Database}
use node_b2b_orders.World.{World}
use node_b2b_orders.Worker.{PaymentEventBody, or_else, settle, handle_payment_message}

abbrev pub order_id_of : PaymentEventBody → String
order_id_of body = or_else body.order_id (or_else body.order_id_snake "")

abbrev pub tenant_of : PaymentEventBody → String
tenant_of body = or_else body.tenant_id (or_else body.tenant_id_snake "")

-- A settled payment of a CONFIRMED order of the tenant, named by ids that are not empty in either
-- spelling of the fields, sets the order to PAID and changes nothing else.
pub payment_settles :
    {db : Database} (w : World db) (body : PaymentEventBody) (o : Order)
    → str_eq (order_id_of body) "" ≡ false
    → str_eq (tenant_of body) "" ≡ false
    → db.orders.find (order_id_of body) w.orders ≡ some o
    → o.tenant_id ≡ tenant_of body
    → o.status ≡ confirmed
    → handle_payment_message "payment.settled" body w ≡ (
      ok tt,
      record w { orders = db.orders.put (order_id_of body) (record o { status = paid }) w.orders },
    )
unfolding handle_payment_message settle
payment_settles w body o some_id some_tenant found owner status =
    ground (arith, eq_iff o.tenant_id (tenant_of body))

settle_only :
    {db : Database} (w : World db) (tenant id : String)
    → (settle tenant id w ≡ (ok tt, w))
      ⊎ ((o : Order) × (db.orders.find id w.orders ≡ some o)
          × (o.tenant_id ≡ tenant)
          × (o.status ≡ confirmed)
          × (settle tenant id w ≡ (
            ok tt,
            record w { orders = db.orders.put id (record o { status = paid }) w.orders },
          )))
unfolding settle
settle_only {db} w tenant id = elim (Option-cases (db.orders.find id w.orders)) [
  | inl absent ↦ inl (ground arith)
  | inr (o, found) ↦ ground (arith, eq_iff o.tenant_id tenant)
]

-- Any message of the payments' queue either changes nothing and returns, or sets a CONFIRMED order of
-- the tenant that it names to PAID: no other status leads there, and no other row changes.
pub payment_only_settles :
    {db : Database} (w : World db) (routing_key : String) (body : PaymentEventBody)
    → (handle_payment_message routing_key body w ≡ (ok tt, w))
      ⊎ ((o : Order) × (db.orders.find (order_id_of body) w.orders ≡ some o)
          × (o.tenant_id ≡ tenant_of body)
          × (o.status ≡ confirmed)
          × (routing_key ≡ "payment.settled")
          × (handle_payment_message routing_key body w ≡ (
            ok tt,
            record w {
              orders = db.orders.put (order_id_of body) (record o { status = paid }) w.orders;
            },
          )))
unfolding handle_payment_message
payment_only_settles {db} w routing_key body =
    elim (settle_only w (tenant_of body) (order_id_of body)) [
      | inl idle ↦ inl (ground arith)
      | inr (o, found, owner, status, e) ↦ ground (arith, eq_iff routing_key "payment.settled")
    ]
