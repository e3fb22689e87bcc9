-- ===== src/Worker/Reserve.antt =====
-- The handler of `order.created`: it takes the stock of the order, or cancels the order.
use mathlib.Core.Option
use mathlib.Core.Path.{fun_ext}
use node_b2b_orders.Base.{
  String, ◌≡◌, ◌∙◌, ap, some, List, [], ◌∷◌, ◌++◌, arith, eq_iff, eq_refl, ok, false,
}
use node_b2b_orders.Schema.{OrderItem, Order, ItemKey, OutboxEvent, plain, reserved}
use node_b2b_orders.Database.{Database}
use node_b2b_orders.World.{World}
use node_b2b_orders.Stock.Loop.{for_each_item}
use node_b2b_orders.Stock.{
  for_each_item_frame, for_each_item_find, for_each_item_ok, IsStocked, ordered,
}
use node_b2b_orders.Orders.{ids_payload}
use node_b2b_orders.Worker.{
  OrderEventBody, or_else, reserve, after_reserve, lacks_stock, on_order_created, reserve_or_cancel,
}
use node_b2b_orders.Worker.Amounts.{taken, apply_all-reserve}

-- An event of an order with the three ids alone.
abbrev pub ids_event : (tenant correlation id event_type : String) → OutboxEvent
ids_event tenant correlation id event_type = record {
  tenant_id = tenant;
  event_type = event_type;
  aggregate_type = "Order";
  aggregate_id = id;
  payload = ids_payload id tenant correlation plain;
}

IsStocked-of_not_lacks_stock :
    (db : Database) (tenant : String) (items : List OrderItem) (inv : db.inventory.Rep)
    → lacks_stock db tenant items inv ≡ false
    → IsStocked db tenant items inv
unfolding lacks_stock
IsStocked-of_not_lacks_stock db tenant [] inv h = tt
IsStocked-of_not_lacks_stock db tenant (item ∷ rest) inv h =
    (λ e. ground arith, IsStocked-of_not_lacks_stock db tenant rest inv (ground arith))

module _ {db : Database} (w : World db) (body : OrderEventBody) (o : Order)
    (found : db.orders.find body.order_id w.orders ≡ some o)
    (owner : o.tenant_id ≡ body.tenant_id) where
  reserve-fields :
      lacks_stock db body.tenant_id o.items w.inventory ≡ false
      → let (r, w') = on_order_created body w in
        let looped = (for_each_item reserve (after_reserve db) body.tenant_id o.items w).1 in
        (r ≡ ok tt)
        × (w'.orders ≡ db.orders.put body.order_id (record o { status = reserved }) w.orders)
        × (w'.outbox
            ≡ w.outbox
              ++ ids_event body.tenant_id
                  (or_else body.correlation_id "")
                  body.order_id
                  "stock.reserved"
                ∷ [])
        × (w'.inventory ≡ looped.inventory)
  unfolding on_order_created reserve_or_cancel
  reserve-fields enough = ground (
    arith,
    eq_iff o.tenant_id body.tenant_id,
    for_each_item_frame reserve (after_reserve db) body.tenant_id o.items w,
    for_each_item_ok reserve (after_reserve db) body.tenant_id o.items w
        (IsStocked-of_not_lacks_stock db body.tenant_id o.items w.inventory enough),
  )

  -- An `order.created` message of an order of the tenant, none of whose items is short, takes the
  -- stock, whatever the status of the order is: of every inventory row the ordered units move from
  -- available to reserved, the order is RESERVED and one stock.reserved event joins the outbox.
  pub on_order_created_takes :
      lacks_stock db body.tenant_id o.items w.inventory ≡ false
      → let (r, w') = on_order_created body w in
        (r ≡ ok tt)
        × (db.orders.find body.order_id w'.orders ≡ some (record o { status = reserved }))
        × (w'.outbox
            ≡ w.outbox
              ++ ids_event body.tenant_id
                  (or_else body.correlation_id "")
                  body.order_id
                  "stock.reserved"
                ∷ [])
        × ((k : ItemKey)
            → db.inventory.find k w'.inventory
              ≡ Option.map
                  (taken (ordered body.tenant_id k o.items))
                  (db.inventory.find k w.inventory))
  on_order_created_takes enough =
      let (r, orders, outbox, inventory) = reserve-fields enough in
      (
        r,
        rw (orders, db.orders.find-put, eq_refl body.order_id),
        outbox,
        λ k. rw inventory (
            for_each_item_find reserve (after_reserve db) body.tenant_id o.items w
              (for_each_item_ok reserve (after_reserve db) body.tenant_id o.items w
                (IsStocked-of_not_lacks_stock db body.tenant_id o.items w.inventory enough))
              k
            ∙ ap (λ f. Option.map f (db.inventory.find k w.inventory))
                (fun_ext (apply_all-reserve body.tenant_id k o.items))),
      )
