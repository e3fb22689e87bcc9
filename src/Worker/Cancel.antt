-- ===== src/Worker/Cancel.antt =====
-- The handler of `order.cancelled`, alone and after the service's own cancellation.
use mathlib.Core.Option
use mathlib.Core.Path.{fun_ext}
use node_b2b_orders.Base.{
  ℕ, String, ◌≡◌, ◌∙◌, refl, ap, Option, none, some, [], ◌∷◌, arith, eq_iff, eq_refl, ok, false,
  true,
}
use node_b2b_orders.Schema.{Order, ItemKey, cancelled, reserved}
use node_b2b_orders.Database.{Database}
use node_b2b_orders.World.{World}
use node_b2b_orders.Stock.Loop.{for_each_item}
use node_b2b_orders.Stock.{
  for_each_item_frame, for_each_item_find, for_each_item_ok, IsStocked, ordered,
}
use node_b2b_orders.Services.{template, cached}
use node_b2b_orders.Orders.Cancel.{cancel_order-Effect}
use node_b2b_orders.Orders.{cancel_order, is_reserved, is_cancellable}
use node_b2b_orders.Worker.{
  OrderEventBody, release, after_release, on_order_cancelled, release_and_cancel,
}
use node_b2b_orders.Worker.Amounts.{given_back, apply_all-release}

-- An `order.cancelled` message of a RESERVED order of the tenant, all of whose SKUs have a row, gives
-- the ordered units of every row back from reserved to available and sets the order to CANCELLED.
pub on_order_cancelled_releases :
    {db : Database} (w : World db) (body : OrderEventBody) (o : Order)
    → db.orders.find body.order_id w.orders ≡ some o
    → o.tenant_id ≡ body.tenant_id
    → o.status ≡ reserved
    → IsStocked db body.tenant_id o.items w.inventory
    → let (r, w') = on_order_cancelled body w in
      (r ≡ ok tt)
      × (db.orders.find body.order_id w'.orders ≡ some (record o { status = cancelled }))
      × ((k : ItemKey)
          → db.inventory.find k w'.inventory
            ≡ Option.map
                (given_back (ordered body.tenant_id k o.items))
                (db.inventory.find k w.inventory))
on_order_cancelled_releases {db} w body o found owner status stocked =
    let done = for_each_item_ok release (after_release db) body.tenant_id o.items w stocked in
    let (r, orders, inventory) = fields done in
    (
      r,
      rw (orders, db.orders.find-put, eq_refl body.order_id),
      λ k. rw inventory (
          for_each_item_find release (after_release db) body.tenant_id o.items w done k
          ∙ ap (λ f. Option.map f (db.inventory.find k w.inventory))
              (fun_ext (apply_all-release body.tenant_id k o.items))),
    )
  where
    fields :
        (for_each_item release (after_release db) body.tenant_id o.items w).0 ≡ ok tt
        → let (r, w') = on_order_cancelled body w in
          (r ≡ ok tt)
          × (w'.orders ≡ db.orders.put body.order_id (record o { status = cancelled }) w.orders)
          × (w'.inventory
              ≡ (for_each_item release (after_release db) body.tenant_id o.items w).1.inventory)
    fields done =
        unfold on_order_cancelled release_and_cancel in
        ground (
          arith,
          eq_iff o.tenant_id body.tenant_id,
          for_each_item_frame release (after_release db) body.tenant_id o.items w,
        )

-- An `order.cancelled` message moves no stock and no product of an order that is not RESERVED when
-- the message is handled.
pub not_reserved_keeps_stock :
    {db : Database} (w : World db) (body : OrderEventBody) (o : Order)
    → db.orders.find body.order_id w.orders ≡ some o
    → is_reserved o.status ≡ false
    → ((on_order_cancelled body w).1.inventory ≡ w.inventory)
      × ((on_order_cancelled body w).1.products ≡ w.products)
unfolding on_order_cancelled release_and_cancel
not_reserved_keeps_stock w body o found other = ground arith

-- The service sets the status to CANCELLED before it writes the event. So when the worker handles the
-- `order.cancelled` message of a cancellation through the service, in any state in which the order is
-- still as the service left it, none of the stock that the order had reserved is given back.
pub cancellation_keeps_stock :
    {db : Database} (w later : World db) (now : ℕ) (tenant correlation key id : String)
    (actor : Option String) (body : OrderEventBody) (o : Order)
    → cached db now (template ("idem:" ∷ tenant ∷ ":cancel-order:" ∷ id ∷ ":" ∷ key ∷ [])) w.redis
      ≡ none
    → db.orders.find id w.orders ≡ some o
    → o.tenant_id ≡ tenant
    → is_cancellable o.status ≡ true
    → db.orders.find id later.orders
      ≡ db.orders.find id (cancel_order now tenant correlation key id actor w).1.orders
    → body.order_id ≡ id
    → ((on_order_cancelled body later).1.inventory ≡ later.inventory)
      × ((on_order_cancelled body later).1.products ≡ later.products)
cancellation_keeps_stock w later now tenant correlation key id actor body o miss found owner test
      after same =
    let effect =
      cancel_order-Effect w now tenant correlation key id actor o miss found owner test in
    not_reserved_keeps_stock later body (record o { status = cancelled })
      (rw same (after ∙ effect.1)) refl
