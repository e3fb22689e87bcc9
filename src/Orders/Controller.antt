-- ===== src/Orders/Controller.antt =====
-- src/interfaces/orders/orders.controller.ts: the routes that change an order, as one function of
-- what the request holds. The guards before them are in Guards.antt.
use node_b2b_orders.Base.{ℕ, String, Option, some, List}
use node_b2b_orders.Schema.{OrderItem}
use node_b2b_orders.Database.{Database, Response}
use node_b2b_orders.World.{Exec}
use node_b2b_orders.Services.{or_unknown}
use node_b2b_orders.Orders.{create_order, confirm_order, cancel_order, ship_order, deliver_order}

-- `idempotency_key` is empty where the header is missing, `user_sub` is `req.user?.sub`; `now` is the
-- instant of the call and `new_id` the id that the database would give to a new row.
pub record Call : Type 0 where
  pub now : ℕ
  pub new_id : String
  pub tenant_id : String
  pub correlation_id : String
  pub idempotency_key : String
  pub user_sub : Option String

pub data Action : Type 0 where
  create : (customer_id : String) (items : List OrderItem) → Action
  confirm : (id : String) → Action
  ship : (id tracking_code : String) (tracking_url : Option String) → Action
  deliver : (id : String) → Action
  cancel : (id : String) → Action

module _ {db : Database} where
  unfoldable pub handle : Call → Action → Exec db Response
  handle c (create customer items) =
      create_order c.now c.new_id c.tenant_id c.correlation_id c.idempotency_key customer items
        (some (or_unknown c.user_sub))
  handle c (confirm id) =
      confirm_order c.now c.tenant_id c.correlation_id c.idempotency_key id
        (some (or_unknown c.user_sub))
  handle c (ship id code url) =
      ship_order c.now c.tenant_id c.correlation_id c.idempotency_key id code url
        (some (or_unknown c.user_sub))
  handle c (deliver id) =
      deliver_order c.now c.tenant_id c.correlation_id c.idempotency_key id
        (some (or_unknown c.user_sub))
  handle c (cancel id) =
      cancel_order c.now c.tenant_id c.correlation_id c.idempotency_key id
        (some (or_unknown c.user_sub))
