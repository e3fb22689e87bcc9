-- ===== src/Orders.antt =====
-- src/interfaces/orders/orders.service.ts: the operations that change an order. The calls that the
-- services share are in Services.antt. `now` is the instant of the call, `new_id` the id that the
-- database gives to the created row, and `actor` the argument `actorSub`.
pub mod Controller
pub mod Listing
pub mod Transitions
pub mod Written
pub mod Replay
pub mod Confirm
pub mod Cancel
pub mod Tests
use mathlib.Core.List.{foldl}
use node_b2b_orders.Base.{
  ℕ, ◌+◌, ◌*◌, String, Bool, true, false, not, Option, none, some, List, [], ◌∷◌, str_eq, Error,
  bad_request, conflict, if◌then◌else◌,
}
use node_b2b_orders.Base.Int.{pos, ◌-ℤ◌}
use node_b2b_orders.Schema.{
  Status, created, reserved, confirmed, cancelled, paid, shipped, delivered, status_text, OrderItem,
  Order, ItemKey, InventoryItem, Payload, PayloadDetail, plain, charge, shipment,
}
use node_b2b_orders.Database.{Database, Response, created_order, order_status}
use node_b2b_orders.World.{World, Exec, ◌>>=◌, ◌>>◌, pure, throw_if, gets, modify, transaction}
use node_b2b_orders.Stock.Loop.{for_each_item}
use node_b2b_orders.Services.{
  template, or_unknown, require_order, update_order, update_item, create_event, audit_log, count,
  broadcast, idem_get, idem_set, or_hit,
}

abbrev pub is_empty_list {ℓ} : {A : Type ℓ} → List A → Bool
is_empty_list [] = true
is_empty_list (_ ∷ _) = false

abbrev pub is_reserved : Status → Bool
is_reserved reserved = true
is_reserved _ = false

-- `if (idempotencyKey)`, which has no else branch
abbrev pub when_key {ℓ} : {A : Type ℓ} → String → A → A → A
when_key key skip act = if str_eq key "" then skip else act

abbrev pub is_paid : Status → Bool
is_paid paid = true
is_paid _ = false

abbrev pub is_shipped : Status → Bool
is_shipped shipped = true
is_shipped _ = false

-- `CANCELLABLE.includes(order.status)`
abbrev pub is_cancellable : Status → Bool
is_cancellable created = true
is_cancellable reserved = true
is_cancellable confirmed = true
is_cancellable _ = false

abbrev pub add_price : ℕ → OrderItem → ℕ
add_price sum item = sum + item.price * item.qty

-- `order.items.reduce((sum, item) => sum + Number(item.price) * item.qty, 0)`
unfoldable pub total_amount : List OrderItem → ℕ
total_amount items = foldl add_price 0 items

abbrev pub missing_key : Error
missing_key = bad_request "Missing Idempotency-Key"

-- `trackingUrl || null`
abbrev pub or_null : Option String → Option String
or_null none = none
or_null (some s) = elim (str_eq s "") [ true ↦ none | false ↦ some s ]

abbrev pub unreserve : OrderItem → InventoryItem → InventoryItem
unreserve item i = record i { reserved_qty = i.reserved_qty -ℤ pos item.qty }

-- The row that `createOrder` writes.
abbrev pub new_order : String → String → String → List OrderItem → Order
new_order id tenant customer items = record {
  id = id;
  tenant_id = tenant;
  customer_id = customer;
  status = created;
  total_amount = none;
  tracking_code = none;
  tracking_url = none;
  shipped_at = none;
  delivered_at = none;
  items = items;
}

-- The payload with the three ids alone.
abbrev pub ids_payload : String → String → String → PayloadDetail → Payload
ids_payload order_id tenant correlation detail = record {
  order_id = order_id;
  tenant_id = tenant;
  correlation_id = correlation;
  detail = detail;
}

module _ {db : Database} where
  -- The loop of `confirmOrder` over the order's items: `reservedQty: { decrement: item.qty }`.
  abbrev pub release_reserved : String → List OrderItem → Exec db (Unit {0})
  release_reserved = for_each_item unreserve (λ key i products. products)

  pub create_order :
      (now : ℕ) (new_id tenant correlation idempotency_key customer : String)
      (items : List OrderItem) (actor : Option String)
      → Exec db Response
  create_order now new_id tenant correlation idempotency_key customer items actor = do
    throw_if (str_eq idempotency_key "") missing_key
    let idem_key = template ("idem:" ∷ tenant ∷ ":create-order:" ∷ idempotency_key ∷ [])
    hit ← idem_get now idem_key
    or_hit hit (do
      throw_if (is_empty_list items) (bad_request "items required")
      transaction (do
        modify (λ w. record w {
          orders = db.orders.put new_id (new_order new_id tenant customer items) w.orders;
        })
        create_event tenant "order.created" new_id (ids_payload new_id tenant correlation plain))
      count "orders_created_total" tenant
      audit_log tenant (or_unknown actor) "order.created" (template ("Order:" ∷ new_id ∷ []))
          correlation
      let response = created_order new_id created customer items
      idem_set now idem_key response
      broadcast tenant "order.updated" new_id created "created"
      pure response)

  pub confirm_order :
      (now : ℕ) (tenant correlation idempotency_key order_id : String) (actor : Option String)
      → Exec db Response
  confirm_order now tenant correlation idempotency_key order_id actor = do
    throw_if (str_eq idempotency_key "") missing_key
    let idem_key =
        template ("idem:" ∷ tenant ∷ ":confirm-order:" ∷ order_id ∷ ":" ∷ idempotency_key ∷ [])
    hit ← idem_get now idem_key
    or_hit hit (do
      order ← require_order tenant order_id
      throw_if (not (is_reserved order.status))
          (conflict (template ("cannot confirm status " ∷ status_text order.status ∷ [])))
      let total = total_amount order.items
      updated ← transaction (do
        release_reserved tenant order.items
        o ← update_order order_id (λ o. record o { status = confirmed; total_amount = some total })
        create_event tenant "order.confirmed" order_id (
            ids_payload order_id tenant correlation
              (charge order.customer_id order.items total "BRL"))
        pure o)
      count "orders_confirmed_total" tenant
      audit_log tenant (or_unknown actor) "order.confirmed" (template ("Order:" ∷ order_id ∷ []))
          correlation
      let response = order_status updated.id updated.status
      idem_set now idem_key response
      broadcast tenant "order.updated" updated.id updated.status "confirmed"
      pure response)

  pub cancel_order :
      (now : ℕ) (tenant correlation idempotency_key order_id : String) (actor : Option String)
      → Exec db Response
  cancel_order now tenant correlation idempotency_key order_id actor = do
    let idem_key =
        template ("idem:" ∷ tenant ∷ ":cancel-order:" ∷ order_id ∷ ":" ∷ idempotency_key ∷ [])
    hit ← when_key idempotency_key (pure none) (idem_get now idem_key)
    or_hit hit (do
      order ← require_order tenant order_id
      throw_if (not (is_cancellable order.status))
          (conflict (template ("cannot cancel order with status " ∷ status_text order.status ∷ [])))
      updated ← transaction (do
        o ← update_order order_id (λ o. record o { status = cancelled })
        create_event tenant "order.cancelled" order_id
            (ids_payload order_id tenant correlation plain)
        pure o)
      count "orders_cancelled_total" tenant
      audit_log tenant (or_unknown actor) "order.cancelled" (template ("Order:" ∷ order_id ∷ []))
          correlation
      let response = order_status updated.id updated.status
      when_key idempotency_key (pure tt) (idem_set now idem_key response)
      broadcast tenant "order.updated" updated.id updated.status "cancelled"
      pure response)

  pub ship_order :
      (now : ℕ) (tenant correlation idempotency_key order_id tracking_code : String)
      (tracking_url actor : Option String)
      → Exec db Response
  ship_order now tenant correlation idempotency_key order_id tracking_code tracking_url actor = do
    throw_if (str_eq idempotency_key "") missing_key
    let idem_key =
        template ("idem:" ∷ tenant ∷ ":ship-order:" ∷ order_id ∷ ":" ∷ idempotency_key ∷ [])
    hit ← idem_get now idem_key
    or_hit hit (do
      order ← require_order tenant order_id
      throw_if (not (is_paid order.status))
          (conflict (template ("cannot ship order with status " ∷ status_text order.status ∷ [])))
      updated ← transaction (do
        o ← update_order order_id (λ o. record o {
          status = shipped;
          tracking_code = some tracking_code;
          tracking_url = or_null tracking_url;
          shipped_at = some now;
        })
        create_event tenant "order.shipped" order_id (
            ids_payload order_id tenant correlation (shipment tracking_code (or_null tracking_url)))
        pure o)
      count "orders_shipped_total" tenant
      audit_log tenant (or_unknown actor) "order.shipped" (template ("Order:" ∷ order_id ∷ []))
          correlation
      let response = order_status updated.id updated.status
      idem_set now idem_key response
      broadcast tenant "order.updated" updated.id updated.status "shipped"
      pure response)

  pub deliver_order :
      (now : ℕ) (tenant correlation idempotency_key order_id : String) (actor : Option String)
      → Exec db Response
  deliver_order now tenant correlation idempotency_key order_id actor = do
    throw_if (str_eq idempotency_key "") missing_key
    let idem_key =
        template ("idem:" ∷ tenant ∷ ":deliver-order:" ∷ order_id ∷ ":" ∷ idempotency_key ∷ [])
    hit ← idem_get now idem_key
    or_hit hit (do
      order ← require_order tenant order_id
      throw_if (not (is_shipped order.status)) (
          conflict (template ("cannot deliver order with status " ∷ status_text order.status ∷ [])))
      updated ← transaction (do
        o ← update_order order_id (λ o. record o { status = delivered; delivered_at = some now })
        create_event tenant "order.delivered" order_id
            (ids_payload order_id tenant correlation plain)
        pure o)
      count "orders_delivered_total" tenant
      audit_log tenant (or_unknown actor) "order.delivered" (template ("Order:" ∷ order_id ∷ []))
          correlation
      let response = order_status updated.id updated.status
      idem_set now idem_key response
      broadcast tenant "order.updated" updated.id updated.status "delivered"
      pure response)

  -- `getOrder`
  pub get_order : (tenant order_id : String) → Exec db Order
  get_order tenant order_id = require_order tenant order_id
