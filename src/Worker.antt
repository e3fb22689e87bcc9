-- ===== src/Worker.antt =====
-- src/worker/main.ts: the handlers of the messages of the two queues.
pub mod Amounts
pub mod Reserve
pub mod Shortage
pub mod Conserve
pub mod Consumer
pub mod Payments
pub mod Cancel
pub mod Statuses
pub mod Written
pub mod Oversell
mod Tests
use node_b2b_orders.Base.{
  ℕ, String, Bool, true, false, not, ◌&&◌, ◌||◌, Option, none, some, List, [], ◌∷◌, any, str_eq,
  ◌==◌, if◌then◌else◌,
}
use node_b2b_orders.Base.Int.{ℤ, pos, ◌+ℤ◌, ◌-ℤ◌, ltb_ℤ, leb_ℤ}
use node_b2b_orders.Schema.{
  Status, confirmed, cancelled, reserved, paid, OrderItem, Order, ItemKey, InventoryItem, Product,
  plain, charge,
}
use node_b2b_orders.Database.{Database}
use node_b2b_orders.World.{World, Exec, ◌>>=◌, ◌>>◌, pure, gets, transaction, modify}
use node_b2b_orders.Services.{find_order, update_order, create_event, count}
use node_b2b_orders.Stock.Loop.{key_of, for_each_item}
use node_b2b_orders.Orders.{is_reserved, total_amount, ids_payload}

-- The optional fields of a message are `none` where they are absent.
pub record OrderEventBody : Type 0 where
  pub order_id : String
  pub tenant_id : String
  pub correlation_id : Option String
  pub total_amount : Option ℕ
  pub customer_id : Option String
  pub items : Option (List OrderItem)
  pub currency : Option String

pub record PaymentEventBody : Type 0 where
  pub order_id : Option String
  pub order_id_snake : Option String
  pub tenant_id : Option String
  pub tenant_id_snake : Option String

-- `a || b` where `a` may be undefined or empty
abbrev pub or_else : Option String → String → String
or_else none d = d
or_else (some s) d = if str_eq s "" then d else s

-- `body.totalAmount || total`, where 0 counts as absent
abbrev pub or_total : Option ℕ → ℕ → ℕ
or_total none total = total
or_total (some n) total = if n == 0 then total else n

-- `body.items ?? order.items`
abbrev pub or_items : Option (List OrderItem) → List OrderItem → List OrderItem
or_items none items = items
or_items (some given) items = given

abbrev pub is_confirmed : Status → Bool
is_confirmed confirmed = true
is_confirmed _ = false

abbrev pub reserve : OrderItem → InventoryItem → InventoryItem
reserve item i = record i {
  available_qty = i.available_qty -ℤ pos item.qty;
  reserved_qty = i.reserved_qty +ℤ pos item.qty;
}

abbrev pub release : OrderItem → InventoryItem → InventoryItem
release item i = record i {
  available_qty = i.available_qty +ℤ pos item.qty;
  reserved_qty = i.reserved_qty -ℤ pos item.qty;
}

-- `!inv || inv.availableQty < item.qty`
abbrev pub is_short : Option InventoryItem → ℕ → Bool
is_short none qty = true
is_short (some i) qty = ltb_ℤ i.available_qty (pos qty)

module _ (db : Database) where
  -- `product.updateMany` on the active product of a SKU
  abbrev set_in_stock : (Product → Bool) → Bool → ItemKey → db.products.Rep → db.products.Rep
  set_in_stock applies value key products = elim (db.products.find key products) [
    | none ↦ products
    | some p ↦
        if p.active && applies p
        then db.products.put key (record p { in_stock = value }) products
        else products
  ]

  pub after_reserve : ItemKey → InventoryItem → db.products.Rep → db.products.Rep
  after_reserve key updated products =
      if leb_ℤ updated.available_qty (pos 0)
      then set_in_stock (λ p. true) false key products
      else products

  pub after_release : ItemKey → InventoryItem → db.products.Rep → db.products.Rep
  after_release key updated products =
      if ltb_ℤ (pos 0) updated.available_qty
      then set_in_stock (λ p. not p.in_stock) true key products
      else products

  -- The first loop of `order.created`: it ends at the first item that is short.
  unfoldable pub lacks_stock : String → List OrderItem → db.inventory.Rep → Bool
  lacks_stock tenant [] inv = false
  lacks_stock tenant (item ∷ rest) inv =
      is_short (db.inventory.find (key_of tenant item) inv) item.qty || lacks_stock tenant rest inv

module _ {db : Database} where
  abbrev pub reserve_items : String → List OrderItem → Exec db (Unit {0})
  reserve_items = for_each_item reserve (after_reserve db)

  abbrev pub release_items : String → List OrderItem → Exec db (Unit {0})
  release_items = for_each_item release (after_release db)

  -- The branch of `order.created` for an item that is short.
  pub cancel_short : (tenant correlation order_id : String) → Exec db (Unit {0})
  cancel_short tenant correlation order_id = do
    update_order order_id (λ o. record o { status = cancelled })
    create_event tenant "order.cancelled" order_id (ids_payload order_id tenant correlation plain)

  -- What follows the first loop of `order.created` where no item is short.
  pub take_stock : (tenant correlation order_id : String) → List OrderItem → Exec db (Unit {0})
  take_stock tenant correlation order_id items = do
    reserve_items tenant items
    update_order order_id (λ o. record o { status = reserved })
    create_event tenant "stock.reserved" order_id (ids_payload order_id tenant correlation plain)

  -- The transaction of `order.created`.
  pub reserve_or_cancel : (tenant correlation order_id : String) → Order → Exec db (Unit {0})
  unfolding cancel_short take_stock
  reserve_or_cancel tenant correlation order_id order = do
    short ← gets (λ w. lacks_stock db tenant order.items w.inventory)
    (if short
        then cancel_short tenant correlation order_id
        else take_stock tenant correlation order_id order.items)

  -- The transaction of `order.cancelled`.
  pub release_and_cancel : (tenant order_id : String) → Order → Exec db (Unit {0})
  release_and_cancel tenant order_id order = do
    if is_reserved order.status then release_items tenant order.items else pure tt
    update_order order_id (λ o. record o { status = cancelled })
    pure tt

  abbrev when_found : Option Order → (Order → Exec db (Unit {0})) → Exec db (Unit {0})
  when_found none act = pure tt
  when_found (some order) act = act order

  pub on_order_created : OrderEventBody → Exec db (Unit {0})
  on_order_created body = do
    let correlation = or_else body.correlation_id ""
    found ← find_order body.tenant_id body.order_id
    when_found found λ order. do
      transaction (reserve_or_cancel body.tenant_id correlation body.order_id order)
      count "inventory_reserved_total" body.tenant_id

  pub on_order_cancelled : OrderEventBody → Exec db (Unit {0})
  on_order_cancelled body = do
    found ← find_order body.tenant_id body.order_id
    when_found found λ order. transaction (release_and_cancel body.tenant_id body.order_id order)

  pub on_order_confirmed : OrderEventBody → Exec db (Unit {0})
  on_order_confirmed body = do
    let correlation = or_else body.correlation_id ""
    found ← find_order body.tenant_id body.order_id
    when_found found λ order.
        if is_confirmed order.status
        then transaction (
            create_event body.tenant_id "payment.charge_requested" body.order_id (
              ids_payload body.order_id body.tenant_id correlation (
                charge (or_else body.customer_id order.customer_id)
                  (or_items body.items order.items)
                  (or_total body.total_amount (total_amount order.items))
                  (or_else body.currency "BRL"))))
        else pure tt

  -- `order.shipped` and `order.delivered` only write a line to the log.
  pub handle_order_message : String → OrderEventBody → Exec db (Unit {0})
  handle_order_message routing_key body =
      if str_eq routing_key "order.created"
      then on_order_created body
      else if str_eq routing_key "order.cancelled"
      then on_order_cancelled body
      else if str_eq routing_key "order.confirmed"
      then on_order_confirmed body
      else pure tt

  -- `payment.settled` with both ids.
  pub settle : (tenant order_id : String) → Exec db (Unit {0})
  settle tenant order_id = do
    found ← find_order tenant order_id
    when_found found λ order.
        if is_confirmed order.status
        then (do update_order order_id (λ o. record o { status = paid }); pure tt)
        else pure tt

  pub handle_payment_message : String → PaymentEventBody → Exec db (Unit {0})
  handle_payment_message routing_key body =
      let order_id = or_else body.order_id (or_else body.order_id_snake "") in
      let tenant = or_else body.tenant_id (or_else body.tenant_id_snake "") in
      if str_eq routing_key "payment.settled"
      then (if str_eq order_id "" || str_eq tenant "" then pure tt else settle tenant order_id)
      else pure tt
