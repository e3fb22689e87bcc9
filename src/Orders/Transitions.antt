-- ===== src/Orders/Transitions.antt =====
-- Which orders a call changes, and how: the graph of the statuses that the service follows, and the
-- step that a call makes on each row of the table.
use node_b2b_orders.Base.{
  ℕ, String, ◌≡◌, ◌⊎◌, inl, inr, refl, true, Option, none, some, List, arith, eq_iff, str_eq,
  Option-cases, Bool-cases,
}
use node_b2b_orders.Schema.{
  Status, created, reserved, confirmed, cancelled, paid, shipped, delivered, OrderItem, Order,
}
use node_b2b_orders.Database.{Database}
use node_b2b_orders.World.{World}
use node_b2b_orders.Orders.{
  create_order, confirm_order, cancel_order, ship_order, deliver_order, is_cancellable, is_reserved,
  is_paid, is_shipped, unreserve, total_amount, or_null, new_order,
}
use node_b2b_orders.Orders.Controller.{Call, Action, create, confirm, ship, deliver, cancel, handle}
use node_b2b_orders.Stock.{for_each_item_orders}

-- The transitions of the service.
infix 40 ◌⟶◌
pub data ◌⟶◌ : Status → Status → Type 0 where
  confirming : reserved ⟶ confirmed
  shipping : paid ⟶ shipped
  delivering : shipped ⟶ delivered
  cancel_created : created ⟶ cancelled
  cancel_reserved : reserved ⟶ cancelled
  cancel_confirmed : confirmed ⟶ cancelled

cancellable-⟶ : (s : Status) → is_cancellable s ≡ true → s ⟶ cancelled
cancellable-⟶ created h = cancel_created
cancellable-⟶ reserved h = cancel_reserved
cancellable-⟶ confirmed h = cancel_confirmed
cancellable-⟶ cancelled h = cc
cancellable-⟶ paid h = cc
cancellable-⟶ shipped h = cc
cancellable-⟶ delivered h = cc

reserved-⟶ : (s : Status) → is_reserved s ≡ true → s ⟶ confirmed
reserved-⟶ reserved h = confirming
reserved-⟶ _ h = cc

paid-⟶ : (s : Status) → is_paid s ≡ true → s ⟶ shipped
paid-⟶ paid h = shipping
paid-⟶ _ h = cc

shipped-⟶ : (s : Status) → is_shipped s ≡ true → s ⟶ delivered
shipped-⟶ shipped h = delivering
shipped-⟶ _ h = cc

-- What no call changes in a row.
pub record SameOrder (o o' : Order) : Type 0 where
  pub id : o'.id ≡ o.id
  pub tenant : o'.tenant_id ≡ o.tenant_id
  pub customer : o'.customer_id ≡ o.customer_id
  pub items : o'.items ≡ o.items

-- The row of one id before and after a call of a tenant.
pub data RowStep (tenant : String) (before after : Option Order) : Type 0 where
  same : after ≡ before → RowStep tenant before after
  placed :
      (o : Order)
      → before ≡ none
      → after ≡ some o
      → o.tenant_id ≡ tenant
      → o.status ≡ created
      → RowStep tenant before after
  moved :
      (o o' : Order)
      → before ≡ some o
      → after ≡ some o'
      → o.tenant_id ≡ tenant
      → SameOrder o o'
      → o.status ⟶ o'.status
      → RowStep tenant before after

-- The table after a call that updates the row of an order, or leaves the table alone.
abbrev pub Updates :
    (db : Database)
    → String
    → String
    → (Order → Order)
    → (tested : Status → Type 0) → db.orders.Rep
    → db.orders.Rep
    → Type 0
Updates db tenant id change tested before after =
    (after ≡ before)
    ⊎ ((o : Order) × (db.orders.find id before ≡ some o)
        × (o.tenant_id ≡ tenant)
        × tested o.status
        × (after ≡ db.orders.put id (change o) before))

Updates-RowStep :
    (db : Database) (tenant id j : String) (change : Order → Order) (tested : Status → Type 0)
    (before after : db.orders.Rep)
    → ((o : Order) → SameOrder o (change o))
    → ((o : Order) → tested o.status → o.status ⟶ (change o).status)
    → Updates db tenant id change tested before after
    → RowStep tenant (db.orders.find j before) (db.orders.find j after)
Updates-RowStep db tenant id j change tested before after keep edge (inl e) = same (rw e)
Updates-RowStep db tenant id j change tested before after keep edge
      (inr (o, found, owner, test, e)) =
    elim (Bool-cases (str_eq id j)) [
      | inl here ↦
          moved o (change o) (rw (← (eq_iff id j).0 here) found) (rw (e, db.orders.find-put, here))
            owner (keep o) (edge o test)
      | inr other ↦ same (rw (e, db.orders.find-put, other))
    ]

pub create_orders :
    {db : Database} (w : World db) (now : ℕ) (new_id tenant correlation key customer : String)
    (items : List OrderItem) (actor : Option String)
    → let orders =
        (create_order now new_id tenant correlation key customer items actor w).1.orders in
      (orders ≡ w.orders)
      ⊎ (orders ≡ db.orders.put new_id (new_order new_id tenant customer items) w.orders)
unfolding create_order
create_orders {db} w now new_id tenant correlation key customer items actor = ground arith

module _ {db : Database} (w : World db) (now : ℕ) (tenant correlation key id : String) where
  pub cancel_orders :
      (actor : Option String)
      → Updates db tenant id
          (λ o. record o { status = cancelled })
          (λ s. is_cancellable s ≡ true)
          w.orders
          (cancel_order now tenant correlation key id actor w).1.orders
  unfolding cancel_order
  cancel_orders actor = elim (Option-cases (db.orders.find id w.orders)) [
    | inl e ↦ inl (ground arith)
    | inr (o, e) ↦ ground (arith, eq_iff o.tenant_id tenant)
  ]

  pub ship_orders :
      (code : String) (url actor : Option String)
      → Updates db tenant id
          (λ o. record o {
            status = shipped;
            tracking_code = some code;
            tracking_url = or_null url;
            shipped_at = some now;
          })
          (λ s. is_paid s ≡ true)
          w.orders
          (ship_order now tenant correlation key id code url actor w).1.orders
  unfolding ship_order
  ship_orders code url actor = elim (Option-cases (db.orders.find id w.orders)) [
    | inl e ↦ inl (ground arith)
    | inr (o, e) ↦ ground (arith, eq_iff o.tenant_id tenant)
  ]

  pub deliver_orders :
      (actor : Option String)
      → Updates db tenant id
          (λ o. record o { status = delivered; delivered_at = some now })
          (λ s. is_shipped s ≡ true)
          w.orders
          (deliver_order now tenant correlation key id actor w).1.orders
  unfolding deliver_order
  deliver_orders actor = elim (Option-cases (db.orders.find id w.orders)) [
    | inl e ↦ inl (ground arith)
    | inr (o, e) ↦ ground (arith, eq_iff o.tenant_id tenant)
  ]

  pub confirm_orders :
      (actor : Option String)
      → Updates db tenant id
          (λ o. record o { status = confirmed; total_amount = some (total_amount o.items) })
          (λ s. is_reserved s ≡ true)
          w.orders
          (confirm_order now tenant correlation key id actor w).1.orders
  unfolding confirm_order
  confirm_orders actor = elim (Option-cases (db.orders.find id w.orders)) [
    | inl e ↦ inl (ground arith)
    | inr (o, e) ↦ ground (
      arith,
      eq_iff o.tenant_id tenant,
      for_each_item_orders unreserve (λ key i products. products) tenant o.items w,
    )
  ]

placed-RowStep :
    (db : Database) (tenant new_id j customer : String) (items : List OrderItem)
    (before after : db.orders.Rep)
    → db.orders.find new_id before ≡ none
    → (after ≡ before)
      ⊎ (after ≡ db.orders.put new_id (new_order new_id tenant customer items) before)
    → RowStep tenant (db.orders.find j before) (db.orders.find j after)
placed-RowStep db tenant new_id j customer items before after fresh (inl e) = same (rw e)
placed-RowStep db tenant new_id j customer items before after fresh (inr e) =
    elim (Bool-cases (str_eq new_id j)) [
      | inl here ↦
          placed (new_order new_id tenant customer items) (rw (← (eq_iff new_id j).0 here) fresh)
            (rw (e, db.orders.find-put, here)) refl refl
      | inr other ↦ same (rw (e, db.orders.find-put, other))
    ]

-- Every call leaves each row as it was, or places a new order of the caller's tenant, or moves an
-- order of the caller's tenant along an arrow of the graph and keeps its id, tenant, customer and
-- items. The condition: the database gives a new row an id that is not in use.
pub handle-RowStep :
    {db : Database} (c : Call) (a : Action) (w : World db) (j : String)
    → db.orders.find c.new_id w.orders ≡ none
    → RowStep c.tenant_id (db.orders.find j w.orders) (db.orders.find j (handle c a w).1.orders)
unfolding handle
handle-RowStep {db} c (create customer items) w j fresh =
    placed-RowStep db c.tenant_id c.new_id j customer items w.orders _ fresh (
      create_orders w c.now c.new_id c.tenant_id c.correlation_id c.idempotency_key customer items
        _)
handle-RowStep {db} c (confirm id) w j fresh =
    Updates-RowStep db c.tenant_id id j _ _ _ _
      (λ o. record { id = refl; tenant = refl; customer = refl; items = refl })
      (λ o. reserved-⟶ o.status)
      (confirm_orders w c.now c.tenant_id c.correlation_id c.idempotency_key id _)
handle-RowStep {db} c (ship id code url) w j fresh =
    Updates-RowStep db c.tenant_id id j _ _ _ _
      (λ o. record { id = refl; tenant = refl; customer = refl; items = refl })
      (λ o. paid-⟶ o.status)
      (ship_orders w c.now c.tenant_id c.correlation_id c.idempotency_key id code url _)
handle-RowStep {db} c (deliver id) w j fresh =
    Updates-RowStep db c.tenant_id id j _ _ _ _
      (λ o. record { id = refl; tenant = refl; customer = refl; items = refl })
      (λ o. shipped-⟶ o.status)
      (deliver_orders w c.now c.tenant_id c.correlation_id c.idempotency_key id _)
handle-RowStep {db} c (cancel id) w j fresh =
    Updates-RowStep db c.tenant_id id j _ _ _ _
      (λ o. record { id = refl; tenant = refl; customer = refl; items = refl })
      (λ o. cancellable-⟶ o.status)
      (cancel_orders w c.now c.tenant_id c.correlation_id c.idempotency_key id _)
