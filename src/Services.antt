-- ===== src/Services.antt =====
-- The calls that the services share: reads and writes of a row through Prisma, the outbox,
-- `AuditService.log` (which swallows its own errors), `RedisService.idemGet` and `idemSet`, the
-- counters and `EventsService.broadcast`.
use Prim.Native.String
use node_b2b_orders.Base.{
  ℕ, ◌*◌, ◌+◌, ◌≤◌, ltb, arith, ◌≡◌, String, Option, none, some, List, [], ◌∷◌, ◌++◌, str_eq,
  not_found, record_missing, if◌then◌else◌,
}
use node_b2b_orders.Schema.{Status, Order, ItemKey, InventoryItem, Payload}
use node_b2b_orders.Database.{Database, Response}
use node_b2b_orders.World.{Exec, ◌>>=◌, ◌>>◌, pure, gets, modify, or_throw}

-- A template literal.
abbrev pub template : List String → String
template [] = ""
template (s ∷ rest) = String.◌++◌ s (template rest)

-- `actorSub || 'unknown'`
abbrev pub or_unknown : Option String → String
or_unknown none = "unknown"
or_unknown (some s) = if str_eq s "" then "unknown" else s

abbrev pub day_seconds : ℕ
day_seconds = 24 * 3600

-- `where: { id, tenantId }` on the row found by its id.
abbrev pub of_tenant : String → Option Order → Option Order
of_tenant tenant none = none
of_tenant tenant (some o) = if str_eq o.tenant_id tenant then some o else none

module _ {db : Database} where
  -- `order.findFirst({ where: { id, tenantId } })`
  abbrev pub find_order : String → String → Exec db (Option Order)
  find_order tenant id = gets (λ w. of_tenant tenant (db.orders.find id w.orders))

  -- ... followed by `if (!order) throw new NotFoundException('order not found')`
  abbrev pub require_order : String → String → Exec db Order
  require_order tenant id = do
    found ← find_order tenant id
    or_throw found (not_found "order not found")

  -- `order.update({ where: { id }, data })`, which returns the row
  abbrev pub update_order : String → (Order → Order) → Exec db Order
  update_order id change = do
    row ← gets (λ w. db.orders.find id w.orders)
    o ← or_throw row record_missing
    modify (λ w. record w { orders = db.orders.put id (change o) w.orders })
    pure (change o)

  -- `inventoryItem.update({ where: { tenantId_sku }, data })`
  abbrev pub update_item : ItemKey → (InventoryItem → InventoryItem) → Exec db InventoryItem
  update_item key change = do
    row ← gets (λ w. db.inventory.find key w.inventory)
    i ← or_throw row record_missing
    modify (λ w. record w { inventory = db.inventory.put key (change i) w.inventory })
    pure (change i)

  -- `outboxEvent.create({ data })` of an event of an order
  abbrev pub create_event : String → String → String → Payload → Exec db (Unit {0})
  create_event tenant event_type order_id payload = modify (λ w. record w {
    outbox =
        w.outbox
        ++ record {
          tenant_id = tenant;
          event_type = event_type;
          aggregate_type = "Order";
          aggregate_id = order_id;
          payload = payload;
        }
          ∷ [];
  })

  abbrev pub audit_log : String → String → String → String → String → Exec db (Unit {0})
  audit_log tenant actor action target correlation = modify (λ w. record w {
    audit =
        w.audit
        ++ record {
          tenant_id = tenant;
          actor_sub = actor;
          action = action;
          target = target;
          correlation_id = correlation;
        }
          ∷ [];
  })

  abbrev pub count : String → String → Exec db (Unit {0})
  count name tenant = modify (λ w. record w { metrics = w.metrics ++ (name, tenant) ∷ [] })

  abbrev pub broadcast : String → String → String → Status → String → Exec db (Unit {0})
  broadcast tenant event_type order_id status action = modify (λ w. record w {
    broadcasts =
        w.broadcasts
        ++ record {
          tenant_id = tenant;
          event_type = event_type;
          order_id = order_id;
          status = status;
          action = action;
        }
          ∷ [];
  })

module _ (db : Database) where
  -- `idemGet`: `if (!raw) return null`, then the parse, whose failure is `null` too
  unfoldable pub cached : ℕ → String → db.redis.Rep → Option Response
  cached now key r = elim (db.redis.get now key r) [
    | none ↦ none
    | some raw ↦ if db.json.is_empty raw then none else db.json.parse raw
  ]

  -- `idemSet` of an answering Redis, with the time to live of the write operations, `24 * 3600`. In
  -- the program it throws where Redis does not answer; runs in which it does are left out.
  unfoldable pub remember : ℕ → String → Response → db.redis.Rep → db.redis.Rep
  remember now key value r = db.redis.set now key (db.json.stringify value) day_seconds r

  pub cached-remember :
      (now later : ℕ) (k j : String) (v : Response) (r : db.redis.Rep)
      → now ≤ later
      → cached later j (remember now k v r) ≡ (
          if str_eq k j
          then (if ltb later (now + day_seconds) then some v else none)
          else cached later j r)
  unfolding cached remember
  cached-remember now later k j v r h = ground (
    arith,
    db.redis.get-set now later k j (db.json.stringify v) day_seconds r h,
    db.json.parse-stringify v,
    db.json.is_empty-stringify v,
  )

module _ {db : Database} where
  abbrev pub idem_get : ℕ → String → Exec db (Option Response)
  idem_get now key = gets (λ w. cached db now key w.redis)

  abbrev pub idem_set : ℕ → String → Response → Exec db (Unit {0})
  idem_set now key value = modify (λ w. record w { redis = remember db now key value w.redis })

  -- `const hit = await this.redis.idemGet(idemKey); if (hit) return hit;`
  abbrev pub or_hit : Option Response → Exec db Response → Exec db Response
  or_hit (some hit) rest = pure hit
  or_hit none rest = rest
