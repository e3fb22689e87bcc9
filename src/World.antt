-- ===== src/World.antt =====
-- The state that a call of a service reads and writes, and calls that may throw. What was written
-- before a throw stays written, except inside a transaction, which the database rolls back.
use node_b2b_orders.Base.{
  String, Bool, Option, none, some, List, Error, Result, ok, err, if◌then◌else◌,
}
use node_b2b_orders.Schema.{Status, InventoryAdjustment, OutboxEvent, AuditLog}
use node_b2b_orders.Database.{Database}

-- A message of `EventsService.broadcast` to the clients of a tenant.
pub record Broadcast : Type 0 where
  pub tenant_id : String
  pub event_type : String
  pub order_id : String
  pub status : Status
  pub action : String

-- `metrics` has an entry for each increment of a counter: its name and the tenant.
pub record World (db : Database) : Type 0 where
  pub orders : db.orders.Rep
  pub inventory : db.inventory.Rep
  pub products : db.products.Rep
  pub redis : db.redis.Rep
  pub outbox : List OutboxEvent
  pub adjustments : List InventoryAdjustment
  pub audit : List AuditLog
  pub metrics : List (String × String)
  pub broadcasts : List Broadcast

abbrev pub Exec : Database → Type 0 → Type 0
Exec db A = World db → Result A × World db

module _ {db : Database} where
  infixl 5 ◌>>=◌ ◌>>◌
  abbrev pub ◌>>=◌ : {A B : Type 0} → Exec db A → (A → Exec db B) → Exec db B
  ◌>>=◌ m f w = let (r, w') = m w in elim r [ ok a ↦ f a w' | err e ↦ (err e, w') ]

  abbrev pub ◌>>◌ : {A B : Type 0} → Exec db A → Exec db B → Exec db B
  m >> k = m >>= λ _. k

  abbrev pub pure : {A : Type 0} → A → Exec db A
  pure a w = (ok a, w)

  abbrev pub throw : {A : Type 0} → Error → Exec db A
  throw e w = (err e, w)

  abbrev pub throw_if : Bool → Error → Exec db (Unit {0})
  throw_if b e w = (if b then err e else ok tt, w)

  abbrev pub gets : {A : Type 0} → (World db → A) → Exec db A
  gets f w = (ok (f w), w)

  abbrev pub modify : (World db → World db) → Exec db (Unit {0})
  modify f w = (ok tt, f w)

  abbrev pub or_throw : {A : Type 0} → Option A → Error → Exec db A
  or_throw none e = throw e
  or_throw (some a) e = pure a

  -- `$transaction`: a throw undoes the writes of the block.
  abbrev pub transaction : {A : Type 0} → Exec db A → Exec db A
  transaction m w = let (r, w') = m w in elim r [ ok a ↦ (ok a, w') | err e ↦ (err e, w) ]
