-- ===== src/Worker/Consumer.antt =====
-- The consumer of the queue of orders in `setupChannelsAndConsumers`, with `isAlreadyProcessed`: a
-- message is acknowledged, or rejected without being queued again, which moves it to the dead letters.
pub mod Delivery
pub mod Orders
use node_b2b_orders.Base.{
  ℕ, ◌+◌, ◌≤◌, ◌<◌, String, ◌≡◌, refl, Bool, true, false, Option, none, some, List, [], ◌∷◌, arith,
  eq_refl, Result, Error, ok, err, lt→ltb, str_eq, if◌then◌else◌,
}
use node_b2b_orders.Database.{Database}
use node_b2b_orders.World.{World}
use node_b2b_orders.Services.{template}
use node_b2b_orders.Worker.{
  OrderEventBody, PaymentEventBody, or_else, handle_order_message, handle_payment_message,
}

pub data Outcome : Type 0 where
  ack reject : Outcome

-- `body` is `none` where `JSON.parse` throws.
pub record Message : Type 0 where
  pub routing_key : String
  pub body : Option OrderEventBody
  pub message_id : Option String
  pub delivery_tag : String

abbrev pub dedup_ttl_seconds : ℕ
dedup_ttl_seconds = 86400

-- `dedup` is `activeRedis`, `none` before the connection and after the shutdown.
pub record Inbox (db : Database) : Type 0 where
  pub world : World db
  pub dedup : Option db.dedup.Rep

abbrev pub processed_key : String → String → String
processed_key event_type event_id = template ("processed:" ∷ event_type ∷ ":" ∷ event_id ∷ [])

-- `body.orderId || msg.properties.messageId || String(msg.fields.deliveryTag)`
abbrev pub event_id : Message → OrderEventBody → String
event_id msg body = or_else (some body.order_id) (or_else msg.message_id msg.delivery_tag)

-- The `try` block around the handler: what it wrote before a throw stays written.
abbrev pub settled :
    {db : Database} → Result (Unit {0}) × World db → Option db.dedup.Rep → Outcome × Inbox db
settled (ok _, w) dedup = (ack, record { world = w; dedup = dedup })
settled (err _, w) dedup = (reject, record { world = w; dedup = dedup })

module _ (db : Database) where
  -- `SET key 1 EX ttl NX`: `none` means that the key was there.
  unfoldable pub mark_processed : ℕ → String → String → db.dedup.Rep → Option db.dedup.Rep
  mark_processed now event_type id c =
      db.dedup.set_nx now (processed_key event_type id) "1" dedup_ttl_seconds c

module _ {db : Database} where
  abbrev deliver : Message → OrderEventBody → World db → Option db.dedup.Rep → Outcome × Inbox db
  deliver msg body w dedup = settled (handle_order_message msg.routing_key body w) dedup

  abbrev after_mark : Message → OrderEventBody → Inbox db → Option db.dedup.Rep → Outcome × Inbox db
  after_mark msg body s none = (ack, s)
  after_mark msg body s (some marked) = deliver msg body s.world (some marked)

  abbrev consume_body :
      ℕ → Message → OrderEventBody → Inbox db → Option db.dedup.Rep → Outcome × Inbox db
  consume_body now msg body s none = deliver msg body s.world none
  consume_body now msg body s (some c) =
      after_mark msg body s (mark_processed db now msg.routing_key (event_id msg body) c)

  abbrev consume_parsed : ℕ → Message → Option OrderEventBody → Inbox db → Outcome × Inbox db
  consume_parsed now msg none s = (reject, s)
  consume_parsed now msg (some body) s = consume_body now msg body s s.dedup

  pub consume : ℕ → Message → Inbox db → Outcome × Inbox db
  consume now msg s = consume_parsed now msg msg.body s

-- The queue of payments.
pub record PaymentMessage : Type 0 where
  pub routing_key : String
  pub body : Option PaymentEventBody
  pub message_id : Option String
  pub delivery_tag : String

-- `body.orderId || body.order_id || msg.properties.messageId || String(msg.fields.deliveryTag)`
abbrev pub payment_event_id : PaymentMessage → PaymentEventBody → String
payment_event_id msg body =
    or_else body.order_id (or_else body.order_id_snake (or_else msg.message_id msg.delivery_tag))

module _ {db : Database} where
  abbrev after_payment_mark :
      PaymentMessage → PaymentEventBody → Inbox db → Option db.dedup.Rep → Outcome × Inbox db
  after_payment_mark msg body s none = (ack, s)
  after_payment_mark msg body s (some marked) =
      settled (handle_payment_message msg.routing_key body s.world) (some marked)

  abbrev consume_payment_body :
      ℕ → PaymentMessage → PaymentEventBody → Inbox db → Option db.dedup.Rep → Outcome × Inbox db
  consume_payment_body now msg body s none =
      settled (handle_payment_message msg.routing_key body s.world) none
  consume_payment_body now msg body s (some c) =
      after_payment_mark msg body s
        (mark_processed db now msg.routing_key (payment_event_id msg body) c)

  pub consume_payment : ℕ → PaymentMessage → Inbox db → Outcome × Inbox db
  consume_payment now msg s = elim msg.body [
    | none ↦ (reject, s)
    | some body ↦ consume_payment_body now msg body s s.dedup
  ]
