-- ===== src/Worker/Consumer/Delivery.antt =====
-- How often a message of an order takes effect.
use node_b2b_orders.Base.{
  ℕ, ◌+◌, ◌≤◌, ◌<◌, String, ◌≡◌, refl, Result, Option, none, some, arith, eq_refl, Error, ok, err,
  lt→ltb,
}
use node_b2b_orders.Database.{Database}
use node_b2b_orders.World.{World}
use node_b2b_orders.Worker.{OrderEventBody, handle_order_message}
use node_b2b_orders.Worker.Consumer.{
  ack, reject, Message, Inbox, consume, mark_processed, processed_key, event_id, settled,
  dedup_ttl_seconds,
}

abbrev pub dedup_hit : (db : Database) → ℕ → String → String → db.dedup.Rep → Option String
dedup_hit db now event_type id c = db.dedup.get now (processed_key event_type id) c

marked_hit :
    (db : Database) (now later : ℕ) (event_type id : String) (c : db.dedup.Rep)
    → now ≤ later
    → later < now + dedup_ttl_seconds
    → dedup_hit db later event_type id
        (db.dedup.set now (processed_key event_type id) "1" dedup_ttl_seconds c)
      ≡ some "1"
marked_hit db now later event_type id c after soon = rw (
  db.dedup.get-set now later (processed_key event_type id) (processed_key event_type id) "1"
      dedup_ttl_seconds c after,
  eq_refl (processed_key event_type id),
  lt→ltb later (now + dedup_ttl_seconds) soon,
)

-- A message whose key is known is acknowledged and does nothing.
consume_known :
    {db : Database} (now : ℕ) (msg : Message) (body : OrderEventBody) (s : Inbox db)
    (c : db.dedup.Rep) (v : String)
    → msg.body ≡ some body
    → s.dedup ≡ some c
    → dedup_hit db now msg.routing_key (event_id msg body) c ≡ some v
    → consume now msg s ≡ (ack, s)
unfolding consume mark_processed
consume_known {db} now msg body s c v parsed connected hit = ground (
  arith,
  db.dedup.set_nx_lem now (processed_key msg.routing_key (event_id msg body)) "1" dedup_ttl_seconds
      c,
)

-- A message whose key is new is handled, with the key set first.
consume_new :
    {db : Database} (now : ℕ) (msg : Message) (body : OrderEventBody) (s : Inbox db)
    (c : db.dedup.Rep)
    → msg.body ≡ some body
    → s.dedup ≡ some c
    → dedup_hit db now msg.routing_key (event_id msg body) c ≡ none
    → consume now msg s
      ≡ settled (handle_order_message msg.routing_key body s.world) (
          some (
            db.dedup.set now
              (processed_key msg.routing_key (event_id msg body))
              "1"
              dedup_ttl_seconds
              c))
unfolding consume mark_processed
consume_new {db} now msg body s c parsed connected miss = ground (
  arith,
  db.dedup.set_nx_lem now (processed_key msg.routing_key (event_id msg body)) "1" dedup_ttl_seconds
      c,
)

settled-dedup :
    {db : Database} (r : Result (Unit {0}) × World db) (dedup : Option db.dedup.Rep)
    → (settled {db = db} r dedup).1.dedup ≡ dedup
settled-dedup (ok _, w) dedup = refl
settled-dedup (err _, w) dedup = refl

-- Two messages of one kind and one event id, the second within a day of the first: if the key was
-- new, the second is acknowledged and changes nothing, however the handling of the first ended.
pub at_most_once :
    {db : Database} (now later : ℕ) (msg again : Message) (body again_body : OrderEventBody)
    (s : Inbox db) (c : db.dedup.Rep)
    → msg.body ≡ some body
    → again.body ≡ some again_body
    → again.routing_key ≡ msg.routing_key
    → event_id again again_body ≡ event_id msg body
    → s.dedup ≡ some c
    → dedup_hit db now msg.routing_key (event_id msg body) c ≡ none
    → now ≤ later
    → later < now + dedup_ttl_seconds
    → consume later again (consume now msg s).1 ≡ (ack, (consume now msg s).1)
at_most_once {db} now later msg again body again_body s c parsed parsed_again same_key same_id
      connected miss after soon =
    let first = consume_new now msg body s c parsed connected miss in
    consume_known later again again_body (consume now msg s).1
      (db.dedup.set now (processed_key msg.routing_key (event_id msg body)) "1" dedup_ttl_seconds c)
      "1" parsed_again
      (rw first (settled-dedup (handle_order_message msg.routing_key body s.world) _))
      (rw (same_key, same_id)
        (marked_hit db now later msg.routing_key (event_id msg body) c after soon))

-- The key is set before the handler runs: a message whose handler throws goes to the dead letters, and
-- when it is delivered again within a day it is acknowledged without being handled.
pub failed_message_is_lost :
    {db : Database} (now later : ℕ) (msg : Message) (body : OrderEventBody) (s : Inbox db)
    (c : db.dedup.Rep) (e : Error)
    → msg.body ≡ some body
    → s.dedup ≡ some c
    → dedup_hit db now msg.routing_key (event_id msg body) c ≡ none
    → (handle_order_message msg.routing_key body s.world).0 ≡ err e
    → now ≤ later
    → later < now + dedup_ttl_seconds
    → ((consume now msg s).0 ≡ reject)
      × (consume later msg (consume now msg s).1 ≡ (ack, (consume now msg s).1))
failed_message_is_lost {db} now later msg body s c e parsed connected miss failed after soon = (
  rw (consume_new now msg body s c parsed connected miss) (ground arith),
  at_most_once now later msg msg body body s c parsed parsed refl refl connected miss after soon,
)
