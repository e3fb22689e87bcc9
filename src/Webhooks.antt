-- ===== src/Webhooks.antt =====
-- Webhooks: `enqueueWebhookDelivery` and `processWebhookDeliveries` of
-- src/worker/webhook-dispatcher.ts, and `WebhooksService` of src/interfaces/webhooks/webhooks.service.ts,
-- whose processing of its own is in the module Service. The tables are lists in the order of `createdAt`. `stringify` is
-- `JSON.stringify`, `hmac` the hex digest of `createHmac('sha256', secret)`, and `fetch` answers the
-- request of a delivery or throws (an abort after the timeout included). A text that is cut is the
-- list of its code units.
pub mod Controller
mod Tests
pub mod Service
pub mod Agreement
pub mod Deliveries
pub mod Endpoints
use node_b2b_orders.Base.{
  ℕ, ◌+◌, String, Bool, true, false, not, ◌&&◌, ◌||◌, Option, none, some, List, [], ◌∷◌, ◌++◌, map,
  any, length, take, ltb, leb, str_eq, Error, Result, ok, err, not_found, if◌then◌else◌,
}
use node_b2b_orders.Queries.{find_many, find_first}
use node_b2b_orders.Schema.{Payload}
use node_b2b_orders.Services.{template}

abbrev pub max_attempts : ℕ
max_attempts = 5

pub data DeliveryStatus : Type 0 where
  pending delivered failed cancelled : DeliveryStatus

-- The rows of the two tables.
pub record Endpoint : Type 0 where
  pub id : String
  pub tenant_id : String
  pub url : String
  pub events : List String
  pub secret : String
  pub active : Bool

pub record Delivery : Type 0 where
  pub id : String
  pub endpoint_id : String
  pub event_type : String
  pub payload : Payload
  pub status : DeliveryStatus
  pub http_status : Option ℕ
  pub attempts : ℕ
  pub last_error : Option (List ℕ)
  pub delivered_at : Option ℕ

pub record Tables : Type 0 where
  pub endpoints : List Endpoint
  pub deliveries : List Delivery

-- The `POST` of a delivery.
pub record Post : Type 0 where
  pub url : String
  pub signature : String
  pub event : String
  pub delivery_id : String
  pub body : String

-- `res.status`, or the text of the error that was thrown.
pub data Answer : Type 0 where
  status : ℕ → Answer
  thrown : List ℕ → Answer

-- `res.ok`
abbrev pub is_ok : ℕ → Bool
is_ok code = leb 200 code && ltb code 300

abbrev pub wants : String → String → Endpoint → Bool
wants tenant event_type ep =
    str_eq ep.tenant_id tenant && (ep.active && any (λ e. str_eq e event_type) ep.events)

-- A row of `createMany`; `new_id` is the database's default.
abbrev pub new_delivery : (Endpoint → String) → String → Payload → Endpoint → Delivery
new_delivery new_id event_type payload ep = record {
  id = new_id ep;
  endpoint_id = ep.id;
  event_type = event_type;
  payload = payload;
  status = pending;
  http_status = none;
  attempts = 0;
  last_error = none;
  delivered_at = none;
}

-- `enqueueWebhookDelivery`, and `enqueueDelivery` of the service.
unfoldable pub enqueue :
    (Endpoint → String) → String → Payload → (tenant : String) → Tables → ℕ × Tables
enqueue new_id event_type payload tenant t =
    let endpoints = find_many (wants tenant event_type) t.endpoints in
    (
      length endpoints,
      record t {
        deliveries = t.deliveries ++ map (new_delivery new_id event_type payload) endpoints;
      },
    )

-- `webhookDelivery.update({ where: { id }, data })`
unfoldable pub update_delivery : String → (Delivery → Delivery) → List Delivery → List Delivery
update_delivery id change [] = []
update_delivery id change (d ∷ rest) =
    let rest' = update_delivery id change rest in
    if str_eq d.id id then change d ∷ rest' else d ∷ rest'

-- `where: { status: 'PENDING', attempts: { lt: MAX_ATTEMPTS } }`
abbrev pub is_pending : Delivery → Bool
is_pending d = elim d.status [ pending ↦ ltb d.attempts max_attempts | _ ↦ false ]

abbrev pub pending_deliveries : Tables → List Delivery
pending_deliveries t = take 50 (find_many is_pending t.deliveries)

-- The change of `markFailed`.
unfoldable pub failed_change : (current_attempts : ℕ) → Option ℕ → List ℕ → Delivery → Delivery
failed_change current_attempts http_status error d = record d {
  attempts = current_attempts + 1;
  http_status = http_status;
  last_error = some (take 500 error);
  status = if leb max_attempts (current_attempts + 1) then failed else pending;
}

unfoldable pub delivered_change : (current_attempts now code : ℕ) → Delivery → Delivery
delivered_change current_attempts now code d = record d {
  status = delivered;
  http_status = some code;
  attempts = current_attempts + 1;
  delivered_at = some now;
}

abbrev pub cancelled_change : Delivery → Delivery
cancelled_change d = record d { status = cancelled }

module _ (stringify : Payload → String) (hmac : String → String → String) (code_text : ℕ → List ℕ)
    (fetch : Post → Answer) (now : ℕ) where
  abbrev pub post_of : Endpoint → Delivery → Post
  post_of ep d =
      let body = stringify d.payload in
      record {
        url = ep.url;
        signature = template ("sha256=" ∷ hmac ep.secret body ∷ []);
        event = d.event_type;
        delivery_id = d.id;
        body = body;
      }

  -- The change of a row on the answer to its request, and whether it was delivered; `code_text` gives
  -- `HTTP ${res.status}`.
  unfoldable pub on_answer : ℕ → Answer → Bool × (Delivery → Delivery)
  unfolding failed_change delivered_change
  on_answer current_attempts (status code) =
      if is_ok code
      then (true, delivered_change current_attempts now code)
      else (false, failed_change current_attempts (some code) (code_text code))
  on_answer current_attempts (thrown error) = (false, failed_change current_attempts none error)

  -- The body of the loop over the pending deliveries.
  unfoldable pub change_of : Option Endpoint → Delivery → Bool × (Delivery → Delivery)
  unfolding on_answer
  change_of none d = (false, cancelled_change)
  change_of (some ep) d =
      if not ep.active
      then (false, cancelled_change)
      else on_answer d.attempts (fetch (post_of ep d))

  unfoldable pub process_delivery : Delivery → Tables → Bool × Tables
  unfolding change_of update_delivery
  process_delivery d t =
      let (done, change) = change_of (find_first (λ e. str_eq e.id d.endpoint_id) t.endpoints) d in
      (done, record t { deliveries = update_delivery d.id change t.deliveries })

  -- The loop of the worker: `stops` has the answers of `shouldStop`, one before each delivery; it
  -- does not stop where there are no more of them.
  unfoldable pub dispatch_all : (stops : List Bool) → List Delivery → Tables → Tables
  unfolding process_delivery
  dispatch_all stops [] t = t
  dispatch_all [] (d ∷ rest) t = dispatch_all [] rest (process_delivery d t).1
  dispatch_all (true ∷ stops) (d ∷ rest) t = t
  dispatch_all (false ∷ stops) (d ∷ rest) t = dispatch_all stops rest (process_delivery d t).1

  -- A round of `processWebhookDeliveries`, between two sleeps.
  unfoldable pub dispatch_round : (stops : List Bool) → Tables → Tables
  unfolding dispatch_all
  dispatch_round stops t = dispatch_all stops (pending_deliveries t) t
