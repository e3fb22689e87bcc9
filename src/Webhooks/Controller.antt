-- ===== src/Webhooks/Controller.antt =====
-- src/interfaces/webhooks/webhooks.controller.ts: the routes of the endpoints, after the guards.
use node_b2b_orders.Base.{String, Bool, List, Error, Result, ok, err, bad_request, if◌then◌else◌}
use node_b2b_orders.Webhooks.{Tables}
use node_b2b_orders.Webhooks.Endpoints.{
  EndpointResponse, DeliveryResponse, register_endpoint, list_endpoints, delete_endpoint,
  list_deliveries,
}

pub data WebhookCall : Type 0 where
  register : (url : String) (events : List String) (secret : String) → WebhookCall
  list_all : WebhookCall
  remove : (id : String) → WebhookCall
  deliveries : (id : String) → WebhookCall

-- `removed` is `{ deleted: true }`.
pub data WebhookAnswer : Type 0 where
  registered : EndpointResponse → WebhookAnswer
  endpoints : List EndpointResponse → WebhookAnswer
  removed : WebhookAnswer
  delivered : List DeliveryResponse → WebhookAnswer

abbrev bad_uuid : Error
bad_uuid = bad_request "Validation failed (uuid is expected)"

abbrev removal : Result (Unit {0}) × Tables → Result WebhookAnswer × Tables
removal (ok _, t) = (ok removed, t)
removal (err e, t) = (err e, t)

abbrev listing : Result (List DeliveryResponse) → Result WebhookAnswer
listing (ok l) = ok (delivered l)
listing (err e) = err e

-- The methods of the controller; `is_uuid` is the test of `ParseUUIDPipe`.
unfoldable pub answer_webhook :
    (is_uuid : String → Bool) (new_id tenant : String)
    → WebhookCall
    → Tables
    → Result WebhookAnswer × Tables
unfolding register_endpoint list_endpoints delete_endpoint list_deliveries
answer_webhook is_uuid new_id tenant (register url events secret) t =
    let (ep, t') = register_endpoint new_id tenant url events secret t in (ok (registered ep), t')
answer_webhook is_uuid new_id tenant list_all t = (ok (endpoints (list_endpoints tenant t)), t)
answer_webhook is_uuid new_id tenant (remove id) t =
    if is_uuid id then removal (delete_endpoint id tenant t) else (err bad_uuid, t)
answer_webhook is_uuid new_id tenant (deliveries id) t =
    (if is_uuid id then listing (list_deliveries id tenant t) else err bad_uuid, t)
