-- ===== src/Webhooks/Service.antt =====
-- `processDeliveries` and `markFailed` of src/interfaces/webhooks/webhooks.service.ts: the API's own
-- processing of the deliveries. `stringify`, `hmac`, `code_text` and `fetch` are as for the worker.
use node_b2b_orders.Base.{
  ℕ, ◌+◌, String, Bool, false, not, Option, none, some, List, [], ◌∷◌, take, ltb, leb, str_eq,
  if◌then◌else◌,
}
use node_b2b_orders.Queries.{find_many, find_first}
use node_b2b_orders.Schema.{Payload}
use node_b2b_orders.Services.{template}
use node_b2b_orders.Webhooks.{
  Endpoint, Delivery, pending, delivered, failed, cancelled, Tables, Post, Answer, status, thrown,
  is_ok, update_delivery,
}

-- `MAX_ATTEMPTS` of the service
abbrev pub service_max_attempts : ℕ
service_max_attempts = 5

-- `where: { status: 'PENDING', attempts: { lt: MAX_ATTEMPTS } }`, at most 50 in the order of creation
abbrev pub is_waiting : Delivery → Bool
is_waiting d = elim d.status [ pending ↦ ltb d.attempts service_max_attempts | _ ↦ false ]

abbrev pub waiting_deliveries : Tables → List Delivery
waiting_deliveries t = take 50 (find_many is_waiting t.deliveries)

-- `markFailed`
unfoldable pub mark_failed :
    (id : String) (current_attempts : ℕ) → Option ℕ → List ℕ → Tables → Tables
mark_failed id current_attempts code error t =
    let attempts = current_attempts + 1 in
    record t {
      deliveries =
          update_delivery id
            (λ d. record d {
              attempts = attempts;
              http_status = code;
              last_error = some (take 500 error);
              status = if leb service_max_attempts attempts then failed else pending;
            })
            t.deliveries;
    }

module _ (stringify : Payload → String) (hmac : String → String → String) (code_text : ℕ → List ℕ)
    (fetch : Post → Answer) (now : ℕ) where
  -- The request: the signed body and the headers.
  abbrev pub signed_request : Endpoint → Delivery → Post
  signed_request endpoint d =
      let body = stringify d.payload in
      let signature = hmac endpoint.secret body in
      record {
        url = endpoint.url;
        signature = template ("sha256=" ∷ signature ∷ []);
        event = d.event_type;
        delivery_id = d.id;
        body = body;
      }

  -- What follows the request, and by how much `delivered` grows.
  unfoldable pub after_fetch : Delivery → Answer → Tables → ℕ × Tables
  unfolding mark_failed
  after_fetch d (status code) t =
      if is_ok code
      then (
        1,
        record t {
          deliveries =
              update_delivery d.id
                (λ row. record row {
                  status = delivered;
                  http_status = some code;
                  attempts = d.attempts + 1;
                  delivered_at = some now;
                })
                t.deliveries;
        },
      )
      else (0, mark_failed d.id d.attempts (some code) (code_text code) t)
  after_fetch d (thrown error) t = (0, mark_failed d.id d.attempts none error t)

  -- The body of the loop, given the endpoint that `findFirst` returns.
  unfoldable pub deliver_to : Option Endpoint → Delivery → Tables → ℕ × Tables
  unfolding after_fetch
  deliver_to none d t = (
    0,
    record t {
      deliveries = update_delivery d.id (λ row. record row { status = cancelled }) t.deliveries;
    },
  )
  deliver_to (some endpoint) d t =
      if not endpoint.active
      then (
        0,
        record t {
          deliveries = update_delivery d.id (λ row. record row { status = cancelled }) t.deliveries;
        },
      )
      else after_fetch d (fetch (signed_request endpoint d)) t

  -- The loop of `processDeliveries`: how many were delivered, and the tables.
  unfoldable pub process_all : List Delivery → Tables → ℕ × Tables
  unfolding deliver_to
  process_all [] t = (0, t)
  process_all (d ∷ rest) t =
      let endpoint = find_first (λ e. str_eq e.id d.endpoint_id) t.endpoints in
      let (n, t') = deliver_to endpoint d t in let (m, t'') = process_all rest t' in (n + m, t'')

  unfoldable pub process_deliveries : Tables → ℕ × Tables
  unfolding process_all
  process_deliveries t = process_all (waiting_deliveries t) t
