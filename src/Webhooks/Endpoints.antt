-- ===== src/Webhooks/Endpoints.antt =====
-- The operations of `WebhooksService` on the endpoints of a tenant; the secret is not given back. The
-- database deletes the deliveries of a deleted endpoint (`onDelete: Cascade`).
pub mod Removal
use node_b2b_orders.Base.{
  ℕ, String, Bool, true, false, not, ◌&&◌, Option, none, some, List, [], ◌∷◌, ◌++◌, map, take,
  str_eq, Result, Error, ok, err, not_found,
}
use node_b2b_orders.Queries.{find_many, find_first, newest_first}
use node_b2b_orders.Webhooks.{Endpoint, Delivery, DeliveryStatus, Tables}

pub record EndpointResponse : Type 0 where
  pub id : String
  pub url : String
  pub events : List String
  pub active : Bool

pub record DeliveryResponse : Type 0 where
  pub id : String
  pub event_type : String
  pub status : DeliveryStatus
  pub http_status : Option ℕ
  pub attempts : ℕ
  pub last_error : Option (List ℕ)
  pub delivered_at : Option ℕ

abbrev pub to_endpoint_response : Endpoint → EndpointResponse
to_endpoint_response ep = record {
  id = ep.id;
  url = ep.url;
  events = ep.events;
  active = ep.active;
}

abbrev pub to_delivery_response : Delivery → DeliveryResponse
to_delivery_response d = record {
  id = d.id;
  event_type = d.event_type;
  status = d.status;
  http_status = d.http_status;
  attempts = d.attempts;
  last_error = d.last_error;
  delivered_at = d.delivered_at;
}

-- `new_id` is the database's default.
unfoldable pub register_endpoint :
    (new_id tenant url : String)
    → List String
    → (secret : String) → Tables
    → EndpointResponse × Tables
register_endpoint new_id tenant url events secret t =
    let ep : Endpoint = record {
      id = new_id;
      tenant_id = tenant;
      url = url;
      events = events;
      secret = secret;
      active = true;
    } in
    (to_endpoint_response ep, record t { endpoints = t.endpoints ++ ep ∷ [] })

unfoldable pub list_endpoints : (tenant : String) → Tables → List EndpointResponse
list_endpoints tenant t =
    map to_endpoint_response
      (newest_first (find_many (λ ep. str_eq ep.tenant_id tenant) t.endpoints))

-- `where: { id, tenantId }`
abbrev pub owned : (id tenant : String) → Endpoint → Bool
owned id tenant ep = str_eq ep.id id && str_eq ep.tenant_id tenant

abbrev pub endpoint_missing : Error
endpoint_missing = not_found "webhook endpoint not found"

unfoldable pub delete_endpoint : (id tenant : String) → Tables → Result (Unit {0}) × Tables
delete_endpoint id tenant t = elim (find_first (owned id tenant) t.endpoints) [
  | none ↦ (err endpoint_missing, t)
  | some ep ↦ (
    ok tt,
    record {
      endpoints = find_many (λ e. not (str_eq e.id id)) t.endpoints;
      deliveries = find_many (λ d. not (str_eq d.endpoint_id id)) t.deliveries;
    },
  )
]

unfoldable pub list_deliveries : (id tenant : String) → Tables → Result (List DeliveryResponse)
list_deliveries id tenant t = elim (find_first (owned id tenant) t.endpoints) [
  | none ↦ err endpoint_missing
  | some ep ↦ ok (
      map to_delivery_response
        (take 100 (newest_first (find_many (λ d. str_eq d.endpoint_id id) t.deliveries))))
]
