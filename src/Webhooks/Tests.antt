-- ===== src/Webhooks/Tests.antt =====
-- Rounds over concrete deliveries.
use node_b2b_orders.Base.{length, ℕ, String, ◌≡◌, true, false, none, List, [], ◌∷◌, All, arith}
use node_b2b_orders.Queries.{find_many}
use node_b2b_orders.Schema.{Payload, plain}
use node_b2b_orders.Webhooks.{
  pending_deliveries, Delivery, Tables, Post, Answer, status, pending, dispatch_round,
}
use node_b2b_orders.Webhooks.Service.{process_deliveries}
use node_b2b_orders.Webhooks.Agreement.{is_taken, process_deliveries-dispatch_round}
use node_b2b_orders.Webhooks.Deliveries.{IsSound, dispatch_round-IsSound}

abbrev payload : Payload
payload = record { order_id = "o1"; tenant_id = "acme"; correlation_id = "x"; detail = plain }

abbrev delivery : Delivery
delivery = record {
  id = "d1";
  endpoint_id = "p1";
  event_type = "order.created";
  payload = payload;
  status = pending;
  http_status = none;
  attempts = 4;
  last_error = none;
  delivered_at = none;
}

abbrev tables : Tables
tables = record {
  endpoints =
      record {
        id = "p1";
        tenant_id = "acme";
        url = "https://acme.test/hook";
        events = "order.created" ∷ [];
        secret = "s";
        active = true;
      }
      ∷ [];
  deliveries = delivery ∷ [];
}

abbrev stringify : Payload → String
stringify p = "{}"

abbrev hmac : String → String → String
hmac secret body = "00"

abbrev code_text : ℕ → List ℕ
code_text code = code ∷ []

abbrev fetch : Post → Answer
fetch post = status 503

process_deliveries-dispatch_round_example :
    let (n, t') = process_deliveries stringify hmac code_text fetch 9 tables in
    (t' ≡ dispatch_round stringify hmac code_text fetch 9 [] tables)
    × (n
        ≡ length (
            find_many
              (is_taken stringify hmac code_text fetch 9 tables.endpoints)
              (pending_deliveries tables)))
process_deliveries-dispatch_round_example =
    process_deliveries-dispatch_round stringify hmac code_text fetch 9 tables

dispatch_round-IsSound_example :
    All IsSound
      (dispatch_round stringify hmac code_text fetch 9 (false ∷ true ∷ []) tables).deliveries
dispatch_round-IsSound_example =
    dispatch_round-IsSound stringify hmac code_text fetch 9 (false ∷ true ∷ []) tables
      (omega arith, tt)
