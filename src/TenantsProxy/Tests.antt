-- ===== src/TenantsProxy/Tests.antt =====
-- A request that goes on to the Core service.
use node_b2b_orders.Base.{String, ◌≡◌, refl, Option, none, some, str_eq, if◌then◌else◌}
use node_b2b_orders.Maps.{get}
use node_b2b_orders.TenantsProxy.{
  Incoming, HeaderValue, one, outgoing_headers, target_url, sub_path, without_slash, path_of,
  query_of,
}
use node_b2b_orders.TenantsProxy.Relay.{forwarded, get-outgoing_headers}

abbrev given : String → Option HeaderValue
given name =
    if str_eq name "authorization"
    then some (one "Bearer t")
    else if str_eq name "cookie"
    then some (one "secret")
    else none

abbrev request : Incoming String
request = record {
  url = some "/v1/tenants/t1/users?page=2";
  method = some "GET";
  headers = given;
  correlation_id = some "c1";
  body = none;
}

get-outgoing_headers_example : get "cookie" (outgoing_headers request) ≡ forwarded request "cookie"
get-outgoing_headers_example = get-outgoing_headers request "cookie"

url_runs :
    target_url "http://core/" (sub_path request.url) request.url
    ≡ "http://core/v1/tenants/t1/users?page=2"
unfolding target_url sub_path without_slash path_of query_of
url_runs = refl
