-- ===== src/Guards/Tests.antt =====
-- The rule of access at concrete requests.
use node_b2b_orders.Base.{String, true, Option, none, some, List, [], ◌∷◌}
use node_b2b_orders.Guards.{User, Request, Policy, guards}
use node_b2b_orders.Guards.Access.{guards-granted, Decides}

abbrev pub user : User
user = record {
  sub = "ann";
  tid = "acme";
  plan = some "pro";
  region = none;
  roles = none;
  perms = some ("orders:write" ∷ []);
}

abbrev pub request : Request
request = record {
  x_tenant_id = some "acme";
  tenant_id = some "acme";
  correlation_id = none;
  method = "POST";
  url = "/v1/orders";
  user = some user;
}

-- A policy that allows any plan and region.
abbrev pub policy : String → Option Policy
policy permission = some (record { effect = "ALLOW"; allowed_plans = ""; allowed_regions = "" })

abbrev pub same : String → String
same s = s

abbrev pub none_parsed : String → Option (List String)
none_parsed s = none

guards-granted_example :
    Decides true (guards same same none_parsed policy (some "orders:write") request)
guards-granted_example = guards-granted same same none_parsed policy "orders:write" request
