-- ===== src/Auth/Tests.antt =====
-- The tokens at concrete accounts and configurations.
use node_b2b_orders.Base.{
  String, ◌≡◌, refl, Bool, true, false, Option, none, some, List, [], ◌∷◌, str_eq, ok,
}
use node_b2b_orders.Guards.{Request, Policy, guards}
use node_b2b_orders.Guards.Access.{Decides}
use node_b2b_orders.Auth.{Account, Directory, Claims, token_claims, token}
use node_b2b_orders.Auth.Strategy.{Environment, answer, configure, configure-rule}
use node_b2b_orders.Auth.Login.{LoginOutcome, token_lem}
use node_b2b_orders.Auth.Session.{user_of, entitled, plan_and_region, token-guards}

abbrev accounts : String → Option Account
accounts email = elim (str_eq email "ops@acme.com") [
  | true ↦ some (record {
    id = "u1";
    tenant_id = some "acme";
    password_hash = "#secret";
    is_global_admin = false;
  })
  | false ↦ none
]

abbrev ann : Account
ann = record {
  id = "u1";
  tenant_id = some "acme";
  password_hash = "#secret";
  is_global_admin = false;
}

abbrev directory : Directory
directory = record {
  users = accounts;
  tenants = λ id. some (record { plan = "pro"; region = "region-a" });
  is_uuid = λ id. str_eq id "acme";
  user_roles = record { user_id = "u1"; role_name = "ops" } ∷ [];
  role_permissions =
      record { role_name = "ops"; permission_code = "orders:write" }
      ∷ record { role_name = "ops"; permission_code = "orders:read" }
      ∷ [];
}

abbrev compare_password : String → String → Bool
compare_password password hash = str_eq password "secret"

abbrev sign : Claims → Option String
sign c = some c.jti

abbrev same : String → String
same s = s

abbrev none_parsed : String → Option (List String)
none_parsed s = none

abbrev policy : String → Option Policy
policy permission = some (record { effect = "ALLOW"; allowed_plans = ""; allowed_regions = "" })

abbrev request : Request
request = record {
  x_tenant_id = some "acme";
  tenant_id = some "acme";
  correlation_id = none;
  method = "POST";
  url = "/v1/orders";
  user = none;
}

token-guards_example :
    (c : Claims) × (token_claims compare_password directory 100 3600 "ops@acme.com" "secret" none
      ≡ ok (some c))
    × (c.plan ≡ (plan_and_region directory "acme").plan)
    × (c.region ≡ (plan_and_region directory "acme").region)
    × Decides
        (entitled same same none_parsed policy directory ann "acme" "orders:write"
          (user_of c)
          (some "acme"))
        (guards same same none_parsed policy
          (some "orders:write")
          (record request { user = some (user_of c) }))
token-guards_example =
    token-guards compare_password directory 100 3600 "ops@acme.com" "secret" none ann "acme" refl
      refl refl refl refl same same none_parsed policy "orders:write" request refl

token_lem_example :
    LoginOutcome compare_password sign directory 100 3600 "ops@acme.com" "secret" none
      (token compare_password sign directory 100 3600 "ops@acme.com" "secret" none)
token_lem_example = token_lem compare_password sign directory 100 3600 "ops@acme.com" "secret" none

-- A rotation: the new secret is current, and the old one is accepted too.
abbrev environment : Environment
environment = record {
  jwks_uri = none;
  jwt_public_key = none;
  jwt_algorithm = none;
  jwt_secret = some "new";
  jwt_secret_previous = some "old";
  jwt_issuer = none;
}

-- A token of the tests is the secret under which it was signed.
abbrev verify : (token key algorithm issuer : String) → Bool
verify signed key algorithm issuer = str_eq signed key

abbrev no_keys : (uri token : String) → Option String
no_keys uri signed = none

configure-rule_example : answer verify no_keys (configure same environment) "old" ≡ some true
configure-rule_example = configure-rule verify no_keys same environment "old"
