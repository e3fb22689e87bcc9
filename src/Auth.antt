-- ===== src/Auth.antt =====
-- src/interfaces/auth/auth.service.ts and auth.controller.ts: the tokens. `compare_password` is
-- `bcrypt.compare` and `sign` is `JwtService.signAsync`, `none` where it rejects, as it does without a key.
pub mod Texts
pub mod Strategy
pub mod Session
pub mod Login
mod Tests
use node_b2b_orders.Base.{
  ℕ, ◌+◌, String, Bool, false, not, ◌&&◌, Option, none, some, List, [], ◌∷◌, map, str_eq, Result,
  ok, err, unauthorized, invalid_value, signing_failed, decimal, if◌then◌else◌,
}
use node_b2b_orders.Queries.{find_many, includes, distinct}
use node_b2b_orders.Services.{template}
use node_b2b_orders.Guards.{non_empty}
use node_b2b_orders.Auth.Texts.{sort_texts}

pub record Account : Type 0 where
  pub id : String
  pub tenant_id : Option String
  pub password_hash : String
  pub is_global_admin : Bool

pub record Tenant : Type 0 where
  pub plan : String
  pub region : String

pub record UserRole : Type 0 where
  pub user_id : String
  pub role_name : String

pub record RolePermission : Type 0 where
  pub role_name : String
  pub permission_code : String

-- The tables that the service reads: the first two by their unique keys. `is_uuid` tells whether the
-- database takes a text for an id of a tenant.
pub record Directory : Type 0 where
  pub users : String → Option Account
  pub tenants : String → Option Tenant
  pub is_uuid : String → Bool
  pub user_roles : List UserRole
  pub role_permissions : List RolePermission

pub record Claims : Type 0 where
  pub sub : String
  pub tid : String
  pub roles : List String
  pub perms : List String
  pub plan : String
  pub region : String
  pub iat : ℕ
  pub exp : ℕ
  pub jti : String
  pub email : String

pub record Issued : Type 0 where
  pub token : String
  pub expires_in : ℕ

abbrev role_of : UserRole → String
role_of r = r.role_name

abbrev code_of : RolePermission → String
code_of r = r.permission_code

unfoldable pub resolve_roles : Directory → String → List String
resolve_roles dir user_id = map role_of (find_many (λ r. str_eq r.user_id user_id) dir.user_roles)

-- The early return for no roles is the first clause.
unfoldable pub resolve_perms : Directory → List String → List String
resolve_perms dir [] = []
resolve_perms dir (role ∷ roles) = sort_texts (
    distinct
      (map code_of (find_many (λ r. includes r.role_name (role ∷ roles)) dir.role_permissions)))

-- `if (t) { plan = t.plan; region = t.region; }` over the defaults
abbrev pub or_default_tenant : Option Tenant → Tenant
or_default_tenant none = record { plan = "free"; region = "region-a" }
or_default_tenant (some t) = t

-- `if (tenantId)`, then the row
abbrev named_tenant : Directory → Option String → Option Tenant
named_tenant dir none = none
named_tenant dir (some id) = dir.tenants id

abbrev pub tenant_row : Directory → Account → (tid : String) (chosen : Option String) → Tenant
tenant_row dir user tid chosen =
    or_default_tenant
      (if user.is_global_admin then named_tenant dir (non_empty chosen) else dir.tenants tid)

-- `user.isGlobalAdmin ? '*' : user.tenantId`, `none` where the test `!tid` holds
abbrev pub tid_of : Account → Option String
tid_of user = if user.is_global_admin then some "*" else non_empty user.tenant_id

-- The payload that is signed.
abbrev pub claims :
    Directory
    → (email : String) → Account
    → (tid : String) (chosen : Option String) → (now lifetime : ℕ) → Claims
claims dir email user tid chosen now lifetime =
    let roles = resolve_roles dir user.id in
    let tenant = tenant_row dir user tid chosen in
    record {
      sub = email;
      tid = tid;
      roles = roles;
      perms = resolve_perms dir roles;
      plan = tenant.plan;
      region = tenant.region;
      iat = now;
      exp = now + lifetime;
      jti = template (user.id ∷ "." ∷ decimal now ∷ []);
      email = email;
    }

-- `findUnique` of an id that is no UUID throws. The column of an account holds UUIDs alone; what a
-- global administrator asks for is any text.
abbrev tenant_fails : Directory → Account → (chosen : Option String) → Bool
tenant_fails dir user chosen =
    user.is_global_admin
    && elim (non_empty chosen) [ none ↦ false | some id ↦ not (dir.is_uuid id) ]

module _ (compare_password : String → String → Bool) where
  -- `issueToken` up to the signature, `none` where it returns null; `lifetime` is
  -- `Number(TOKEN_EXPIRES_SECONDS || 3600)`.
  unfoldable pub token_claims :
      Directory
      → (now lifetime : ℕ) (email password : String) (chosen : Option String)
      → Result (Option Claims)
  token_claims dir now lifetime email password chosen = elim (dir.users email) [
    | none ↦ ok none
    | some user ↦
        if compare_password password user.password_hash
        then elim (tid_of user) [
          | none ↦ ok none
          | some tid ↦
              if tenant_fails dir user chosen
              then err invalid_value
              else ok (some (claims dir email user tid chosen now lifetime))
        ]
        else ok none
  ]

  module _ (sign : Claims → Option String) where
    -- The signature, and what `issueToken` returns.
    abbrev signed_token : (lifetime : ℕ) → Claims → Result (Option Issued)
    signed_token lifetime c = elim (sign c) [
      | none ↦ err signing_failed
      | some signed ↦ ok (some (record { token = signed; expires_in = lifetime }))
    ]

    unfoldable pub issue_token :
        Directory
        → (now lifetime : ℕ) (email password : String) (chosen : Option String)
        → Result (Option Issued)
    issue_token dir now lifetime email password chosen =
        elim (token_claims dir now lifetime email password chosen) [
          | err e ↦ err e
          | ok none ↦ ok none
          | ok (some c) ↦ signed_token lifetime c
        ]

    -- `AuthController.token`
    unfoldable pub token :
        Directory
        → (now lifetime : ℕ) (email password : String) (chosen : Option String) → Result Issued
    token dir now lifetime email password chosen =
        elim (issue_token dir now lifetime email password chosen) [
          | err e ↦ err e
          | ok none ↦ err (unauthorized "Invalid credentials")
          | ok (some issued) ↦ ok issued
        ]
