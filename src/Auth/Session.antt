-- ===== src/Auth/Session.antt =====
-- What a token lets its holder do: the claims of auth.service.ts as the user of the guards of
-- src/shared/auth.
use mathlib.Core.Path.{fun_ext}
use node_b2b_orders.Base.{
  ℕ, String, ◌≡◌, refl, sym, ap, ◌∙◌, subst, Bool, true, false, ◌&&◌, ◌||◌, Option, none, some,
  List, [], ◌∷◌, map, any, str_eq, arith, Bool-cases, inl, inr, ok,
}
use node_b2b_orders.Queries.{find_many}
use node_b2b_orders.Guards.{User, Request, Policy, includes, non_empty, guards}
use node_b2b_orders.Guards.Access.{Decides, policy_grants, granted, guards-granted}
use node_b2b_orders.Auth.Texts.{includes-sort_texts, includes-distinct}
use node_b2b_orders.Auth.{
  Account, Directory, Claims, Tenant, or_default_tenant, resolve_roles, resolve_perms, claims,
  token_claims,
}

-- `req.user`: what the strategy's `validate` returns, the payload of the token.
abbrev pub user_of : Claims → User
user_of c = record {
  sub = c.sub;
  tid = c.tid;
  plan = some c.plan;
  region = some c.region;
  roles = some c.roles;
  perms = some c.perms;
}

-- A row of a role of the account gives the permission.
abbrev pub has_role : Directory → Account → String → Bool
has_role dir user role =
    any (λ r. str_eq r.user_id user.id && str_eq r.role_name role) dir.user_roles

abbrev pub has_permission : Directory → Account → String → Bool
has_permission dir user permission =
    any (λ r. has_role dir user r.role_name && str_eq r.permission_code permission)
      dir.role_permissions

module _ {ℓ κ} {A : Type ℓ} {B : Type κ} where
  any-map :
      (f : A → B) (test : B → Bool) (xs : List A) → any test (map f xs) ≡ any (λ x. test (f x)) xs
  any-map f test [] = refl
  any-map f test (x ∷ xs) = ap (λ b. test (f x) || b) (any-map f test xs)

module _ {ℓ} {A : Type ℓ} where
  any-find_many :
      (kept test : A → Bool) (xs : List A)
      → any test (find_many kept xs) ≡ any (λ x. kept x && test x) xs
  any-find_many kept test [] = refl
  any-find_many kept test (x ∷ xs) = elim (Bool-cases (kept x)) [
    | inl e ↦ rw e (ap (λ b. test x || b) (any-find_many kept test xs))
    | inr e ↦ rw e (any-find_many kept test xs)
  ]

  any-cong : (f g : A → Bool) (xs : List A) → ((x : A) → f x ≡ g x) → any f xs ≡ any g xs
  any-cong f g xs h = ap (λ t. any t xs) (fun_ext h)

  any-never : (xs : List A) → any (λ x. false) xs ≡ false
  any-never [] = refl
  any-never (x ∷ xs) = any-never xs

includes-resolve_roles :
    (dir : Directory) (user : Account) (role : String)
    → includes role (resolve_roles dir user.id) ≡ has_role dir user role
unfolding resolve_roles
includes-resolve_roles dir user role =
    any-map _ (λ t. str_eq t role) (find_many (λ r. str_eq r.user_id user.id) dir.user_roles)
    ∙ any-find_many (λ r. str_eq r.user_id user.id) (λ r. str_eq r.role_name role) dir.user_roles

includes-resolve_perms :
    (dir : Directory) (roles : List String) (permission : String)
    → includes permission (resolve_perms dir roles)
      ≡ any
          (λ r. includes r.role_name roles && str_eq r.permission_code permission)
          dir.role_permissions
unfolding resolve_perms
includes-resolve_perms dir [] permission = sym (any-never dir.role_permissions)
includes-resolve_perms dir (role ∷ roles) permission =
    includes-sort_texts permission _
    ∙ includes-distinct permission _
    ∙ any-map _ (λ t. str_eq t permission) _
    ∙ any-find_many (λ r. includes r.role_name (role ∷ roles))
        (λ r. str_eq r.permission_code permission) dir.role_permissions

includes-perms :
    (dir : Directory) (user : Account) (permission : String)
    → includes permission (resolve_perms dir (resolve_roles dir user.id))
      ≡ has_permission dir user permission
includes-perms dir user permission =
    includes-resolve_perms dir (resolve_roles dir user.id) permission
    ∙ any-cong _ _ dir.role_permissions (λ r.
      ap (λ b. b && str_eq r.permission_code permission)
        (includes-resolve_roles dir user r.role_name))

-- The plan and the region of a tenant, as `issueToken` defaults them.
abbrev pub plan_and_region : Directory → String → Tenant
plan_and_region dir tid = or_default_tenant (dir.tenants tid)

module _ (normal upper : String → String) (parse_array : String → Option (List String))
    (policy : String → Option Policy) (dir : Directory) where
  -- What an account of a tenant may do for the tenant of a request.
  abbrev pub entitled :
      Account → (own : String) → (permission : String) → User → (tenant : Option String) → Bool
  entitled user own permission session none = false
  entitled user own permission session (some tenant) =
      str_eq own tenant
      && (has_permission dir user permission
          && policy_grants normal upper parse_array (policy permission) session)

  session_granted :
      (user : Account) (own permission : String) (c : Claims) (tenant : Option String)
      → str_eq own "*" ≡ false
      → c.tid ≡ own
      → includes permission c.perms ≡ has_permission dir user permission
      → granted normal upper parse_array (policy permission) permission tenant (some (user_of c))
        ≡ entitled user own permission (user_of c) tenant
  session_granted user own permission c none star tid perms = refl
  session_granted user own permission c (some tenant) star tid perms = rw (tid, star, perms) refl

module _ (compare_password : String → String → Bool) (dir : Directory) (now lifetime : ℕ)
    (email password : String) (chosen : Option String) (user : Account) (own : String)
    (found : dir.users email ≡ some user)
    (matches : compare_password password user.password_hash ≡ true)
    (tenant_only : user.is_global_admin ≡ false) (of_tenant : user.tenant_id ≡ some own)
    (named : str_eq own "" ≡ false) where
  token_claims_lem :
      token_claims compare_password dir now lifetime email password chosen
      ≡ ok (some (claims dir email user own chosen now lifetime))
  unfolding token_claims
  token_claims_lem = ground (arith, found, matches, tenant_only, of_tenant, named)

  -- The right password of an account of a tenant, which is not `*`, gives a token with the plan and the
  -- region of that tenant. With the token, a request for a permission passes the guards exactly if it
  -- names that tenant, a role of the account has the permission, and an enabled policy allows it to
  -- that plan and region; otherwise it is refused with `Forbidden` and one entry in the audit log.
  pub token-guards :
      (normal upper : String → String) (parse_array : String → Option (List String))
      (policy : String → Option Policy) (permission : String) (req : Request)
      → str_eq own "*" ≡ false
      → (c : Claims) × (token_claims compare_password dir now lifetime email password chosen
          ≡ ok (some c))
        × (c.plan ≡ (plan_and_region dir own).plan)
        × (c.region ≡ (plan_and_region dir own).region)
        × Decides
            (entitled normal upper parse_array policy dir user own permission
              (user_of c)
              (non_empty req.x_tenant_id))
            (guards normal upper parse_array policy
              (some permission)
              (record req { user = some (user_of c) }))
  token-guards normal upper parse_array policy permission req star =
      let c = claims dir email user own chosen now lifetime in
      let r : Request = record req { user = some (user_of c) } in
      (
        c,
        token_claims_lem,
        rw tenant_only refl,
        rw tenant_only refl,
        subst (λ b. Decides b (guards normal upper parse_array policy (some permission) r))
            (session_granted normal upper parse_array policy dir user own permission c
              (non_empty req.x_tenant_id) star refl (includes-perms dir user permission))
            (guards-granted normal upper parse_array policy permission r),
      )
