-- ===== src/Guards.antt =====
-- The three guards of a request: src/shared/auth/tenant.guard.ts, permissions.guard.ts and
-- abac.guard.ts. A guard returns, or throws `ForbiddenException`, and gives the entries it adds to the
-- audit log. `normal` is `trim().toLowerCase()`, `upper` is `toUpperCase()` and `parse_array` the
-- `JSON.parse` of a column that holds an array, `none` where it throws or is no array.
pub mod Tests
pub mod Access
use node_b2b_orders.Base.{
  ℕ, String, Bool, true, false, not, ◌&&◌, ◌||◌, Option, none, some, List, [], ◌∷◌, ◌++◌, map, any,
  min, leb, str_eq, Error, Result, ok, err, forbidden, if◌then◌else◌,
}
use node_b2b_orders.Services.{template}

-- `JwtPayload`; a field that the token may lack is an `Option`.
pub record User : Type 0 where
  pub sub : String
  pub tid : String
  pub plan : Option String
  pub region : Option String
  pub roles : Option (List String)
  pub perms : Option (List String)

-- What the guards read of a request; `x_tenant_id` is the header.
pub record Request : Type 0 where
  pub x_tenant_id : Option String
  pub tenant_id : Option String
  pub correlation_id : Option String
  pub method : String
  pub url : String
  pub user : Option User

-- The columns of a policy that `AbacGuard` reads.
pub record Policy : Type 0 where
  pub effect : String
  pub allowed_plans : String
  pub allowed_regions : String

-- An entry of the audit log with `action: 'access_denied'`.
pub record Denial : Type 0 where
  pub tenant_id : Option String
  pub actor_sub : String
  pub target : String
  pub guard : String
  pub permission : Option String
  pub reason : String
  pub message : String
  pub correlation_id : String

-- What a guard does: it returns `true` or throws, and logs.
abbrev pub Verdict : Type 0
Verdict = Result (Unit {0}) × List Denial

abbrev pub pass : Verdict
pass = (ok tt, [])

abbrev pub non_empty : Option String → Option String
non_empty none = none
non_empty (some s) = if str_eq s "" then none else some s

abbrev or_text : Option String → String → String
or_text none d = d
or_text (some s) d = s

abbrev sub_of : Option User → Option String
sub_of none = none
sub_of (some u) = non_empty (some u.sub)

-- `logDenied`, then the throw, whose message may differ from the logged one.
abbrev pub deny : Request → String → Option String → (reason logged thrown : String) → Verdict
deny req guard permission reason logged thrown = (
  err (forbidden thrown),
  record {
    tenant_id = non_empty req.tenant_id;
    actor_sub = or_text (sub_of req.user) "unknown";
    target = template (req.method ∷ " " ∷ req.url ∷ []);
    guard = guard;
    permission = permission;
    reason = reason;
    message = logged;
    correlation_id = or_text req.correlation_id "";
  }
      ∷ [],
)

-- `list.includes(s)`
abbrev pub includes : String → List String → Bool
includes s l = any (λ t. str_eq t s) l

abbrev pub listed : Option (List String) → List String
listed none = []
listed (some l) = l

-- `user.tid === '*' && (user.roles || []).includes('admin')`
abbrev pub is_admin : User → Bool
is_admin u = str_eq u.tid "*" && includes "admin" (listed u.roles)

-- The tenant's test: `user.tid !== '*' && user.tid !== tenantId`, negated.
abbrev pub may_act : User → String → Bool
may_act u tenant = str_eq u.tid "*" || str_eq u.tid tenant

-- `TenantGuard.canActivate`, on the tenant of the header and the user.
abbrev pub tenant_verdict : Request → Option String → Option User → Verdict
tenant_verdict req none user =
    deny req "TenantGuard" none "missing_tenant_id" "Missing X-Tenant-Id" "Missing X-Tenant-Id"
tenant_verdict req (some tenant) none =
    deny req "TenantGuard" none "missing_user" "Missing user" "Missing user"
tenant_verdict req (some tenant) (some u) =
    if may_act u tenant
    then pass
    else deny req "TenantGuard" none "tenant_mismatch"
        (template ("Token tid=" ∷ u.tid ∷ " vs header=" ∷ tenant ∷ [])) "Tenant mismatch"

unfoldable pub tenant_guard : Request → Verdict
tenant_guard req = tenant_verdict req (non_empty req.x_tenant_id) req.user

-- `PermissionsGuard.canActivate`; `required` is the permission of the handler or of its class, `none`
-- where both have none (or an empty one).
unfoldable pub permissions_guard : Option String → Request → Verdict
permissions_guard none req = pass
permissions_guard (some required) req = elim req.user [
  | none ↦ deny req "PermissionsGuard" (some required) "missing_user" "Missing user" "Missing user"
  | some u ↦
      if is_admin u
      then pass
      else if includes required (listed u.perms)
      then pass
      else deny req "PermissionsGuard" (some required) "missing_permission"
          (template ("Missing permission: " ∷ required ∷ []))
          (template ("Missing permission: " ∷ required ∷ []))
]

-- `PLAN_TIER`
unfoldable pub plan_tier : String → Option ℕ
plan_tier plan =
    if str_eq plan "free"
    then some 0
    else if str_eq plan "starter"
    then some 1
    else if str_eq plan "pro"
    then some 2
    else if str_eq plan "enterprise"
    then some 3
    else none

abbrev pub least : Option ℕ → Option ℕ → Option ℕ
least none o = o
least (some t) none = some t
least (some t) (some m) = some (min t m)

-- `Math.min` over the tiers of the allowed plans that have one; `none` where there is none.
unfoldable pub min_tier : List String → Option ℕ
min_tier [] = none
min_tier (a ∷ rest) = least (plan_tier a) (min_tier rest)

unfoldable pub plan_allowed : String → List String → Bool
unfolding min_tier
plan_allowed plan allowed = includes plan allowed || elim (plan_tier plan) [
  | none ↦ false
  | some user_tier ↦ elim (min_tier allowed) [ none ↦ false | some m ↦ leb m user_tier ]
]

abbrev is_nil : List String → Bool
is_nil [] = true
is_nil _ = false

module _ (normal upper : String → String) (parse_array : String → Option (List String)) where
  -- `normalizeJwtPlan` and `normalizeJwtRegion`
  unfoldable pub normalize_plan : Option String → String
  normalize_plan raw =
      let p = normal (or_text raw "") in
      if str_eq p "" then "free" else if str_eq p "professional" then "pro" else p

  unfoldable pub normalize_region : Option String → String
  normalize_region raw =
      let r = normal (or_text raw "") in
      if str_eq r "" then "region-a" else if str_eq r "us-east-1" then "region-a" else r

  -- `parseJsonArray(value).map(p => String(p).trim().toLowerCase())`
  abbrev pub allowed_list : String → List String
  allowed_list value =
      if str_eq value "" then [] else elim (parse_array value) [ none ↦ [] | some l ↦ map normal l ]

  abbrev pub plan_passes : Policy → User → Bool
  plan_passes p u =
      let plans = allowed_list p.allowed_plans in
      is_nil plans || plan_allowed (normalize_plan u.plan) plans

  abbrev pub region_passes : Policy → User → Bool
  region_passes p u =
      let regions = allowed_list p.allowed_regions in
      is_nil regions || includes (normalize_region u.region) regions

  -- `AbacGuard.canActivate` from the policy that it found on, for a user who is no administrator.
  unfoldable pub policy_verdict : String → Request → User → Option Policy → Verdict
  policy_verdict required req u none =
      deny req "AbacGuard" (some required) "no_policy" "No policy for permission"
        "No policy for permission"
  policy_verdict required req u (some p) =
      if not (str_eq (upper p.effect) "ALLOW")
      then deny req "AbacGuard" (some required) "policy_deny"
          (template ("Policy effect: " ∷ p.effect ∷ [])) "Policy denies"
      else if not (plan_passes p u)
      then deny req "AbacGuard" (some required) "plan_not_allowed"
          (template ("Plan '" ∷ normalize_plan u.plan ∷ "' not allowed" ∷ []))
          (template ("Plan '" ∷ normalize_plan u.plan ∷ "' not allowed" ∷ []))
      else if not (region_passes p u)
      then deny req "AbacGuard" (some required) "region_not_allowed"
          (template ("Region '" ∷ normalize_region u.region ∷ "' not allowed" ∷ []))
          (template ("Region '" ∷ normalize_region u.region ∷ "' not allowed" ∷ []))
      else pass

  -- `AbacGuard.canActivate`; `policy` finds the enabled policy of a permission.
  unfoldable pub abac_guard : (String → Option Policy) → Option String → Request → Verdict
  unfolding policy_verdict
  abac_guard policy none req = pass
  abac_guard policy (some required) req = elim req.user [
    | none ↦ deny req "AbacGuard" (some required) "missing_user" "Missing user" "Missing user"
    | some u ↦ if is_admin u then pass else policy_verdict required req u (policy required)
  ]

  -- The guards of a controller behind `JwtAuthGuard`, in their order: `@UseGuards(JwtAuthGuard,
  -- TenantGuard, PermissionsGuard, AbacGuard)`; the first that throws ends the request.
  unfoldable pub guards : (String → Option Policy) → Option String → Request → Verdict
  guards policy required req =
      let (r, log) = tenant_guard req in
      elim r [
        | err e ↦ (err e, log)
        | ok _ ↦
            let (r', log') = permissions_guard required req in
            elim r' [
              | err e ↦ (err e, log ++ log')
              | ok _ ↦
                  let (r'', log'') = abac_guard policy required req in (r'', log ++ log' ++ log'')
            ]
      ]
