-- ===== src/Guards/Access.antt =====
-- Whom the guards let in.
use mathlib.Core.Path.{subst}
use node_b2b_orders.Base.{
  ℕ, String, ◌≡◌, ◌⊎◌, inl, inr, refl, ap, ◌∙◌, Bool, true, false, not, ◌&&◌, ◌||◌, Option, none,
  some, List, [], ◌∷◌, any, leb, str_eq, err, forbidden, arith, if◌then◌else◌, Option-cases,
}
use node_b2b_orders.Guards.{
  User, Request, Policy, Denial, Verdict, pass, includes, listed, is_admin, may_act, tenant_guard,
  tenant_verdict, policy_verdict, permissions_guard, plan_tier, min_tier, plan_allowed, plan_passes,
  region_passes, abac_guard, guards, non_empty, least,
}

abbrev at_most : ℕ → Option ℕ → Bool
at_most t o = elim o [ none ↦ false | some k ↦ leb k t ]

-- The plan `a` is known, and its tier is at most `t`.
abbrev pub covers : ℕ → String → Bool
covers t a = at_most t (plan_tier a)

at_most-least : (t : ℕ) (o p : Option ℕ) → at_most t (least o p) ≡ (at_most t o || at_most t p)
at_most-least t none p = refl
at_most-least t (some k) none = ground arith
at_most-least t (some k) (some m) = ground arith

min_tier-covers :
    (t : ℕ) (allowed : List String) → at_most t (min_tier allowed) ≡ any (covers t) allowed
unfolding min_tier
min_tier-covers t [] = refl
min_tier-covers t (a ∷ rest) =
    at_most-least t (plan_tier a) (min_tier rest)
    ∙ ap (λ b. covers t a || b) (min_tier-covers t rest)

-- A plan is allowed exactly if the policy lists it, or if it is a known plan and the policy lists a
-- known plan of the same or a lower tier.
pub plan_allowed-covers :
    (plan : String) (allowed : List String)
    → plan_allowed plan allowed ≡ (
        includes plan allowed
        || elim (plan_tier plan) [ none ↦ false | some t ↦ any (covers t) allowed ])
unfolding plan_allowed
plan_allowed-covers plan allowed = elim (Option-cases (plan_tier plan)) [
  | inl e ↦ rw e refl
  | inr (t, e) ↦ rw e (ap (λ b. includes plan allowed || b) (min_tier-covers t allowed))
]

-- The verdict lets in exactly if the test holds, and otherwise is `Forbidden` with one denial logged.
abbrev pub Decides : Bool → Verdict → Type 0
Decides b v =
    ((b ≡ true) × (v ≡ pass))
    ⊎ ((b ≡ false) × (why : String) × (d : Denial) × (v ≡ (err (forbidden why), d ∷ [])))

-- The header names a tenant, and the user may act for it.
abbrev pub tenant_ok : Option String → Option User → Bool
tenant_ok none user = false
tenant_ok (some tenant) none = false
tenant_ok (some tenant) (some u) = may_act u tenant

decided :
    (b : Bool) (why : String) (d : Denial)
    → Decides b (if b then pass else (err (forbidden why), d ∷ []))
decided true why d = inl (refl, refl)
decided false why d = inr (refl, why, d, refl)

unless : (a b : Bool) (v : Verdict) → Decides b v → Decides (a || b) (if a then pass else v)
unless true b v h = inl (refl, refl)
unless false b v h = h

absorb : (a b c : Bool) → ((a || b) && (a || c)) ≡ (a || (b && c))
absorb true b c = refl
absorb false b c = refl

refused :
    (b : Bool) (why : String) (d : Denial)
    → Decides b (if not b then (err (forbidden why), d ∷ []) else pass)
refused true why d = inl (refl, refl)
refused false why d = inr (refl, why, d, refl)

required_first :
    (a b : Bool) (why : String) (d : Denial) (v : Verdict)
    → Decides b v
    → Decides (a && b) (if not a then (err (forbidden why), d ∷ []) else v)
required_first true b why d v h = h
required_first false b why d v h = inr (refl, why, d, refl)

tenant_verdict-Decides :
    (req : Request) (tenant : Option String) (user : Option User)
    → Decides (tenant_ok tenant user) (tenant_verdict req tenant user)
tenant_verdict-Decides req none user = inr (refl, _, _, refl)
tenant_verdict-Decides req (some tenant) none = inr (refl, _, _, refl)
tenant_verdict-Decides req (some tenant) (some u) = decided (may_act u tenant) _ _

module _ (normal upper : String → String) (parse_array : String → Option (List String)) where
  -- The policy of the permission allows it to the user.
  abbrev pub policy_grants : Option Policy → User → Bool
  policy_grants none u = false
  policy_grants (some p) u =
      str_eq (upper p.effect) "ALLOW"
      && (plan_passes normal upper parse_array p u && region_passes normal upper parse_array p u)

  -- The rule of access, in one expression.
  abbrev pub granted : Option Policy → String → Option String → Option User → Bool
  granted policy required none user = false
  granted policy required (some tenant) none = false
  granted policy required (some tenant) (some u) =
      may_act u tenant
      && (is_admin u || (includes required (listed u.perms) && policy_grants policy u))

  abbrev user_ok : (User → Bool) → Option User → Bool
  user_ok test none = false
  user_ok test (some u) = is_admin u || test u

  permissions_guard-Decides :
      (required : String) (req : Request) (user : Option User)
      → Decides
          (user_ok (λ u. includes required (listed u.perms)) user)
          (permissions_guard (some required) (record req { user = user }))
  unfolding permissions_guard
  permissions_guard-Decides required req none = inr (refl, _, _, refl)
  permissions_guard-Decides required req (some u) =
      unless (is_admin u) (includes required (listed u.perms)) _
        (decided (includes required (listed u.perms)) _ _)

  policy_verdict-Decides :
      (required : String) (req : Request) (u : User) (p : Option Policy)
      → Decides (policy_grants p u) (policy_verdict normal upper parse_array required req u p)
  unfolding policy_verdict
  policy_verdict-Decides required req u none = inr (refl, _, _, refl)
  policy_verdict-Decides required req u (some p) =
      required_first (str_eq (upper p.effect) "ALLOW") _ _ _ _ (
        required_first (plan_passes normal upper parse_array p u) _ _ _ _
          (refused (region_passes normal upper parse_array p u) _ _))

  abac_guard-Decides :
      (policy : String → Option Policy) (required : String) (req : Request) (user : Option User)
      → Decides
          (user_ok (policy_grants (policy required)) user)
          (abac_guard normal upper parse_array policy (some required) (record req { user = user }))
  unfolding abac_guard
  abac_guard-Decides policy required req none = inr (refl, _, _, refl)
  abac_guard-Decides policy required req (some u) =
      unless (is_admin u) (policy_grants (policy required) u) _
        (policy_verdict-Decides required (record req { user = some u }) u (policy required))

  guards-of :
      (policy : String → Option Policy) (required : String) (req : Request) (a b c : Bool)
      → Decides a (tenant_guard req)
      → Decides b (permissions_guard (some required) req)
      → Decides c (abac_guard normal upper parse_array policy (some required) req)
      → Decides (a && (b && c)) (guards normal upper parse_array policy (some required) req)
  unfolding guards
  guards-of policy required req a b c h k l = ground arith

  granted_lem :
      (p : Option Policy) (required : String) (tenant : Option String) (user : Option User)
      → (tenant_ok tenant user
          && (user_ok (λ u. includes required (listed u.perms)) user
              && user_ok (policy_grants p) user))
        ≡ granted p required tenant user
  granted_lem p required none user = refl
  granted_lem p required (some tenant) none = refl
  granted_lem p required (some tenant) (some u) =
      ap (λ b. may_act u tenant && b)
        (absorb (is_admin u) (includes required (listed u.perms)) (policy_grants p u))

  -- A request for a permission passes the guards, with nothing logged, exactly if it names a tenant
  -- for which its user may act, and the user is an administrator of all tenants or has the permission
  -- and an enabled policy that allows it to the user's plan and region. Otherwise it is refused with
  -- `Forbidden` and one entry in the audit log.
  pub guards-granted :
      (policy : String → Option Policy) (required : String) (req : Request)
      → Decides
          (granted (policy required) required (non_empty req.x_tenant_id) req.user)
          (guards normal upper parse_array policy (some required) req)
  unfolding tenant_guard
  guards-granted policy required req =
      subst (λ b. Decides b (guards normal upper parse_array policy (some required) req))
        (granted_lem (policy required) required (non_empty req.x_tenant_id) req.user)
        (guards-of policy required req _ _ _
          (tenant_verdict-Decides req (non_empty req.x_tenant_id) req.user)
          (permissions_guard-Decides required req req.user)
          (abac_guard-Decides policy required req req.user))
