-- ===== src/Gate.antt =====
-- The `onRequest` hook of src/main.ts and `getChaosConfig` of src/infrastructure/redis: what happens to
-- a request before its route. The subject of the token, which is decoded but not verified, the random
-- number, the new correlation id and the path without its query are given with the request.
mod Tests
pub mod Limits
use node_b2b_orders.Base.{
  ℕ, ◌*◌, ◌%◌, String, Bool, true, false, ◌&&◌, ◌||◌, Option, none, some, List, [], ◌∷◌, any, ltb,
  str_eq, starts_with, if◌then◌else◌,
}
use node_b2b_orders.Queries.{includes}
use node_b2b_orders.Maps.{get, set, or_default}
use node_b2b_orders.Services.{template}
use node_b2b_orders.RateLimit.{Bucket, RateLimitDecision, Group, read, write, consume_rate_limit}

abbrev pub probe_and_public_docs : List String
probe_and_public_docs =
    "/docs" ∷ "/metrics" ∷ "/healthz" ∷ "/readyz" ∷ "/openapi" ∷ "/v1/docs" ∷ "/v1/metrics"
    ∷ "/v1/healthz" ∷ "/v1/readyz" ∷ "/v1/openapi" ∷ []

unfoldable pub is_probe_or_public_path : String → Bool
is_probe_or_public_path path =
    any (λ p. str_eq path p || starts_with path (template (p ∷ "/" ∷ []))) probe_and_public_docs

pub record ChaosConfig : Type 0 where
  pub enabled : Bool
  pub fail_percent : ℕ
  pub latency_ms : ℕ

-- What Redis has under `chaos:<tenant>`: nothing, a text that does not parse, or fields.
pub data StoredChaos : Type 0 where
  absent unreadable : StoredChaos
  overrides : (enabled : Option Bool) (fail_percent latency_ms : Option ℕ) → StoredChaos

unfoldable pub get_chaos_config : (base : ChaosConfig) → StoredChaos → ChaosConfig
get_chaos_config base (overrides enabled fail latency) = record {
  enabled = or_default base.enabled enabled;
  fail_percent = or_default base.fail_percent fail;
  latency_ms = or_default base.latency_ms latency;
}
get_chaos_config base _ = base

pub record Incoming : Type 0 where
  pub correlation_id : Option String
  pub tenant_id : Option String
  pub sub : Option String
  pub path : String
  pub method : String

-- `value || fallback`
abbrev pub or_else_text : String → Option String → String
or_else_text fallback none = fallback
or_else_text fallback (some s) = if str_eq s "" then fallback else s

abbrev pub group_of : (method : String) → Group
group_of method = if includes method ("POST" ∷ "PUT" ∷ "PATCH" ∷ "DELETE" ∷ []) then write else read

abbrev group_text : Group → String
group_text read = "read"
group_text write = "write"

abbrev pub bucket_key : Incoming → String
bucket_key req = template (
    "ratelimit:"
    ∷ or_else_text "public" req.tenant_id
    ∷ ":"
    ∷ or_else_text "anonymous" req.sub
    ∷ ":"
    ∷ group_text (group_of req.method)
    ∷ [])

-- How the hook answers, if it does: 503, or 429 with its headers; `passed` goes on to the route.
pub data Reply : Type 0 where
  passed chaos_failure : Reply
  too_many_requests : RateLimitDecision → Reply

pub record Passage : Type 0 where
  pub correlation_id : String
  pub waited_ms : ℕ
  pub reply : Reply
  pub buckets : List (String × Bucket)

abbrev pub limited :
    (correlation : String) (waited : ℕ) (key : String)
    → List (String × Bucket)
    → RateLimitDecision × Bucket
    → Passage
limited correlation waited key buckets (decision, bucket) = record {
  correlation_id = correlation;
  waited_ms = waited;
  reply = if decision.allowed then passed else too_many_requests decision;
  buckets = set key bucket buckets;
}

abbrev pub unlimited :
    (correlation : String) (waited : ℕ) → Reply → List (String × Bucket) → Passage
unlimited correlation waited reply buckets = record {
  correlation_id = correlation;
  waited_ms = waited;
  reply = reply;
  buckets = buckets;
}

-- `random` is `Math.floor(Math.random() * 100)`; `method` of the request is in upper case.
unfoldable pub on_request :
    (read_limit write_limit : ℕ) (base : ChaosConfig) (chaos_of : String → StoredChaos)
    (new_id : String) (random now : ℕ)
    → List (String × Bucket)
    → Incoming
    → Passage
unfolding is_probe_or_public_path get_chaos_config get set consume_rate_limit
on_request read_limit write_limit base chaos_of new_id random now buckets req =
    let correlation = or_else_text new_id req.correlation_id in
    let chaos = get_chaos_config base (chaos_of (or_else_text "public" req.tenant_id)) in
    let waited = if chaos.enabled then chaos.latency_ms else 0 in
    let key = bucket_key req in
    let through =
      limited correlation waited key buckets
        (consume_rate_limit read_limit write_limit (group_of req.method) now (get key buckets)) in
    if is_probe_or_public_path req.path
    then unlimited correlation 0 passed buckets
    else if chaos.enabled && ltb random chaos.fail_percent
    then unlimited correlation waited chaos_failure buckets
    else through
