-- ===== src/Gate/Tests.antt =====
-- Paths, and two requests with one bucket of one token.
use node_b2b_orders.Base.{◌≡◌, refl, true, false, none, some, []}
use node_b2b_orders.RateLimit.{consume_rate_limit, take_token, refilled, live}
use node_b2b_orders.Maps.{get, set}
use node_b2b_orders.Gate.{
  is_probe_or_public_path, ChaosConfig, absent, Incoming, Passage, on_request, passed,
  too_many_requests,
}

probe_path : is_probe_or_public_path "/v1/healthz/live" ≡ true
unfolding is_probe_or_public_path
probe_path = refl

other_path : is_probe_or_public_path "/v1/healthzz" ≡ false
unfolding is_probe_or_public_path
other_path = refl

abbrev calm : ChaosConfig
calm = record { enabled = false; fail_percent = 0; latency_ms = 0 }

abbrev request : Incoming
request = record {
  correlation_id = none;
  tenant_id = some "acme";
  sub = none;
  path = "/v1/orders";
  method = "GET";
}

abbrev first : Passage
unfolding on_request
first = on_request 1 1 calm (λ t. absent) "c1" 0 1000 [] request

abbrev second : Passage
unfolding on_request
second = on_request 1 1 calm (λ t. absent) "c2" 0 1001 first.buckets request

first_passes : first.reply ≡ passed
unfolding on_request is_probe_or_public_path get set consume_rate_limit take_token refilled live
first_passes = refl

second_is_limited :
    second.reply
    ≡ too_many_requests
        (record { allowed = false; remaining = 0; retry_after_seconds = 1; limit = 1 })
unfolding on_request is_probe_or_public_path get set consume_rate_limit take_token refilled live
second_is_limited = refl
