-- ===== src/CircuitBreaker/Tests.antt =====
-- A breaker of the worker in a registry.
use node_b2b_orders.Base.{String, ◌≡◌, refl, none, some, []}
use node_b2b_orders.CircuitBreaker.{Registry, Options, Overrides, options}

-- A breaker of the tests is its options.
abbrev make : String → Options → Options
make action o = o

abbrev overrides : Overrides
overrides = record {
  timeout = some 3000;
  error_threshold_percentage = none;
  reset_timeout = none;
  rolling_count_timeout = none;
  rolling_count_buckets = none;
  volume_threshold = none;
}

abbrev registry : Registry Options
registry = record { breakers = []; metrics = record { counts = []; state = [] } }

overridden : (options "publish" overrides).timeout ≡ 3000
unfolding options
overridden = refl

defaulted : (options "publish" overrides).volume_threshold ≡ 5
unfolding options
defaulted = refl
