-- ===== src/CircuitBreaker.antt =====
-- src/infrastructure/circuit-breaker: the options of a breaker, its metrics and the registry. The
-- breaker itself is the package opossum: `make` is `new CircuitBreaker(action, options)`, and the events that it emits are an input.
pub mod Gauge
mod Tests
use node_b2b_orders.Base.{ℕ, String, Option, none, some, List, [], ◌∷◌, ◌++◌, map}
use node_b2b_orders.Maps.{get, set, or_default}

pub data State : Type 0 where
  closed half_open opened : State

-- `STATE_MAP`
unfoldable pub state_code : State → ℕ
state_code closed = 0
state_code half_open = 1
state_code opened = 2

-- The counters of `BreakerMetrics`.
pub data Counter : Type 0 where
  fires successes failures rejects timeouts fallbacks : Counter

-- The events that a breaker emits: one that is counted, or a change of state.
pub data BreakerEvent : Type 0 where
  counted : Counter → BreakerEvent
  entered : State → BreakerEvent

-- `counts` has an entry for each increment of a counter, with the label; `state` is the gauge by label.
pub record BreakerMetrics : Type 0 where
  pub counts : List (Counter × String)
  pub state : List (String × ℕ)

pub record Options : Type 0 where
  pub timeout : ℕ
  pub error_threshold_percentage : ℕ
  pub reset_timeout : ℕ
  pub rolling_count_timeout : ℕ
  pub rolling_count_buckets : ℕ
  pub volume_threshold : ℕ
  pub name : String

-- `Partial<CircuitBreakerOptions>`
pub record Overrides : Type 0 where
  pub timeout : Option ℕ
  pub error_threshold_percentage : Option ℕ
  pub reset_timeout : Option ℕ
  pub rolling_count_timeout : Option ℕ
  pub rolling_count_buckets : Option ℕ
  pub volume_threshold : Option ℕ

-- `{ ...DEFAULT_OPTIONS, ...overrides, name }`
unfoldable pub options : (name : String) → Overrides → Options
options name o = record {
  timeout = or_default 5000 o.timeout;
  error_threshold_percentage = or_default 50 o.error_threshold_percentage;
  reset_timeout = or_default 30000 o.reset_timeout;
  rolling_count_timeout = or_default 10000 o.rolling_count_timeout;
  rolling_count_buckets = or_default 10 o.rolling_count_buckets;
  volume_threshold = or_default 5 o.volume_threshold;
  name = name;
}

abbrev set_state : String → State → BreakerMetrics → BreakerMetrics
set_state name s m = record m { state = set name (state_code s) m.state }

-- The callbacks of `breaker.on`.
unfoldable pub on_event : String → BreakerEvent → BreakerMetrics → BreakerMetrics
unfolding state_code
on_event name (counted counter) m = record m { counts = m.counts ++ (counter, name) ∷ [] }
on_event name (entered s) m = set_state name s m

-- `CircuitBreakerService`: its map, and the metrics of the process
pub record Registry (Breaker : Type 0) : Type 0 where
  pub breakers : List (String × Breaker)
  pub metrics : BreakerMetrics

module _ {Action Breaker : Type 0} (make : Action → Options → Breaker) where
  -- `createCircuitBreaker`
  unfoldable pub create_circuit_breaker :
      (name : String) → Action → Overrides → BreakerMetrics → Breaker × BreakerMetrics
  unfolding options state_code
  create_circuit_breaker name action overrides m =
      (make action (options name overrides), set_state name closed m)

  -- `create`
  unfoldable pub create :
      (name : String) → Action → Overrides → Registry Breaker → Breaker × Registry Breaker
  unfolding create_circuit_breaker get set
  create name action overrides r = elim (get name r.breakers) [
    | some existing ↦ (existing, r)
    | none ↦
        let (breaker, metrics) = create_circuit_breaker name action overrides r.metrics in
        (breaker, record { breakers = set name breaker r.breakers; metrics = metrics })
  ]

abbrev breaker_of : {Breaker : Type 0} → String × Breaker → Breaker
breaker_of (name, breaker) = breaker

module _ {Breaker : Type 0} where
  -- `get`
  unfoldable pub find_breaker : (name : String) → Registry Breaker → Option Breaker
  unfolding get
  find_breaker name r = get name r.breakers

  -- `shutdownAll`, with the breakers whose `shutdown` it calls, in order
  unfoldable pub shutdown_all : Registry Breaker → List Breaker × Registry Breaker
  shutdown_all r = (map breaker_of r.breakers, record r { breakers = [] })
