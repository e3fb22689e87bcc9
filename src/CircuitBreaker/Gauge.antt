-- ===== src/CircuitBreaker/Gauge.antt =====
-- The gauge of the state of each breaker, and the registry.
use node_b2b_orders.Base.{
  ℕ, String, ◌≡◌, refl, ap, ◌∙◌, Bool, Option, none, some, List, [], ◌∷◌, arith, str_eq, eq_refl,
  if◌then◌else◌,
}
use node_b2b_orders.Maps.{get, set}
use node_b2b_orders.Maps.Laws
use node_b2b_orders.CircuitBreaker.{
  closed, state_code, BreakerEvent, counted, entered, BreakerMetrics, Options, Overrides, on_event,
  Registry, create_circuit_breaker, create, find_breaker, options,
}

-- The events of the breakers of a process, each with the name of its breaker.
unfoldable pub observe : List (String × BreakerEvent) → BreakerMetrics → BreakerMetrics
unfolding on_event
observe [] m = m
observe ((name, e) ∷ events) m = observe events (on_event name e m)

abbrev stated : Option ℕ → Bool → BreakerEvent → Option ℕ
stated before mine (counted c) = before
stated before mine (entered s) = if mine then some (state_code s) else before

-- The code of the last state that the breaker of a name entered, or the value before.
abbrev pub last_state : String → List (String × BreakerEvent) → Option ℕ → Option ℕ
last_state name [] before = before
last_state name ((n, e) ∷ events) before = last_state name events (stated before (str_eq n name) e)

one_event :
    (name n : String) (e : BreakerEvent) (m : BreakerMetrics)
    → get name (on_event n e m).state ≡ stated (get name m.state) (str_eq n name) e
unfolding on_event
one_event name n (counted c) m = refl
one_event name n (entered s) m = Laws.get-set n name (state_code s) m.state

-- After any events of the breakers of a process, in any order, the gauge of a breaker shows the last
-- state that it entered, or what it showed before where it entered none.
observe_gauge :
    (name : String) (events : List (String × BreakerEvent)) (m : BreakerMetrics)
    → get name (observe events m).state ≡ last_state name events (get name m.state)
unfolding observe
observe_gauge name [] m = refl
observe_gauge name ((n, e) ∷ events) m =
    observe_gauge name events (on_event n e m)
    ∙ ap (λ v. last_state name events v) (one_event name n e m)

get-set_same :
    {V : Type 0} (name : String) (v : V) (m : List (String × V)) → get name (set name v m) ≡ some v
get-set_same name v m = Laws.get-set name name v m ∙ rw (eq_refl name) refl

module _ {Action Breaker : Type 0} (make : Action → Options → Breaker) where
  -- A second creation under a name gives the breaker of the first and changes nothing; after the first,
  -- the registry finds its breaker and the gauge shows it closed, whatever the gauge showed before.
  pub create_lem :
      (name : String) (a b : Action) (o p : Overrides) (r : Registry Breaker)
      → find_breaker name r ≡ none
      → let (breaker, r') = create make name a o r in
        (create make name b p r' ≡ (breaker, r'))
        × (find_breaker name r' ≡ some breaker)
        × (get name r'.metrics.state ≡ some (state_code closed))
  unfolding create create_circuit_breaker find_breaker
  create_lem name a b o p r absent =
      let there = get-set_same name (make a (options name o)) r.breakers in
      let gauge = get-set_same name (state_code closed) r.metrics.state in
      (ground (arith, absent, there), ground (arith, absent, there), ground (arith, absent, gauge))
