-- ===== src/Contracts/Tests.antt =====
-- The outbox after the run of System/Tests, and a payload.
use node_b2b_orders.Base.{String, ◌≡◌, refl, true, false, none, Option, List, Bool}
use node_b2b_orders.Maps.{get, set}
use node_b2b_orders.Contracts.{validate_event_payload, load_validators}

abbrev exists : String → Bool
exists file = true

abbrev compile : String → String → Option (List String)
compile file payload = none

unknown_type : (validate_event_payload exists compile "order.returned" "{}").valid ≡ false
unfolding validate_event_payload load_validators get set
unknown_type = refl
