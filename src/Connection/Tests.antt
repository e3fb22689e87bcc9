-- ===== src/Connection/Tests.antt =====
-- The theorems at concrete attempts.
use node_b2b_orders.Base.{◌≢◌, ◌≡◌, refl, true, false, List, [], ◌∷◌, ◌++◌, arith}
use node_b2b_orders.Connection.{Step, connect, trying, connected}
use node_b2b_orders.Connection.Retries.{connect_terminates}

abbrev refused : Step
refused = record { shutdown_requested = false; accepted = false }

abbrev five : List Step
five = refused ∷ refused ∷ refused ∷ refused ∷ refused ∷ []

third_time : (connect 0 (refused ∷ refused ∷ record refused { accepted = true } ∷ [])).0 ≡ connected
unfolding connect
third_time = refl

connect_terminates_example : (connect 0 (five ++ five)).0 ≢ trying
connect_terminates_example = connect_terminates (five ++ five) (omega arith)
