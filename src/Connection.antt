-- ===== src/Connection.antt =====
-- `connectRabbitMQ` of src/worker/main.ts: the attempts to connect to the broker. A step tells
-- whether a shutdown had been requested when it began, and whether the broker accepted.
mod Tests
pub mod Retries
use node_b2b_orders.Base.{ℕ, zero, suc, ◌*◌, ◌^◌, min, Bool, List, [], ◌∷◌, leb, if◌then◌else◌}

abbrev pub max_retries : ℕ
max_retries = 10

pub record Step : Type 0 where
  pub shutdown_requested : Bool
  pub accepted : Bool

-- `trying`: the steps are over, and the loop goes on.
pub data Connection : Type 0 where
  connected gave_up stopped trying : Connection

-- `Math.min(30_000, 1_000 * 2 ** Math.min(attempt, 14))`
unfoldable pub backoff_ms : ℕ → ℕ
backoff_ms attempt = min 30000 (1000 * 2 ^ min attempt 14)

-- The loop, from the number of attempts so far: how it ends, and the sleeps before that.
unfoldable pub connect : ℕ → List Step → Connection × List ℕ
unfolding backoff_ms
connect attempt [] = (trying, [])
connect attempt (s ∷ rest) =
    let (r, sleeps) = connect (suc attempt) rest in
    if s.shutdown_requested
    then (stopped, [])
    else if s.accepted
    then (connected, [])
    else if leb max_retries (suc attempt)
    then (gave_up, [])
    else (r, backoff_ms (suc attempt) ∷ sleeps)
