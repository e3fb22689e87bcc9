-- ===== src/RateLimit/Tests.antt =====
-- The bound at a sequence of requests.
use node_b2b_orders.Base.{ℕ, ◌+◌, ◌*◌, ◌≤◌, ◌≡◌, refl, none, List, [], ◌∷◌}
use node_b2b_orders.RateLimit.{write, consume_rate_limit, take_token, live, refilled, stored}
use node_b2b_orders.RateLimit.Bounds.{allowed_count, allowed_count_bound}

-- Two writes a minute: the third at once is refused, the one half a minute later is not.
abbrev waits : List ℕ
waits = 0 ∷ 10 ∷ 10 ∷ 30000 ∷ []

three_allowed : allowed_count 240 2 write 1000 none waits ≡ 3
unfolding consume_rate_limit take_token live refilled stored
three_allowed = refl

allowed_count_bound_example :
    allowed_count 240 2 write 1000 none waits * 60000 ≤ 2 * 60000 + 30020 * 2
allowed_count_bound_example = allowed_count_bound 240 2 write 1000 waits
