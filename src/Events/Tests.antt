-- ===== src/Events/Tests.antt =====
-- The count of concrete clients.
use node_b2b_orders.Base.{◌≡◌, refl, []}
use node_b2b_orders.Events.{Clients, add_client, get_active_clients}

abbrev clients : Clients
clients = add_client "c2" "umbrella" (add_client "c1" "acme" [])

one_listens : get_active_clients "acme" clients ≡ 1
unfolding get_active_clients add_client
one_listens = refl
