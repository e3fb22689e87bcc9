-- ===== src/Events/Delivery.antt =====
-- Whom a broadcast reaches.
use mathlib.Core.Option
use node_b2b_orders.Base.{String, ◌≡◌, refl, [], ◌∷◌, arith, if◌then◌else◌}
use node_b2b_orders.Events.{
  MessageEvent, SseClient, Clients, get, listens, next, broadcast_all, get_active_clients,
}

-- A client after the broadcast.
abbrev pub heard : String → MessageEvent → SseClient → SseClient
heard tenant m c = if listens tenant c then next m c else c

sent_count :
    (tenant : String) (m : MessageEvent) (clients : Clients)
    → (broadcast_all tenant m clients).0 ≡ get_active_clients tenant clients
unfolding broadcast_all get_active_clients
sent_count tenant m [] = refl
sent_count tenant m ((k, c) ∷ rest) = ground (arith, sent_count tenant m rest)

get-broadcast_all :
    (tenant : String) (m : MessageEvent) (clients : Clients) (id : String)
    → get id (broadcast_all tenant m clients).1 ≡ Option.map (heard tenant m) (get id clients)
unfolding broadcast_all get
get-broadcast_all tenant m [] id = refl
get-broadcast_all tenant m ((k, c) ∷ rest) id = ground (arith, get-broadcast_all tenant m rest id)

-- A broadcast gives the message to the open clients of the tenant, as many as are active, and leaves
-- every other client, those of other tenants among them, as it was.
pub broadcast_all_reaches :
    (tenant : String) (m : MessageEvent) (clients : Clients) (id : String)
    → ((broadcast_all tenant m clients).0 ≡ get_active_clients tenant clients)
      × (get id (broadcast_all tenant m clients).1 ≡ Option.map (heard tenant m) (get id clients))
broadcast_all_reaches tenant m clients id =
    (sent_count tenant m clients, get-broadcast_all tenant m clients id)
