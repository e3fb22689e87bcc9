-- ===== src/Events.antt =====
-- `EventsService` of src/interfaces/events/events.service.ts: the clients that are connected by
-- server-sent events. `clients` is the `Map` in the order of insertion; an observer is what it was
-- sent and whether it is closed. The heartbeat of the timer is not modelled.
mod Tests
pub mod Delivery
use node_b2b_orders.Base.{
  ℕ, zero, suc, String, Bool, true, false, not, ◌&&◌, Option, none, some, List, [], ◌∷◌, ◌++◌,
  str_eq, if◌then◌else◌,
}

-- `text` is the field `data`, the text of `JSON.stringify`, `id` is fresh.
pub record MessageEvent : Type 0 where
  pub text : String
  pub type : String
  pub id : String

pub record SseClient : Type 0 where
  pub tenant_id : String
  pub closed : Bool
  pub received : List MessageEvent

abbrev pub Clients : Type 0
Clients = List (String × SseClient)

-- `Map.get`, `Map.set` and `Map.delete`
unfoldable pub get : String → Clients → Option SseClient
get id [] = none
get id ((k, c) ∷ rest) = let found = get id rest in if str_eq k id then some c else found

unfoldable pub set : String → SseClient → Clients → Clients
set id c [] = (id, c) ∷ []
set id c ((k, d) ∷ rest) =
    let rest' = set id c rest in if str_eq k id then (k, c) ∷ rest else (k, d) ∷ rest'

unfoldable pub delete : String → Clients → Clients
delete id [] = []
delete id ((k, c) ∷ rest) =
    let rest' = delete id rest in if str_eq k id then rest else (k, c) ∷ rest'

unfoldable pub add_client : (client_id tenant : String) → Clients → Clients
unfolding set
add_client client_id tenant clients =
    set client_id (record { tenant_id = tenant; closed = false; received = [] }) clients

-- The client's observer is completed and forgotten; it is given back.
unfoldable pub remove_client : String → Clients → Option SseClient × Clients
unfolding get delete
remove_client client_id clients = elim (get client_id clients) [
  | none ↦ (none, clients)
  | some c ↦ (some (record c { closed = true }), delete client_id clients)
]

-- `client.tenantId === tenantId && !client.observer.closed`
abbrev pub listens : String → SseClient → Bool
listens tenant c = str_eq c.tenant_id tenant && not c.closed

abbrev pub next : MessageEvent → SseClient → SseClient
next m c = record c { received = c.received ++ m ∷ [] }

-- How many clients were sent the message, and the clients afterwards.
unfoldable pub broadcast_all : String → MessageEvent → Clients → ℕ × Clients
broadcast_all tenant m [] = (0, [])
broadcast_all tenant m ((k, c) ∷ rest) =
    let (sent, rest') = broadcast_all tenant m rest in
    if listens tenant c then (suc sent, (k, next m c) ∷ rest') else (sent, (k, c) ∷ rest')

unfoldable pub get_active_clients : String → Clients → ℕ
get_active_clients tenant [] = 0
get_active_clients tenant ((k, c) ∷ rest) =
    let count = get_active_clients tenant rest in if listens tenant c then suc count else count
