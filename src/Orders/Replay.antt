-- ===== src/Orders/Replay.antt =====
-- Idempotency: what a call has returned is what a repeated call returns within the day.
use node_b2b_orders.Base.{
  ℕ, ◌+◌, ◌≤◌, ◌<◌, String, ◌≡◌, none, some, [], ◌∷◌, arith, eq_refl, ok, lt→ltb, str_eq, false,
  Option-cases, inl, inr,
}
use node_b2b_orders.Database.{Database, Response}
use node_b2b_orders.World.{World}
use node_b2b_orders.Services.{template, cached, remember, cached-remember, day_seconds}
use node_b2b_orders.Stock.{for_each_item_redis}
use node_b2b_orders.Orders.{
  create_order, confirm_order, cancel_order, ship_order, deliver_order, unreserve,
}
use node_b2b_orders.Orders.Controller.{Call, Action, create, confirm, ship, deliver, cancel, handle}

-- The key under which the response of a call is kept.
abbrev pub idem_key : Call → Action → String
idem_key c (create customer items) =
    template ("idem:" ∷ c.tenant_id ∷ ":create-order:" ∷ c.idempotency_key ∷ [])
idem_key c (confirm id) =
    template ("idem:" ∷ c.tenant_id ∷ ":confirm-order:" ∷ id ∷ ":" ∷ c.idempotency_key ∷ [])
idem_key c (ship id code url) =
    template ("idem:" ∷ c.tenant_id ∷ ":ship-order:" ∷ id ∷ ":" ∷ c.idempotency_key ∷ [])
idem_key c (deliver id) =
    template ("idem:" ∷ c.tenant_id ∷ ":deliver-order:" ∷ id ∷ ":" ∷ c.idempotency_key ∷ [])
idem_key c (cancel id) =
    template ("idem:" ∷ c.tenant_id ∷ ":cancel-order:" ∷ id ∷ ":" ∷ c.idempotency_key ∷ [])

-- A call that finds a response under its key returns it and does nothing.
handle_hit :
    {db : Database} (c : Call) (a : Action) (w : World db) (r : Response)
    → str_eq c.idempotency_key "" ≡ false
    → cached db c.now (idem_key c a) w.redis ≡ some r
    → handle c a w ≡ (ok r, w)
unfolding handle create_order confirm_order cancel_order ship_order deliver_order
handle_hit c (create customer items) w r k h = ground arith
handle_hit c (confirm id) w r k h = ground arith
handle_hit c (ship id code url) w r k h = ground arith
handle_hit c (deliver id) w r k h = ground arith
handle_hit c (cancel id) w r k h = ground arith

-- A call that finds none, and returns, keeps what it returns.
handle_miss :
    {db : Database} (c : Call) (a : Action) (w : World db) (r : Response)
    → str_eq c.idempotency_key "" ≡ false
    → cached db c.now (idem_key c a) w.redis ≡ none
    → (handle c a w).0 ≡ ok r
    → (handle c a w).1.redis ≡ remember db c.now (idem_key c a) r w.redis
unfolding handle create_order confirm_order cancel_order ship_order deliver_order
handle_miss c (create customer items) w r k h e = ground arith
handle_miss {db} c (confirm id) w r k h e = elim (Option-cases (db.orders.find id w.orders)) [
  | inl absent ↦ ground arith
  | inr (o, found) ↦
      ground
        (arith, for_each_item_redis unreserve (λ key i products. products) c.tenant_id o.items w)
]
handle_miss c (ship id code url) w r k h e = ground arith
handle_miss c (deliver id) w r k h e = ground arith
handle_miss c (cancel id) w r k h e = ground arith

idem_key_same :
    (c again : Call) (a : Action)
    → again.tenant_id ≡ c.tenant_id
    → again.idempotency_key ≡ c.idempotency_key
    → idem_key again a ≡ idem_key c a
idem_key_same c again (create customer items) t k = cc
idem_key_same c again (confirm id) t k = cc
idem_key_same c again (ship id code url) t k = cc
idem_key_same c again (deliver id) t k = cc
idem_key_same c again (cancel id) t k = cc

kept :
    (db : Database) (now later : ℕ) (k : String) (r : Response) (redis : db.redis.Rep)
    → now ≤ later
    → later < now + day_seconds
    → cached db later k (remember db now k r redis) ≡ some r
kept db now later k r redis after soon = rw (
  cached-remember db now later k k r redis after,
  eq_refl k,
  lt→ltb later (now + day_seconds) soon,
)

-- The same request, sent again with the same key after a call that returned `r`, at any later
-- instant of the day that follows, returns `r` and changes nothing, whoever sends it.
pub handle_replay :
    {db : Database} (c again : Call) (a : Action) (w : World db) (r : Response)
    → str_eq c.idempotency_key "" ≡ false
    → cached db c.now (idem_key c a) w.redis ≡ none
    → (handle c a w).0 ≡ ok r
    → again.tenant_id ≡ c.tenant_id
    → again.idempotency_key ≡ c.idempotency_key
    → c.now ≤ again.now
    → again.now < c.now + day_seconds
    → handle again a (handle c a w).1 ≡ (ok r, (handle c a w).1)
handle_replay {db} c again a w r nonempty miss returned same_tenant same_key after soon =
    handle_hit again a (handle c a w).1 r (rw same_key nonempty) (
      rw (idem_key_same c again a same_tenant same_key, handle_miss c a w r nonempty miss returned)
        (kept db c.now again.now (idem_key c a) r w.redis after soon))
