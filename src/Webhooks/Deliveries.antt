-- ===== src/Webhooks/Deliveries.antt =====
-- What a round does to the deliveries.
use node_b2b_orders.Base.{
  ℕ, ◌+◌, ◌≤◌, ◌<◌, ◌≡◌, inl, inr, String, Bool, true, false, Option, none, some, List, [], ◌∷◌,
  All, leb, str_eq, arith, if◌then◌else◌, Bool-cases,
}
use node_b2b_orders.Schema.{Payload}
use node_b2b_orders.Queries.{find_many, find_first, take-All, find_many-All}
use node_b2b_orders.Webhooks.{
  Endpoint, Delivery, DeliveryStatus, pending, delivered, failed, cancelled, Tables, Post, Answer,
  status, thrown, is_ok, update_delivery, is_pending, pending_deliveries, failed_change,
  delivered_change, on_answer, change_of, process_delivery, dispatch_all, dispatch_round,
  max_attempts,
}

-- No delivery has had more than the allowed attempts, and one that is pending has some left: none is
-- stuck as pending.
abbrev pub AttemptsFit : DeliveryStatus → ℕ → Type 0
AttemptsFit pending n = n < max_attempts
AttemptsFit _ n = n ≤ max_attempts

abbrev pub IsSound : Delivery → Type 0
IsSound d = AttemptsFit d.status d.attempts

AttemptsFit-le : (s : DeliveryStatus) (n : ℕ) → AttemptsFit s n → n ≤ max_attempts
AttemptsFit-le pending n h = omega arith
AttemptsFit-le delivered n h = h
AttemptsFit-le failed n h = h
AttemptsFit-le cancelled n h = h

abbrev pub IsPending : Delivery → Type 0
IsPending d = is_pending d ≡ true

pending_left : (d : Delivery) → IsPending d → d.attempts < max_attempts
pending_left d p = ground arith

failed_fits :
    (n : ℕ)
    → n < max_attempts
    → AttemptsFit (if leb max_attempts (n + 1) then failed else pending) (n + 1)
failed_fits n h = elim (Bool-cases (leb max_attempts (n + 1))) [
  | inl e ↦ rw e (omega arith)
  | inr e ↦ rw e (ground arith)
]

module _ (stringify : Payload → String) (hmac : String → String → String) (code_text : ℕ → List ℕ)
    (fetch : Post → Answer) (now : ℕ) where
  on_answer-IsSound :
      (n : ℕ) (answer : Answer) (row : Delivery)
      → n < max_attempts
      → IsSound ((on_answer stringify hmac code_text fetch now n answer).1 row)
  unfolding on_answer failed_change delivered_change
  on_answer-IsSound n (status code) row h = elim (Bool-cases (is_ok code)) [
    | inl e ↦ rw e (omega arith)
    | inr e ↦ rw e (failed_fits n h)
  ]
  on_answer-IsSound n (thrown error) row h = failed_fits n h

  change_of-IsSound :
      (ep : Option Endpoint) (d row : Delivery)
      → IsPending d
      → IsSound row
      → IsSound ((change_of stringify hmac code_text fetch now ep d).1 row)
  unfolding change_of
  change_of-IsSound none d row p h = AttemptsFit-le row.status row.attempts h
  change_of-IsSound (some ep) d row p h = elim (Bool-cases ep.active) [
    | inl e ↦ rw e (on_answer-IsSound d.attempts (fetch _) row (pending_left d p))
    | inr e ↦ rw e (AttemptsFit-le row.status row.attempts h)
  ]

  update_delivery-IsSound :
      (id : String) (change : Delivery → Delivery) (rows : List Delivery)
      → ((row : Delivery) → IsSound row → IsSound (change row))
      → All IsSound rows
      → All IsSound (update_delivery id change rows)
  unfolding update_delivery
  update_delivery-IsSound id change [] keeps h = tt
  update_delivery-IsSound id change (d ∷ rest) keeps (h, hs) =
      let ih = update_delivery-IsSound id change rest keeps hs in
      elim (Bool-cases (str_eq d.id id)) [ inl e ↦ rw e (keeps d h, ih) | inr e ↦ rw e (h, ih) ]

  process_delivery-IsSound :
      (d : Delivery) (t : Tables)
      → IsPending d
      → All IsSound t.deliveries
      → All IsSound (process_delivery stringify hmac code_text fetch now d t).1.deliveries
  unfolding process_delivery
  process_delivery-IsSound d t p h =
      let ep = find_first (λ e. str_eq e.id d.endpoint_id) t.endpoints in
      update_delivery-IsSound d.id (change_of stringify hmac code_text fetch now ep d).1
        t.deliveries (λ row. change_of-IsSound ep d row p) h

  dispatch_all-IsSound :
      (stops : List Bool) (ds : List Delivery) (t : Tables)
      → All IsPending ds
      → All IsSound t.deliveries
      → All IsSound (dispatch_all stringify hmac code_text fetch now stops ds t).deliveries
  unfolding dispatch_all
  dispatch_all-IsSound stops [] t ps h = h
  dispatch_all-IsSound [] (d ∷ rest) t ps h =
      dispatch_all-IsSound [] rest (process_delivery stringify hmac code_text fetch now d t).1 ps.1
        (process_delivery-IsSound d t ps.0 h)
  dispatch_all-IsSound (true ∷ stops) (d ∷ rest) t ps h = h
  dispatch_all-IsSound (false ∷ stops) (d ∷ rest) t ps h =
      dispatch_all-IsSound stops rest (process_delivery stringify hmac code_text fetch now d t).1
        ps.1 (process_delivery-IsSound d t ps.0 h)

  -- A round of the worker, stopped anywhere, keeps the deliveries sound: each has had at most five
  -- attempts, and a pending one has had fewer, so that a later round takes it up again.
  pub dispatch_round-IsSound :
      (stops : List Bool) (t : Tables)
      → All IsSound t.deliveries
      → All IsSound (dispatch_round stringify hmac code_text fetch now stops t).deliveries
  unfolding dispatch_round
  dispatch_round-IsSound stops t h =
      dispatch_all-IsSound stops (pending_deliveries t) t
        (take-All IsPending 50 (find_many is_pending t.deliveries)
          (find_many-All is_pending t.deliveries))
        h
