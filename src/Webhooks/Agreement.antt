-- ===== src/Webhooks/Agreement.antt =====
-- The worker's processing of the deliveries against the service's.
use node_b2b_orders.Base.{
  arith, ℕ, Bool, false, ◌&&◌, leb, length, if◌then◌else◌, Bool-cases, String, ◌≡◌, ◌∙◌, ap, inl,
  inr, refl, Option, none, some, List, [], ◌∷◌, str_eq,
}
use node_b2b_orders.Schema.{Payload}
use node_b2b_orders.Queries.{find_first, find_many}
use node_b2b_orders.Webhooks.{
  Endpoint, Delivery, Tables, Post, Answer, status, thrown, is_ok, post_of, update_delivery,
  pending_deliveries, failed_change, delivered_change, on_answer, change_of, process_delivery,
  dispatch_all, dispatch_round,
}
use node_b2b_orders.Webhooks.Service.{
  mark_failed, after_fetch, deliver_to, process_all, process_deliveries,
}

abbrev in_200s : Answer → Bool
in_200s (status code) = leb 200 code && leb code 299
in_200s (thrown error) = false

module _ (stringify : Payload → String) (hmac : String → String → String) (code_text : ℕ → List ℕ)
    (fetch : Post → Answer) (now : ℕ) where
  after_fetch-on_answer :
      (d : Delivery) (answer : Answer) (t : Tables)
      → (after_fetch stringify hmac code_text fetch now d answer t).1 ≡ record t {
        deliveries =
            update_delivery d.id
              (on_answer stringify hmac code_text fetch now d.attempts answer).1
              t.deliveries;
      }
  unfolding after_fetch mark_failed on_answer failed_change delivered_change
  after_fetch-on_answer d (status code) t = elim (Bool-cases (is_ok code)) [
    | inl e ↦ rw e refl
    | inr e ↦ rw e refl
  ]
  after_fetch-on_answer d (thrown error) t = refl

  deliver_to-change_of :
      (endpoint : Option Endpoint) (d : Delivery) (t : Tables)
      → (deliver_to stringify hmac code_text fetch now endpoint d t).1 ≡ record t {
        deliveries =
            update_delivery d.id
              (change_of stringify hmac code_text fetch now endpoint d).1
              t.deliveries;
      }
  unfolding deliver_to change_of
  deliver_to-change_of none d t = refl
  deliver_to-change_of (some endpoint) d t = elim (Bool-cases endpoint.active) [
    | inl e ↦ rw e (after_fetch-on_answer d (fetch _) t)
    | inr e ↦ rw e refl
  ]

  deliver_to-process_delivery :
      (d : Delivery) (t : Tables)
      → (deliver_to stringify hmac code_text fetch now
          (find_first (λ e. str_eq e.id d.endpoint_id) t.endpoints)
          d
          t).1
        ≡ (process_delivery stringify hmac code_text fetch now d t).1
  unfolding process_delivery
  deliver_to-process_delivery d t = deliver_to-change_of (find_first _ t.endpoints) d t

  process_all-dispatch_all :
      (ds : List Delivery) (t : Tables)
      → (process_all stringify hmac code_text fetch now ds t).1
        ≡ dispatch_all stringify hmac code_text fetch now [] ds t
  unfolding process_all dispatch_all
  process_all-dispatch_all [] t = refl
  process_all-dispatch_all (d ∷ rest) t =
      process_all-dispatch_all rest
        (deliver_to stringify hmac code_text fetch now
          (find_first (λ e. str_eq e.id d.endpoint_id) t.endpoints) d t).1
      ∙ ap (dispatch_all stringify hmac code_text fetch now [] rest)
          (deliver_to-process_delivery d t)

  -- The delivery goes to an active endpoint, which answers with a code from 200 to 299.
  abbrev reaches : Option Endpoint → Delivery → Bool
  reaches none d = false
  reaches (some endpoint) d =
      endpoint.active && in_200s (fetch (post_of stringify hmac code_text fetch now endpoint d))

  abbrev pub is_taken : List Endpoint → Delivery → Bool
  is_taken endpoints d = reaches (find_first (λ e. str_eq e.id d.endpoint_id) endpoints) d

  after_fetch-count :
      (d : Delivery) (answer : Answer) (t : Tables)
      → (after_fetch stringify hmac code_text fetch now d answer t).0
        ≡ (if in_200s answer then 1 else 0)
  unfolding after_fetch
  after_fetch-count d (status code) t = ground arith
  after_fetch-count d (thrown error) t = refl

  deliver_to-count :
      (endpoint : Option Endpoint) (d : Delivery) (t : Tables)
      → (deliver_to stringify hmac code_text fetch now endpoint d t).0
        ≡ (if reaches endpoint d then 1 else 0)
  unfolding deliver_to
  deliver_to-count none d t = refl
  deliver_to-count (some endpoint) d t = elim (Bool-cases endpoint.active) [
    | inl e ↦ rw e (after_fetch-count d (fetch _) t)
    | inr e ↦ rw e refl
  ]

  deliver_to-endpoints :
      (d : Delivery) (t : Tables)
      → (deliver_to stringify hmac code_text fetch now
          (find_first (λ e. str_eq e.id d.endpoint_id) t.endpoints)
          d
          t).1.endpoints
        ≡ t.endpoints
  deliver_to-endpoints d t =
      ap (λ (u : Tables). u.endpoints) (deliver_to-change_of (find_first _ t.endpoints) d t)

  process_all-count :
      (ds : List Delivery) (t : Tables)
      → (process_all stringify hmac code_text fetch now ds t).0
        ≡ length (find_many (is_taken t.endpoints) ds)
  unfolding process_all
  process_all-count [] t = refl
  process_all-count (d ∷ rest) t =
      let t' =
        (deliver_to stringify hmac code_text fetch now
          (find_first (λ e. str_eq e.id d.endpoint_id) t.endpoints) d t).1 in
      let one = deliver_to-count (find_first (λ e. str_eq e.id d.endpoint_id) t.endpoints) d t in
      let more =
        process_all-count rest t'
        ∙ ap (λ eps. length (find_many (is_taken eps) rest)) (deliver_to-endpoints d t) in
      elim (Bool-cases (is_taken t.endpoints d)) [
        | inl e ↦ rw (one, more, e) (omega arith)
        | inr e ↦ rw (one, more, e) (omega arith)
      ]

  -- The worker's round and the service's processing, two translations of two implementations, leave the
  -- same tables where the worker is not told to stop. The service returns the number of those pending
  -- deliveries whose endpoint is there and active and answers with a code from 200 to 299.
  pub process_deliveries-dispatch_round :
      (t : Tables)
      → let (n, t') = process_deliveries stringify hmac code_text fetch now t in
        (t' ≡ dispatch_round stringify hmac code_text fetch now [] t)
        × (n ≡ length (find_many (is_taken t.endpoints) (pending_deliveries t)))
  unfolding process_deliveries dispatch_round
  process_deliveries-dispatch_round t = (
    process_all-dispatch_all (pending_deliveries t) t,
    process_all-count (pending_deliveries t) t,
  )
