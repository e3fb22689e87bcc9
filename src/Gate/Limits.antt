-- ===== src/Gate/Limits.antt =====
-- What the hook does to the buckets, and to a subject that was not seen.
use node_b2b_orders.Base.{
  ℕ, ◌≤◌, String, ◌≡◌, refl, true, false, ◌&&◌, none, List, arith, str_eq, Bool-cases, inl, inr,
  ltb,
}
use node_b2b_orders.Maps.{get}
use node_b2b_orders.RateLimit.{
  Bucket, Group, consume_rate_limit, take_token, refilled, live, limit_of,
}
use node_b2b_orders.Maps.Laws.{get-set}
use node_b2b_orders.Gate.{
  ChaosConfig, StoredChaos, Incoming, is_probe_or_public_path, get_chaos_config, bucket_key,
  group_of, on_request, passed, or_else_text,
}

consume_rate_limit_fresh :
    (read_limit write_limit : ℕ) (group : Group) (now : ℕ)
    → 1 ≤ limit_of read_limit write_limit group
    → (consume_rate_limit read_limit write_limit group now none).0.allowed ≡ true
unfolding consume_rate_limit take_token live refilled
consume_rate_limit_fresh read_limit write_limit group now positive = ground arith

module _ (read_limit write_limit : ℕ) (base : ChaosConfig) (chaos_of : String → StoredChaos)
    (new_id : String) (random now : ℕ) (buckets : List (String × Bucket)) (req : Incoming) where
  abbrev pub chaos : ChaosConfig
  chaos = get_chaos_config base (chaos_of (or_else_text "public" req.tenant_id))

  -- A request changes no bucket but that of its tenant, its subject and its group, and none on a
  -- public path.
  pub on_request_own_bucket :
      (key : String)
      → str_eq (bucket_key req) key ≡ false
      → get key
          (on_request read_limit write_limit base chaos_of new_id random now buckets req).buckets
        ≡ get key buckets
  unfolding on_request
  on_request_own_bucket key other = elim (Bool-cases (is_probe_or_public_path req.path)) [
    | inl e ↦ rw e refl
    | inr e ↦ elim (Bool-cases (chaos.enabled && ltb random chaos.fail_percent)) [
      | inl f ↦ rw (e, f) refl
      | inr f ↦ rw (e, f, get-set, other) refl
    ]
  ]

  -- A request with a subject and a tenant that have no bucket yet is not limited, where no failure is
  -- injected.
  pub on_request_new_subject :
      get (bucket_key req) buckets ≡ none
      → 1 ≤ limit_of read_limit write_limit (group_of req.method)
      → (chaos.enabled && ltb random chaos.fail_percent) ≡ false
      → (on_request read_limit write_limit base chaos_of new_id random now buckets req).reply
        ≡ passed
  unfolding on_request
  on_request_new_subject fresh positive calm =
      elim (Bool-cases (is_probe_or_public_path req.path)) [
        | inl e ↦ rw e refl
        | inr e ↦
            rw
              (
                e,
                calm,
                fresh,
                consume_rate_limit_fresh read_limit write_limit (group_of req.method) now positive,
              )
              refl
      ]
