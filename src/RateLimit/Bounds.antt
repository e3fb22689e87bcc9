-- ===== src/RateLimit/Bounds.antt =====
-- How many requests the bucket lets through.
use node_b2b_orders.Base.{
  ℕ, ◌∙◌, ◌+◌, ◌-◌, ◌*◌, ◌≤◌, ◌≡◌, refl, true, false, Option, none, some, List, [], ◌∷◌, arith, leb,
  ltb, min, Bool-cases, leb→le, inl, inr, if◌then◌else◌,
}
use node_b2b_orders.RateLimit.{
  token, Bucket, Group, limit_of, live, refilled, stored, take_token, consume_rate_limit,
}

-- Requests of one user and group, one after the other, each some milliseconds after the one before
-- it: how many are allowed from the instant `now` on.
abbrev pub allowed_count : (read_limit write_limit : ℕ) → Group → ℕ → Option Bucket → List ℕ → ℕ
allowed_count read_limit write_limit group now found [] = 0
allowed_count read_limit write_limit group now found (wait ∷ waits) =
    let (d, b) = consume_rate_limit read_limit write_limit group (now + wait) found in
    (if d.allowed then 1 else 0)
    + allowed_count read_limit write_limit group (now + wait) (some b) waits

abbrev pub elapsed : List ℕ → ℕ
elapsed [] = 0
elapsed (wait ∷ waits) = wait + elapsed waits

-- The bucket was written at `now`, by the code.
abbrev pub IsWritten : (capacity now : ℕ) → Bucket → Type 0
IsWritten capacity now b = (b.ts ≡ now) × (b.expires ≡ now + token) × (b.tokens ≤ capacity * token)

-- After a minute the bucket is full.
full_lem :
    (capacity tokens wait : ℕ)
    → token ≤ wait
    → min (capacity * token) (tokens + wait * capacity) ≡ capacity * token
full_lem capacity tokens wait h =
    let e : wait ≡ token + (wait - token) = omega arith in rw e (omega arith)

-- An expired bucket would have been full: to forget it changes nothing.
refilled-live :
    (capacity now wait : ℕ) (b : Bucket)
    → IsWritten capacity now b
    → refilled capacity (now + wait) (live (now + wait) (some b))
      ≡ min (capacity * token) (b.tokens + wait * capacity)
unfolding refilled live
refilled-live capacity now wait b (t, e, h) = elim (Bool-cases (leb token wait)) [
  | inl over ↦
      let late : ltb (now + wait) b.expires ≡ false = ground arith in
      rw (full_lem capacity b.tokens wait (leb→le _ _ over), late) refl
  | inr within ↦
      let early : ltb (now + wait) b.expires ≡ true = ground arith in
      let d : now + wait - b.ts ≡ wait = omega arith in rw (early, d) refl
]

-- One request: the bucket is written again, and what is taken is paid for.
take_token_lem :
    (capacity now wait : ℕ) (b : Bucket)
    → IsWritten capacity now b
    → let (allowed, b') = take_token capacity (now + wait) (some b) in
      IsWritten capacity (now + wait) b'
      × ((if allowed then token else 0) + b'.tokens ≤ b.tokens + wait * capacity)
unfolding take_token stored
take_token_lem capacity now wait b w = let e = refilled-live capacity now wait b w in ground arith

allowed_count_written :
    (read_limit write_limit : ℕ) (group : Group) (now : ℕ) (b : Bucket) (waits : List ℕ)
    → IsWritten (limit_of read_limit write_limit group) now b
    → allowed_count read_limit write_limit group now (some b) waits * token
      ≤ b.tokens + elapsed waits * limit_of read_limit write_limit group
unfolding consume_rate_limit
allowed_count_written read_limit write_limit group now b [] w = omega arith
allowed_count_written read_limit write_limit group now b (wait ∷ waits) w =
    let limit = limit_of read_limit write_limit group in
    let next = take_token limit (now + wait) (some b) in
    let (w', paid) = take_token_lem limit now wait b w in
    let rest = allowed_count_written read_limit write_limit group (now + wait) next.1 waits w' in
    elim (Bool-cases next.0) [ inl e ↦ ground arith | inr e ↦ ground arith ]

-- A missing bucket is a full one.
take_token-none :
    (capacity now wait : ℕ)
    → take_token capacity (now + wait) none
      ≡ take_token capacity (now + wait) (some (stored (capacity * token) now))
unfolding take_token stored
take_token-none capacity now wait =
    let full : refilled capacity (now + wait)
          (live (now + wait) (some (stored (capacity * token) now)))
        ≡ capacity * token =
      refilled-live capacity now wait (stored (capacity * token) now) (refl, refl, ground arith)
      ∙ omega arith in
    rw full (unfold refilled live in refl)

allowed_count-none :
    (read_limit write_limit : ℕ) (group : Group) (now : ℕ) (waits : List ℕ)
    → allowed_count read_limit write_limit group now none waits
      ≡ allowed_count read_limit write_limit group now
          (some (stored (limit_of read_limit write_limit group * token) now))
          waits
unfolding consume_rate_limit
allowed_count-none read_limit write_limit group now [] = refl
allowed_count-none read_limit write_limit group now (wait ∷ waits) =
    rw (take_token-none (limit_of read_limit write_limit group) now wait) refl

-- From a missing bucket on, the requests that are allowed are at most the limit of the group and,
-- for each minute that passes, as many again (counted in parts of a token: 60000 for each request).
pub allowed_count_bound :
    (read_limit write_limit : ℕ) (group : Group) (now : ℕ) (waits : List ℕ)
    → allowed_count read_limit write_limit group now none waits * token
      ≤ limit_of read_limit write_limit group * token
        + elapsed waits * limit_of read_limit write_limit group
unfolding stored
allowed_count_bound read_limit write_limit group now waits =
    let limit = limit_of read_limit write_limit group in
    rw (allowed_count-none read_limit write_limit group now waits) (
      allowed_count_written read_limit write_limit group now (stored (limit * token) now) waits
        (refl, refl, ground arith))
