-- ===== src/RateLimit.antt =====
-- The token bucket of `consumeRateLimit` in src/infrastructure/redis/redis.service.ts: the script
-- `LUA_TOKEN_BUCKET`, run by Redis as one step, and the decision made from its reply. The code counts
-- tokens and seconds in doubles and refills `capacity / 60` tokens a second; here instants are
-- milliseconds and tokens are counted in 1/60000 of one, so that the refill is exact: `capacity` of
-- them a millisecond. The rounding of doubles, a limit of 0, for which the script divides by 0, and a
-- clock of Redis other than that of the caller are not modelled.
mod Tests
pub mod Bounds
use node_b2b_orders.Base.{
  ℕ, ◌+◌, ◌-◌, ◌*◌, ◌/◌, Bool, true, false, Option, none, some, leb, ltb, min, if◌then◌else◌,
}

-- One token, and one minute in milliseconds.
abbrev pub token : ℕ
token = 60000

-- The hash under the key of the bucket, and when it expires.
pub record Bucket : Type 0 where
  pub tokens : ℕ
  pub ts : ℕ
  pub expires : ℕ

-- `RateLimitDecision`
pub record RateLimitDecision : Type 0 where
  pub allowed : Bool
  pub remaining : ℕ
  pub retry_after_seconds : ℕ
  pub limit : ℕ

-- `HMGET` of a key that is absent or expired gives nothing.
unfoldable pub live : ℕ → Option Bucket → Option Bucket
live now none = none
live now (some b) = if ltb now b.expires then some b else none

-- The tokens after the refill, at most `capacity`; a missing bucket is full.
unfoldable pub refilled : (capacity now : ℕ) → Option Bucket → ℕ
refilled capacity now none = capacity * token
refilled capacity now (some b) = min (capacity * token) (b.tokens + (now - b.ts) * capacity)

-- `ttl = ceil(capacity / (capacity / 60))` seconds, a minute.
unfoldable pub stored : (tokens now : ℕ) → Bucket
stored tokens now = record { tokens = tokens; ts = now; expires = now + token }

-- The script, for one requested token: whether it is allowed, and the bucket that it writes.
unfoldable pub take_token : (capacity now : ℕ) → Option Bucket → Bool × Bucket
unfolding live refilled stored
take_token capacity now found =
    let tokens = refilled capacity now (live now found) in
    if leb token tokens then (true, stored (tokens - token) now) else (false, stored tokens now)

-- `limit = group === 'write' ? writeLimit : readLimit`
pub data Group : Type 0 where
  read write : Group

abbrev pub limit_of : (read_limit write_limit : ℕ) → Group → ℕ
limit_of read_limit write_limit read = read_limit
limit_of read_limit write_limit write = write_limit

-- The decision, and the bucket of the tenant, the subject and the group afterwards.
unfoldable pub consume_rate_limit :
    (read_limit write_limit : ℕ) → Group → (now : ℕ) → Option Bucket → RateLimitDecision × Bucket
unfolding take_token
consume_rate_limit read_limit write_limit group now found =
    let limit = limit_of read_limit write_limit group in
    let (allowed, bucket) = take_token limit now found in
    (
      record {
        allowed = allowed;
        remaining = bucket.tokens / token;
        retry_after_seconds = if allowed then 0 else 1;
        limit = limit;
      },
      bucket,
    )
