-- ===== src/RateLimit.antt =====
-- server/internal/middleware/ratelimit.go: the token buckets that limit the requests of a key.
-- Times are nanoseconds of a clock that does not go back. Rate and burst are not negative, and the
-- products stay below the width of an int. A bucket that Go leaves at -1 tokens, as a burst of 0
-- does, behaves as one of 0.
pub mod Bounds
pub mod Eviction
mod Examples
use auto_dev_os.Base.{
  ℕ, ◌+◌, ◌-◌, ◌*◌, ◌/◌, ◌^◌, String, Bool, true, false, Option, none, some, List, [], ◌∷◌, ltb,
  leb, filter, if◌then◌else◌,
}
use auto_dev_os.Base.Dict.{Dict, lookup, insert}

-- `bucket`
pub record Bucket : Type 0 where
  pub tokens : ℕ
  pub last_fill : ℕ

-- `RateLimiter`
pub record RateLimiter : Type 0 where
  pub buckets : Dict Bucket
  pub rate : ℕ
  pub burst : ℕ
  pub interval : ℕ

-- `NewRateLimiter`
abbrev pub new_rate_limiter : (rate burst interval : ℕ) → RateLimiter
new_rate_limiter rate burst interval = record {
  buckets = [];
  rate = rate;
  burst = burst;
  interval = interval;
}

-- `int(elapsed/rl.interval) * rl.rate`
unfoldable pub refill_of : RateLimiter → ℕ → Bucket → ℕ
refill_of rl now b = (now - b.last_fill) / rl.interval * rl.rate

-- `if b.tokens > rl.burst { b.tokens = rl.burst }`
unfoldable pub capped : ℕ → ℕ → ℕ
capped burst tokens = if ltb burst tokens then burst else tokens

-- Refill tokens based on elapsed time.
unfoldable pub refilled : RateLimiter → ℕ → Bucket → Bucket
refilled rl now b =
    if ltb 0 (refill_of rl now b)
    then record { tokens = capped rl.burst (b.tokens + refill_of rl now b); last_fill = now }
    else b

-- The bucket afterwards, and whether a token was left.
unfoldable pub take_token : Bucket → Bucket × Bool
take_token b =
    if ltb 0 b.tokens
    then (record { tokens = b.tokens - 1; last_fill = b.last_fill }, true)
    else (b, false)

-- What `Allow` does with the bucket of its key.
unfoldable pub use_bucket : RateLimiter → ℕ → Option Bucket → Bucket × Bool
use_bucket rl now none = (record { tokens = rl.burst - 1; last_fill = now }, true)
use_bucket rl now (some b) = take_token (refilled rl now b)

-- `Allow`
unfoldable pub allow : String → ℕ → RateLimiter → RateLimiter × Bool
allow key now rl =
    let (b, answer) = use_bucket rl now (lookup key rl.buckets) in
    (record rl { buckets = insert key b rl.buckets }, answer)

abbrev pub stale_after : ℕ
stale_after = 10 * 60 * 10 ^ 9

-- `!b.lastFill.Before(cutoff)`
unfoldable pub is_kept : ℕ → String × Bucket → Bool
is_kept now (key, b) = if ltb (b.last_fill + stale_after) now then false else true

-- One tick of `cleanup`.
unfoldable pub cleanup : ℕ → RateLimiter → RateLimiter
cleanup now rl = record rl { buckets = filter (is_kept now) rl.buckets }
