-- ===== src/RateLimit/Examples.antt =====
-- The limiter at concrete calls.
use auto_dev_os.Base.{
  ℕ, ◌+◌, ◌-◌, ◌*◌, ◌/◌, ◌^◌, ◌≤◌, String, ◌≡◌, refl, none, List, [], ◌∷◌, arith,
}
use auto_dev_os.Base.Counts.{count}
use auto_dev_os.Base.Dict.{lookup, keys}
use auto_dev_os.RateLimit.{RateLimiter, new_rate_limiter, allow, cleanup}
use auto_dev_os.RateLimit.Bounds.{served, Ordered, served_bound}
use auto_dev_os.RateLimit.Eviction.{IsBounded, cleanup-allow}

-- Two at once, and one more in each ten nanoseconds.
abbrev slow : RateLimiter
slow = new_rate_limiter 1 2 10

abbrev calls : List (String × ℕ)
calls = ("ann", 0) ∷ ("bob", 1) ∷ ("ann", 1) ∷ ("ann", 2) ∷ ("ann", 12) ∷ []

calls-Ordered : Ordered 0 12 calls
calls-Ordered =
    (omega arith, (omega arith, (omega arith, (omega arith, (omega arith, omega arith)))))

ann_new : lookup "ann" slow.buckets ≡ none
unfolding lookup
ann_new = refl

served_bound_example : served "ann" calls slow ≤ 2 + (12 - 0) / 10 * 1
served_bound_example =
    served_bound "ann" calls slow 0 12 (omega arith) (omega arith) calls-Ordered ann_new

-- The limiter of the server's router, with a bucket that was emptied at the start.
abbrev router_limiter : RateLimiter
router_limiter = record {
  buckets = ("ann", record { tokens = 0; last_fill = 0 }) ∷ [];
  rate = 60;
  burst = 120;
  interval = 10 ^ 9;
}

router_limiter-IsBounded : IsBounded router_limiter
unfolding lookup keys count
router_limiter-IsBounded = record {
  once = λ k. ground arith;
  bounded = λ k b found. ground (arith, found);
}

cleanup-allow_example :
    ((allow "ann" (800 * 10 ^ 9) (cleanup (700 * 10 ^ 9) router_limiter)).1
      ≡ (allow "ann" (800 * 10 ^ 9) router_limiter).1)
    × (lookup "ann" (allow "ann" (800 * 10 ^ 9) (cleanup (700 * 10 ^ 9) router_limiter)).0.buckets
        ≡ lookup "ann" (allow "ann" (800 * 10 ^ 9) router_limiter).0.buckets)
cleanup-allow_example =
    cleanup-allow router_limiter "ann" (700 * 10 ^ 9) (800 * 10 ^ 9) (omega arith) (omega arith)
      (omega arith) router_limiter-IsBounded (omega arith)
