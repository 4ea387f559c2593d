-- ===== src/RateLimit/Eviction.antt =====
-- What `cleanup` evicts.
use auto_dev_os.Base.{
  ℕ, ◌+◌, ◌-◌, ◌*◌, ◌/◌, ◌≤◌, ◌<◌, String, ◌≡◌, refl, sym, ap, ◌∙◌, subst, Option, none, some, [],
  ◌∷◌, arith, ltb, eq_iff, inl, inr, Bool-cases, if◌then◌else◌, filter,
}
use auto_dev_os.Base.Counts.{count}
use auto_dev_os.Base.Dict.{Dict, lookup, lookup-insert, keys, count-keys-insert}
use native.Mathlib.Nat.{mul-le-mul_right}
use auto_dev_os.RateLimit.{
  Bucket, RateLimiter, refill_of, capped, refilled, take_token, use_bucket, allow, stale_after,
  is_kept, cleanup,
}
use auto_dev_os.RateLimit.Bounds.{div_super}

-- A key has one bucket, and no bucket holds more than the burst.
pub record IsBounded (rl : RateLimiter) : Type 0 where
  pub once : (k : String) → count k (keys rl.buckets) ≤ 1
  pub bounded : (k : String) (b : Bucket) → lookup k rl.buckets ≡ some b → b.tokens ≤ rl.burst

use_bucket-le :
    (rl : RateLimiter) (now : ℕ) (o : Option Bucket)
    → ((b : Bucket) → o ≡ some b → b.tokens ≤ rl.burst)
    → (use_bucket rl now o).0.tokens ≤ rl.burst
unfolding use_bucket take_token refilled capped
use_bucket-le rl now none h = omega arith
use_bucket-le rl now (some b) h = ground (arith, h b refl)

-- A call of `Allow` keeps each bucket at the burst or below, and each key at one bucket.
pub allow-IsBounded :
    (key : String) (now : ℕ) (rl : RateLimiter) → IsBounded rl → IsBounded (allow key now rl).0
unfolding allow
allow-IsBounded key now rl h =
    let used = (use_bucket rl now (lookup key rl.buckets)).0 in
    record {
      once = λ k.
          unfold count in
          ground
            (arith, count-keys-insert k key used rl.buckets, h.once k, h.once key, eq_iff key k);
      bounded = λ k b found. ground (
        arith,
        lookup-insert key k used rl.buckets,
        h.bounded k b,
        use_bucket-le rl now (lookup key rl.buckets) (h.bounded key),
      );
    }

absent-lookup : (k : String) (m : Dict Bucket) → count k (keys m) ≡ 0 → lookup k m ≡ none
unfolding keys count lookup
absent-lookup k [] h = refl
absent-lookup k ((j, b) ∷ m) h = ground (arith, absent-lookup k m)

count-filter-keys :
    (t : ℕ) (k : String) (m : Dict Bucket)
    → count k (keys (filter (is_kept t) m)) ≤ count k (keys m)
unfolding keys count
count-filter-keys t k [] = omega arith
count-filter-keys t k ((j, b) ∷ m) = ground (arith, count-filter-keys t k m)

-- The bucket that a tick leaves of a key.
left_of : ℕ → Option Bucket → Option Bucket
left_of t none = none
left_of t (some b) = if ltb (b.last_fill + stale_after) t then none else some b

lookup-filter :
    (t : ℕ) (k : String) (m : Dict Bucket)
    → count k (keys m) ≤ 1
    → lookup k (filter (is_kept t) m) ≡ left_of t (lookup k m)
unfolding left_of keys count lookup is_kept
lookup-filter t k [] once = refl
lookup-filter t k ((j, b) ∷ m) once =
    ground
      (arith, lookup-filter t k m, absent-lookup k (filter (is_kept t) m), count-filter-keys t k m)

-- A bucket that was filled last so long ago is full again, if the burst comes within that time.
stale-full :
    (rl : RateLimiter) (t now : ℕ) (b : Bucket)
    → 0 < rl.interval
    → 0 < rl.burst
    → rl.burst ≤ stale_after / rl.interval * rl.rate
    → b.last_fill + stale_after < t
    → t ≤ now
    → use_bucket rl now (some b) ≡ use_bucket rl now none
unfolding use_bucket take_token refilled capped refill_of
stale-full rl t now b tick room covered stale later =
    let spans : stale_after + (now - b.last_fill - stale_after) ≡ now - b.last_fill = omega arith in
    let whole : stale_after / rl.interval ≤ (now - b.last_fill) / rl.interval =
      subst (λ x. stale_after / rl.interval ≤ x / rl.interval) spans
        (omega (arith, div_super stale_after (now - b.last_fill - stale_after) rl.interval tick)) in
    let income : rl.burst ≤ (now - b.last_fill) / rl.interval * rl.rate =
      omega (arith, covered, mul-le-mul_right rl.rate whole) in
    ground (arith, income)

use_bucket-cleanup :
    (rl : RateLimiter) (t now : ℕ) (o : Option Bucket)
    → use_bucket (cleanup t rl) now o ≡ use_bucket rl now o
unfolding use_bucket take_token refilled refill_of cleanup
use_bucket-cleanup rl t now none = refl
use_bucket-cleanup rl t now (some b) = refl

use_bucket-left_of :
    (rl : RateLimiter) (t now : ℕ) (o : Option Bucket)
    → 0 < rl.interval
    → 0 < rl.burst
    → rl.burst ≤ stale_after / rl.interval * rl.rate
    → t ≤ now
    → use_bucket rl now (left_of t o) ≡ use_bucket rl now o
unfolding left_of
use_bucket-left_of rl t now none tick room covered later = refl
use_bucket-left_of rl t now (some b) tick room covered later =
    elim (Bool-cases (ltb (b.last_fill + stale_after) t)) [
      | inr fresh ↦ rw (fresh) refl
      | inl stale ↦
          rw (stale) (sym (stale-full rl t now b tick room covered (ground (arith, stale)) later))
    ]

-- Evicting stale buckets changes no later answer of `Allow`, if the rate fills a bucket within the
-- ten minutes after which a bucket is stale: the answer is the same, and so is the bucket that it
-- leaves.
pub cleanup-allow :
    (rl : RateLimiter) (key : String) (t now : ℕ)
    → 0 < rl.interval
    → 0 < rl.burst
    → rl.burst ≤ stale_after / rl.interval * rl.rate
    → IsBounded rl
    → t ≤ now
    → ((allow key now (cleanup t rl)).1 ≡ (allow key now rl).1)
      × (lookup key (allow key now (cleanup t rl)).0.buckets
          ≡ lookup key (allow key now rl).0.buckets)
unfolding allow cleanup
cleanup-allow rl key t now tick room covered h later =
    let same : use_bucket (cleanup t rl) now (lookup key (cleanup t rl).buckets)
        ≡ use_bucket rl now (lookup key rl.buckets) =
      use_bucket-cleanup rl t now _
      ∙ ap (use_bucket rl now) (lookup-filter t key rl.buckets (h.once key))
      ∙ use_bucket-left_of rl t now (lookup key rl.buckets) tick room covered later in
    (
      ap (λ p. p.1) same,
      ground (
        arith,
        eq_iff key key,
        lookup-insert key key (use_bucket (cleanup t rl) now (lookup key (cleanup t rl).buckets)).0
            (cleanup t rl).buckets,
        lookup-insert key key (use_bucket rl now (lookup key rl.buckets)).0 rl.buckets,
        ap (λ p. p.0) same,
      ),
    )
