-- ===== src/RateLimit/Bounds.antt =====
-- How many requests a key gets through.
use auto_dev_os.Base.{
  ℕ, suc, ◌+◌, ◌-◌, ◌*◌, ◌/◌, ◌≤◌, ◌<◌, String, ◌≡◌, refl, sym, ap, subst, Option, none, some, List,
  [], ◌∷◌, arith, ◌==◌, eq_iff, eq-cases, inl, inr, if◌then◌else◌,
}
use auto_dev_os.Base.Dict.{lookup, lookup-insert}
use native.Mathlib.Nat.{le-div_iff_mul-le, div-mul-le_self, add-mul, mul-le-mul_right}
use auto_dev_os.RateLimit.{
  Bucket, RateLimiter, refill_of, capped, refilled, take_token, use_bucket, allow,
}

-- Calls of `Allow`, and how many of them for a key are answered with true.
pub served : String → List (String × ℕ) → RateLimiter → ℕ
served k [] rl = 0
served k ((key, now) ∷ rest) rl =
    let (rl', answer) = allow key now rl in
    let later = served k rest rl' in if key == k then if answer then suc later else later else later

-- The calls stand in the order of their times, from `start` to `end`.
abbrev pub Ordered : ℕ → ℕ → List (String × ℕ) → Type 0
Ordered start end [] = start ≤ end
Ordered start end ((key, now) ∷ rest) = (start ≤ now) × Ordered now end rest

-- Whole intervals of two spans fit into the whole intervals of both.
pub div_super : (a b n : ℕ) → 0 < n → a / n + b / n ≤ (a + b) / n
div_super a b n h =
    (le-div_iff_mul-le h).1
      (omega (arith, add-mul (a / n) (b / n) n, div-mul-le_self a n, div-mul-le_self b n))

-- What whole intervals bring from one time to another.
income : RateLimiter → ℕ → ℕ → ℕ
income rl from to = (to - from) / rl.interval * rl.rate

income-le :
    (rl : RateLimiter) (from now to : ℕ)
    → 0 < rl.interval
    → from ≤ now
    → now ≤ to
    → income rl from now + income rl now to ≤ income rl from to
unfolding income
income-le rl from now to tick first then_on =
    let spans : (now - from) + (to - now) ≡ to - from = omega arith in
    let whole : (now - from) / rl.interval + (to - now) / rl.interval ≤ (to - from) / rl.interval =
      subst (λ t. (now - from) / rl.interval + (to - now) / rl.interval ≤ t / rl.interval) spans
        (div_super (now - from) (to - now) rl.interval tick) in
    omega (
      arith,
      mul-le-mul_right rl.rate whole,
      add-mul ((now - from) / rl.interval) ((to - now) / rl.interval) rl.rate,
    )

-- The tokens that a key can still get until `end`.
allowance : RateLimiter → ℕ → ℕ → Option Bucket → ℕ
allowance rl start end none = rl.burst + income rl start end
allowance rl start end (some b) = b.tokens + income rl b.last_fill end

IsPast : ℕ → Option Bucket → Type 0
IsPast now none = Unit
IsPast now (some b) = b.last_fill ≤ now

refilled-allowance :
    (rl : RateLimiter) (b : Bucket) (now end : ℕ)
    → 0 < rl.interval
    → b.last_fill ≤ now
    → now ≤ end
    → ((refilled rl now b).tokens + income rl (refilled rl now b).last_fill end
        ≤ b.tokens + income rl b.last_fill end)
      × ((refilled rl now b).last_fill ≤ now)
unfolding refilled refill_of capped
refilled-allowance rl b now end tick past left =
    let more = income-le rl b.last_fill now end tick past left in
    (unfold income in ground (arith, more), ground arith)

use_bucket-allowance :
    (rl : RateLimiter) (o : Option Bucket) (start now end : ℕ)
    → 0 < rl.interval
    → 0 < rl.burst
    → IsPast start o
    → start ≤ now
    → now ≤ end
    → ((if (use_bucket rl now o).1 then 1 else 0)
          + allowance rl now end (some (use_bucket rl now o).0)
        ≤ allowance rl start end o)
      × ((use_bucket rl now o).0.last_fill ≤ now)
unfolding use_bucket take_token allowance IsPast
use_bucket-allowance rl none start now end tick room past first left =
    (omega (arith, income-le rl start now end tick first left), omega arith)
use_bucket-allowance rl (some b) start now end tick room past first left =
    let (kept, recent) = refilled-allowance rl b now end tick (omega arith) left in
    (ground (arith, kept), ground (arith, recent))

Ordered-le : (start end : ℕ) (calls : List (String × ℕ)) → Ordered start end calls → start ≤ end
Ordered-le start end [] h = h
Ordered-le start end ((key, now) ∷ rest) h = omega (arith, h.0, Ordered-le now end rest h.1)

-- Waiting leaves no more to get.
allowance-wait :
    (rl : RateLimiter) (o : Option Bucket) (start now end : ℕ)
    → 0 < rl.interval
    → start ≤ now
    → now ≤ end
    → IsPast start o
    → (allowance rl now end o ≤ allowance rl start end o) × IsPast now o
unfolding allowance IsPast
allowance-wait rl none start now end tick first left past =
    (omega (arith, income-le rl start now end tick first left), tt)
allowance-wait rl (some b) start now end tick first left past = (omega arith, omega arith)

-- A call changes the bucket of its key and nothing else.
allowance-allow :
    (rl : RateLimiter) (key : String) (time start end : ℕ) (o : Option Bucket)
    → allowance (allow key time rl).0 start end o ≡ allowance rl start end o
unfolding allowance income allow
allowance-allow rl key time start end none = refl
allowance-allow rl key time start end (some b) = refl

lookup-allow :
    (rl : RateLimiter) (key k : String) (now : ℕ)
    → lookup k (allow key now rl).0.buckets ≡ (
        if key == k
        then some (use_bucket rl now (lookup key rl.buckets)).0
        else lookup k rl.buckets)
unfolding allow
lookup-allow rl key k now =
    lookup-insert key k (use_bucket rl now (lookup key rl.buckets)).0 rl.buckets

served-cons :
    (k key : String) (now : ℕ) (rest : List (String × ℕ)) (rl : RateLimiter)
    → served k ((key, now) ∷ rest) rl
      ≡ (if key == k then (if (use_bucket rl now (lookup key rl.buckets)).1 then 1 else 0) else 0)
        + served k rest (allow key now rl).0
unfolding served allow
served-cons k key now rest rl = ground arith

IsPast-none : (now : ℕ) → IsPast now none
unfolding IsPast
IsPast-none now = tt

IsPast-some : (now : ℕ) (b : Bucket) → b.last_fill ≤ now → IsPast now (some b)
unfolding IsPast
IsPast-some now b h = h

allow-interval :
    (rl : RateLimiter) (key : String) (now : ℕ)
    → ((allow key now rl).0.interval ≡ rl.interval) × ((allow key now rl).0.burst ≡ rl.burst)
unfolding allow
allow-interval rl key now = (refl, refl)

served-le :
    (k : String) (calls : List (String × ℕ)) (rl : RateLimiter) (start end : ℕ)
    → 0 < rl.interval
    → 0 < rl.burst
    → Ordered start end calls
    → IsPast start (lookup k rl.buckets)
    → served k calls rl ≤ allowance rl start end (lookup k rl.buckets)
served-le k [] rl start end tick room ordered past = unfold served in omega arith
served-le k ((key, now) ∷ rest) rl start end tick room (first, ordered) past =
    let used = use_bucket rl now (lookup key rl.buckets) in
    let after = (allow key now rl).0 in
    let left = Ordered-le now end rest ordered in
    let (same_interval, same_burst) = allow-interval rl key now in
    let tick' : 0 < after.interval = rw (same_interval) tick in
    let room' : 0 < after.burst = rw (same_burst) room in
    elim (eq-cases key k) [
      | inl same ↦
          let past' : IsPast start (lookup key rl.buckets) =
            subst (λ j. IsPast start (lookup j rl.buckets)) (sym same) past in
          let (spent, recent) =
            use_bucket-allowance rl (lookup key rl.buckets) start now end tick room past' first
              left in
          let found : lookup k after.buckets ≡ some used.0 =
            ground (arith, lookup-allow rl key k now, eq_iff key k) in
          let rest_le =
            served-le k rest after now end tick' room' ordered
              (subst (IsPast now) (sym found) (IsPast-some now used.0 recent)) in
          ground (
            arith,
            served-cons k key now rest rl,
            eq_iff key k,
            spent,
            allowance-allow rl key now now end (some used.0),
            subst (λ o. served k rest after ≤ allowance after now end o) found rest_le,
            ap (λ j. allowance rl start end (lookup j rl.buckets)) same,
          )
      | inr other ↦
          let found : lookup k after.buckets ≡ lookup k rl.buckets =
            ground (arith, lookup-allow rl key k now) in
          let (less, past') =
            allowance-wait rl (lookup k rl.buckets) start now end tick first left past in
          let rest_le =
            served-le k rest after now end tick' room' ordered
              (subst (IsPast now) (sym found) past') in
          ground (
            arith,
            served-cons k key now rest rl,
            less,
            allowance-allow rl key now now end (lookup k rl.buckets),
            subst (λ o. served k rest after ≤ allowance after now end o) found rest_le,
          )
    ]

-- Of the calls between two times, a limiter that has no bucket of the key yet answers at most the
-- burst and, for each whole interval between the times, the rate with true. The interval and the
-- burst are not 0, the calls may be of any keys and stand in the order of their times, and no bucket
-- is evicted between them.
pub served_bound :
    (k : String) (calls : List (String × ℕ)) (rl : RateLimiter) (start end : ℕ)
    → 0 < rl.interval
    → 0 < rl.burst
    → Ordered start end calls
    → lookup k rl.buckets ≡ none
    → served k calls rl ≤ rl.burst + (end - start) / rl.interval * rl.rate
unfolding allowance income
served_bound k calls rl start end tick room ordered new =
    subst (λ o. served k calls rl ≤ allowance rl start end o) new
      (served-le k calls rl start end tick room ordered
        (subst (IsPast start) (sym new) (IsPast-none start)))
