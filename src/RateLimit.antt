-- ===== src/RateLimit.antt =====
-- internal/middleware/ratelimit.go: the token bucket of each client. Times are nanoseconds, and each
-- reading of the clock is an argument. `int(elapsed.Minutes())` goes through a float64, which is exact
-- up to 2^16 minutes; no product here comes near 2^63. Go measures a negative time when the clock
-- goes back, which is below a minute as the 0 here is.
mod Potential
mod Bound
mod Tests
use deploypilot.Base.{
  ℕ, ◌+◌, ◌-◌, ◌*◌, ◌/◌, Bool, true, false, not, Option, none, some, List, [], ◌∷◌, String, Dict,
  lookup, insert, retain, ltb, if◌then◌else◌,
}

pub record Bucket : Type 0 where
  pub tokens : ℕ
  pub last_refill : ℕ
  pub rate : ℕ

pub record RateLimiter : Type 0 where
  pub buckets : Dict Bucket
  pub rates : Dict ℕ
  pub default_rate : ℕ
  pub cleanup_interval : ℕ

abbrev pub minute : ℕ
minute = 60000000000

-- `NewRateLimiter`
pub new_rate_limiter : ℕ → ℕ → ℕ → ℕ → ℕ → RateLimiter
new_rate_limiter default_rate owner_rate admin_rate dev_rate viewer_rate = record {
  buckets = [];
  rates =
      ("owner", owner_rate)
      ∷ ("admin", admin_rate)
      ∷ ("dev", dev_rate)
      ∷ ("viewer", viewer_rate)
      ∷ [];
  default_rate = default_rate;
  cleanup_interval = 300000000000;
}

pub rate_of : Option ℕ → ℕ → ℕ
rate_of (some rate) old = rate
rate_of none old = old

-- The bucket that is there, at the rate of a role that has one, or a new one.
pub bucket_for : Option Bucket → Option ℕ → ℕ → ℕ → Bucket
unfolding rate_of
bucket_for (some b) rate default_rate now = record b { rate = rate_of rate b.rate }
bucket_for none rate default_rate now = record {
  tokens = rate_of rate default_rate;
  last_refill = now;
  rate = rate_of rate default_rate;
}

-- `getOrCreateBucket`; the caller stores the bucket, as the code changes it in place.
pub get_or_create_bucket : RateLimiter → String → String → ℕ → Bucket
unfolding bucket_for
get_or_create_bucket rl key role now =
    bucket_for (lookup key rl.buckets) (lookup role rl.rates) rl.default_rate now

pub capped : ℕ → ℕ → ℕ
capped tokens rate = if ltb rate tokens then rate else tokens

-- `refill`
pub refill : Bucket → ℕ → Bucket
unfolding capped
refill b now =
    let elapsed = now - b.last_refill in
    let minutes = elapsed / minute in
    if ltb elapsed minute then b else record b {
      tokens = capped (b.tokens + minutes * b.rate) b.rate;
      last_refill = b.last_refill + minutes * minute;
    }

pub put : RateLimiter → String → Bucket → RateLimiter
put rl key b = record rl { buckets = insert key b rl.buckets }

-- `allow`: the clock is read by `getOrCreateBucket`, where it creates one, and by `refill`.
pub allow : RateLimiter → String → String → ℕ → ℕ → RateLimiter × Bool
unfolding put
allow rl key role now now' =
    let b = refill (get_or_create_bucket rl key role now) now' in
    if ltb 0 b.tokens
    then (put rl key (record b { tokens = b.tokens - 1 }), true)
    else (put rl key b, false)

-- `remaining`
pub remaining : RateLimiter → String → String → ℕ → ℕ → RateLimiter × ℕ
unfolding put
remaining rl key role now now' =
    let b = refill (get_or_create_bucket rl key role now) now' in (put rl key b, b.tokens)

-- `cleanup`
pub cleanup : RateLimiter → ℕ → RateLimiter
cleanup rl now = record rl {
  buckets = retain (λ b. not (ltb (b.last_refill + 2 * rl.cleanup_interval) now)) rl.buckets;
}
