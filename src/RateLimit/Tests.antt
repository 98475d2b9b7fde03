-- ===== src/RateLimit/Tests.antt =====
-- A concrete run of the rate limiter.
use deploypilot.Base.{
  ◌+◌, ◌-◌, ◌*◌, ◌/◌, ◌≤◌, ◌≡◌, refl, true, false, List, [], ◌∷◌, insert, lookup, arith,
}
use deploypilot.RateLimit.{
  minute, new_rate_limiter, allow, get_or_create_bucket, bucket_for, rate_of, refill, put, capped,
}
use deploypilot.RateLimit.Bound.{Op, asks, looks, cleans, accepted, accepted-le}

abbrev requests : List Op
requests =
    asks "u1" "viewer" 5 6
    ∷ looks "u1" "viewer" 7 7
    ∷ asks "u1" "viewer" 8 9
    ∷ asks "u2" "dev" 9 9
    ∷ cleans 10
    ∷ asks "u1" "viewer" 60000000020 60000000021
    ∷ []

accepted-le_example :
    accepted "u1" (new_rate_limiter 60 600 300 120 1) requests
    ≤ 600 + 600 * ((60000000030 - 5) / minute)
accepted-le_example =
    accepted-le 600 60000000030 "u1" 5 60 600 300 120 1 requests (omega arith) (omega arith)
      (omega arith) (omega arith) (omega arith)
      (
        omega arith,
        omega arith,
        omega arith,
        (
          omega arith,
          omega arith,
          omega arith,
          (
            omega arith,
            omega arith,
            omega arith,
            (
              omega arith,
              omega arith,
              omega arith,
              (omega arith, omega arith, omega arith, (omega arith, omega arith, omega arith, tt)),
            ),
          ),
        ),
      )

-- A viewer of one request per minute is let through once, and refused at once after.
one_per_minute :
    ((allow (new_rate_limiter 60 600 300 120 1) "u1" "viewer" 5 6).1 ≡ true)
    × ((allow (allow (new_rate_limiter 60 600 300 120 1) "u1" "viewer" 5 6).0 "u1" "viewer" 7 8).1
        ≡ false)
unfolding allow new_rate_limiter get_or_create_bucket bucket_for rate_of refill put capped insert
    lookup
one_per_minute = (refl, refl)
