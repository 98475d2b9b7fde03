-- ===== src/RateLimit/Potential.antt =====
-- internal/middleware/ratelimit.go: what a bucket can still let through, and how each step changes it.
use deploypilot.Base.{
  ℕ, ◌+◌, ◌-◌, not, ◌*◌, ◌/◌, ◌≤◌, ◌<◌, ◌≡◌, refl, false, Option, none, some, String, lookup,
  option_keep, ltb, arith, Bool-cases, inl, inr, string_tested,
}
use deploypilot.RateLimit.{
  Bucket, RateLimiter, minute, rate_of, bucket_for, get_or_create_bucket, refill, capped,
}

minutes_split :
    (l m t : ℕ) → l + m * minute ≤ t → m + (t - (l + m * minute)) / minute ≡ (t - l) / minute
minutes_split l m t h = omega (arith, h)

-- No rate of a limiter is over the bound, and a stale bucket is one that a minute would fill.
abbrev pub Limits : ℕ → RateLimiter → Type 0
Limits top rl =
    (rl.default_rate ≤ top)
    × ((role : String) (r : ℕ) → lookup role rl.rates ≡ some r → r ≤ top)
    × (minute ≤ 2 * rl.cleanup_interval)

abbrev pub RateOk : ℕ → Option Bucket → Type 0
RateOk top none = Unit
RateOk top (some b) = b.rate ≤ top

-- The most that a bucket lets through until the time `end`, if all rates are at most `top`.
unfoldable pub potential : ℕ → ℕ → ℕ → Option Bucket → ℕ
potential top end now none = top + top * ((end - now) / minute)
potential top end now (some b) = b.tokens + top * ((end - b.last_refill) / minute)

-- What the bucket of a key is after a call for it, before it is taken from.
unfoldable pub touched : RateLimiter → String → String → ℕ → ℕ → Bucket
touched rl key role now now' = refill (get_or_create_bucket rl key role now) now'

module _ (top end : ℕ) where
  spend : (m a b : ℕ) → m + a ≡ b → top * m + top * a ≡ top * b
  spend m a b e = grind (arith, e)

  small : {a : ℕ} → ltb a minute ≡ false → minute ≤ a
  small e = ground (arith, e)

  later : (t now : ℕ) → t ≤ now → top * ((end - now) / minute) ≤ top * ((end - t) / minute)
  later t now l =
      let fewer : (end - now) / minute ≤ (end - t) / minute = omega (arith, l) in grind arith

  rate_of_le :
      (o : Option ℕ) (old : ℕ) → ((r : ℕ) → o ≡ some r → r ≤ top) → old ≤ top → rate_of o old ≤ top
  unfolding rate_of
  rate_of_le none old h l = l
  rate_of_le (some r) old h l = h r refl

  refill-potential :
      (b : Bucket) (now t : ℕ)
      → b.rate ≤ top
      → now ≤ end
      → ((refill b now).rate ≤ top)
        × (potential top end t (some (refill b now)) ≤ potential top end t (some b))
  unfolding refill capped potential
  refill-potential b now t h l =
      let m = (now - b.last_refill) / minute in
      let more : m * b.rate ≤ top * m = grind arith in
      elim (Bool-cases (ltb (now - b.last_refill) minute)) [
        | inl e ↦ rw e (h, omega arith)
        | inr e ↦
            (let fits : b.last_refill + m * minute ≤ end = omega (arith, l, small e) in
              let same = spend m _ _ (minutes_split b.last_refill m end fits) in
              rw e (h, ground (arith, same, more)))
      ]

  created-potential :
      (o : Option Bucket) (rate : Option ℕ) (default_rate t now : ℕ)
      → default_rate ≤ top
      → ((r : ℕ) → rate ≡ some r → r ≤ top)
      → t ≤ now
      → RateOk top o
      → let b = bucket_for o rate default_rate now in
        (b.rate ≤ top) × (potential top end t (some b) ≤ potential top end t o)
  unfolding bucket_for potential
  created-potential none rate default_rate t now d r l h =
      let ok = rate_of_le rate default_rate r d in (ok, omega (arith, later t now l, ok))
  created-potential (some b) rate default_rate t now d r l h =
      (rate_of_le rate b.rate r h, omega arith)

  pub touched-potential :
      (rl : RateLimiter) (key role : String) (t now now' : ℕ)
      → Limits top rl
      → t ≤ now
      → now' ≤ end
      → RateOk top (lookup key rl.buckets)
      → ((touched rl key role now now').rate ≤ top)
        × (potential top end t (some (touched rl key role now now'))
            ≤ potential top end t (lookup key rl.buckets))
  unfolding touched get_or_create_bucket
  touched-potential rl key role t now now' lim l l' h =
      let b = get_or_create_bucket rl key role now in
      let (r, p) =
        created-potential (lookup key rl.buckets) (lookup role rl.rates) rl.default_rate t now lim.0
          (lim.1 role) l h in
      let (r', p') = refill-potential b now' t r l' in (r', omega (arith, p, p'))

  pub waits :
      (t now : ℕ) (o : Option Bucket) → t ≤ now → potential top end now o ≤ potential top end t o
  unfolding potential
  waits t now none l = omega (arith, later t now l)
  waits t now (some b) l = omega arith

  one_more : (a b : ℕ) → 1 + a ≤ b → top + top * a ≤ top * b
  one_more a b l = grind (arith, l)

  pub cleaned :
      (interval t now : ℕ) (o : Option Bucket)
      → minute ≤ 2 * interval
      → t ≤ now
      → now ≤ end
      → RateOk top o
      → let o' = option_keep (λ b. not (ltb (b.last_refill + 2 * interval) now)) o in
        RateOk top o' × (potential top end now o' ≤ potential top end t o)
  unfolding potential
  cleaned interval t now none m a c h = (tt, omega (arith, later t now a))
  cleaned interval t now (some b) m a c h =
      elim (Bool-cases (ltb (b.last_refill + 2 * interval) now)) [
        | inl e ↦
            (let stale : b.last_refill + 2 * interval < now = ground (arith, e) in
              let fewer : 1 + (end - now) / minute ≤ (end - b.last_refill) / minute =
                omega (arith, stale, m, c) in
              rw e (tt, omega (arith, one_more _ _ fewer)))
        | inr e ↦ rw e (h, omega arith)
      ]
