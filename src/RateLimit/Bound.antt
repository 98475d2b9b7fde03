-- ===== src/RateLimit/Bound.antt =====
-- internal/middleware/ratelimit.go: how many requests of one client are let through.
use deploypilot.Base.{
  ℕ, suc, ◌+◌, ◌-◌, not, ◌*◌, ◌/◌, ◌≤◌, ◌≡◌, Bool, true, false, some, List, [], ◌∷◌, String, Dict,
  lookup, insert, subst, sym, ◌&&◌, lookup-insert, lookup-retain, ltb, if◌then◌else◌, arith,
  Bool-cases, inl, inr, ◌==◌, string_tested,
}
use deploypilot.RateLimit.{
  Bucket, RateLimiter, minute, put, allow, remaining, cleanup, new_rate_limiter,
}
use deploypilot.RateLimit.Potential.{
  Limits, RateOk, potential, touched, touched-potential, waits, cleaned,
}

-- A call of the limiter with its readings of the clock.
pub data Op : Type 0 where
  asks : String → String → ℕ → ℕ → Op
  looks : String → String → ℕ → ℕ → Op
  cleans : ℕ → Op

-- The limiter after a call, and whether the call let a request of the key through.
apply : String → RateLimiter → Op → RateLimiter × Bool
apply k rl (asks key role now now') =
    let (rl', passed) = allow rl key role now now' in (rl', passed && key == k)
apply k rl (looks key role now now') = ((remaining rl key role now now').0, false)
apply k rl (cleans now) = (cleanup rl now, false)

-- How many requests of the key are let through.
pub accepted : String → RateLimiter → List Op → ℕ
unfolding apply
accepted k rl [] = 0
accepted k rl (o ∷ os) =
    let (rl', passed) = apply k rl o in
    let rest = accepted k rl' os in if passed then suc rest else rest

abbrev pub started : Op → ℕ
started (asks key role now now') = now
started (looks key role now now') = now
started (cleans now) = now

abbrev pub finished : Op → ℕ
finished (asks key role now now') = now'
finished (looks key role now now') = now'
finished (cleans now) = now

-- The readings of the clock ascend, from one time to another.
abbrev pub Ascends : ℕ → ℕ → List Op → Type 0
Ascends t end [] = Unit
Ascends t end (o ∷ os) =
    (t ≤ started o) × (started o ≤ finished o) × (finished o ≤ end) × Ascends (finished o) end os

module _ (top end : ℕ) where
  -- A bucket that is stored for one key, after which `n` requests of it are let through.
  stores :
      (k key : String) (t t' n : ℕ) (m : Dict Bucket) (b : Bucket)
      → t ≤ t'
      → (key ≡ k
          → (b.rate ≤ top) × (n + potential top end t (some b) ≤ potential top end t (lookup k m)))
      → RateOk top (lookup k m)
      → RateOk top (lookup k (insert key b m))
        × ((if key == k then n else 0) + potential top end t' (lookup k (insert key b m))
            ≤ potential top end t (lookup k m))
  stores k key t t' n m b l own h = elim (Bool-cases (key == k)) [
    | inl e ↦
        (let (r, p) = own ((string_tested.same_iff key k).0 e) in
          rw (lookup-insert key k b m, e) (r, omega (arith, waits top end t t' (some b) l, p)))
    | inr e ↦ rw (lookup-insert key k b m, e) (h, omega (arith, waits top end t t' (lookup k m) l))
  ]

  -- What a call leaves of one key.
  abbrev Step : String → ℕ → RateLimiter → Op → Type 0
  Step k t rl o =
      let (rl', passed) = apply k rl o in
      Limits top rl'
      × RateOk top (lookup k rl'.buckets)
      × ((if passed then 1 else 0) + potential top end (finished o) (lookup k rl'.buckets)
          ≤ potential top end t (lookup k rl.buckets))

  module _ (k : String) (t : ℕ) (rl : RateLimiter) (lim : Limits top rl)
      (h : RateOk top (lookup k rl.buckets)) where
    own_key :
        (key role : String) (now now' : ℕ)
        → t ≤ now
        → now' ≤ end
        → key ≡ k
        → let b = touched rl key role now now' in
          (b.rate ≤ top)
          × (potential top end t (some b) ≤ potential top end t (lookup k rl.buckets))
    own_key key role now now' a c e =
        let b = touched rl key role now now' in
        subst
          (λ j.
            (b.rate ≤ top)
            × (potential top end t (some b) ≤ potential top end t (lookup j rl.buckets)))
          e
          (touched-potential top end rl key role t now now' lim a c
            (subst (λ j. RateOk top (lookup j rl.buckets)) (sym e) h))

    own_key_taken :
        (key role : String) (now now' : ℕ)
        → t ≤ now
        → now' ≤ end
        → let b = touched rl key role now now' in
          ltb 0 b.tokens ≡ true
          → key ≡ k
          → (b.rate ≤ top)
            × (1 + potential top end t (some (record b { tokens = b.tokens - 1 }))
                ≤ potential top end t (lookup k rl.buckets))
    unfolding potential
    own_key_taken key role now now' a c e same =
        let (q, p) = own_key key role now now' a c same in (q, ground (arith, p, e))

    own_key_kept :
        (key role : String) (now now' : ℕ)
        → t ≤ now
        → now' ≤ end
        → key ≡ k
        → let b = touched rl key role now now' in
          (b.rate ≤ top)
          × (0 + potential top end t (some b) ≤ potential top end t (lookup k rl.buckets))
    own_key_kept key role now now' a c same =
        let (q, p) = own_key key role now now' a c same in (q, omega (arith, p))

    step_asks :
        (key role : String) (now now' : ℕ)
        → t ≤ now
        → now ≤ now'
        → now' ≤ end
        → Step k t rl (asks key role now now')
    unfolding apply allow put touched
    step_asks key role now now' a b c =
        let r = touched rl key role now now' in
        elim (Bool-cases (ltb 0 r.tokens)) [
          | inl e ↦
              (let (x, y) =
                  stores k key t now' 1 rl.buckets (record r { tokens = r.tokens - 1 })
                    (omega (arith, a, b)) (own_key_taken key role now now' a c e) h in
                rw e (lim, x, y))
          | inr e ↦
              (let (x, y) =
                  stores k key t now' 0 rl.buckets r (omega (arith, a, b))
                    (own_key_kept key role now now' a c) h in
                rw e (lim, x, ground (arith, y)))
        ]

    step_looks :
        (key role : String) (now now' : ℕ)
        → t ≤ now
        → now ≤ now'
        → now' ≤ end
        → Step k t rl (looks key role now now')
    unfolding apply remaining put touched
    step_looks key role now now' a b c =
        let (x, y) =
          stores k key t now' 0 rl.buckets (touched rl key role now now') (omega (arith, a, b))
            (own_key_kept key role now now' a c) h in
        (lim, x, ground (arith, y))

    step_cleans : (now : ℕ) → t ≤ now → now ≤ end → Step k t rl (cleans now)
    unfolding apply cleanup
    step_cleans now a c =
        rw
          (lookup-retain (λ b. not (ltb (b.last_refill + 2 * rl.cleanup_interval) now)) k
            rl.buckets)
          (let (x, y) =
              cleaned top end rl.cleanup_interval t now (lookup k rl.buckets) lim.2 a c h in
            (lim, x, omega (arith, y)))

  step :
      (k : String) (t : ℕ) (rl : RateLimiter) (o : Op)
      → Limits top rl
      → RateOk top (lookup k rl.buckets)
      → t ≤ started o
      → started o ≤ finished o
      → finished o ≤ end
      → Step k t rl o
  step k t rl (asks key role now now') lim h a b c = step_asks k t rl lim h key role now now' a b c
  step k t rl (looks key role now now') lim h a b c =
      step_looks k t rl lim h key role now now' a b c
  step k t rl (cleans now) lim h a b c = step_cleans k t rl lim h now a c

  accepted-le-potential :
      (k : String) (t : ℕ) (rl : RateLimiter) (os : List Op)
      → Limits top rl
      → RateOk top (lookup k rl.buckets)
      → Ascends t end os
      → accepted k rl os ≤ potential top end t (lookup k rl.buckets)
  unfolding accepted
  accepted-le-potential k t rl [] lim h a = omega arith
  accepted-le-potential k t rl (o ∷ os) lim h a =
      let (lim', h', p) = step k t rl o lim h a.0 a.1 a.2 in
      let rest = accepted-le-potential k (finished o) (apply k rl o).0 os lim' h' a.3 in
      ground (arith, rest, p)

  -- What the limiter promises: whatever requests of any clients arrive in any order, and whenever the
  -- cleanup runs, while the clock goes from `start` to `end`, one client gets at most one full bucket and
  -- as many tokens again for each whole minute that has passed. `top` is a bound of all the rates.
  pub accepted-le :
      (k : String) (start default_rate owner_rate admin_rate dev_rate viewer_rate : ℕ)
      (os : List Op)
      → default_rate ≤ top
      → owner_rate ≤ top
      → admin_rate ≤ top
      → dev_rate ≤ top
      → viewer_rate ≤ top
      → Ascends start end os
      → accepted k (new_rate_limiter default_rate owner_rate admin_rate dev_rate viewer_rate) os
        ≤ top + top * ((end - start) / minute)
  unfolding new_rate_limiter potential lookup
  accepted-le k start default_rate owner_rate admin_rate dev_rate viewer_rate os a b c d e asc =
      accepted-le-potential k start
        (new_rate_limiter default_rate owner_rate admin_rate dev_rate viewer_rate) os
        (a, λ role r f. ground (arith, f), omega arith) tt asc
