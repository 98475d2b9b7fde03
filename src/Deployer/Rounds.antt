-- ===== src/Deployer/Rounds.antt =====
-- internal/engine/deployer/deployer.go and health.go: the loops of the health checks.
use deploypilot.Base.{
  ◌≢◌, ◌⊎◌, ◌==◌, text_tested, codes, Bool, false, if◌then◌else◌, ℕ, zero, suc, ◌+◌, ◌<◌, ◌≡◌, ◌↔◌,
  refl, Bool-cases, inl, inr, true, false, List, ◌∷◌, Text, arith,
}
use deploypilot.Strings.{to_lower}
use deploypilot.Deployer.Health.{
  HealthResult, Probes, run_check, Probe, CheckError, check, probe_rounds, no_error, context_done,
  attempt_failed,
}

-- The commands after `k` more rounds of a check.
abbrev pub rounds_log : Text → ℕ → List Text → List Text
rounds_log cmd zero log = log
rounds_log cmd (suc k) log = rounds_log cmd k (cmd ∷ log)

-- From round `i` on a probe fails `k` times, with the context not done, and then `Q` holds.
abbrev pub FailsThen : Probe → (ℕ → Type 0) → ℕ → ℕ → Type 0
FailsThen p Q i zero = Q i
FailsThen p Q i (suc k) = (p.done i ≡ false) × (p.succeeds i ≡ false) × FailsThen p Q (suc i) k

abbrev pub Succeeds : Probe → ℕ → Type 0
Succeeds p i = (p.done i ≡ false) × (p.succeeds i ≡ true)

abbrev pub IsDone : Probe → ℕ → Type 0
IsDone p i = p.done i ≡ true

module _ (p : Probe) (n : ℕ) where
  success_rounds :
      (i k left : ℕ) (last : CheckError)
      → k < left
      → FailsThen p (Succeeds p) i k
      → probe_rounds p n i last left
        ≡ record { healthy = true; attempts = i + k + 1; error = no_error }
  unfolding probe_rounds
  success_rounds i k zero last l f = elim l [ ]
  success_rounds i zero (suc left) last l f = ground arith
  success_rounds i (suc k) (suc left) last l f =
      ground (arith, success_rounds (suc i) k left (attempt_failed (i + 1)) (omega arith) f.2)

  done_rounds :
      (i k left : ℕ) (last : CheckError)
      → k < left
      → FailsThen p (IsDone p) i k
      → probe_rounds p n i last left
        ≡ record { healthy = false; attempts = i + k + 1; error = context_done }
  unfolding probe_rounds
  done_rounds i k zero last l f = elim l [ ]
  done_rounds i zero (suc left) last l f = ground arith
  done_rounds i (suc k) (suc left) last l f =
      ground (arith, done_rounds (suc i) k left (attempt_failed (i + 1)) (omega arith) f.2)

  failed_rounds :
      (i left : ℕ) (last : CheckError)
      → FailsThen p (λ j. Unit {0}) i (suc left)
      → probe_rounds p n i last (suc left)
        ≡ record { healthy = false; attempts = n; error = attempt_failed (i + left + 1) }
  unfolding probe_rounds
  failed_rounds i zero last f = ground arith
  failed_rounds i (suc left) last f =
      ground (arith, failed_rounds (suc i) left (attempt_failed (i + 1)) f.2)

module _ (p : Probe) (n : ℕ) where
  finds_success :
      (i left : ℕ) (last : CheckError)
      → (probe_rounds p n i last left).healthy ≡ true
      → (k : ℕ) × (k < left) × FailsThen p (Succeeds p) i k
  unfolding probe_rounds
  finds_success i zero last h = cc h
  finds_success i (suc left) last h = elim (Bool-cases (p.done i)) [
    | inl over ↦ absurd (ground (arith, h, over))
    | inr on ↦ elim (Bool-cases (p.succeeds i)) [
      | inl up ↦ (0, omega arith, (on, up))
      | inr down ↦
          let (k, l, f) =
            finds_success (suc i) left (attempt_failed (i + 1)) (ground (arith, h, on, down)) in
          (suc k, omega (arith, l), (on, down, f))
    ]
  ]

-- A check of `n` rounds finds the container healthy exactly if in one of them the probe succeeds, and in
-- no round up to it the context is done.
pub healthy_iff :
    (p : Probe) (n : ℕ)
    → ((check p n).healthy ≡ true) ↔ ((k : ℕ) × (k < n) × FailsThen p (Succeeds p) 0 k)
unfolding check
healthy_iff p n =
    (finds_success p n 0 n no_error, λ x. rw (success_rounds p n 0 x.0 n no_error x.1 x.2) refl)

-- A check of `n` rounds whose probe succeeds for the first time in round `k`, counted from 0, is
-- healthy after `k + 1` attempts. One whose context is done first, at round `k`, is unhealthy with
-- `k + 1` attempts. One of `k + 1` rounds that fails in all of them is unhealthy after as many
-- attempts, and its error names the last.
pub check_result :
    (p : Probe) (n k : ℕ)
    → (k < n
        → FailsThen p (Succeeds p) 0 k
        → check p n ≡ record { healthy = true; attempts = k + 1; error = no_error })
      × (k < n
          → FailsThen p (IsDone p) 0 k
          → check p n ≡ record { healthy = false; attempts = k + 1; error = context_done })
      × (FailsThen p (λ j. Unit {0}) 0 (suc k)
          → check p (suc k)
            ≡ record { healthy = false; attempts = suc k; error = attempt_failed (suc k) })
unfolding check
check_result p n k = (
  λ l f. ground (arith, success_rounds p n 0 k n no_error l f),
  λ l f. ground (arith, done_rounds p n 0 k n no_error l f),
  λ f. ground (arith, failed_rounds p (suc k) 0 k no_error f),
)

-- One of the three rounds of a check succeeds, and in none up to it the context is done.
abbrev pub Up : Probe → Type 0
Up p = (k : ℕ) × (k < 3) × FailsThen p (Succeeds p) 0 k

-- The check of the kind that is asked for succeeds, and no check is made for another kind.
abbrev pub IsHealthy : Probes → Text → Type 0
IsHealthy p kind =
    ((to_lower kind ≡ codes "http") × Up p.http)
    ⊎ ((to_lower kind ≡ codes "tcp") × Up p.tcp)
    ⊎ ((to_lower kind ≢ codes "http") × (to_lower kind ≢ codes "tcp"))

two_kinds : (kind : Text) → kind ≡ codes "http" → ¬ (kind ≡ codes "tcp")
two_kinds kind e f = cc (e, f)

pub not_true : (b : Bool) → ¬ (b ≡ true) → b ≡ false
not_true true n = absurd (n refl)
not_true false n = refl

by_kind :
    {H T U V : Type 0} (a b : Bool) (r s t : HealthResult)
    → ¬ (H × T)
    → (a ≡ true) ↔ H
    → (b ≡ true) ↔ T
    → (r.healthy ≡ true) ↔ U
    → (s.healthy ≡ true) ↔ V
    → t.healthy ≡ true
    → ((if a then r else if b then s else t).healthy ≡ true) ↔ ((H × U) ⊎ (T × V) ⊎ ((¬ H) × (¬ T)))
by_kind true true r s t n k l u v e = absurd (n (k.0 refl, l.0 refl))
by_kind true false r s t n k l u v e = (
  λ i. inl (k.0 refl, u.0 i),
  λ x. elim x [
    | inl y ↦ u.1 y.1
    | inr z ↦ elim z [ inl y ↦ absurd (n (k.0 refl, y.0)) | inr y ↦ absurd (y.0 (k.0 refl)) ]
  ],
)
by_kind false true r s t n k l u v e = (
  λ i. inr (inl (l.0 refl, v.0 i)),
  λ x. elim x [
    | inl y ↦ absurd (n (y.0, l.0 refl))
    | inr z ↦ elim z [ inl y ↦ v.1 y.1 | inr y ↦ absurd (y.1 (l.0 refl)) ]
  ],
)
by_kind false false r s t n k l u v e = (λ i. inr (inr (λ x. cc (k.1 x), λ x. cc (l.1 x))), λ x. e)

pub run_check_iff :
    (p : Probes) (kind : Text) → ((run_check p kind).healthy ≡ true) ↔ IsHealthy p kind
unfolding run_check
run_check_iff p kind =
    by_kind (to_lower kind == codes "http") (to_lower kind == codes "tcp") (check p.http 3)
      (check p.tcp 3) _ (λ x. two_kinds (to_lower kind) x.0 x.1)
      (text_tested.same_iff (to_lower kind) (codes "http"))
      (text_tested.same_iff (to_lower kind) (codes "tcp")) (healthy_iff p.http 3)
      (healthy_iff p.tcp 3) refl
