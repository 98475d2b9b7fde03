-- ===== src/Healer/Tracker.antt =====
-- internal/engine/healer/healer.go: the attempts of a container that one window holds.
use deploypilot.Base.{
  ℕ, ◌+◌, ◌≤◌, ◌≡◌, refl, ap, ◌∙◌, ◌&&◌, List, [], ◌∷◌, ◌++◌, String, Dict, lookup, insert,
  lookup-insert, length, keep_if, count_if, ltb, if◌then◌else◌, arith, Bool-cases, inl, inr, ◌==◌,
  string_tested,
}
use deploypilot.Healer.{Healer, attempts_of, record_restart, recent, count_recent_restarts}

-- The attempts that a window that ends after `end` holds.
live : ℕ → ℕ → List ℕ → ℕ
live window end ts = count_if (λ t. ltb end (t + window)) ts

live-recent :
    (window now end : ℕ) (ts : List ℕ)
    → now ≤ end
    → live window end (recent window now ts) ≡ live window end ts
unfolding live recent keep_if count_if
live-recent window now end [] l = refl
live-recent window now end (t ∷ ts) l = ground (arith, live-recent window now end ts l)

live-length : (window end : ℕ) (ts : List ℕ) → live window end ts ≤ length ts
unfolding live count_if
live-length window end [] = omega arith
live-length window end (t ∷ ts) = ground (arith, live-length window end ts)

live-snoc :
    (window end t : ℕ) (ts : List ℕ)
    → live window end (ts ++ t ∷ []) ≡ live window end ts + (if ltb end (t + window) then 1 else 0)
unfolding live count_if
live-snoc window end t [] = ground arith
live-snoc window end t (a ∷ ts) = ground (arith, live-snoc window end t ts)

pub tracked : String → ℕ → Healer → ℕ
tracked k end h = live h.config.restart_window end (attempts_of (lookup k h.attempts))

attempts-insert :
    (k name : String) (ts : List ℕ) (m : Dict (List ℕ))
    → attempts_of (lookup k (insert name ts m))
      ≡ (if name == k then ts else attempts_of (lookup k m))
unfolding attempts_of
attempts-insert k name ts m = ground (arith, lookup-insert name k ts m)

unfoldable pub counted : Healer → String → ℕ → Healer × ℕ
counted h name now = count_recent_restarts h name h.config.restart_window now

module _ (k : String) (end : ℕ) where
  pub tracked-counted :
      (h : Healer) (name : String) (now : ℕ)
      → now ≤ end
      → tracked k end (counted h name now).0 ≡ tracked k end h
  unfolding tracked counted count_recent_restarts
  tracked-counted h name now l = elim (Bool-cases (name == k)) [
    | inl e ↦
        (let same = (string_tested.same_iff name k).0 e in
          rw
            (
              attempts-insert k name
                  (recent h.config.restart_window now (attempts_of (lookup name h.attempts)))
                  h.attempts,
              e,
            )
            (live-recent h.config.restart_window now end (attempts_of (lookup name h.attempts)) l
              ∙ ap (λ j. live h.config.restart_window end (attempts_of (lookup j h.attempts)))
                  same))
    | inr e ↦
        rw
          (
            attempts-insert k name
                (recent h.config.restart_window now (attempts_of (lookup name h.attempts)))
                h.attempts,
            e,
          )
          refl
  ]

  pub tracked-le-counted :
      (h : Healer) (now : ℕ) → now ≤ end → tracked k end h ≤ (counted h k now).1
  unfolding tracked counted count_recent_restarts
  tracked-le-counted h now l =
      let ts = attempts_of (lookup k h.attempts) in
      omega (
        arith,
        live-recent h.config.restart_window now end ts l,
        live-length h.config.restart_window end (recent h.config.restart_window now ts),
      )

  pub tracked-record_restart :
      (h : Healer) (name : String) (now' : ℕ)
      → tracked k end (record_restart h name now')
        ≡ tracked k end h + (if name == k && ltb end (now' + h.config.restart_window) then 1 else 0)
  unfolding tracked record_restart
  tracked-record_restart h name now' = elim (Bool-cases (name == k)) [
    | inl e ↦
        (let same = (string_tested.same_iff name k).0 e in
          rw
            (
              attempts-insert k name (attempts_of (lookup name h.attempts) ++ now' ∷ []) h.attempts,
              e,
            )
            (live-snoc h.config.restart_window end now' (attempts_of (lookup name h.attempts))
              ∙ ap
                  (λ j.
                    live h.config.restart_window end (attempts_of (lookup j h.attempts))
                    + (if ltb end (now' + h.config.restart_window) then 1 else 0))
                  same))
    | inr e ↦
        rw
          (attempts-insert k name (attempts_of (lookup name h.attempts) ++ now' ∷ []) h.attempts, e)
          (omega arith)
  ]
