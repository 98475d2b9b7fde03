-- ===== src/Healer/Restarts.antt =====
-- internal/engine/healer/healer.go: how often one container is restarted.
use deploypilot.Base.{
  ℕ, ◌+◌, ◌-◌, ◌≤◌, ◌<◌, ◌≡◌, refl, sym, subst, Bool, true, false, not, ◌&&◌, List, [], ◌∷◌, String,
  if◌then◌else◌, Text, arith, Bool-cases, inl, inr, ◌==◌, string_tested, codes, All,
}
use deploypilot.Strings.{pos}
use deploypilot.Deployer.{Result, ok, err, Host}
use deploypilot.Deployer.Inspect.{ContainerDetail, get_container_detail}
use deploypilot.Healer.{
  Action, no_action, restarted, rolled_back, notified, HealingResult, Healer, record_restart,
  count_recent_restarts, needs_rollback, at_least, is_some, treat, watch, heal, Trouble, Finding,
  finding_of, is_healthy, is_restarting, is_other, has_trouble, check_and_heal, heal_inspected,
  made, restart_command, add_count,
}
use deploypilot.Healer.Commands.{is_restarted, restart_runs, detail_runs, heal-Makes}
use deploypilot.Healer.Tracker.{
  tracked, counted, tracked-counted, tracked-le-counted, tracked-record_restart,
}

-- Whether a pass over the container `name` answers that it restarted `k`.
abbrev answers_restart : String → String → Result HealingResult → Bool
answers_restart k name (ok r) = is_restarted r.action && name == k
answers_restart k name (err e) = false

module _ (k : String) (end : ℕ) where
  -- A pass grows what is tracked by its restart, and restarts only below the bound.
  abbrev Grows : String → Healer → Action → Healer → Type 0
  Grows name h done h' =
      (h'.config ≡ h.config)
      × (tracked k end h + (if is_restarted done && name == k then 1 else 0) ≤ tracked k end h')
      × ((is_restarted done && name == k) ≡ true → tracked k end h < h.config.max_restarts)

  module _ (name : String) (h : Healer) (now now' : ℕ) (before : now ≤ end)
      (inside : end < now' + h.config.restart_window)
      (rollback : h.config.auto_rollback ≡ true) where
    recorded-config : (record_restart (counted h name now).0 name now').config ≡ h.config
    unfolding record_restart counted count_recent_restarts
    recorded-config = refl

    counted-Grows :
        (done : Action) → is_restarted done ≡ false → Grows name h done (counted h name now).0
    unfolding counted count_recent_restarts
    counted-Grows done e =
        let same = tracked-counted k end h name now before in
        (refl, rw e (omega (arith, same)), rw e (λ f. absurd (ground (arith, f))))

    recorded-Grows :
        (done : Action)
        → ((is_restarted done && name == k) ≡ true → tracked k end h < h.config.max_restarts)
        → Grows name h done (record_restart (counted h name now).0 name now')
    unfolding counted count_recent_restarts
    recorded-Grows done low =
        let same = tracked-counted k end h name now before in
        let more = tracked-record_restart k end (counted h name now).0 name now' in
        (recorded-config, ground (arith, same, more, inside), low)

    kept-Grows : (done : Action) → is_restarted done ≡ false → Grows name h done h
    kept-Grows done e = (refl, rw e (omega arith), rw e (λ f. absurd (ground (arith, f))))

    -- Below the bound, where the count of the key does not ask for a rollback.
    low :
        needs_rollback (counted h name now).0 (pos (counted h name now).1) ≡ false
        → (name == k) ≡ true
        → tracked k end h < h.config.max_restarts
    unfolding needs_rollback at_least counted count_recent_restarts
    low e f =
        let same = (string_tested.same_iff name k).0 f in
        let most =
          subst (λ j. tracked k end h ≤ (counted h j now).1) (sym same)
            (tracked-le-counted k end h now before) in
        ground (arith, e, most, rollback)

    treat-Grows :
        (host : Host) (status : Text) (trouble : Trouble) (log : List Text)
        → let p = treat host h name status now now' trouble log in Grows name h p.0.0.action p.0.1
    unfolding treat counted made
    treat-Grows host status trouble log = elim (Bool-cases (not h.config.auto_restart)) [
      | inl e ↦ rw (treat, e) (kept-Grows notified refl)
      | inr e ↦
          elim (Bool-cases (needs_rollback (counted h name now).0 (pos (counted h name now).1))) [
            | inl f ↦ rw (treat, e, f) (counted-Grows rolled_back refl)
            | inr f ↦ elim (Bool-cases (is_some (host.run_command log (restart_command name)))) [
              | inl g ↦ rw (treat, e, f, g) (recorded-Grows restarted (low f))
              | inr g ↦ rw (treat, e, f, g) (counted-Grows notified refl)
            ]
          ]
    ]

    watch-Grows :
        (d : ContainerDetail) → let p = watch h name d now now' in Grows name h p.0.action p.1
    unfolding watch counted made
    watch-Grows d =
        elim (Bool-cases (
          needs_rollback (counted h name now).0
            (add_count (counted h name now).1 d.restart_count))) [
              | inl f ↦ rw (watch, f) (counted-Grows rolled_back refl)
              | inr f ↦ rw (watch, f) (recorded-Grows notified (λ e. absurd (ground (arith, e))))
            ]

    heal-Grows :
        (host : Host) (d : ContainerDetail) (found : Finding) (log : List Text)
        → let p = heal host h name d now now' found log in Grows name h p.0.0.action p.0.1
    unfolding heal made
    heal-Grows host d is_healthy log = kept-Grows no_action refl
    heal-Grows host d (has_trouble trouble) log = treat-Grows host d.base.status trouble log
    heal-Grows host d is_restarting log = watch-Grows d
    heal-Grows host d is_other log = kept-Grows no_action refl

  -- What a whole pass leaves of the container `k`.
  abbrev Leaves : Healer → Bool → Healer → Type 0
  Leaves h answer h' =
      (h'.config ≡ h.config)
      × (tracked k end h + (if answer then 1 else 0) ≤ tracked k end h')
      × (answer ≡ true → tracked k end h < h.config.max_restarts)

  check_and_heal_grows :
      (host : Host) (h : Healer) (name : String) (now now' : ℕ) (log : List Text)
      → now ≤ end
      → end < now' + h.config.restart_window
      → h.config.auto_rollback ≡ true
      → let p = check_and_heal host h name now now' log in
        Leaves h (answers_restart k name p.0.0) p.0.1
  unfolding check_and_heal heal_inspected
  check_and_heal_grows host h name now now' log a b c =
      go (get_container_detail host (codes name) log)
    where
      go :
          (p : Result ContainerDetail × List Text)
          → let q = heal_inspected host h name now now' p in
            Leaves h (answers_restart k name q.0.0) q.0.1
      go (ok d, log') = heal-Grows name h now now' a b c host d (finding_of d) log'
      go (err x, log') = (refl, omega arith, λ f. absurd (ground (arith, f)))

-- A pass over one container, with its two readings of the clock.
pub record Pass : Type 0 where
  pub name : String
  pub now : ℕ
  pub later : ℕ

-- The commands after some passes, one after the other.
pub run_passes : Host → Healer → List Text → List Pass → List Text
run_passes host h log [] = log
run_passes host h log (p ∷ ps) =
    let (q, log') = check_and_heal host h p.name p.now p.later log in run_passes host q.1 log' ps

-- The passes of one window, which ends after `end`.
abbrev pub InWindow : ℕ → ℕ → List Pass → Type 0
InWindow window end ps = All (λ p. (p.now ≤ end) × (end < p.later + window)) ps

-- No other container of the passes has the restart command of `k`, as one might whose name differs from
-- it in a control character.
abbrev pub IsTold : String → List Pass → Type 0
IsTold k ps = All (λ p. restart_command p.name ≡ restart_command k → p.name ≡ k) ps

pass_runs :
    (host : Host) (k : String) (h : Healer) (name : String) (now now' : ℕ) (log : List Text)
    → (restart_command name ≡ restart_command k → name ≡ k)
    → let p = check_and_heal host h name now now' log in
      restart_runs host k p.1
      ≤ restart_runs host k log + (if answers_restart k name p.0.0 then 1 else 0)
unfolding check_and_heal heal_inspected
pass_runs host k h name now now' log told =
    go (get_container_detail host (codes name) log) (detail_runs host k (codes name) log)
  where
    go :
        (p : Result ContainerDetail × List Text)
        → restart_runs host k p.1 ≡ restart_runs host k log
        → let q = heal_inspected host h name now now' p in
          restart_runs host k q.1
          ≤ restart_runs host k log + (if answers_restart k name q.0.0 then 1 else 0)
    go (ok d, log') e =
        omega (arith, e, heal-Makes host k name told h d now now' (finding_of d) log')
    go (err x, log') e = omega (arith, e)

restarts-le-left :
    (host : Host) (k : String) (h : Healer) (log : List Text) (end : ℕ) (ps : List Pass)
    → h.config.auto_rollback ≡ true
    → InWindow h.config.restart_window end ps
    → IsTold k ps
    → restart_runs host k (run_passes host h log ps)
      ≤ restart_runs host k log + (h.config.max_restarts - tracked k end h)
unfolding run_passes
restarts-le-left host k h log end [] r w d = omega arith
restarts-le-left host k h log end (p ∷ ps) r w d =
    let (q, log') = check_and_heal host h p.name p.now p.later log in
    let (same, more, below) =
      check_and_heal_grows k end host h p.name p.now p.later log w.0.0 w.0.1 r in
    let made = pass_runs host k h p.name p.now p.later log d.0 in
    let rest = restarts-le-left host k q.1 log' end ps (rw same r) (rw same w.1) d.1 in
    ground (arith, rest, same, more, below, made)

-- A container is restarted at most `MaxRestarts` times in any window: whatever the containers do and
-- the commands answer, in however many passes over this and other containers, one after the other, if
-- the rollback is enabled and every pass lies in one window, the passes run no more than the maximum of
-- `docker restart` commands of the container that are answered. The name of no other container gives
-- the same command.
pub restarts-le :
    (host : Host) (k : String) (h : Healer) (log : List Text) (end : ℕ) (ps : List Pass)
    → h.config.auto_rollback ≡ true
    → InWindow h.config.restart_window end ps
    → IsTold k ps
    → restart_runs host k (run_passes host h log ps)
      ≤ restart_runs host k log + h.config.max_restarts
restarts-le host k h log end ps r w d =
    let left = restarts-le-left host k h log end ps r w d in omega (arith, left)
