-- ===== src/Healer/Commands.antt =====
-- internal/engine/healer/healer.go: the restart commands among those that the healer runs.
use deploypilot.Base.{
  ℕ, suc, ◌+◌, ◌≡◌, refl, ◌∙◌, Bool, true, false, not, ◌&&◌, List, [], ◌∷◌, String, Text, codes,
  if◌then◌else◌, ◌==◌, text_tested, text_beq, arith, Bool-cases, inl, inr, string_tested, ◌≤◌,
  is_empty,
}
use deploypilot.Strings.{pos, split, trim_space, atoi}
use deploypilot.Deployer.{
  Host, M, Result, ok, err, Error, ◌>>=◌, exec, require, attempt, pure, not_found, inspect_failed,
}
use deploypilot.Deployer.Command.{inspect_command, detail_command, restart_count_command}
use deploypilot.Deployer.Inspect.{
  ContainerDetail, detail_of_parts, health_of, restart_count_of, get_container_status,
  get_container_detail,
}
use deploypilot.Healer.{
  Action, no_action, watch, restarted, notified, rolled_back, Healer, Trouble, Finding, is_healthy,
  has_trouble, is_restarting, is_other, is_some, restart_command, treat, heal, needs_rollback,
  count_recent_restarts, made,
}

abbrev pub is_restarted : Action → Bool
is_restarted restarted = true
is_restarted _ = false

-- How many of the commands, newest first, are `cmd` and were answered.
unfoldable pub answered_runs : Host → Text → List Text → ℕ
answered_runs host cmd [] = 0
answered_runs host cmd (c ∷ log) =
    let rest = answered_runs host cmd log in
    if c == cmd && is_some (host.run_command log c) then suc rest else rest

module _ (host : Host) (k : String) where
  -- The restarts of the container `k` that were made.
  abbrev pub restart_runs : List Text → ℕ
  restart_runs log = answered_runs host (restart_command k) log

  Keeps : {A : Type 0} → M A → Type 0
  Keeps m = (log : List Text) → restart_runs (m log).1 ≡ restart_runs log

  bind-Keeps :
      {A B : Type 0} (m : M A) (f : A → M B) → Keeps m → ((a : A) → Keeps (f a)) → Keeps (m >>= f)
  unfolding Keeps
  bind-Keeps {A = A} m f p q log = after (m log) (p log)
    where
      after :
          (r : Result A × List Text)
          → restart_runs r.1 ≡ restart_runs log
          → restart_runs (((λ l. r) >>= f) log).1 ≡ restart_runs log
      after (ok a, l) e = q a l ∙ e
      after (err x, l) e = e

  attempt-Keeps : {A : Type 0} (m : M A) → Keeps m → Keeps (attempt m)
  unfolding Keeps
  attempt-Keeps m p log = p log

  exec-Keeps :
      (e : Error) (cmd : Text) → (cmd == restart_command k) ≡ false → Keeps (exec host e cmd)
  unfolding Keeps answered_runs
  exec-Keeps e cmd other log = rw other refl

  require-Keeps : (b : Bool) (e : Error) → Keeps (require b e)
  unfolding Keeps
  require-Keeps true e log = refl
  require-Keeps false e log = refl

  lift-Keeps : {A : Type 0} (r : Result A) → Keeps (λ log. (r, log))
  unfolding Keeps
  lift-Keeps r log = refl

  map-Keeps : {A B : Type 0} (m : M A) (f : A → B) → Keeps m → Keeps (m >>= λ a. pure (f a))
  map-Keeps m f p = bind-Keeps m (λ a. pure (f a)) p (λ a. lift-Keeps (ok (f a)))

  status_is_other : (n : Text) → (inspect_command n == restart_command k) ≡ false
  unfolding inspect_command restart_command text_beq
  status_is_other n = refl

  detail_is_other : (n : Text) → (detail_command n == restart_command k) ≡ false
  unfolding detail_command restart_command text_beq
  detail_is_other n = refl

  count_is_other : (n : Text) → (restart_count_command n == restart_command k) ≡ false
  unfolding restart_count_command restart_command text_beq
  count_is_other n = refl

  status-Keeps : (name : Text) → Keeps (get_container_status host name)
  unfolding get_container_status
  status-Keeps name =
      bind-Keeps _ _ (exec-Keeps _ (inspect_command name) (status_is_other name))
        (λ out. lift-Keeps _)

  -- The inspection of a container restarts nothing.
  detail-Keeps : (name : Text) → Keeps (get_container_detail host name)
  unfolding get_container_detail
  detail-Keeps name =
      bind-Keeps _ _ (exec-Keeps not_found (detail_command name) (detail_is_other name)) (λ out.
        bind-Keeps _ _ (require-Keeps (not (is_empty out)) not_found) (λ u.
          bind-Keeps _ _ (lift-Keeps (detail_of_parts (split (trim_space out) b'|'))) (λ fields.
            bind-Keeps _ _
              (attempt-Keeps _
                (exec-Keeps inspect_failed (restart_count_command name) (count_is_other name)))
              (λ counted.
                map-Keeps _
                  (λ s. record {
                    base = s;
                    oom_killed = fields.oom == codes "true";
                    exit_code = atoi fields.code;
                    restart_count = restart_count_of counted;
                    pid = atoi fields.pid;
                    started_at = fields.started;
                    finished_at = fields.finished;
                    health = health_of fields.health;
                  })
                  (status-Keeps name)))))

  pub detail_runs :
      (name : Text) (log : List Text)
      → restart_runs (get_container_detail host name log).1 ≡ restart_runs log
  unfolding Keeps
  detail_runs name log = detail-Keeps name log

  module _ (name : String) (distinct : restart_command name ≡ restart_command k → name ≡ k) where
    -- The restarts of `k` that a pass over the container `name` makes, by its answer.
    abbrev pub Makes : List Text → Action → List Text → Type 0
    Makes log done log' =
        restart_runs log' ≤ restart_runs log + (if is_restarted done && name == k then 1 else 0)

    restart_known : (restart_command name == restart_command k) ≡ true → (name == k) ≡ true
    restart_known e =
        (string_tested.same_iff name k).1
          (distinct ((text_tested.same_iff (restart_command name) (restart_command k)).0 e))

    answered_once : (log : List Text) → Makes log restarted (restart_command name ∷ log)
    unfolding answered_runs
    answered_once log = ground (arith, restart_known)

    unanswered :
        (log : List Text) (done : Action)
        → is_some (host.run_command log (restart_command name)) ≡ false
        → Makes log done (restart_command name ∷ log)
    unfolding answered_runs
    unanswered log done e = ground (arith, e)

    none_run : (log : List Text) (done : Action) → Makes log done log
    none_run log done = omega arith

    treat-Makes :
        (h : Healer) (status : Text) (now now' : ℕ) (trouble : Trouble) (log : List Text)
        → let p = treat host h name status now now' trouble log in Makes log p.0.0.action p.1
    unfolding treat made
    treat-Makes h status now now' trouble log = elim (Bool-cases (not h.config.auto_restart)) [
      | inl e ↦ rw (treat, e) (none_run log notified)
      | inr e ↦
          let (h', count) = count_recent_restarts h name h.config.restart_window now in
          elim (Bool-cases (needs_rollback h' (pos count))) [
            | inl f ↦ rw (treat, e, f) (none_run log rolled_back)
            | inr f ↦ elim (Bool-cases (is_some (host.run_command log (restart_command name)))) [
              | inl g ↦ rw (treat, e, f, g) (answered_once log)
              | inr g ↦ rw (treat, e, f, g) (unanswered log notified g)
            ]
          ]
    ]

    pub heal-Makes :
        (h : Healer) (d : ContainerDetail) (now now' : ℕ) (found : Finding) (log : List Text)
        → let p = heal host h name d now now' found log in Makes log p.0.0.action p.1
    unfolding heal made
    heal-Makes h d now now' is_healthy log = none_run log no_action
    heal-Makes h d now now' (has_trouble trouble) log =
        treat-Makes h d.base.status now now' trouble log
    heal-Makes h d now now' is_restarting log = none_run log (watch h name d now now').0.action
    heal-Makes h d now now' is_other log = none_run log no_action
