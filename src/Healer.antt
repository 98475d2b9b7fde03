-- ===== src/Healer.antt =====
-- internal/engine/healer/healer.go. Times are numbers of one unit, and each reading of the clock is an
-- argument. The container's name is the key of the tracker's map, and its code points are what the
-- commands hold. The texts of the reasons are data, with what the code writes into them.
mod Tracker
mod Commands
mod Restarts
mod Tests
use deploypilot.Base.{
  ℕ, suc, ◌+◌, ◌-◌, Bool, true, false, not, ◌&&◌, ◌||◌, Option, none, some, List, [], ◌∷◌, ◌++◌,
  String, Dict, lookup, insert, erase, length, keep_if, ltb, leb, ◌==◌, nat_tested, text_tested,
  Text, codes, if◌then◌else◌, text_beq,
}
use deploypilot.Shell.{shell_quote}
use deploypilot.Strings.{ℤ, pos, negsuc}
use deploypilot.Deployer.{Error, Result, ok, err, Host}
use deploypilot.Deployer.Inspect.{ContainerStatus, ContainerDetail, get_container_detail}

pub record HealingConfig : Type 0 where
  pub auto_restart : Bool
  pub auto_rollback : Bool
  pub max_restarts : ℕ
  pub restart_window : ℕ
  pub health_check_interval : ℕ

-- `DefaultHealingConfig`, in seconds.
abbrev pub default_healing_config : HealingConfig
default_healing_config = record {
  auto_restart = true;
  auto_rollback = true;
  max_restarts = 3;
  restart_window = 300;
  health_check_interval = 30;
}

pub data Action : Type 0 where
  no_action restarted rolled_back notified : Action

-- What a container is treated for.
pub data Trouble : Type 0 where
  unhealthy oom_killed : Trouble
  exited : ℤ → Trouble

pub data Reason : Type 0 where
  healthy other_status disabled : Reason
  exceeded : ℤ → ℕ → Reason
  restart_fails : Trouble → Reason
  was : Trouble → Reason
  crash_loop : ℤ → ℕ → Reason

-- `AppID`, which the code leaves empty, and the time are left out.
pub record HealingResult : Type 0 where
  pub app_name : String
  pub action : Action
  pub reason : Reason
  pub previous_state : Text
  pub new_state : Text

-- `Healer`, with its `restartTracker`.
pub record Healer : Type 0 where
  pub config : HealingConfig
  pub attempts : Dict (List ℕ)

or_default : ℕ → ℕ → ℕ
or_default n default = if n == 0 then default else n

-- `NewHealer`; a value that is not positive is 0 here.
pub new_healer : HealingConfig → Healer
unfolding or_default
new_healer c = record {
  config = record c {
    max_restarts = or_default c.max_restarts 3;
    restart_window = or_default c.restart_window 300;
    health_check_interval = or_default c.health_check_interval 30;
  };
  attempts = [];
}

pub attempts_of : Option (List ℕ) → List ℕ
attempts_of none = []
attempts_of (some ts) = ts

-- `RecordRestart`
pub record_restart : Healer → String → ℕ → Healer
unfolding attempts_of
record_restart h name now = record h {
  attempts = insert name (attempts_of (lookup name h.attempts) ++ now ∷ []) h.attempts;
}

-- The attempts that lie in the window: `t.After(now - window)` is `now < t + window`.
pub recent : ℕ → ℕ → List ℕ → List ℕ
recent window now ts = keep_if (λ t. ltb now (t + window)) ts

-- `CountRecentRestarts`
pub count_recent_restarts : Healer → String → ℕ → ℕ → Healer × ℕ
unfolding attempts_of recent
count_recent_restarts h name window now =
    let remaining = recent window now (attempts_of (lookup name h.attempts)) in
    (record h { attempts = insert name remaining h.attempts }, length remaining)

-- `Reset`
pub reset : Healer → String → Healer
reset h name = record h { attempts = erase name h.attempts }

-- The sum of a count and a Go int.
pub add_count : ℕ → ℤ → ℤ
add_count a (pos b) = pos (a + b)
add_count a (negsuc b) = if ltb b a then pos (a - suc b) else negsuc (b - a)

pub at_least : ℤ → ℕ → Bool
at_least (pos a) b = leb b a
at_least (negsuc a) b = false

-- `needsRollback`
pub needs_rollback : Healer → ℤ → Bool
unfolding at_least
needs_rollback h restart_count =
    h.config.auto_rollback && at_least restart_count h.config.max_restarts

-- The command of `RestartContainer`
unfoldable pub restart_command : String → Text
restart_command name = codes "docker restart " ++ shell_quote (codes name)

pub is_some : Option Text → Bool
is_some none = false
is_some (some out) = true

-- What a pass of the healer finds to do, in the order of the code's tests.
pub data Finding : Type 0 where
  is_healthy is_restarting is_other : Finding
  has_trouble : Trouble → Finding

is_zero : ℤ → Bool
is_zero (pos n) = n == 0
is_zero (negsuc n) = false

pub finding_of : ContainerDetail → Finding
unfolding is_zero
finding_of d =
    let running = d.base.status == codes "running" in
    if running && (d.health == codes "healthy" || d.health == codes "none") && not d.oom_killed
    then is_healthy
    else if running && d.health == codes "unhealthy"
    then has_trouble unhealthy
    else if d.oom_killed
    then has_trouble oom_killed
    else if d.base.status == codes "exited" && not (is_zero d.exit_code)
    then has_trouble (exited d.exit_code)
    else if d.base.status == codes "restarting"
    then is_restarting
    else is_other

-- What a pass of the healer answers.
pub made : String → Text → Action → Reason → Text → HealingResult
made name previous action reason new_state = record {
  app_name = name;
  action = action;
  reason = reason;
  previous_state = previous;
  new_state = new_state;
}

-- The branch of a container in trouble, the same for the three troubles: `now` is read when the
-- attempts are counted, and `now'` when one is recorded.
pub treat :
    Host
    → Healer
    → String
    → Text
    → ℕ
    → ℕ
    → Trouble
    → List Text
    → (HealingResult × Healer) × List Text
unfolding count_recent_restarts needs_rollback restart_command is_some record_restart made
treat host h name status now now' trouble log =
    let (h', count) = count_recent_restarts h name h.config.restart_window now in
    let command = restart_command name in
    if not h.config.auto_restart
    then ((made name status notified disabled status, h), log)
    else if needs_rollback h' (pos count)
    then (
      (
        made name status rolled_back (exceeded (pos count) h.config.max_restarts)
            (codes "rolled_back"),
        h',
      ),
      log,
    )
    else if is_some (host.run_command log command)
    then (
      (made name status restarted (was trouble) (codes "restarting"), record_restart h' name now'),
      command ∷ log,
    )
    else ((made name status notified (restart_fails trouble) status, h'), command ∷ log)

-- The branch of a container that restarts by itself, whose own count is added to the tracker's.
pub watch : Healer → String → ContainerDetail → ℕ → ℕ → HealingResult × Healer
unfolding count_recent_restarts needs_rollback add_count record_restart made
watch h name d now now' =
    let (h', count) = count_recent_restarts h name h.config.restart_window now in
    let effective = add_count count d.restart_count in
    if needs_rollback h' effective
    then (
      made name d.base.status rolled_back (exceeded effective h.config.max_restarts)
          (codes "rolled_back"),
      h',
    )
    else (
      made name d.base.status notified (crash_loop effective h.config.max_restarts) d.base.status,
      record_restart h' name now',
    )

pub heal :
    Host
    → Healer
    → String
    → ContainerDetail
    → ℕ
    → ℕ
    → Finding
    → List Text
    → (HealingResult × Healer) × List Text
unfolding treat watch made
heal host h name d now now' is_healthy log =
    ((made name d.base.status no_action healthy d.base.status, h), log)
heal host h name d now now' (has_trouble trouble) log =
    treat host h name d.base.status now now' trouble log
heal host h name d now now' is_restarting log = (watch h name d now now', log)
heal host h name d now now' is_other log =
    ((made name d.base.status no_action other_status d.base.status, h), log)

-- What follows the inspection of the container.
pub heal_inspected :
    Host
    → Healer
    → String
    → ℕ
    → ℕ
    → Result ContainerDetail × List Text
    → (Result HealingResult × Healer) × List Text
unfolding heal finding_of
heal_inspected host h name now now' (err e, log) = ((err e, h), log)
heal_inspected host h name now now' (ok d, log) =
    let (p, log') = heal host h name d now now' (finding_of d) log in ((ok p.0, p.1), log')

-- `CheckAndHeal`: the answer, the healer and the commands after it. The mutex of the tracker is free
-- between the count and the record, so that this is a pass that no other one over the container overlaps.
pub check_and_heal :
    Host → Healer → String → ℕ → ℕ → List Text → (Result HealingResult × Healer) × List Text
unfolding heal_inspected
check_and_heal host h name now now' log =
    heal_inspected host h name now now' (get_container_detail host (codes name) log)
