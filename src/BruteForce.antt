-- ===== src/BruteForce.antt =====
-- internal/bruteforce/protector.go. Times and durations are numbers of one unit, 0 is Go's zero time,
-- and the clock is an argument of each call. A time after `now - w` is one with `now < time + w`.
mod Lockout
mod Delay
mod Cleanup
mod Tests
use deploypilot.Base.{
  ℕ, zero, suc, ◌+◌, ◌-◌, ◌*◌, ◌%◌, ◌^◌, Bool, true, false, not, ◌&&◌, ◌||◌, Option, none, some,
  List, [], ◌∷◌, ◌++◌, map, String, Dict, lookup, insert, erase, retain, map_values, length,
  keep_if, count_if, ltb, leb, ◌==◌, nat_tested, is_empty, if◌then◌else◌,
}

pub record Config : Type 0 where
  pub max_attempts : ℕ
  pub lockout_duration : ℕ
  pub window_duration : ℕ
  pub progressive_delay : Bool
  pub base_delay : ℕ
  pub max_delay : ℕ
  pub ip_max_attempts : ℕ
  pub ip_lockout_duration : ℕ

-- `DefaultConfig`, in nanoseconds.
abbrev pub default_config : Config
default_config = record {
  max_attempts = 5;
  lockout_duration = 900_000_000_000;
  window_duration = 900_000_000_000;
  progressive_delay = true;
  base_delay = 1_000_000_000;
  max_delay = 30_000_000_000;
  ip_max_attempts = 20;
  ip_lockout_duration = 1_800_000_000_000;
}

pub record AttemptRecord : Type 0 where
  pub time : ℕ
  pub ip : String
  pub error : String

pub record AccountState : Type 0 where
  pub attempts : List AttemptRecord
  pub locked_until : ℕ

pub record Protector : Type 0 where
  pub config : Config
  pub accounts : Dict AccountState
  pub ips : Dict AccountState

unfoldable pub new : Config → Protector
new c = record { config = c; accounts = []; ips = [] }

pub data Reason : Type 0 where
  no_reason account_locked delayed ip_blocked : Reason

pub record CheckResult : Type 0 where
  pub allowed : Bool
  pub reason : Reason
  pub delay : ℕ
  pub attempts : ℕ
  pub locked_until : ℕ

-- A lock that is set and has not run out.
abbrev pub is_locked : AccountState → ℕ → Bool
is_locked s now = not (s.locked_until == 0) && ltb now s.locked_until

-- A lock that is not set or has run out.
abbrev pub lock_over : AccountState → ℕ → Bool
lock_over s now = s.locked_until == 0 || ltb s.locked_until now

abbrev pub is_recent : Config → ℕ → AttemptRecord → Bool
is_recent c now a = ltb now (a.time + c.window_duration)

unfoldable pub count_recent : Config → List AttemptRecord → ℕ → ℕ
count_recent c attempts now = count_if (is_recent c now) attempts

-- `pruneOld`
pub prune_old : Config → ℕ → AccountState → AccountState
prune_old c now s = record s { attempts = keep_if (is_recent c now) s.attempts }

-- A Go int64 as its bit pattern: what it is as a number, and whether it is above another.
abbrev pub int64 : ℕ → ℕ
int64 n = n % 2 ^ 64

abbrev pub is_negative : ℕ → Bool
is_negative p = leb (2 ^ 63) p

-- `calculateDelay`. The shift and the product wrap; a delay is the pattern of an int64.
unfoldable pub calculate_delay : Config → ℕ → ℕ
calculate_delay c zero = 0
calculate_delay c (suc n) =
    if not c.progressive_delay
    then 0
    else (let delay = int64 (c.base_delay * int64 (2 ^ n)) in
        if not (is_negative delay) && ltb c.max_delay delay then c.max_delay else delay)

locked_result : Reason → AccountState → CheckResult
locked_result r s = record {
  allowed = false;
  reason = r;
  delay = 0;
  attempts = length s.attempts;
  locked_until = s.locked_until;
}

delayed_result : ℕ → ℕ → CheckResult
delayed_result delay n = record {
  allowed = true;
  reason = delayed;
  delay = delay;
  attempts = n;
  locked_until = 0;
}

pub allowed_result : CheckResult
allowed_result = record {
  allowed = true;
  reason = no_reason;
  delay = 0;
  attempts = 0;
  locked_until = 0;
}

-- The delay that `Check` answers, if it is positive.
check_delay : Config → ℕ → Option CheckResult
unfolding delayed_result
check_delay c n =
    let delay = calculate_delay c n in
    if c.progressive_delay && (ltb 0 n && (ltb 0 delay && not (is_negative delay)))
    then some (delayed_result delay n)
    else none

-- The early returns of `Check` at the account, and at the address.
pub check_account : Config → ℕ → Option AccountState → Option CheckResult
unfolding check_delay locked_result
check_account c now none = none
check_account c now (some s) =
    if is_locked s now
    then some (locked_result account_locked s)
    else check_delay c (count_recent c s.attempts now)

pub check_ip : ℕ → Option AccountState → Option CheckResult
unfolding locked_result
check_ip now none = none
check_ip now (some s) = if is_locked s now then some (locked_result ip_blocked s) else none

abbrev pub or_else : Option CheckResult → CheckResult → CheckResult
or_else none r = r
or_else (some q) r = q

-- `Check`
pub check : Protector → String → String → ℕ → CheckResult
check p username ip now =
    or_else (check_account p.config now (lookup username p.accounts))
      (or_else (check_ip now (lookup ip p.ips)) allowed_result)

-- `getOrCreateState`: the state at a key, or a new one.
pub get_or_create : Option AccountState → AccountState
get_or_create none = record { attempts = []; locked_until = 0 }
get_or_create (some s) = s

-- What a failure does to the state of one account or address.
pub add_failure : Config → ℕ → ℕ → ℕ → AttemptRecord → AccountState → AccountState
unfolding prune_old
add_failure c limit lockout now a s =
    let s' = prune_old c now (record s { attempts = s.attempts ++ a ∷ [] }) in
    if leb limit (length s'.attempts) then record s' { locked_until = now + lockout } else s'

-- `RecordFailure`
pub record_failure : Protector → String → String → String → ℕ → Protector
record_failure p username ip message now =
    let a : AttemptRecord = record { time = now; ip = ip; error = message } in
    let c : Config = p.config in
    record p {
      accounts =
          insert username
            (add_failure c c.max_attempts c.lockout_duration now a
              (get_or_create (lookup username p.accounts)))
            p.accounts;
      ips =
          insert ip
            (add_failure c c.ip_max_attempts c.ip_lockout_duration now a
              (get_or_create (lookup ip p.ips)))
            p.ips;
    }

-- `RecordSuccess`
pub record_success : Protector → String → String → Protector
record_success p username ip = record p {
  accounts = erase username p.accounts;
  ips = erase ip p.ips;
}

-- `GetAccountStatus`
pub get_account_status : Protector → String → ℕ × ℕ
get_account_status p username = elim (lookup username p.accounts) [
  | none ↦ (0, 0)
  | some s ↦ (length s.attempts, s.locked_until)
]

-- `UnlockAccount` and `UnlockIP`, on the map of the one or the other.
pub unlock : Dict AccountState → String → ℕ → Dict AccountState × Bool
unlock m key now = elim (lookup key m) [
  | none ↦ (m, false)
  | some s ↦
      if lock_over s now
      then (m, false)
      else (insert key (record { attempts = []; locked_until = 0 }) m, true)
]

pub unlock_account : Protector → String → ℕ → Protector × Bool
unfolding unlock
unlock_account p username now =
    let (m, done) = unlock p.accounts username now in (record p { accounts = m }, done)

pub unlock_ip : Protector → String → ℕ → Protector × Bool
unfolding unlock
unlock_ip p ip now = let (m, done) = unlock p.ips ip now in (record p { ips = m }, done)

-- `ListLockedAccounts` and `ListBlockedIPs`: the keys with their attempts and locks.
list_locked : Dict AccountState → ℕ → List (String × ℕ × ℕ)
list_locked [] now = []
list_locked ((key, s) ∷ m) now =
    let rest = list_locked m now in
    if is_locked s now then (key, length s.attempts, s.locked_until) ∷ rest else rest

pub list_locked_accounts : Protector → ℕ → List (String × ℕ × ℕ)
unfolding list_locked
list_locked_accounts p now = list_locked p.accounts now

pub list_blocked_ips : Protector → ℕ → List (String × ℕ × ℕ)
unfolding list_locked
list_blocked_ips p now = list_locked p.ips now

-- One of the two loops of `cleanup`.
pub cleanup_map : Config → ℕ → Dict AccountState → Dict AccountState
unfolding prune_old
cleanup_map c now m =
    retain (λ s. not (is_empty s.attempts && lock_over s now)) (map_values (prune_old c now) m)

-- `cleanup`
pub cleanup : Protector → ℕ → Protector
unfolding cleanup_map
cleanup p now = record p {
  accounts = cleanup_map p.config now p.accounts;
  ips = cleanup_map p.config now p.ips;
}
