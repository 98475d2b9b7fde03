-- ===== src/Trial.antt =====
-- internal/service/trial_service.go: the trial periods, one row for each machine. The id of a machine is
-- an argument, and so is what a call meets: the clock, and whether the database answers. Times are in
-- nanoseconds, and a day has 24 hours, as it has in UTC.
pub mod Ends
pub mod Extended
mod Tests
use deploypilot.Base.{
  ℕ, ◌+◌, ◌*◌, Bool, true, false, not, ◌&&◌, ◌||◌, List, [], ◌∷◌, Option, none, some, String, Dict,
  lookup, insert, ltb, if◌then◌else◌, ◌==◌, nat_tested,
}
use deploypilot.License.Data.{Engine, LicenseResult, day}
use deploypilot.License.Data as License
use deploypilot.License.Allows.{validate}

-- model.TrialStatus
pub data TrialStatus : Type 0 where
  active expired extended converted : TrialStatus

-- model.TrialPeriod, whose machine is the key of its row
pub record TrialPeriod : Type 0 where
  pub status : TrialStatus
  pub started_at : ℕ
  pub expires_at : ℕ
  pub extended_days : ℕ
  pub original_days : ℕ
  pub last_checked_at : ℕ
  pub converted_at : Option ℕ

pub record Call : Type 0 where
  pub now : ℕ
  pub reads : Bool
  pub creates : Bool
  pub saves : Bool
  pub updates : Bool

pub data TrialError : Type 0 where
  database_error bad_days no_trial already_converted : TrialError

pub data TrialResult : Type 0 where
  ok : TrialResult
  failed : TrialError → TrialResult

abbrev pub is_active : TrialStatus → Bool
is_active TrialStatus.active = true
is_active _ = false

abbrev pub is_expired : TrialStatus → Bool
is_expired TrialStatus.expired = true
is_expired _ = false

abbrev pub is_converted : TrialStatus → Bool
is_converted TrialStatus.converted = true
is_converted _ = false

abbrev pub default_trial_days : ℕ
default_trial_days = 30

unfoldable pub new_trial : ℕ → TrialPeriod
new_trial now = record {
  status = TrialStatus.active;
  started_at = now;
  expires_at = now + default_trial_days * day;
  extended_days = 0;
  original_days = default_trial_days;
  last_checked_at = now;
  converted_at = none;
}

-- A trial that is active behind its end is marked as expired.
unfoldable pub mark_expired : Call → TrialPeriod → TrialPeriod
mark_expired c t =
    if is_active t.status && ltb t.expires_at c.now && c.saves
    then record t { status = TrialStatus.expired }
    else t

unfoldable pub mark_checked : Call → TrialPeriod → TrialPeriod
mark_checked c t = if c.updates then record t { last_checked_at = c.now } else t

unfoldable pub init_found :
    String → Call → Option TrialPeriod → Dict TrialPeriod → Dict TrialPeriod × TrialResult
init_found machine c none trials =
    if c.creates
    then (insert machine (new_trial c.now) trials, ok)
    else (trials, failed database_error)
init_found machine c (some t) trials =
    (insert machine (mark_checked c (mark_expired c t)) trials, ok)

-- `InitTrialPeriod`
unfoldable pub init_trial_period : String → Call → Dict TrialPeriod → Dict TrialPeriod × TrialResult
unfolding init_found
init_trial_period machine c trials =
    if c.reads
    then init_found machine c (lookup machine trials) trials
    else (trials, failed database_error)

unfoldable pub extend_found :
    String → Call → ℕ → Option TrialPeriod → Dict TrialPeriod → Dict TrialPeriod × TrialResult
extend_found machine c days none trials = (trials, failed no_trial)
extend_found machine c days (some t) trials =
    if is_converted t.status
    then (trials, failed already_converted)
    else if c.updates
    then (
      insert machine
          record t {
            status = TrialStatus.extended;
            expires_at = t.expires_at + days * day;
            extended_days = t.extended_days + days;
          }
          trials,
      ok,
    )
    else (trials, failed database_error)

-- `ExtendTrial`, where a number of days that is not positive is 0
unfoldable pub extend_trial : String → Call → ℕ → Dict TrialPeriod → Dict TrialPeriod × TrialResult
unfolding extend_found
extend_trial machine c days trials =
    if days == 0 || ltb 365 days
    then (trials, failed bad_days)
    else if c.reads
    then extend_found machine c days (lookup machine trials) trials
    else (trials, failed database_error)

unfoldable pub convert_found : String → ℕ → Option TrialPeriod → Dict TrialPeriod → Dict TrialPeriod
convert_found machine now none trials = trials
convert_found machine now (some t) trials =
    if is_converted t.status
    then trials
    else insert machine (record t { status = TrialStatus.converted; converted_at = some now })
        trials

-- `ConvertTrial`
unfoldable pub convert_trial : String → Call → Dict TrialPeriod → Dict TrialPeriod × TrialResult
unfolding convert_found
convert_trial machine c trials =
    if c.updates
    then (convert_found machine c.now (lookup machine trials) trials, ok)
    else (trials, failed database_error)

abbrev is_done : LicenseResult (Unit {0}) → Bool
is_done (License.done u) = true
is_done (License.failed e) = false

-- Whether there is an engine whose license is valid.
unfoldable pub has_license : Option Engine → ℕ → Bool
has_license none now = false
has_license (some e) now = is_done (validate e now)

-- The status of the machine's row, where the database answers and has one.
abbrev pub status_is : (TrialStatus → Bool) → Call → Option TrialPeriod → Bool
status_is p c none = false
status_is p c (some t) = c.reads && p t.status

-- `IsTrialExpired`
unfoldable pub is_trial_expired : Option Engine → String → Call → Dict TrialPeriod → Bool
is_trial_expired e machine c trials =
    if has_license e c.now then false else status_is is_expired c (lookup machine trials)

-- `IsTrialActive`
unfoldable pub is_trial_active : Option Engine → String → Call → Dict TrialPeriod → Bool
is_trial_active e machine c trials =
    if has_license e c.now then false else status_is is_active c (lookup machine trials)

unfoldable pub allows : ℕ → ℕ → TrialStatus → Bool
allows now end TrialStatus.active = true
allows now end TrialStatus.converted = true
allows now end TrialStatus.expired = false
allows now end TrialStatus.extended = ltb now end

unfoldable pub allows_row : Call → Option TrialPeriod → Bool
unfolding allows
allows_row c none = true
allows_row c (some t) = not c.reads || allows c.now t.expires_at t.status

-- `CheckTrialOrLicense`, where false is an error
unfoldable pub check_trial_or_license : Option Engine → String → Call → Dict TrialPeriod → Bool
unfolding allows_row
check_trial_or_license e machine c trials =
    if has_license e c.now then true else allows_row c (lookup machine trials)
