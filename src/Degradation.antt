-- ===== src/Degradation.antt =====
-- internal/service/degradation_service.go and internal/middleware/degradation.go: how far an instance is
-- restricted, by its license, its trial and its feature flags. The texts of the reasons are left out.
pub mod ReadOnly
mod Tests
use deploypilot.Base.{
  ℕ, ◌-◌, ◌/◌, Bool, true, false, not, ◌&&◌, ◌||◌, List, [], ◌∷◌, Option, none, some, String, Dict,
  ltb, leb, keep_if, is_empty, if◌then◌else◌, ◌==◌, string_tested,
}
use deploypilot.License.Data.{Engine, LicenseInfo, all_features, day}
use deploypilot.License.Allows.{tier_of}
use deploypilot.Features as Features
use deploypilot.Features.Flags.{evaluate_feature}
use deploypilot.Trial as Trial
use deploypilot.Trial.{TrialPeriod, is_trial_expired, is_trial_active}

pub data DegradationLevel : Type 0 where
  no_degradation partial read_only : DegradationLevel

pub data LicenseStatus : Type 0 where
  unlicensed valid expiring_soon expired : LicenseStatus

pub data TrialState : Type 0 where
  no_trial running over : TrialState

pub record DegradationStatus : Type 0 where
  pub level : DegradationLevel
  pub license_status : LicenseStatus
  pub trial_status : TrialState
  pub tier : String
  pub gated_features : List String
  pub expires_at : Option ℕ
  pub grace_days_left : ℕ

-- The bridge's license engine, if it has one, its flags, and the trials with the machine it runs on.
pub record Instance : Type 0 where
  pub engine : Option Engine
  pub flags : Features.Bridge
  pub machine : String
  pub trials : Dict TrialPeriod

-- What a request meets, as the flags and as the trials see it.
pub record Call : Type 0 where
  pub flags : Features.Call
  pub trial : Trial.Call

-- `getGatedFeatures`
unfoldable pub get_gated_features : Instance → Call → List String
get_gated_features s c =
    keep_if (λ f. not (evaluate_feature s.engine s.flags c.flags f "")) all_features

abbrev pub license_of : Option Engine → Option LicenseInfo
license_of none = none
license_of (some e) = e.info

abbrev pub valid_to_of : Option LicenseInfo → Option ℕ
valid_to_of none = none
valid_to_of (some i) = i.valid_to

unfoldable pub status_by_end : ℕ → Option ℕ → LicenseStatus
status_by_end now none = valid
status_by_end now (some end) =
    if ltb end now then expired else if leb ((end - now) / day) 7 then expiring_soon else valid

unfoldable pub license_status_of : ℕ → Option LicenseInfo → LicenseStatus
unfolding status_by_end
license_status_of now none = unlicensed
license_status_of now (some i) = status_by_end now i.valid_to

abbrev days_left : ℕ → Option ℕ → ℕ
days_left now none = 0
days_left now (some end) = (end - now) / day

-- The gated features count where there is a license that has not expired.
unfoldable pub gated_by_license : LicenseStatus → List String → List String
gated_by_license unlicensed gated = []
gated_by_license expired gated = []
gated_by_license valid gated = gated
gated_by_license expiring_soon gated = gated

unfoldable pub level_by_license : LicenseStatus → List String → DegradationLevel
level_by_license unlicensed gated = no_degradation
level_by_license expired gated = read_only
level_by_license expiring_soon gated = partial
level_by_license valid gated = if is_empty gated then no_degradation else partial

-- What the license gives, before the trial is looked at.
unfoldable pub by_license : Instance → Call → DegradationStatus
unfolding gated_by_license level_by_license license_status_of
by_license s c =
    let info = license_of s.engine in
    let status = license_status_of c.trial.now info in
    record {
      level = level_by_license status (get_gated_features s c);
      license_status = status;
      trial_status = no_trial;
      tier = tier_of info;
      gated_features = gated_by_license status (get_gated_features s c);
      expires_at = valid_to_of info;
      grace_days_left = days_left c.trial.now (valid_to_of info);
    }

unfoldable pub by_trial : Bool → Bool → List String → DegradationStatus → DegradationStatus
by_trial is_expired is_active gated d =
    if is_expired
    then record d { trial_status = over; level = read_only }
    else if is_active
    then record d {
      trial_status = running;
      gated_features = gated;
      level = if is_empty gated then d.level else partial;
    }
    else d

unfoldable pub with_trial :
    LicenseStatus → Bool → Bool → List String → DegradationStatus → DegradationStatus
unfolding by_trial
with_trial unlicensed x a gated d = by_trial x a gated d
with_trial expired x a gated d = by_trial x a gated d
with_trial valid x a gated d = d
with_trial expiring_soon x a gated d = d

-- `GetDegradationStatus`
unfoldable pub get_degradation_status : Instance → Call → DegradationStatus
get_degradation_status s c =
    with_trial (by_license s c).license_status
      (is_trial_expired s.engine s.machine c.trial s.trials)
      (is_trial_active s.engine s.machine c.trial s.trials) (get_gated_features s c)
      (by_license s c)

abbrev pub is_read_only : DegradationLevel → Bool
is_read_only read_only = true
is_read_only no_degradation = false
is_read_only partial = false

-- `CheckReadOnly`, where true is an error
unfoldable pub check_read_only : Instance → Call → Bool
check_read_only s c = is_read_only (get_degradation_status s c).level

unfoldable pub is_mutating : String → Bool
is_mutating method = method == "POST" || method == "PUT" || method == "DELETE" || method == "PATCH"

-- `ReadOnlyMiddleware`: whether a request goes on to its handler.
unfoldable pub read_only_passes : Instance → Call → String → Bool
unfolding is_mutating
read_only_passes s c method = if is_mutating method then not (check_read_only s c) else true
