-- ===== src/License/Allows.antt =====
-- internal/license/license.go: what the loaded license allows.
use Prim.Native.String.{◌++◌ as joined}
use deploypilot.Base.{
  ℕ, ◌+◌, ◌*◌, Bool, true, false, not, ◌&&◌, ◌||◌, List, [], ◌∷◌, Option, none, some, String,
  if◌then◌else◌, ◌==◌, string_tested, nat_tested, ltb, leb, any_of,
}
use deploypilot.License.Data.{
  Addon, LicenseInfo, Engine, no_license, not_yet_valid, license_expired, LicenseResult, done,
  failed, has_feature, second, day,
}

-- Whether the time lies behind the end of a license and its grace period.
abbrev pub is_over : ℕ → ℕ → Option ℕ → Bool
is_over now grace none = false
is_over now grace (some end) = ltb (end + grace * day) now

validate_info : ℕ → ℕ → Option LicenseInfo → LicenseResult (Unit {0})
validate_info now grace none = failed no_license
validate_info now grace (some i) =
    if ltb now i.valid_from
    then failed not_yet_valid
    else if is_over now grace i.valid_to
    then failed license_expired
    else done tt

-- `Validate`
unfoldable pub validate : Engine → ℕ → LicenseResult (Unit {0})
unfolding validate_info
validate e now = validate_info now e.grace_days e.info

-- Whether an add-on is neither paused nor run out.
unfoldable pub is_active_addon : ℕ → Addon → Bool
is_active_addon now a =
    not (ltb 0 a.paused_at) && not (ltb 0 a.expires_at && ltb (a.expires_at * second) now)

enabled_by : String → ℕ → Option LicenseInfo → Bool
enabled_by f now none = false
enabled_by f now (some i) =
    has_feature i.features f
    || any_of (λ a. is_active_addon now a && a.key == joined "feature:" f) i.addons

-- `IsFeatureEnabled`
unfoldable pub is_feature_enabled : Engine → String → ℕ → Bool
unfolding enabled_by
is_feature_enabled e f now = enabled_by f now e.info

abbrev pub use_type_of : Option LicenseInfo → String
use_type_of none = "non_commercial"
use_type_of (some i) = i.use_type

-- `GetUseType`
unfoldable pub get_use_type : Engine → String
get_use_type e = use_type_of e.info

abbrev pub tier_of : Option LicenseInfo → String
tier_of none = "community"
tier_of (some i) = i.tier

-- `GetTier`
unfoldable pub get_tier : Engine → String
get_tier e = tier_of e.info

-- `IsCommercial`
unfoldable pub is_commercial : Engine → Bool
is_commercial e = get_use_type e == "commercial"

-- The amount that the active add-ons of a key add up to, with what there was before.
unfoldable pub add_amounts : ℕ → String → ℕ → List Addon → ℕ
add_amounts now key total [] = total
add_amounts now key total (a ∷ addons) =
    add_amounts now key (if is_active_addon now a && a.key == key then total + a.amount else total)
      addons

limits_of : ℕ → Option LicenseInfo → ℕ × ℕ × ℕ
limits_of now none = (3, 10, 5)
limits_of now (some i) = (
  add_amounts now "resource:servers" i.license.max_servers i.addons,
  add_amounts now "resource:apps" i.license.max_apps i.addons,
  add_amounts now "resource:users" i.license.max_users i.addons,
)

-- `GetLimits` and `getLimitsUnlocked`: of servers, apps and users.
unfoldable pub get_limits : Engine → ℕ → ℕ × ℕ × ℕ
unfolding limits_of
get_limits e now = limits_of now e.info

-- Whether a count reaches a limit; with a license, a limit of 0 is none.
abbrev pub reaches : Bool → ℕ → ℕ → Bool
reaches licensed limit current = (not licensed || ltb 0 limit) && leb limit current

abbrev pub is_loaded : {A : Type 0} → Option A → Bool
is_loaded none = false
is_loaded (some a) = true

-- `CheckLimit`, where true is an error.
unfoldable pub exceeds_limit : Engine → ℕ → String → ℕ → Bool
exceeds_limit e now resource current =
    let limits = get_limits e now in
    if resource == "servers"
    then reaches (is_loaded e.info) limits.0 current
    else if resource == "apps"
    then reaches (is_loaded e.info) limits.1 current
    else if resource == "users"
    then reaches (is_loaded e.info) limits.2 current
    else false
