-- ===== src/Features.antt =====
-- internal/service/feature_flag_service.go: the flags, their overrides, and the cache before the
-- database. A call meets the clock and a database that answers or does not; the pointers of the cache are
-- to values that nothing changes. A status is a text, as is a tier.
pub mod Flags
pub mod Changes
mod Table
mod Coherent
pub mod Cached
mod Tests
use deploypilot.Base.{
  ℕ, ◌-◌, Bool, true, false, not, ◌&&◌, ◌||◌, List, [], ◌∷◌, Option, none, some, String, Dict,
  lookup, insert, values, ltb, map, if◌then◌else◌, ◌==◌, string_tested, nat_tested, is_empty,
  keep_if, any_of,
}
use deploypilot.License.Data.{Engine, all_features}
use deploypilot.License.Allows.{get_tier, get_use_type, is_feature_enabled}

-- model.FeatureFlag, whose key is the key of its row
pub record FeatureFlag : Type 0 where
  pub key : String
  pub name : String
  pub description : String
  pub status : String
  pub default_enabled : Bool
  pub required_tier : String
  pub required_use_type : String
  pub category : String
  pub overridden_by : String

-- model.FeatureFlagOverride
pub record FeatureFlagOverride : Type 0 where
  pub flag_key : String
  pub tenant_id : String
  pub enabled : Bool
  pub reason : String
  pub overridden_by : String

-- The tables: a flag for each key, and an override for each pair of a key and a tenant. Each has one row
-- at most, since a flag's key is unique and an override is only made where there is none.
pub record Tables : Type 0 where
  pub flags : Dict FeatureFlag
  pub overrides : Dict (Dict FeatureFlagOverride)

-- `loaded_at` is none for the zero time, which is longer ago than any span of time.
pub record FeatureFlagCache : Type 0 where
  pub flags : Dict FeatureFlag
  pub overrides : Dict (Dict FeatureFlagOverride)
  pub loaded_at : Option ℕ
  pub ttl : ℕ

pub record Bridge : Type 0 where
  pub tables : Tables
  pub cache : FeatureFlagCache

-- The time, and whether the database answers a query, writes what is asked for, and marks the flag.
pub record Call : Type 0 where
  pub now : ℕ
  pub reads : Bool
  pub writes : Bool
  pub marks : Bool

-- `NewFeatureFlagCache`
unfoldable pub new_cache : ℕ → FeatureFlagCache
new_cache ttl = record { flags = []; overrides = []; loaded_at = none; ttl = ttl }

abbrev pub stale_since : ℕ → ℕ → Option ℕ → Bool
stale_since now ttl none = true
stale_since now ttl (some loaded) = ltb ttl (now - loaded)

-- `time.Since(c.loadedAt) > c.ttl`
abbrev pub is_stale : FeatureFlagCache → ℕ → Bool
is_stale c now = stale_since now c.ttl c.loaded_at

-- `Get`
unfoldable pub cache_flag : FeatureFlagCache → String → ℕ → Option FeatureFlag
cache_flag c key now = if is_stale c now then none else lookup key c.flags

-- `GetAll`, where none is nil
unfoldable pub cache_flags : FeatureFlagCache → ℕ → Option (List FeatureFlag)
cache_flags c now = if is_stale c now then none else some (values c.flags)

abbrev pub of_tenant : String → Option (Dict FeatureFlagOverride) → Option FeatureFlagOverride
of_tenant tenant none = none
of_tenant tenant (some tenants) = lookup tenant tenants

-- `c.overrides[flagKey][tenantID]`
unfoldable pub find_override :
    Dict (Dict FeatureFlagOverride) → String → String → Option FeatureFlagOverride
find_override overrides key tenant = of_tenant tenant (lookup key overrides)

-- `GetOverride`
unfoldable pub cache_override : FeatureFlagCache → String → String → ℕ → Option FeatureFlagOverride
cache_override c key tenant now =
    if is_stale c now then none else find_override c.overrides key tenant

unfoldable pub by_key : Dict FeatureFlag → List FeatureFlag → Dict FeatureFlag
by_key m [] = m
by_key m (f ∷ fs) = by_key (insert f.key f m) fs

abbrev pub tenants_or_new : Option (Dict FeatureFlagOverride) → Dict FeatureFlagOverride
tenants_or_new none = []
tenants_or_new (some tenants) = tenants

-- `overrides[o.FlagKey][o.TenantID] = o`
unfoldable pub put_override :
    FeatureFlagOverride → Dict (Dict FeatureFlagOverride) → Dict (Dict FeatureFlagOverride)
put_override o m = insert o.flag_key (insert o.tenant_id o (tenants_or_new (lookup o.flag_key m))) m

unfoldable pub by_tenant :
    Dict (Dict FeatureFlagOverride) → List FeatureFlagOverride → Dict (Dict FeatureFlagOverride)
by_tenant m [] = m
by_tenant m (o ∷ os) = by_tenant (put_override o m) os

-- `Set`
unfoldable pub cache_set :
    List FeatureFlag → List FeatureFlagOverride → ℕ → FeatureFlagCache → FeatureFlagCache
cache_set flags overrides now c = record c {
  flags = by_key [] flags;
  overrides = by_tenant [] overrides;
  loaded_at = some now;
}

-- `Invalidate`
unfoldable pub invalidate : FeatureFlagCache → FeatureFlagCache
invalidate c = record c { flags = []; overrides = []; loaded_at = none }

-- What the cache has, or else what the database answers.
abbrev pub or_read {ℓ} : {A : Type ℓ} → Bool → Option A → Option A → Option A
or_read reads (some cached) stored = some cached
or_read true none stored = stored
or_read false none stored = none
