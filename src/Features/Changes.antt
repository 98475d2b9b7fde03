-- ===== src/Features/Changes.antt =====
-- internal/service/feature_flag_service.go: the operations that change flags and overrides.
use Prim.Native.Char.{code}
use Prim.Native.String.{◌++◌ as joined}
use deploypilot.Base.{
  Bool, true, false, ◌&&◌, List, [], ◌∷◌, Option, none, some, String, Dict, lookup, insert, erase,
  if◌then◌else◌, ◌==◌, string_tested, nat_tested, is_empty,
}
use deploypilot.License.Data.{all_features, has_feature}
use deploypilot.Features.{
  FeatureFlag, FeatureFlagOverride, Bridge, Call, find_override, put_override, invalidate,
}

-- The columns that `UpdateFeatureFlag` sets.
pub record FlagUpdate : Type 0 where
  pub status : Option String
  pub name : Option String
  pub description : Option String
  pub default_enabled : Option Bool
  pub required_tier : Option String
  pub required_use_type : Option String
  pub category : Option String

abbrev pub or_old : {A : Type 0} → Option A → A → A
or_old none old = old
or_old (some new) old = new

abbrev pub is_none : {A : Type 0} → Option A → Bool
is_none none = true
is_none (some a) = false

unfoldable pub updates_nothing : FlagUpdate → Bool
updates_nothing u =
    is_none u.status
    && is_none u.name
    && is_none u.description
    && is_none u.default_enabled
    && is_none u.required_tier
    && is_none u.required_use_type
    && is_none u.category

unfoldable pub update_columns : FlagUpdate → FeatureFlag → FeatureFlag
update_columns u f = record f {
  status = or_old u.status f.status;
  name = or_old u.name f.name;
  description = or_old u.description f.description;
  default_enabled = or_old u.default_enabled f.default_enabled;
  required_tier = or_old u.required_tier f.required_tier;
  required_use_type = or_old u.required_use_type f.required_use_type;
  category = or_old u.category f.category;
}

abbrev pub with_flags : Dict FeatureFlag → Bridge → Bridge
with_flags flags b = record b { tables = record b.tables { flags = flags } }

abbrev pub uncached : Bridge → Bridge
uncached b = record b { cache = invalidate b.cache }

unfoldable pub update_found :
    Call → String → FlagUpdate → Option FeatureFlag → Bridge → Bridge × Bool
unfolding updates_nothing update_columns
update_found c key u none b = (b, false)
update_found c key u (some f) b =
    if updates_nothing u
    then (b, false)
    else if c.writes
    then (uncached (with_flags (insert key (update_columns u f) b.tables.flags) b), true)
    else (b, false)

-- `UpdateFeatureFlag`, where false is an error
unfoldable pub update_feature_flag : Call → String → FlagUpdate → Bridge → Bridge × Bool
unfolding update_found
update_feature_flag c key u b =
    if c.reads then update_found c key u (lookup key b.tables.flags) b else (b, false)

-- The update of a flag's `overridden_by`, whose failure is only logged.
unfoldable pub mark_flag : Call → String → String → Option FeatureFlag → Bridge → Bridge
mark_flag c key who none b = b
mark_flag c key who (some f) b =
    if c.marks
    then with_flags (insert key (record f { overridden_by = who }) b.tables.flags) b
    else b

abbrev pub with_overrides : Dict (Dict FeatureFlagOverride) → Bridge → Bridge
with_overrides overrides b = record b { tables = record b.tables { overrides = overrides } }

unfoldable pub override_found :
    Call → FeatureFlagOverride → Option FeatureFlag → Bridge → Bridge × Bool
unfolding mark_flag
override_found c o none b = (b, false)
override_found c o (some f) b =
    if c.writes
    then (
      uncached (
          mark_flag c o.flag_key o.overridden_by (some f)
            (with_overrides (put_override o b.tables.overrides) b)),
      true,
    )
    else (b, false)

-- `SetFeatureFlagOverride`
unfoldable pub set_feature_flag_override : Call → FeatureFlagOverride → Bridge → Bridge × Bool
unfolding override_found
set_feature_flag_override c o b =
    if c.reads then override_found c o (lookup o.flag_key b.tables.flags) b else (b, false)

-- `Delete` of the row of a key and a tenant.
unfoldable pub erase_override :
    String
    → String
    → Option (Dict FeatureFlagOverride)
    → Dict (Dict FeatureFlagOverride)
    → Dict (Dict FeatureFlagOverride)
erase_override key tenant none m = m
erase_override key tenant (some tenants) m = insert key (erase tenant tenants) m

unfoldable pub delete_found :
    Call → String → String → Option FeatureFlagOverride → Bridge → Bridge × Bool
unfolding erase_override mark_flag
delete_found c key tenant none b = (b, false)
delete_found c key tenant (some o) b = (
  uncached (
      mark_flag c key "" (lookup key b.tables.flags) (
        with_overrides
          (erase_override key tenant (lookup key b.tables.overrides) b.tables.overrides) b)),
  true,
)

-- `DeleteFeatureFlagOverride`
unfoldable pub delete_feature_flag_override : Call → String → String → Bridge → Bridge × Bool
unfolding delete_found
delete_feature_flag_override c key tenant b =
    if c.writes
    then delete_found c key tenant (find_override b.tables.overrides key tenant) b
    else (b, false)

-- `strings.ReplaceAll(s, "_", " ")`
spaced : String → String
spaced String.[] = String.[]
spaced (String.◌∷◌ c s) = String.◌∷◌ (if code c == b'_' then " " else c) (spaced s)

-- `categorizeFeature`
unfoldable pub categorize_feature : String → String
categorize_feature f =
    if has_feature ("ssl" ∷ "backup" ∷ []) f
    then "infrastructure"
    else if has_feature ("monitoring" ∷ "alerting" ∷ "dashboard_tv" ∷ []) f
    then "monitoring"
    else if has_feature ("plugins" ∷ "webhooks" ∷ "grafana" ∷ []) f
    then "integration"
    else if has_feature
        ("oauth2" ∷ "2fa" ∷ "ip_whitelist" ∷ "device_binding" ∷ "code_signing" ∷ "sso" ∷ "ldap"
          ∷ "multi_tenant" ∷ "federation" ∷ [])
        f
    then "security"
    else if has_feature ("api_keys" ∷ "audit_export" ∷ "sla" ∷ []) f
    then "management"
    else if has_feature ("cluster" ∷ "registry" ∷ "batch_operations" ∷ []) f
    then "infrastructure"
    else if has_feature ("toolbox" ∷ "ssh_key_management" ∷ []) f
    then "tools"
    else if has_feature ("custom_branding" ∷ "priority_support" ∷ []) f
    then "commercial"
    else "general"

unfoldable pub default_flag : String → FeatureFlag
unfolding spaced categorize_feature
default_flag f = record {
  key = f;
  name = spaced f;
  description = joined "Feature flag for " (spaced f);
  status = "enabled";
  default_enabled = true;
  required_tier = "";
  required_use_type = "";
  category = categorize_feature f;
  overridden_by = "";
}

unfoldable pub seed : List String → Dict FeatureFlag
unfolding default_flag
seed [] = []
seed (f ∷ fs) = (f, default_flag f) ∷ seed fs

-- `InitFeatureFlags`
unfoldable pub init_feature_flags : Call → Bridge → Bridge × Bool
unfolding seed
init_feature_flags c b =
    if c.reads
    then (if is_empty b.tables.flags
        then (if c.writes then (with_flags (seed all_features) b, true) else (b, false))
        else (b, true))
    else (b, false)
