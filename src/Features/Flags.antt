-- ===== src/Features/Flags.antt =====
-- internal/service/feature_flag_service.go: the evaluation of a feature, and the listings.
use deploypilot.Base.{
  ℕ, Bool, true, false, not, ◌&&◌, List, [], ◌∷◌, Option, none, some, String, lookup, values, ltb,
  if◌then◌else◌, ◌==◌, string_tested, nat_tested,
}
use deploypilot.License.Data.{Engine}
use deploypilot.License.Allows.{get_tier, get_use_type, is_feature_enabled}
use deploypilot.Features.{
  FeatureFlag, FeatureFlagOverride, Bridge, Call, cache_flag, cache_flags, cache_override,
  find_override, cache_set, or_read,
}

-- The order of the tiers, where one that the map has not is 0.
unfoldable pub tier_rank : String → ℕ
tier_rank tier =
    if tier == "team" then 1 else if tier == "pro" then 2 else if tier == "enterprise" then 3 else 0

unfoldable pub is_below_tier : Option Engine → String → Bool
unfolding tier_rank
is_below_tier none required = false
is_below_tier (some e) required =
    not (required == "")
    && not (required == get_tier e)
    && ltb (tier_rank (get_tier e)) (tier_rank required)

unfoldable pub is_other_use : Option Engine → String → Bool
is_other_use none required = false
is_other_use (some e) required = not (required == "") && not (get_use_type e == required)

unfoldable pub flag_allows : Option Engine → FeatureFlag → Bool
unfolding is_below_tier is_other_use
flag_allows e f =
    if not (f.status == "enabled")
    then false
    else if is_below_tier e f.required_tier
    then false
    else if is_other_use e f.required_use_type
    then false
    else true

unfoldable pub engine_allows : Option Engine → String → ℕ → Bool
engine_allows none key now = true
engine_allows (some e) key now = is_feature_enabled e key now

-- An override goes before a flag, and a flag before the license.
unfoldable pub decide :
    Option Engine → String → ℕ → Option FeatureFlagOverride → Option FeatureFlag → Bool
unfolding flag_allows engine_allows
decide e key now (some o) flag = o.enabled
decide e key now none (some f) = flag_allows e f
decide e key now none none = engine_allows e key now

unfoldable pub override_for : Bridge → Call → String → String → Option FeatureFlagOverride
override_for b c key tenant =
    if tenant == ""
    then none
    else or_read c.reads (cache_override b.cache key tenant c.now)
        (find_override b.tables.overrides key tenant)

unfoldable pub flag_for : Bridge → Call → String → Option FeatureFlag
flag_for b c key = or_read c.reads (cache_flag b.cache key c.now) (lookup key b.tables.flags)

-- `EvaluateFeature`, which never returns an error
unfoldable pub evaluate_feature : Option Engine → Bridge → Call → String → String → Bool
evaluate_feature e b c key tenant =
    decide e key c.now (override_for b c key tenant) (flag_for b c key)

unfoldable pub load_flags :
    Call → Bridge → Option (List FeatureFlag) → Bridge × Option (List FeatureFlag)
load_flags c b (some flags) = (b, some flags)
load_flags c b none =
    if c.reads
    then (
      record b { cache = cache_set (values b.tables.flags) [] c.now b.cache },
      some (values b.tables.flags),
    )
    else (b, none)

-- What the two listings begin with: the flags of the cache, or of the database, which go to the cache.
-- The cache is read and set in two steps of the code, which no other call comes between here.
unfoldable pub all_flags : Call → Bridge → Bridge × Option (List FeatureFlag)
unfolding load_flags
all_flags c b = load_flags c b (cache_flags b.cache c.now)

-- The pairs of a flag and its evaluation.
evaluate_all : Option Engine → Bridge → Call → List FeatureFlag → List (FeatureFlag × Bool)
evaluate_all e b c [] = []
evaluate_all e b c (f ∷ fs) = (f, evaluate_feature e b c f.key "") ∷ evaluate_all e b c fs

unfoldable pub evaluated :
    Option Engine
    → Call
    → Bridge × Option (List FeatureFlag)
    → Bridge × Option (List (FeatureFlag × Bool))
unfolding evaluate_all
evaluated e c (b, none) = (b, none)
evaluated e c (b, some flags) = (b, some (evaluate_all e b c flags))

-- `ListFeatureFlags`
unfoldable pub list_feature_flags :
    Option Engine → Call → Bridge → Bridge × Option (List (FeatureFlag × Bool))
unfolding evaluated
list_feature_flags e c b = evaluated e c (all_flags c b)

-- The entries of a tenant's listing: with an evaluation, the override that the cache has.
tenant_entries :
    Option Engine
    → Bridge
    → Call
    → String
    → List FeatureFlag
    → List (FeatureFlag × Bool × Option FeatureFlagOverride)
tenant_entries e b c tenant [] = []
tenant_entries e b c tenant (f ∷ fs) =
    (f, evaluate_feature e b c f.key tenant, cache_override b.cache f.key tenant c.now)
    ∷ tenant_entries e b c tenant fs

unfoldable pub tenant_listed :
    Option Engine
    → Call
    → String
    → Bridge × Option (List FeatureFlag)
    → Bridge × Option (List (FeatureFlag × Bool × Option FeatureFlagOverride))
unfolding tenant_entries
tenant_listed e c tenant (b, none) = (b, none)
tenant_listed e c tenant (b, some flags) = (b, some (tenant_entries e b c tenant flags))

-- `GetFeatureFlagsForTenant`
unfoldable pub get_feature_flags_for_tenant :
    Option Engine
    → Call
    → String
    → Bridge
    → Bridge × Option (List (FeatureFlag × Bool × Option FeatureFlagOverride))
unfolding tenant_listed
get_feature_flags_for_tenant e c tenant b = tenant_listed e c tenant (all_flags c b)

evaluated_row : Option Engine → Bridge → Call → Option FeatureFlag → Option (FeatureFlag × Bool)
evaluated_row e b c none = none
evaluated_row e b c (some f) = some (f, evaluate_feature e b c f.key "")

-- `GetFeatureFlag`
pub get_feature_flag : Option Engine → Call → String → Bridge → Option (FeatureFlag × Bool)
unfolding evaluated_row
get_feature_flag e c key b =
    if c.reads then evaluated_row e b c (lookup key b.tables.flags) else none
