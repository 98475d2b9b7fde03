-- ===== src/Features/Coherent.antt =====
-- internal/service/feature_flag_service.go: every operation keeps the cache in step with the tables.
use deploypilot.Base.{
  ◌≡◌, ◌≢◌, refl, sym, ◌∙◌, true, List, [], ◌∷◌, Option, none, some, String, Dict, lookup, insert,
  values, if_cases, string_tested, is_empty, any_of,
}
use deploypilot.License.Data.{Engine, all_features, has_feature}
use deploypilot.Features.{
  FeatureFlag, FeatureFlagOverride, Bridge, Call, by_tenant, cache_set, invalidate, put_override,
  or_read,
}
use deploypilot.Features.Flags.{load_flags, evaluated, tenant_listed}
use deploypilot.Features.Changes.{
  FlagUpdate, update_columns, update_found, mark_flag, override_found, delete_found, erase_override,
  seed, with_flags, with_overrides, uncached, updates_nothing,
}
use deploypilot.Features.Table.{
  IsTable, insert-IsTable, lookup-by_key, seed-IsTable, key_of, distinct,
}

-- What the cache holds of a flag is what its table holds; it holds no override.
pub record IsCoherent (b : Bridge) : Type 0 where
  pub table : IsTable b.tables.flags
  pub flags :
      (k : String) (f : FeatureFlag)
      → lookup k b.cache.flags ≡ some f
      → lookup k b.tables.flags ≡ some f
  pub overrides : b.cache.overrides ≡ []

abbrev pub IsCoherentPair : {A : Type 0} → Bridge × A → Type 0
IsCoherentPair o = IsCoherent o.0

-- An empty cache is coherent with any tables.
uncached-IsCoherent : (b : Bridge) → IsTable b.tables.flags → IsCoherent (uncached b)
unfolding invalidate lookup
uncached-IsCoherent b t = record { table = t; flags = λ k f e. cc e; overrides = refl }

loaded-IsCoherent :
    (c : Call) (b : Bridge)
    → IsCoherent b
    → IsCoherent (record b { cache = cache_set (values b.tables.flags) [] c.now b.cache })
unfolding cache_set by_tenant lookup
loaded-IsCoherent c b h = record {
  table = h.table;
  flags = λ k f e.
      stored k f (lookup k b.tables.flags) (sym (lookup-by_key k [] b.tables.flags h.table) ∙ e);
  overrides = refl;
}
  where
    stored :
        (k : String) (f : FeatureFlag) (o : Option FeatureFlag)
        → or_read true o (lookup k []) ≡ some f
        → o ≡ some f
    stored k f none e = cc e
    stored k f (some g) e = e

pub load_flags-IsCoherent :
    (c : Call) (b : Bridge) (cached : Option (List FeatureFlag))
    → IsCoherent b
    → IsCoherentPair (load_flags c b cached)
unfolding load_flags
load_flags-IsCoherent c b (some flags) h = h
load_flags-IsCoherent c b none h =
    if_cases IsCoherentPair c.reads _ _ (λ _. loaded-IsCoherent c b h) (λ _. h)

pub evaluated_same :
    (e : Option Engine) (c : Call) (o : Bridge × Option (List FeatureFlag))
    → IsCoherentPair o
    → IsCoherentPair (evaluated e c o)
unfolding evaluated
evaluated_same e c (b, none) h = h
evaluated_same e c (b, some flags) h = h

pub tenant_listed_same :
    (e : Option Engine) (c : Call) (tenant : String) (o : Bridge × Option (List FeatureFlag))
    → IsCoherentPair o
    → IsCoherentPair (tenant_listed e c tenant o)
unfolding tenant_listed
tenant_listed_same e c tenant (b, none) h = h
tenant_listed_same e c tenant (b, some flags) h = h

mark_flag-IsTable :
    (c : Call) (key who : String) (found : Option FeatureFlag) (b : Bridge)
    → lookup key b.tables.flags ≡ found
    → IsTable b.tables.flags
    → IsTable (mark_flag c key who found b).tables.flags
unfolding mark_flag
mark_flag-IsTable c key who none b e t = t
mark_flag-IsTable c key who (some f) b e t =
    if_cases (λ (x : Bridge). IsTable x.tables.flags) c.marks _ _
      (λ _. insert-IsTable key _ b.tables.flags (key_of key f b.tables.flags t e) t) (λ _. t)

pub update_found-IsCoherent :
    (c : Call) (key : String) (u : FlagUpdate) (found : Option FeatureFlag) (b : Bridge)
    → lookup key b.tables.flags ≡ found
    → IsCoherent b
    → IsCoherentPair (update_found c key u found b)
unfolding update_found update_columns
update_found-IsCoherent c key u none b e h = h
update_found-IsCoherent c key u (some f) b e h =
    if_cases IsCoherentPair (updates_nothing u) _ _ (λ _. h)
      (λ _.
        if_cases IsCoherentPair c.writes _ _
          (λ _.
            uncached-IsCoherent (with_flags (insert key (update_columns u f) b.tables.flags) b) (
              insert-IsTable key (update_columns u f) b.tables.flags
                (key_of key f b.tables.flags h.table e) h.table))
          (λ _. h))

pub override_found-IsCoherent :
    (c : Call) (o : FeatureFlagOverride) (found : Option FeatureFlag) (b : Bridge)
    → lookup o.flag_key b.tables.flags ≡ found
    → IsCoherent b
    → IsCoherentPair (override_found c o found b)
unfolding override_found
override_found-IsCoherent c o none b e h = h
override_found-IsCoherent c o (some f) b e h =
    if_cases IsCoherentPair c.writes _ _
      (λ _. uncached-IsCoherent _ (
        mark_flag-IsTable c o.flag_key o.overridden_by (some f)
          (with_overrides (put_override o b.tables.overrides) b) e h.table))
      (λ _. h)

pub delete_found-IsCoherent :
    (c : Call) (key tenant : String) (found : Option FeatureFlagOverride) (b : Bridge)
    → IsCoherent b
    → IsCoherentPair (delete_found c key tenant found b)
unfolding delete_found
delete_found-IsCoherent c key tenant none b h = h
delete_found-IsCoherent c key tenant (some o) b h = uncached-IsCoherent _ (
    mark_flag-IsTable c key "" (lookup key b.tables.flags)
      (with_overrides (erase_override key tenant (lookup key b.tables.overrides) b.tables.overrides)
        b)
      refl h.table)

not_found :
    (k : String) (f : FeatureFlag) (rows : Dict FeatureFlag)
    → is_empty rows ≡ true
    → lookup k rows ≢ some f
unfolding lookup
not_found k f [] empty = λ e. cc e
not_found k f (r ∷ rows) empty = cc empty

-- A cache that holds no more than an empty table holds nothing.
pub seeded-IsCoherent :
    (c : Call) (b : Bridge)
    → is_empty b.tables.flags ≡ true
    → IsCoherent b
    → IsCoherent (with_flags (seed all_features) b)
unfolding distinct has_feature any_of
seeded-IsCoherent c b empty h = record {
  table = seed-IsTable all_features refl;
  flags = λ k f e. absurd (not_found k f b.tables.flags empty (h.flags k f e));
  overrides = h.overrides;
}
