-- ===== src/MemoryCache/Tests.antt =====
-- A concrete run of the cache.
use deploypilot.Base.{◌≡◌, List, [], ◌∷◌, none, arith}
use deploypilot.MemoryCache.{new_memory_cache, cache_get}
use deploypilot.MemoryCache.Refinement.{
  Op, sets, deletes, cleans, run, unexpired, last_item, cache_get-run,
}

abbrev calls : List Op
calls = sets "a" "1" 60 0 ∷ sets "b" "2" 60 5 ∷ deletes "b" ∷ cleans 30 ∷ sets "a" "3" 60 40 ∷ []

cache_get-run_example :
    cache_get (run calls (new_memory_cache "dp:")) "a" 50 ≡ unexpired 50 (last_item "a" calls none)
cache_get-run_example = cache_get-run calls "dp:" "a" 50 (tt, (tt, (tt, (omega arith, (tt, tt)))))
