-- ===== src/MemoryCache/Refinement.antt =====
-- internal/service/memory_cache.go: the cache, and a map whose entries run out.
use deploypilot.Base.{
  ℕ, leb, ◌+◌, ◌≤◌, ◌≡◌, refl, ap, ◌∙◌, List, [], ◌∷◌, Option, none, some, String, lookup,
  lookup-insert, lookup-erase, lookup-retain, option_keep, if◌then◌else◌, ◌==◌, string_tested, All,
  arith,
}
use Prim.Native.String.{◌++◌ as joined}
use text.Mathlib.TextEquality.{eq_iff}
use text.Mathlib.TextLemmas.{append_cancel_left}
use deploypilot.MemoryCache.{
  CacheItem, MemoryCache, new_memory_cache, full_key, fresh_value, cache_get, cache_set,
  cache_delete, not_expired, cache_cleanup,
}

pub data Op : Type 0 where
  sets : String → String → ℕ → ℕ → Op
  deletes : String → Op
  cleans : ℕ → Op

unfoldable pub apply : Op → MemoryCache → MemoryCache
apply (sets key value ttl t) c = cache_set c key value ttl t
apply (deletes key) c = cache_delete c key
apply (cleans t) c = cache_cleanup c t

unfoldable pub run : List Op → MemoryCache → MemoryCache
unfolding apply
run [] c = c
run (op ∷ ops) c = run ops (apply op c)

-- The specification: what the last `Set` of a key left, if no `Delete` of it came behind. No cleanup
-- counts.
abbrev pub last_item : String → List Op → Option CacheItem → Option CacheItem
last_item key [] item = item
last_item key (sets k value ttl t ∷ ops) item =
    last_item key ops
      (if k == key then some (record { value = value; expire_at = t + ttl }) else item)
last_item key (deletes k ∷ ops) item = last_item key ops (if k == key then none else item)
last_item key (cleans t ∷ ops) item = last_item key ops item

-- The value of an item up to the time at which it runs out.
abbrev pub unexpired : ℕ → Option CacheItem → Option String
unexpired now none = none
unexpired now (some item) = if leb now item.expire_at then some item.value else none

fresh-unexpired : (now : ℕ) (item : Option CacheItem) → fresh_value now item ≡ unexpired now item
fresh-unexpired now none = refl
fresh-unexpired now (some item) = ground arith

-- No tick of the cleanup is behind a time.
abbrev pub IsBefore : ℕ → Op → Type 0
IsBefore now (cleans t) = t ≤ now
IsBefore now _ = Unit

same_key : (c : MemoryCache) (k j : String) → (full_key c k == full_key c j) ≡ (k == j)
unfolding full_key
same_key c k j = ground (
  arith,
  eq_iff (joined c.prefix k) (joined c.prefix j),
  eq_iff k j,
  append_cancel_left c.prefix k j,
)

-- An item that the cleanup deletes would not be answered.
fresh-kept :
    (now t : ℕ) (item : Option CacheItem)
    → t ≤ now
    → fresh_value now (option_keep (not_expired t) item) ≡ fresh_value now item
unfolding not_expired
fresh-kept now t none h = refl
fresh-kept now t (some i) h = ground (arith, h)

set_refines :
    (c : MemoryCache) (k v : String) (ttl t : ℕ) (key : String) (now : ℕ) (item : Option CacheItem)
    → cache_get c key now ≡ fresh_value now item
    → cache_get (cache_set c k v ttl t) key now
      ≡ fresh_value now
          (if k == key then some (record { value = v; expire_at = t + ttl }) else item)
unfolding cache_get cache_set
set_refines c k v ttl t key now item h = ground (
  arith,
  h,
  same_key c k key,
  lookup-insert (full_key c k) (full_key c key) (record { value = v; expire_at = t + ttl }) c.items,
)

delete_refines :
    (c : MemoryCache) (k key : String) (now : ℕ) (item : Option CacheItem)
    → cache_get c key now ≡ fresh_value now item
    → cache_get (cache_delete c k) key now ≡ fresh_value now (if k == key then none else item)
unfolding cache_get cache_delete
delete_refines c k key now item h =
    ground (arith, h, same_key c k key, lookup-erase (full_key c k) (full_key c key) c.items)

cleanup_refines :
    (c : MemoryCache) (t : ℕ) (key : String) (now : ℕ) (item : Option CacheItem)
    → t ≤ now
    → cache_get c key now ≡ fresh_value now item
    → cache_get (cache_cleanup c t) key now ≡ fresh_value now item
unfolding cache_get cache_cleanup
cleanup_refines c t key now item l h =
    ap (fresh_value now) (lookup-retain (not_expired t) (full_key c key) c.items)
    ∙ fresh-kept now t (lookup (full_key c key) c.items) l
    ∙ h

run-refines :
    (ops : List Op) (c : MemoryCache) (key : String) (now : ℕ) (item : Option CacheItem)
    → All (IsBefore now) ops
    → cache_get c key now ≡ fresh_value now item
    → cache_get (run ops c) key now ≡ fresh_value now (last_item key ops item)
unfolding run apply
run-refines [] c key now item b h = h
run-refines (sets k v l t ∷ ops) c key now item b h =
    run-refines ops (cache_set c k v l t) key now _ b.1 (set_refines c k v l t key now item h)
run-refines (deletes k ∷ ops) c key now item b h =
    run-refines ops (cache_delete c k) key now _ b.1 (delete_refines c k key now item h)
run-refines (cleans t ∷ ops) c key now item b h =
    run-refines ops (cache_cleanup c t) key now item b.1 (cleanup_refines c t key now item b.0 h)

-- Whatever is set and deleted under any keys, and whenever the cleanup runs up to a time, what the
-- cache answers at that time for a key is what the last `Set` of this key left, unless it was deleted
-- since or has run out.
pub cache_get-run :
    (ops : List Op) (prefix key : String) (now : ℕ)
    → All (IsBefore now) ops
    → cache_get (run ops (new_memory_cache prefix)) key now ≡ unexpired now (last_item key ops none)
unfolding new_memory_cache cache_get lookup
cache_get-run ops prefix key now b =
    run-refines ops (new_memory_cache prefix) key now none b refl
    ∙ fresh-unexpired now (last_item key ops none)
