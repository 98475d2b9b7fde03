-- ===== src/MemoryCache.antt =====
-- internal/service/memory_cache.go. Each reading of the clock is an argument. JSON values go through
-- `Get` and `Set` as texts, and are left out.
pub mod Refinement
mod Tests
use deploypilot.Base.{
  ℕ, ◌+◌, Bool, true, false, not, List, [], ◌∷◌, Option, none, some, String, Dict, lookup, insert,
  erase, retain, ltb, if◌then◌else◌,
}
use Prim.Native.String.{◌++◌ as joined}

pub record CacheItem : Type 0 where
  pub value : String
  pub expire_at : ℕ

pub record MemoryCache : Type 0 where
  pub items : Dict CacheItem
  pub prefix : String

-- `NewMemoryCache`, but for its goroutine
unfoldable pub new_memory_cache : String → MemoryCache
new_memory_cache prefix = record { items = []; prefix = prefix }

-- `key`
unfoldable pub full_key : MemoryCache → String → String
full_key c k = joined c.prefix k

-- Whether an item is there and has not run out.
abbrev pub fresh_value : ℕ → Option CacheItem → Option String
fresh_value now none = none
fresh_value now (some item) = if ltb item.expire_at now then none else some item.value

-- `Get`, where no answer is ErrCacheMiss.
unfoldable pub cache_get : MemoryCache → String → ℕ → Option String
unfolding full_key
cache_get c key now = fresh_value now (lookup (full_key c key) c.items)

-- `Set`
unfoldable pub cache_set : MemoryCache → String → String → ℕ → ℕ → MemoryCache
unfolding full_key
cache_set c key value ttl now = record c {
  items = insert (full_key c key) (record { value = value; expire_at = now + ttl }) c.items;
}

-- `Delete`
unfoldable pub cache_delete : MemoryCache → String → MemoryCache
unfolding full_key
cache_delete c key = record c { items = erase (full_key c key) c.items }

-- An item that a tick of `cleanup` keeps.
unfoldable pub not_expired : ℕ → CacheItem → Bool
not_expired now item = not (ltb item.expire_at now)

-- One tick of `cleanup`
unfoldable pub cache_cleanup : MemoryCache → ℕ → MemoryCache
unfolding not_expired
cache_cleanup c now = record c { items = retain (not_expired now) c.items }
