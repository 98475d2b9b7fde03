-- ===== src/Auth/OauthState.antt =====
-- internal/auth/state.go: the states of OAuth logins, each with the time at which it runs out.
use deploypilot.Base.{
  ℕ, ◌+◌, Bool, false, not, Option, none, some, [], String, Dict, lookup, insert, erase, retain,
  ltb,
}

abbrev pub StateStore : Type 0
StateStore = Dict ℕ

-- `NewMemoryStateStore`
unfoldable pub new_state_store : StateStore
new_state_store = []

-- `Generate`
unfoldable pub generate_state : StateStore → String → ℕ → ℕ → StateStore
generate_state s state ttl now = insert state (now + ttl) s

unfoldable pub is_fresh : Option ℕ → ℕ → Bool
is_fresh none now = false
is_fresh (some expiry) now = not (ltb expiry now)

-- `Validate`; a state that is missing is not deleted, which deletes nothing.
unfoldable pub validate_state : StateStore → String → ℕ → StateStore × Bool
unfolding is_fresh
validate_state s state now = (erase state s, is_fresh (lookup state s) now)

-- A tick of the goroutine of `StartCleanup`.
unfoldable pub cleanup_states : StateStore → ℕ → StateStore
cleanup_states s now = retain (λ expiry. not (ltb expiry now)) s
