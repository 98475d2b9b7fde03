-- ===== src/Auth/Blacklist.antt =====
-- internal/auth/blacklist.go: the revoked tokens of `MemoryTokenBlacklist`, by their `jti`.
use deploypilot.Base.{
  ℕ, ◌+◌, ◌-◌, Bool, false, not, Option, none, some, [], String, Dict, lookup, insert, retain, ltb,
  length,
}

abbrev pub TokenBlacklist : Type 0
TokenBlacklist = Dict ℕ

-- `NewMemoryTokenBlacklist`
unfoldable pub new_token_blacklist : TokenBlacklist
new_token_blacklist = []

-- `Revoke`
unfoldable pub revoke : TokenBlacklist → String → ℕ → ℕ → TokenBlacklist
revoke b jti ttl now = insert jti (now + ttl) b

unfoldable pub is_live : Option ℕ → ℕ → Bool
is_live none now = false
is_live (some expiry) now = not (ltb expiry now)

-- `IsRevoked`
unfoldable pub is_revoked : TokenBlacklist → String → ℕ → Bool
unfolding is_live
is_revoked b jti now = is_live (lookup jti b) now

-- `cleanup`, and the count that it logs.
unfoldable pub cleanup_blacklist : TokenBlacklist → ℕ → TokenBlacklist × ℕ
cleanup_blacklist b now =
    let kept = retain (λ expiry. not (ltb expiry now)) b in (kept, length b - length kept)
