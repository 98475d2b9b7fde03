-- ===== src/Auth/Revocation.antt =====
-- internal/auth/blacklist.go and state.go: a revocation lasts, and a state is used once.
use deploypilot.Base.{
  ℕ, ◌+◌, ◌≤◌, ◌≡◌, ◌≢◌, ◌∙◌, refl, true, false, not, Option, none, some, List, [], ◌∷◌, String,
  lookup, lookup-insert, lookup-insert_self, lookup-erase_self, lookup-retain, option_keep,
  str_eq_ne, ltb, arith,
}
use deploypilot.Auth.Blacklist.{TokenBlacklist, revoke, is_revoked, is_live, cleanup_blacklist}
use deploypilot.Auth.OauthState.{StateStore, validate_state, is_fresh, generate_state}

pub data Op : Type 0 where
  revokes : String → ℕ → ℕ → Op
  cleans : ℕ → Op

apply : TokenBlacklist → Op → TokenBlacklist
apply b (revokes jti ttl now) = revoke b jti ttl now
apply b (cleans now) = (cleanup_blacklist b now).0

pub run : TokenBlacklist → List Op → TokenBlacklist
unfolding apply
run b [] = b
run b (o ∷ os) = run (apply b o) os

-- No call revokes the token again, and each cleanup comes before a time.
abbrev pub Others : String → ℕ → List Op → Type 0
Others jti t [] = Unit
Others jti t (revokes other ttl now ∷ os) = (other ≢ jti) × Others jti t os
Others jti t (cleans now ∷ os) = (now ≤ t) × Others jti t os

live-keep :
    (now t : ℕ) (o : Option ℕ)
    → now ≤ t
    → is_live (option_keep (λ expiry. not (ltb expiry now)) o) t ≡ is_live o t
unfolding is_live
live-keep now t none l = refl
live-keep now t (some expiry) l = ground arith

-- The cleanup changes no later check.
is_revoked-cleanup :
    (b : TokenBlacklist) (jti : String) (now t : ℕ)
    → now ≤ t
    → is_revoked (cleanup_blacklist b now).0 jti t ≡ is_revoked b jti t
unfolding is_revoked cleanup_blacklist
is_revoked-cleanup b jti now t l =
    rw (lookup-retain (λ expiry. not (ltb expiry now)) jti b) (live-keep now t (lookup jti b) l)

is_revoked-revoke_ne :
    (b : TokenBlacklist) (jti other : String) (ttl now t : ℕ)
    → other ≢ jti
    → is_revoked (revoke b other ttl now) jti t ≡ is_revoked b jti t
unfolding is_revoked revoke
is_revoked-revoke_ne b jti other ttl now t d = simp (lookup-insert, str_eq_ne other jti d)

is_revoked-run :
    (b : TokenBlacklist) (jti : String) (t : ℕ) (os : List Op)
    → Others jti t os
    → is_revoked (run b os) jti t ≡ is_revoked b jti t
unfolding run apply
is_revoked-run b jti t [] h = refl
is_revoked-run b jti t (revokes other ttl now ∷ os) h =
    is_revoked-run (revoke b other ttl now) jti t os h.1
    ∙ is_revoked-revoke_ne b jti other ttl now t h.0
is_revoked-run b jti t (cleans now ∷ os) h =
    is_revoked-run (cleanup_blacklist b now).0 jti t os h.1 ∙ is_revoked-cleanup b jti now t h.0

revoked_until :
    (b : TokenBlacklist) (jti : String) (ttl now t : ℕ)
    → t ≤ now + ttl
    → is_revoked (revoke b jti ttl now) jti t ≡ true
unfolding is_revoked revoke is_live
revoked_until b jti ttl now t l = rw (lookup-insert_self jti (now + ttl) b) (ground arith)

-- A revoked token stays revoked until its time to live is over, whatever revocations of other tokens
-- and whatever cleanups follow before the check.
pub is_revoked-run-revoke :
    (b : TokenBlacklist) (jti : String) (ttl now t : ℕ) (os : List Op)
    → t ≤ now + ttl
    → Others jti t os
    → is_revoked (run (revoke b jti ttl now) os) jti t ≡ true
is_revoked-run-revoke b jti ttl now t os l h =
    is_revoked-run (revoke b jti ttl now) jti t os h ∙ revoked_until b jti ttl now t l

-- A state is accepted exactly if it was made and has not run out, and a second validation of it is
-- refused, whatever the first one answered.
pub validate_state_once :
    (s : StateStore) (state : String) (ttl made now later : ℕ)
    → let s' = generate_state s state ttl made in
      let (s'', first) = validate_state s' state now in
      (first ≡ not (ltb (made + ttl) now)) × ((validate_state s'' state later).1 ≡ false)
unfolding generate_state validate_state is_fresh
validate_state_once s state ttl made now later = (
  rw (lookup-insert_self state (made + ttl) s) refl,
  rw (lookup-erase_self state (generate_state s state ttl made)) refl,
)
