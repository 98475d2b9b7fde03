-- ===== src/Auth/Refresh.antt =====
-- internal/auth/refresh_token.go: the store of refresh tokens in memory, with its index by user. Each
-- reading of the clock is an argument, and a set of token ids is a map to nothing.
use deploypilot.Base.{
  ℕ, List, [], ◌∷◌, Option, none, some, String, Dict, lookup, insert, erase, length, ltb,
  if◌then◌else◌, string_tested, ◌++◌,
}

pub record RefreshTokenEntry : Type 0 where
  pub token_id : String
  pub user_id : String
  pub role : String
  pub device_info : String
  pub ip_address : String
  pub created_at : ℕ
  pub expires_at : ℕ

abbrev pub IdSet : Type 0
IdSet = Dict (Unit {0})

pub record RefreshStore : Type 0 where
  pub tokens : Dict RefreshTokenEntry
  pub users : Dict IdSet

-- `NewMemoryRefreshTokenStore`
unfoldable pub new_refresh_store : RefreshStore
new_refresh_store = record { tokens = []; users = [] }

-- `m[key]` of a map of sets, where a missing one is empty.
abbrev pub set_or_empty : Option IdSet → IdSet
set_or_empty none = []
set_or_empty (some ids) = ids

-- `Store`
unfoldable pub store : RefreshTokenEntry → RefreshStore → RefreshStore
store e s = record {
  tokens = insert e.token_id e s.tokens;
  users = insert e.user_id (insert e.token_id tt (set_or_empty (lookup e.user_id s.users))) s.users;
}

-- An entry that has not run out.
abbrev pub if_live : ℕ → Option RefreshTokenEntry → Option RefreshTokenEntry
if_live now none = none
if_live now (some e) = if ltb e.expires_at now then none else some e

-- `Retrieve`
unfoldable pub retrieve : RefreshStore → String → ℕ → Option RefreshTokenEntry
retrieve s id now = if_live now (lookup id s.tokens)

-- A token leaves the set of a user, if there is one.
unfoldable pub drop_id : String → String → Dict IdSet → Option IdSet → Dict IdSet
drop_id id user users none = users
drop_id id user users (some ids) = insert user (erase id ids) users

unfoldable pub revoke_entry : String → Option RefreshTokenEntry → RefreshStore → RefreshStore
unfolding drop_id
revoke_entry id none s = s
revoke_entry id (some e) s = record {
  tokens = erase id s.tokens;
  users = drop_id id e.user_id s.users (lookup e.user_id s.users);
}

-- `Revoke`
unfoldable pub revoke_refresh : String → RefreshStore → RefreshStore
unfolding revoke_entry
revoke_refresh id s = revoke_entry id (lookup id s.tokens) s

-- `for tid := range ids { delete(tokens, tid) }`
unfoldable pub erase_all : IdSet → Dict RefreshTokenEntry → Dict RefreshTokenEntry
erase_all [] tokens = tokens
erase_all ((id, u) ∷ ids) tokens = erase_all ids (erase id tokens)

unfoldable pub revoke_set : String → Option IdSet → RefreshStore → RefreshStore
unfolding erase_all
revoke_set user none s = s
revoke_set user (some ids) s = record {
  tokens = erase_all ids s.tokens;
  users = erase user s.users;
}

-- `RevokeAllForUser`
unfoldable pub revoke_all_for_user : String → RefreshStore → RefreshStore
unfolding revoke_set
revoke_all_for_user user s = revoke_set user (lookup user s.users) s

-- `Count`
pub count_tokens : RefreshStore → String → ℕ
count_tokens s user = length (set_or_empty (lookup user s.users))

abbrev pub entry_list : Option RefreshTokenEntry → List RefreshTokenEntry
entry_list none = []
entry_list (some e) = e ∷ []

-- The loop of `ListForUser`.
unfoldable pub list_ids : RefreshStore → ℕ → IdSet → List RefreshTokenEntry
list_ids s now [] = []
list_ids s now ((id, u) ∷ ids) = entry_list (if_live now (lookup id s.tokens)) ++ list_ids s now ids

-- `ListForUser`
unfoldable pub list_for_user : RefreshStore → String → ℕ → List RefreshTokenEntry
unfolding list_ids
list_for_user s user now = list_ids s now (set_or_empty (lookup user s.users))

-- What the cleanup does with one token of the map.
unfoldable pub cleanup_entry : ℕ → String → Option RefreshTokenEntry → RefreshStore → RefreshStore
unfolding revoke_entry
cleanup_entry now id none s = s
cleanup_entry now id (some e) s = if ltb e.expires_at now then revoke_entry id (some e) s else s

-- `for tid, entry := range s.tokens`, over the keys.
unfoldable pub cleanup_ids : ℕ → Dict RefreshTokenEntry → RefreshStore → RefreshStore
unfolding cleanup_entry
cleanup_ids now [] s = s
cleanup_ids now ((id, e) ∷ rest) s =
    cleanup_ids now rest (cleanup_entry now id (lookup id s.tokens) s)

-- `cleanup`
unfoldable pub cleanup_refresh : ℕ → RefreshStore → RefreshStore
unfolding cleanup_ids
cleanup_refresh now s = cleanup_ids now s.tokens s
