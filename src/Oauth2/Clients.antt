-- ===== src/Oauth2/Clients.antt =====
-- internal/service/oauth2_service.go: scopes, grant types, and the operations on clients.
use Prim.Native.String.{◌++◌ as joined}
use deploypilot.Base.{
  ℕ, Bool, true, false, not, ◌&&◌, ◌||◌, List, [], ◌∷◌, Option, none, some, String, ltb, map, codes,
  if◌then◌else◌, ◌==◌, string_tested, nat_tested, text_tested, any_of, keep_if, length, is_empty,
  leb, ◌+◌, text_beq,
}
use deploypilot.Oauth2.Store.{
  Client, Database, Config, Json, Call, done, failed, M, pure, ◌>>=◌, ◌>>◌, require, given, select,
  insert_client, update_rows, database_error, no_randomness, not_found, too_many_clients,
}

abbrev pub valid_oauth2_scopes : List String
valid_oauth2_scopes =
    "read" ∷ "write" ∷ "delete" ∷ "deploy" ∷ "admin" ∷ "monitor:read" ∷ "monitor:write"
    ∷ "server:read" ∷ "server:exec" ∷ "credential:read" ∷ "credential:write" ∷ "dns:write"
    ∷ "ssl:write" ∷ "backup:read" ∷ "backup:write" ∷ "webhook:manage" ∷ "grafana:manage" ∷ []

-- Whether a text is among others.
unfoldable pub has_text : List String → String → Bool
has_text [] s = false
has_text (x ∷ xs) s = x == s || has_text xs s

-- `validateScopes`
unfoldable pub validate_scopes : List String → List String
validate_scopes scopes = keep_if (has_text valid_oauth2_scopes) scopes

abbrev or_nil : Option (List String) → List String
or_nil none = []
or_nil (some xs) = xs

-- `ParseScopes` of apikey_service.go, where nil is the empty list.
unfoldable pub parse_scopes : Json → String → List String
parse_scopes j text = or_nil (j.unmarshal text)

-- `parseGrantTypes`
unfoldable pub parse_grant_types : Json → String → List String
parse_grant_types j text = or_nil (j.unmarshal text)

-- `intersectScopes`
unfoldable pub intersect_scopes : List String → List String → List String
intersect_scopes a b = keep_if (has_text b) a

abbrev allowed_grant_types : List String
allowed_grant_types = "authorization_code" ∷ "client_credentials" ∷ "refresh_token" ∷ []

-- `validateGrantTypes`
unfoldable pub validate_grant_types : List String → List String
validate_grant_types grants =
    let valid = keep_if (has_text allowed_grant_types) grants in
    if is_empty valid then "authorization_code" ∷ [] else valid

-- The characters that fold to an ASCII letter, as `strings.EqualFold` compares them with one.
fold_rune : ℕ → ℕ
fold_rune c =
    if leb b'A' c && leb c b'Z'
    then c + 32
    else if c == 0x17F
    then b's'
    else if c == 0x212A
    then b'k'
    else c

-- `strings.EqualFold` with an ASCII text.
unfoldable pub equal_fold : String → String → Bool
unfolding fold_rune
equal_fold s t = text_beq (map fold_rune (codes s)) (map fold_rune (codes t))

-- `containsString`
unfoldable pub contains_string : List String → String → Bool
contains_string xs target = any_of (λ s. equal_fold s target) xs

-- The check of the number of clients in `CreateClient`.
unfoldable pub check_quota : Config → Call → String → M (Unit {0})
check_quota cfg c user db =
    if ltb 0 cfg.max_clients_per_user
    then (do
      require c.reads database_error
      require (ltb (length (keep_if (λ r. r.user_id == user) db.clients)) cfg.max_clients_per_user)
          too_many_clients)
        db
    else (db, done tt)

-- `CreateClient`; its random texts are those of the client id, the secret and the id of the row.
unfoldable pub create_client :
    Json
    → Config
    → Call
    → String
    → String
    → List String
    → List String
    → List String
    → M (Client × String)
create_client j cfg c user name redirect_uris scopes grants = do
  check_quota cfg c user
  client_id ← given c.first no_randomness
  secret ← given c.second no_randomness
  id ← given c.third no_randomness
  client ← insert_client c record {
    id = id;
    user_id = user;
    name = name;
    client_id = joined "dp_" client_id;
    client_secret = secret;
    redirect_uris = j.marshal redirect_uris;
    scopes = j.marshal (validate_scopes scopes);
    grant_types = j.marshal (validate_grant_types grants);
    enabled = true;
  }
  pure (client, secret)

-- `ListClients`, newest first.
unfoldable pub list_clients : Call → String → M (List Client)
list_clients c user db =
    if c.reads
    then (db, done (keep_if (λ r. r.user_id == user) db.clients))
    else (db, failed database_error)

abbrev pub is_own : String → String → Client → Bool
is_own id user r = r.id == id && r.user_id == user

-- `GetClient`
unfoldable pub get_client : Call → String → String → M Client
get_client c id user = select c (λ db. db.clients) (is_own id user) not_found

-- An update or a deletion of the clients that match; where there is none, sql.ErrNoRows.
unfoldable pub change_clients : Call → (Client → Bool) → (Database → Database) → M (Unit {0})
change_clients c p change db =
    if c.updates
    then (if any_of p db.clients then (change db, done tt) else (db, failed not_found))
    else (db, failed database_error)

-- The columns that an update sets.
pub record ClientUpdate : Type 0 where
  pub name : Option String
  pub redirect_uris : Option String
  pub scopes : Option String
  pub grant_types : Option String
  pub enabled : Option Bool

abbrev pub or_old {ℓ} : {A : Type ℓ} → Option A → A → A
or_old none old = old
or_old (some new) old = new

unfoldable pub update_columns : ClientUpdate → Client → Client
update_columns u r = record r {
  name = or_old u.name r.name;
  redirect_uris = or_old u.redirect_uris r.redirect_uris;
  scopes = or_old u.scopes r.scopes;
  grant_types = or_old u.grant_types r.grant_types;
  enabled = or_old u.enabled r.enabled;
}

-- `UpdateClient`
unfoldable pub update_client : Call → String → String → ClientUpdate → M (Unit {0})
update_client c id user u =
    change_clients c (is_own id user)
      (λ db. record db { clients = update_rows (is_own id user) (update_columns u) db.clients })

-- `DeleteClient`
unfoldable pub delete_client : Call → String → String → M (Unit {0})
delete_client c id user =
    change_clients c (is_own id user)
      (λ db. record db { clients = keep_if (λ r. not (is_own id user r)) db.clients })

-- The new secret of a client, by its id.
unfoldable pub set_secret : Call → String → String → M (Unit {0})
set_secret c id secret db =
    if c.updates
    then (
      record db {
        clients =
            update_rows (λ r. r.id == id) (λ r. record r { client_secret = secret }) db.clients;
      },
      done tt,
    )
    else (db, failed database_error)

-- `RegenerateSecret`
unfoldable pub regenerate_secret : Call → String → String → M String
regenerate_secret c id user = do
  client ← select c (λ db. db.clients) (is_own id user) not_found
  secret ← given c.first no_randomness
  set_secret c client.id secret
  pure secret
