-- ===== src/Oauth2/Grants.antt =====
-- internal/service/oauth2_service.go: the grants, by which codes and tokens are issued and used up.
use deploypilot.Base.{
  ℕ, ◌+◌, ◌*◌, Bool, true, false, not, ◌&&◌, List, String, ltb, if◌then◌else◌, ◌==◌, string_tested,
  any_of, keep_if, is_empty,
}
use deploypilot.Oauth2.Store.{
  Authorization, Token, Config, Json, Call, done, failed, M, pure, ◌>>=◌, ◌>>◌, require, given,
  select, insert_authorization, insert_token, update_rows, database_error, no_randomness,
  invalid_client, no_valid_scopes, invalid_code, code_expired, invalid_credentials,
  unsupported_grant, invalid_refresh_token, invalid_token, token_expired,
}
use deploypilot.Oauth2.Clients.{
  validate_scopes, parse_scopes, parse_grant_types, intersect_scopes, contains_string,
}

abbrev pub minute : ℕ
minute = 60_000_000_000

abbrev pub hour : ℕ
hour = 3_600_000_000_000

-- `createToken`; its random texts are those of the access token, the refresh token and the row's id.
unfoldable pub create_token : Json → Config → Call → String → String → List String → M Token
create_token j cfg c client_id user scopes = do
  access ← given c.first no_randomness
  refresh ← given c.second no_randomness
  id ← given c.third no_randomness
  insert_token c record {
    id = id;
    client_id = client_id;
    user_id = user;
    access_token = access;
    refresh_token = refresh;
    scopes = j.marshal scopes;
    token_type = "bearer";
    expires_at = c.now + cfg.token_expire_hours * hour;
  }

-- The scopes of an authorization: of those asked for, the known ones that the client has registered.
unfoldable pub requested_scopes : List String → List String → List String
requested_scopes scopes client_scopes = intersect_scopes (validate_scopes scopes) client_scopes

-- `CreateAuthorization`; its random texts are the code and the row's id.
unfoldable pub create_authorization :
    Json → Config → Call → String → String → List String → M Authorization
create_authorization j cfg c client_id user scopes = do
  client ← select c (λ db. db.clients) (λ r. r.client_id == client_id && r.enabled) invalid_client
  let requested = requested_scopes scopes (parse_scopes j client.scopes)
  require (not (is_empty requested)) no_valid_scopes
  code ← given c.first no_randomness
  id ← given c.second no_randomness
  insert_authorization c record {
    id = id;
    client_id = client_id;
    user_id = user;
    scopes = j.marshal requested;
    code = code;
    expires_at = c.now + cfg.code_expire_minutes * minute;
    used = false;
  }

-- `db.Model(&authz).Update("used", true)`
unfoldable pub mark_used : Call → String → M (Unit {0})
mark_used c id db =
    if c.updates
    then (
      record db {
        authorizations =
            update_rows (λ a. a.id == id) (λ a. record a { used = true }) db.authorizations;
      },
      done tt,
    )
    else (db, failed database_error)

abbrev pub is_open_code : String → Authorization → Bool
is_open_code code a = a.code == code && not a.used

-- `ExchangeCode`
unfoldable pub exchange_code : Json → Config → Call → String → M Token
exchange_code j cfg c code = do
  authz ← select c (λ db. db.authorizations) (is_open_code code) invalid_code
  require (not (ltb authz.expires_at c.now)) code_expired
  mark_used c authz.id
  create_token j cfg c authz.client_id authz.user_id (parse_scopes j authz.scopes)

-- The scopes asked for, or the client's own if none of them is left.
unfoldable pub or_defaults : List String → List String → List String
or_defaults requested defaults = if is_empty requested then defaults else requested

-- `ClientCredentials`
unfoldable pub client_credentials : Json → Config → Call → String → String → List String → M Token
client_credentials j cfg c client_id secret scopes = do
  client ← select c (λ db. db.clients) (λ r. r.client_id == client_id && r.enabled) invalid_client
  require (client.client_secret == secret) invalid_credentials
  require (contains_string (parse_grant_types j client.grant_types) "client_credentials")
      unsupported_grant
  let registered = parse_scopes j client.scopes
  create_token j cfg c client_id client.user_id
      (or_defaults (requested_scopes scopes registered) registered)

-- `db.Delete(&existing)`
unfoldable pub delete_token : Call → String → M (Unit {0})
delete_token c id db =
    if c.updates
    then (record db { tokens = keep_if (λ t. not (t.id == id)) db.tokens }, done tt)
    else (db, failed database_error)

-- `RefreshToken`
unfoldable pub refresh_token : Json → Config → Call → String → M Token
refresh_token j cfg c refresh = do
  existing ← select c (λ db. db.tokens) (λ t. t.refresh_token == refresh) invalid_refresh_token
  delete_token c existing.id
  create_token j cfg c existing.client_id existing.user_id (parse_scopes j existing.scopes)

-- `RevokeToken`
unfoldable pub revoke_token : Call → String → M (Unit {0})
revoke_token c access db =
    if c.updates
    then (if any_of (λ t. t.access_token == access) db.tokens
        then (
          record db { tokens = keep_if (λ t. not (t.access_token == access)) db.tokens },
          done tt,
        )
        else (db, failed invalid_token))
    else (db, failed database_error)

-- `ValidateAccessToken`
unfoldable pub validate_access_token : Call → String → M Token
validate_access_token c access = do
  token ← select c (λ db. db.tokens) (λ t. t.access_token == access) invalid_token
  require (not (ltb token.expires_at c.now)) token_expired
  pure token
