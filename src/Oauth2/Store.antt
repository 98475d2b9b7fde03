-- ===== src/Oauth2/Store.antt =====
-- internal/service/oauth2_service.go and internal/model/models.go: the rows, the queries on them, and
-- operations that may fail half way.
use deploypilot.Base.{
  ℕ, ◌≡◌, Bool, true, false, not, ◌&&◌, ◌||◌, List, [], ◌∷◌, Option, none, some, String,
  if◌then◌else◌, ◌==◌, string_tested, any_of,
}

-- model.OAuth2Client
pub record Client : Type 0 where
  pub id : String
  pub user_id : String
  pub name : String
  pub client_id : String
  pub client_secret : String
  pub redirect_uris : String
  pub scopes : String
  pub grant_types : String
  pub enabled : Bool

-- model.OAuth2Authorization
pub record Authorization : Type 0 where
  pub id : String
  pub client_id : String
  pub user_id : String
  pub scopes : String
  pub code : String
  pub expires_at : ℕ
  pub used : Bool

-- model.OAuth2Token
pub record Token : Type 0 where
  pub id : String
  pub client_id : String
  pub user_id : String
  pub access_token : String
  pub refresh_token : String
  pub scopes : String
  pub token_type : String
  pub expires_at : ℕ

-- The tables, the newest row first.
pub record Database : Type 0 where
  pub clients : List Client
  pub authorizations : List Authorization
  pub tokens : List Token

abbrev pub empty_database : Database
empty_database = record { clients = []; authorizations = []; tokens = [] }

-- config.APIPlatformConfig; a maximum that is not positive is 0.
pub record Config : Type 0 where
  pub max_clients_per_user : ℕ
  pub token_expire_hours : ℕ
  pub code_expire_minutes : ℕ

-- `json.Marshal` and `json.Unmarshal` of a list of texts.
pub record Json : Type 0 where
  pub marshal : List String → String
  pub unmarshal : String → Option (List String)

-- A list of texts is read back as it was written.
abbrev pub ReadsBack : Json → Type 0
ReadsBack j = (xs : List String) → j.unmarshal (j.marshal xs) ≡ some xs

-- What one call meets: the time, whether the database answers its query, its update and its insertion,
-- and the random texts that it draws, in their order.
pub record Call : Type 0 where
  pub now : ℕ
  pub reads : Bool
  pub updates : Bool
  pub creates : Bool
  pub first : Option String
  pub second : Option String
  pub third : Option String

pub data Error : Type 0 where
  database_error no_randomness not_found too_many_clients invalid_client no_valid_scopes : Error
  invalid_code code_expired invalid_credentials unsupported_grant invalid_refresh_token : Error
  invalid_token token_expired : Error

pub data Result {ℓ} (A : Type ℓ) : Type ℓ where
  done : A → Result A
  failed : Error → Result A

-- An operation on the database; what it wrote before it fails stays.
abbrev pub M : Type 0 → Type 0
M A = Database → Database × Result A

abbrev pub pure : {A : Type 0} → A → M A
pure a db = (db, done a)

abbrev pub fail : {A : Type 0} → Error → M A
fail e db = (db, failed e)

abbrev pub follow : {A B : Type 0} → Database × Result A → (A → M B) → Database × Result B
follow (db, done a) f = f a db
follow (db, failed e) f = (db, failed e)

infixl 5 ◌>>=◌ ◌>>◌
unfoldable pub ◌>>=◌ : {A B : Type 0} → M A → (A → M B) → M B
◌>>=◌ m f db = follow (m db) f

abbrev pub ◌>>◌ : {B : Type 0} → M (Unit {0}) → M B → M B
m >> k = m >>= λ _. k

-- `if !test { return err }`
unfoldable pub require : Bool → Error → M (Unit {0})
require true e db = (db, done tt)
require false e db = (db, failed e)

-- A value that may be missing.
unfoldable pub given : {A : Type 0} → Option A → Error → M A
given none e db = (db, failed e)
given (some a) e db = (db, done a)

unfoldable pub find_first : {A : Type 0} → (A → Bool) → List A → Option A
find_first p [] = none
find_first p (x ∷ xs) = let rest = find_first p xs in if p x then some x else rest

-- `db.Where(p).First(&row)`, where a missing row is the error `missing`. What identifies a row is unique
-- in its table, so that the order of the rows does not matter.
unfoldable pub select : {A : Type 0} → Call → (Database → List A) → (A → Bool) → Error → M A
select c table p missing = do
  require c.reads database_error
  db ← (λ db. (db, done db))
  given (find_first p (table db)) missing

-- `db.Create(&row)` into a table with unique columns, by which a new row may clash with an old one.
abbrev pub is_accepted : {A : Type 0} → Call → (A → Bool) → List A → Bool
is_accepted c clashes rows = c.creates && not (any_of clashes rows)

unfoldable pub insert_client : Call → Client → M Client
insert_client c row db =
    if is_accepted c (λ r. r.id == row.id || r.client_id == row.client_id) db.clients
    then (record db { clients = row ∷ db.clients }, done row)
    else (db, failed database_error)

unfoldable pub insert_authorization : Call → Authorization → M Authorization
insert_authorization c row db =
    if is_accepted c (λ r. r.id == row.id || r.code == row.code) db.authorizations
    then (record db { authorizations = row ∷ db.authorizations }, done row)
    else (db, failed database_error)

unfoldable pub insert_token : Call → Token → M Token
insert_token c row db =
    if is_accepted c
      (λ r.
        r.id == row.id
        || (r.access_token == row.access_token || r.refresh_token == row.refresh_token))
      db.tokens
    then (record db { tokens = row ∷ db.tokens }, done row)
    else (db, failed database_error)

-- The rows after an update of those that match.
unfoldable pub update_rows : {A : Type 0} → (A → Bool) → (A → A) → List A → List A
update_rows p f [] = []
update_rows p f (x ∷ xs) = (if p x then f x else x) ∷ update_rows p f xs
