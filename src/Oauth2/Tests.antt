-- ===== src/Oauth2/Tests.antt =====
-- Concrete runs of the OAuth2 service, with an encoding of lists of texts in place of JSON: each
-- character of a text behind a dot, each text closed by a bar.
use Prim.Native.Char.{Char, code}
use deploypilot.Base.{
  ℕ, ◌+◌, ◌*◌, ◌≤◌, ◌≡◌, refl, Bool, true, false, List, [], ◌∷◌, Option, none, some, String, All,
  any_of, count_if, keep_if, ◌==◌, nat_tested, arith,
}
use deploypilot.Oauth2.Store.{
  Authorization, Database, empty_database, Config, Json, ReadsBack, Call, Token, Result, done,
  ◌>>=◌, require, given, select, find_first, insert_client, insert_authorization, insert_token,
  update_rows,
}
use deploypilot.Oauth2.Clients.{
  has_text, validate_scopes, parse_scopes, intersect_scopes, validate_grant_types, check_quota,
  create_client,
}
use deploypilot.Oauth2.Grants.{
  hour, is_open_code, create_token, create_authorization, exchange_code, mark_used,
  validate_access_token, requested_scopes,
}
use deploypilot.Oauth2.Runs.{Op, creates_client, authorizes, exchanges, apply, run}
use deploypilot.Oauth2.Codes.{redemptions, redemptions-le}
use deploypilot.Oauth2.Exchange.{exchange_code-validates}
use deploypilot.Oauth2.Granted.{validate_access_token-MayHave}

abbrev encode_text : String → String → String
encode_text String.[] rest = String.◌∷◌ "|" rest
encode_text (String.◌∷◌ c s) rest = String.◌∷◌ "." (String.◌∷◌ c (encode_text s rest))

abbrev encode : List String → String
encode [] = String.[]
encode (s ∷ xs) = encode_text s (encode xs)

abbrev put_char : Char → Option (List String) → Option (List String)
put_char c none = none
put_char c (some []) = none
put_char c (some (s ∷ xs)) = some (String.◌∷◌ c s ∷ xs)

abbrev put_text : Option (List String) → Option (List String)
put_text none = none
put_text (some xs) = some (String.[] ∷ xs)

-- Whether a dot was read decides how the next character is.
decode_from : Bool → String → Option (List String)
decode_from true String.[] = none
decode_from false String.[] = some []
decode_from true (String.◌∷◌ c s) = put_char c (decode_from false s)
decode_from false (String.◌∷◌ c s) = elim (code c == b'.') [
  | true ↦ decode_from true s
  | false ↦ put_text (decode_from false s)
]

decode-encode_text :
    (s rest : String) (xs : List String)
    → decode_from false rest ≡ some xs
    → decode_from false (encode_text s rest) ≡ some (s ∷ xs)
unfolding decode_from
decode-encode_text String.[] rest xs h = rw h
decode-encode_text (String.◌∷◌ c s) rest xs h = rw (decode-encode_text s rest xs h)

abbrev json : Json
json = record { marshal = encode; unmarshal = decode_from false }

json-ReadsBack : ReadsBack json
unfolding decode_from
json-ReadsBack [] = refl
json-ReadsBack (s ∷ xs) = decode-encode_text s (encode xs) xs (json-ReadsBack xs)

abbrev config : Config
config = record { max_clients_per_user = 2; token_expire_hours = 1; code_expire_minutes = 10 }

-- A call that the database answers, and that draws these texts.
abbrev call_at : ℕ → String → String → String → Call
call_at now a b c = record {
  now = now;
  reads = true;
  updates = true;
  creates = true;
  first = some a;
  second = some b;
  third = some c;
}

abbrev calls : List Op
calls =
    creates_client (call_at 1 "app" "secret" "row1") "ann" "app" [] ("read" ∷ "fly" ∷ [])
      ("authorization_code" ∷ [])
    ∷ authorizes (call_at 2 "code1" "row2" "") "dp_app" "bob" ("read" ∷ "write" ∷ [])
    ∷ exchanges (call_at 3 "access1" "refresh1" "row3") "code1"
    ∷ exchanges (call_at 4 "access2" "refresh2" "row4") "code1"
    ∷ []

redemptions-le_example : redemptions json config "code1" calls empty_database ≤ 1
redemptions-le_example = redemptions-le json config "code1" calls empty_database refl

-- The first exchange gives a token, and the second does not.
redeemed_once : redemptions json config "code1" calls empty_database ≡ 1
unfolding redemptions apply create_client create_authorization exchange_code create_token ◌>>=◌
    select require given find_first check_quota keep_if insert_client any_of requested_scopes
    intersect_scopes validate_scopes has_text parse_scopes decode_from insert_authorization
    mark_used insert_token update_rows count_if validate_grant_types
redeemed_once = refl

abbrev first_token : Token
first_token = record {
  id = "row3";
  client_id = "dp_app";
  user_id = "bob";
  access_token = "access1";
  refresh_token = "refresh1";
  scopes = encode ("read" ∷ []);
  token_type = "bearer";
  expires_at = 3_600_000_000_003;
}

abbrev MayRead : String → String → Type 0
MayRead client scope = scope ≡ "read"

validate_access_token-MayHave_example :
    All (MayRead "dp_app") (parse_scopes json first_token.scopes)
unfolding run validate_access_token apply create_client create_authorization exchange_code
    create_token ◌>>=◌ select require given find_first check_quota keep_if insert_client any_of
    requested_scopes intersect_scopes validate_scopes has_text parse_scopes decode_from
    insert_authorization mark_used insert_token update_rows count_if validate_grant_types
validate_access_token-MayHave_example =
    validate_access_token-MayHave MayRead json config json-ReadsBack calls
      ((λ id e. (refl, tt)), (tt, (tt, (tt, tt)))) (call_at 9 "" "" "") "access1"
      (run json config calls empty_database) first_token refl

abbrev issued : List Op
issued =
    creates_client (call_at 1 "app" "secret" "row1") "ann" "app" [] ("read" ∷ "fly" ∷ [])
      ("authorization_code" ∷ [])
    ∷ authorizes (call_at 2 "code1" "row2" "") "dp_app" "bob" ("read" ∷ "write" ∷ [])
    ∷ []

abbrev before : Database
before = run json config issued empty_database

abbrev exchanged : Database × Result Token
exchanged = exchange_code json config (call_at 3 "access1" "refresh1" "row3") "code1" before

exchange_code-validates_example :
    (a : Authorization) × (find_first (is_open_code "code1") before.authorizations ≡ some a)
    × (3 ≤ a.expires_at)
    × ("dp_app" ≡ a.client_id)
    × ("bob" ≡ a.user_id)
    × (parse_scopes json first_token.scopes ≡ parse_scopes json a.scopes)
    × (3_600_000_000_003 ≡ 3 + 1 * hour)
    × (validate_access_token (call_at 9 "" "" "") "access1" exchanged.0
        ≡ (exchanged.0, done first_token))
unfolding run apply create_client create_authorization exchange_code create_token ◌>>=◌ select
    require given find_first check_quota keep_if insert_client any_of requested_scopes
    intersect_scopes validate_scopes has_text parse_scopes decode_from insert_authorization
    mark_used insert_token update_rows count_if validate_grant_types
exchange_code-validates_example =
    exchange_code-validates json config json-ReadsBack (call_at 3 "access1" "refresh1" "row3")
      (call_at 9 "" "" "") "code1" before exchanged.0 first_token refl refl (omega arith)
