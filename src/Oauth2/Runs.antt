-- ===== src/Oauth2/Runs.antt =====
-- Runs of the service: sequences of calls, each of which is made while no other is.
use deploypilot.Base.{List, [], ◌∷◌, String}
use deploypilot.Oauth2.Store.{Database, Config, Json, Call}
use deploypilot.Oauth2.Clients.{
  ClientUpdate, create_client, update_client, delete_client, regenerate_secret,
}
use deploypilot.Oauth2.Grants.{
  create_authorization, exchange_code, client_credentials, refresh_token, revoke_token,
}

-- The calls that may change the database.
pub data Op : Type 0 where
  creates_client : Call → String → String → List String → List String → List String → Op
  updates_client : Call → String → String → ClientUpdate → Op
  deletes_client : Call → String → String → Op
  regenerates : Call → String → String → Op
  authorizes : Call → String → String → List String → Op
  exchanges : Call → String → Op
  uses_credentials : Call → String → String → List String → Op
  refreshes : Call → String → Op
  revokes : Call → String → Op

module _ (j : Json) (cfg : Config) where
  unfoldable pub apply : Op → Database → Database
  apply (creates_client c user name uris scopes grants) db =
      (create_client j cfg c user name uris scopes grants db).0
  apply (updates_client c id user u) db = (update_client c id user u db).0
  apply (deletes_client c id user) db = (delete_client c id user db).0
  apply (regenerates c id user) db = (regenerate_secret c id user db).0
  apply (authorizes c client user scopes) db =
      (create_authorization j cfg c client user scopes db).0
  apply (exchanges c code) db = (exchange_code j cfg c code db).0
  apply (uses_credentials c client secret scopes) db =
      (client_credentials j cfg c client secret scopes db).0
  apply (refreshes c refresh) db = (refresh_token j cfg c refresh db).0
  apply (revokes c access) db = (revoke_token c access db).0

  unfoldable pub run : List Op → Database → Database
  run [] db = db
  run (op ∷ ops) db = run ops (apply op db)
