-- ===== src/Oauth/Steps.antt =====
-- oauth.go: the operations that write, as a step relation on the tables. The text that an operation
-- takes from the random source is any text.
use nexusdock.Shared.{ℕ, String, Option, List, ◌≡◌}
use nexusdock.Continuation.Types.{ok}
use nexusdock.Oauth.Urls.{Encodings}
use nexusdock.Oauth.Grants.{OauthTables}
use nexusdock.Oauth.Exchange.{CodeRequest, exchange_authorization_code}
use nexusdock.Oauth.Access.{refresh, revoke_user_grants}
use nexusdock.Oauth.Clients.{OauthClient, AuthorizationInput, issue_authorization_code}
use nexusdock.Oauth.Registration.{ClientRegistration, register_client}

pub data Step (p : Encodings) (db : OauthTables) : OauthTables → Type 0 where
  registers :
      (source : Option String) (now : ℕ) (i : ClientRegistration) (db' : OauthTables)
      (c : OauthClient)
      → register_client p source db now i ≡ ok (db', c)
      → Step p db db'
  issues :
      (source : Option String) (now : ℕ) (i : AuthorizationInput) (db' : OauthTables)
      (code : String)
      → issue_authorization_code p source db now i ≡ ok (db', code)
      → Step p db db'
  exchanges :
      (ids : List String) (now : ℕ) (q : CodeRequest)
      → Step p db (exchange_authorization_code p ids db now q).0
  refreshes :
      (ids : List String) (now : ℕ) (client token resource : String)
      → Step p db (refresh p ids db now client token resource).0
  revokes : (now : ℕ) (user : String) → Step p db (revoke_user_grants db now user)

-- The tables that operations, one after another, make of `db`.
pub data Reach (p : Encodings) (db : OauthTables) : OauthTables → Type 0 where
  start : Reach p db db
  next : {a b : OauthTables} → Reach p db a → Step p a b → Reach p db b
