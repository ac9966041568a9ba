-- ===== src/Oauth/Grants.antt =====
-- internal/auth/oauth.go: the tables, and the issue and the revocation of a grant. A time is in
-- nanoseconds. The foreign keys of a grant hold, since those of its code do.
use nexusdock.Shared.{
  ℕ, ◌+◌, ◌*◌, String, str_eq, List, [], ◌∷◌, ◌++◌, map, Option, none, some, Bool, ◌||◌, any,
  if◌then◌else◌,
}
use nexusdock.Continuation.Types.{failed, Result, ok, err, second}
use nexusdock.Oauth.Texts.{normalize_scope}
use nexusdock.Oauth.Urls.{Encodings}

pub record OauthCode : Type 0 where
  pub code_hash : String
  pub client_id : String
  pub user_id : String
  pub redirect_uri : String
  pub code_challenge : String
  pub resource : String
  pub scope : String
  pub expires_at : ℕ
  pub used_at : Option ℕ
  pub grant_id : Option String

pub record OauthGrant : Type 0 where
  pub id : String
  pub client_id : String
  pub user_id : String
  pub resource : String
  pub scope : String
  pub access_token_hash : String
  pub refresh_token_hash : String
  pub access_expires_at : ℕ
  pub refresh_expires_at : ℕ
  pub created_at : ℕ
  pub updated_at : ℕ
  pub revoked_at : Option ℕ

-- A row of oauth_refresh_token_history.
pub record RotatedToken : Type 0 where
  pub token_hash : String
  pub grant_id : String
  pub expires_at : ℕ

pub record OauthUser : Type 0 where
  pub id : String
  pub is_active : Bool

-- A row of oauth_clients; the lists are stored as JSON.
pub record ClientRow : Type 0 where
  pub id : String
  pub client_name : String
  pub redirect_uris_json : String
  pub grant_types_json : String
  pub response_types_json : String
  pub token_endpoint_auth_method : String
  pub created_at : ℕ
  pub last_used_at : ℕ

pub record OauthTables : Type 0 where
  pub clients : List ClientRow
  pub users : List OauthUser
  pub codes : List OauthCode
  pub grants : List OauthGrant
  pub rotated : List RotatedToken

-- verifyPKCE.
abbrev pub verify_pkce : Encodings → String → String → Bool
verify_pkce p verifier challenge = str_eq (p.challenge verifier) challenge

abbrev pub access_token_ttl : ℕ
access_token_ttl = 3600 * second

abbrev pub refresh_token_ttl : ℕ
refresh_token_ttl = 90 * 24 * 3600 * second

pub record IssuedTokens : Type 0 where
  pub access_token : String
  pub refresh_token : String
  pub access_expires_at : ℕ
  pub refresh_expires_at : ℕ
  pub scope : String
  pub user_id : String
  pub client_id : String
  pub resource : String

abbrev pub first_revoked : Option ℕ → ℕ → Option ℕ
first_revoked none now = some now
first_revoked (some t) now = some t

-- SET revoked_at = COALESCE(revoked_at, ?), updated_at = ?
abbrev pub revoke_grant : ℕ → OauthGrant → OauthGrant
revoke_grant now g = record g { revoked_at = first_revoked g.revoked_at now; updated_at = now }

unfoldable pub revoke_grants : OauthTables → ℕ → (OauthGrant → Bool) → OauthTables
revoke_grants db now p = record db {
  grants = map (λ g. if p g then revoke_grant now g else g) db.grants;
}

abbrev pub touch_client : OauthTables → String → ℕ → OauthTables
touch_client db client now = record db {
  clients = map (λ c. if str_eq c.id client then record c { last_used_at = now } else c) db.clients;
}

-- A new grant collides with the unique columns of the table.
abbrev pub is_taken : List OauthGrant → String → String → String → Bool
is_taken gs id access refresh =
    any
      (λ g.
        str_eq g.id id || str_eq g.access_token_hash access || str_eq g.refresh_token_hash refresh)
      gs

unfoldable pub new_grant : Encodings → ℕ → OauthCode → String → String → String → OauthGrant
new_grant p now c access refresh id = record {
  id = id;
  client_id = c.client_id;
  user_id = c.user_id;
  resource = c.resource;
  scope = normalize_scope c.scope;
  access_token_hash = p.digest access;
  refresh_token_hash = p.digest refresh;
  access_expires_at = now + access_token_ttl;
  refresh_expires_at = now + refresh_token_ttl;
  created_at = now;
  updated_at = now;
  revoked_at = none;
}

-- issueOAuthGrant: the supplied texts are the access token, the refresh token and the grant's id.
unfoldable pub issue_grant :
    Encodings
    → List String
    → OauthTables
    → ℕ
    → OauthCode
    → Result (OauthTables × IssuedTokens × String)
issue_grant p (access ∷ refresh ∷ id ∷ ids) db now c =
    if is_taken db.grants id (p.digest access) (p.digest refresh)
    then err failed
    else ok (
      record db { grants = db.grants ++ new_grant p now c access refresh id ∷ [] },
      record {
        access_token = access;
        refresh_token = refresh;
        access_expires_at = now + access_token_ttl;
        refresh_expires_at = now + refresh_token_ttl;
        scope = normalize_scope c.scope;
        user_id = c.user_id;
        client_id = c.client_id;
        resource = c.resource;
      },
      id,
    )
issue_grant p _ db now c = err failed
