-- ===== src/Oauth/Clients.antt =====
-- internal/auth/oauth.go: Client, ClientAllows and IssueAuthorizationCode.
use nexusdock.Shared.{
  ℕ, ◌+◌, ◌*◌, String, str_eq, is_blank, trim_space, List, [], ◌∷◌, ◌++◌, Option, none, Bool, false,
  ◌||◌, not, any, find_first, if◌then◌else◌,
}
use nexusdock.Continuation.Types.{
  failed, oauth_client_not_found, Result, ok, err, ◌>>=◌, ◌>>◌, refuse_if, or_fail, second,
}
use nexusdock.Oauth.Texts.{valid_pkce_value, normalize_scope}
use nexusdock.Oauth.Urls.{Encodings}
use nexusdock.Oauth.Grants.{OauthCode, ClientRow, OauthTables}

pub record OauthClient : Type 0 where
  pub id : String
  pub name : String
  pub redirect_uris : List String
  pub grant_types : List String
  pub response_types : List String
  pub token_endpoint_auth_method : String
  pub created_at : ℕ
  pub last_used_at : ℕ

abbrev pub find_client : OauthTables → String → Option ClientRow
find_client db id = find_first (λ c. str_eq c.id id) db.clients

unfoldable pub decode_client : Encodings → ClientRow → Result OauthClient
decode_client p c = or_fail (p.decode_texts c.redirect_uris_json) failed >>= λ redirects.
    or_fail (p.decode_texts c.grant_types_json) failed >>= λ grants.
    or_fail (p.decode_texts c.response_types_json) failed >>= λ responses. ok (record {
      id = c.id;
      name = c.client_name;
      redirect_uris = redirects;
      grant_types = grants;
      response_types = responses;
      token_endpoint_auth_method = c.token_endpoint_auth_method;
      created_at = c.created_at;
      last_used_at = c.last_used_at;
    })

-- Client.
unfoldable pub client : Encodings → OauthTables → String → Result OauthClient
client p db id = or_fail (find_client db (trim_space id)) oauth_client_not_found >>= decode_client p

-- containsOAuthValue.
abbrev pub contains : List String → String → Bool
contains values target = any (λ v. str_eq v target) values

-- ClientAllows: whether the client is there and the redirect is one of its own.
unfoldable pub client_allows : Encodings → OauthTables → String → String → Bool
client_allows p db id redirect = elim (client p db id) [
  | err e ↦ false
  | ok c ↦ contains c.redirect_uris redirect
]

pub record AuthorizationInput : Type 0 where
  pub client_id : String
  pub user_id : String
  pub redirect_uri : String
  pub code_challenge : String
  pub resource : String
  pub scope : String

abbrev pub authorization_code_ttl : ℕ
authorization_code_ttl = 600 * second

abbrev pub new_code : Encodings → ℕ → AuthorizationInput → String → OauthCode
new_code p now i raw = record {
  code_hash = p.digest raw;
  client_id = i.client_id;
  user_id = i.user_id;
  redirect_uri = i.redirect_uri;
  code_challenge = i.code_challenge;
  resource = i.resource;
  scope = normalize_scope i.scope;
  expires_at = now + authorization_code_ttl;
  used_at = none;
  grant_id = none;
}

-- The primary key and the foreign keys of oauth_authorization_codes refuse the row.
abbrev pub code_is_refused : OauthTables → OauthCode → Bool
code_is_refused db c =
    any (λ x. str_eq x.code_hash c.code_hash) db.codes
    || not (any (λ x. str_eq x.id c.client_id) db.clients)
    || not (any (λ x. str_eq x.id c.user_id) db.users)

unfoldable pub insert_code : OauthTables → OauthCode → Result OauthTables
insert_code db c =
    if code_is_refused db c then err failed else ok (record db { codes = db.codes ++ c ∷ [] })

-- The guards of IssueAuthorizationCode, one test of all three identities.
abbrev pub is_incomplete : AuthorizationInput → Bool
is_incomplete i = is_blank i.user_id || is_blank i.client_id || is_blank i.resource

-- IssueAuthorizationCode: the code is a text of the random source, `none` when that fails.
unfoldable pub issue_authorization_code :
    Encodings → Option String → OauthTables → ℕ → AuthorizationInput → Result (OauthTables × String)
issue_authorization_code p source db now i =
    refuse_if (is_incomplete i) failed
    >> refuse_if (not (valid_pkce_value i.code_challenge)) failed
    >> refuse_if (not (client_allows p db i.client_id i.redirect_uri)) failed
    >> (or_fail source failed >>= λ raw.
        insert_code db (new_code p now i raw) >>= λ db'. ok (db', raw))
