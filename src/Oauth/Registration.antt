-- ===== src/Oauth/Registration.antt =====
-- internal/auth/oauth.go: RegisterClient.
use nexusdock.Shared.{
  ℕ, ◌*◌, ◌-◌, ltb, ◌==◌, String, str_eq, is_empty, codes, trim_space, List, [], ◌∷◌, ◌++◌, Option,
  Bool, true, false, ◌||◌, ◌&&◌, not, any, length, filter, text_before, if◌then◌else◌,
}
use nexusdock.Continuation.Types.{
  failed, invalid, oauth_client_limit, Result, ok, err, ◌>>=◌, ◌>>◌, refuse_if, or_fail, second,
}
use nexusdock.Oauth.Urls.{Encodings, valid_redirect_uri}
use nexusdock.Oauth.Grants.{ClientRow, OauthTables}
use nexusdock.Oauth.Clients.{OauthClient, contains}

pub record ClientRegistration : Type 0 where
  pub name : String
  pub redirect_uris : List String
  pub grant_types : List String
  pub response_types : List String
  pub token_endpoint_auth_method : String

-- The map `seen` holds the values of `clean`.
abbrev pub add_new : List String → String → List String
add_new clean v = if contains clean v then clean else clean ++ v ∷ []

-- The loops of normalizeOAuthRedirectURIs and normalizeOAuthValues.
abbrev pub collect : (String → Bool) → List String → List String → Result (List String)
collect allowed clean [] = ok clean
collect allowed clean (v ∷ vs) =
    let rest = collect allowed (add_new clean (trim_space v)) vs in
    if not (allowed (trim_space v)) then err invalid else rest

-- normalizeOAuthRedirectURIs.
unfoldable pub normalize_redirect_uris : Encodings → List String → Result (List String)
normalize_redirect_uris p values =
    if length values == 0 || ltb 16 (length values)
    then err invalid
    else collect (valid_redirect_uri p) [] values

-- Go's `<=` on strings: the order of UTF-8 is that of the code points.
abbrev codes_le : List ℕ → List ℕ → Bool
codes_le [] m = true
codes_le (c ∷ l) [] = false
codes_le (c ∷ l) (d ∷ m) = ltb c d || (c == d && codes_le l m)

abbrev insert_sorted : String → List String → List String
insert_sorted v [] = v ∷ []
insert_sorted v (w ∷ ws) =
    let rest = insert_sorted v ws in if codes_le (codes v) (codes w) then v ∷ w ∷ ws else w ∷ rest

-- sort.Strings.
unfoldable pub sort_texts : List String → List String
sort_texts [] = []
sort_texts (v ∷ vs) = insert_sorted v (sort_texts vs)

-- normalizeOAuthValues.
unfoldable pub normalize_values : List String → List String → List String → Result (List String)
unfolding sort_texts
normalize_values values supported defaults =
    if length values == 0
    then ok defaults
    else collect (contains supported) [] values >>= λ clean. ok (sort_texts clean)

abbrev known_grants : List String
known_grants = "authorization_code" ∷ "refresh_token" ∷ []

abbrev pub auth_method : String → String
auth_method text = let method = trim_space text in if is_empty method then "none" else method

-- The checks of RegisterClient: what is stored of the metadata.
unfoldable pub checked_metadata : Encodings → ℕ → String → ClientRegistration → Result OauthClient
checked_metadata p now id i = normalize_redirect_uris p i.redirect_uris >>= λ redirects.
    normalize_values i.grant_types known_grants known_grants >>= λ grants.
    refuse_if (not (contains grants "authorization_code")) invalid
    >> normalize_values i.response_types ("code" ∷ []) ("code" ∷ [])
    >>= λ responses.
        refuse_if (not (str_eq (auth_method i.token_endpoint_auth_method) "none")) invalid
        >> refuse_if (ltb 120 (length (codes (trim_space i.name)))) invalid
        >> ok (record {
          id = id;
          name = trim_space i.name;
          redirect_uris = redirects;
          grant_types = grants;
          response_types = responses;
          token_endpoint_auth_method = auth_method i.token_endpoint_auth_method;
          created_at = now;
          last_used_at = now;
        })

abbrev pub client_idle_ttl : ℕ
client_idle_ttl = 180 * 24 * 3600 * second

-- oauthClientLimit.
abbrev pub client_limit : ℕ
client_limit = 1000

-- The client was used before the text of now - oauthClientIdleTTL.
abbrev pub is_idle : ℕ → ClientRow → Bool
is_idle now c = text_before c.last_used_at (now - client_idle_ttl)

-- `expires_at <= ?` on texts.
abbrev is_past : ℕ → ℕ → Bool
is_past now t = not (text_before now t)

-- The three DELETEs. Codes and grants go with their client, and rotated tokens with their grant.
unfoldable pub prune : ℕ → OauthTables → OauthTables
prune now db =
    let clients = filter (λ c. not (is_idle now c)) db.clients in
    let has : String → Bool = λ id. any (λ c. str_eq c.id id) clients in
    let grants = filter (λ g. has g.client_id) db.grants in
    record db {
      clients = clients;
      codes = filter (λ c. has c.client_id && not (is_past now c.expires_at)) db.codes;
      grants = grants;
      rotated =
          filter (λ r. any (λ g. str_eq g.id r.grant_id) grants && not (is_past now r.expires_at))
            db.rotated;
    }

unfoldable pub client_row : Encodings → OauthClient → ClientRow
client_row p c = record {
  id = c.id;
  client_name = c.name;
  redirect_uris_json = p.encode_texts c.redirect_uris;
  grant_types_json = p.encode_texts c.grant_types;
  response_types_json = p.encode_texts c.response_types;
  token_endpoint_auth_method = "none";
  created_at = c.created_at;
  last_used_at = c.last_used_at;
}

-- INSERT … SELECT … WHERE (SELECT COUNT(*) FROM oauth_clients) < ?
unfoldable pub insert_client : OauthTables → ClientRow → Result OauthTables
insert_client db c =
    if not (ltb (length db.clients) client_limit)
    then err oauth_client_limit
    else if any (λ x. str_eq x.id c.id) db.clients
    then err failed
    else ok (record db { clients = db.clients ++ c ∷ [] })

-- RegisterClient: the id is that of core.NewID, `none` when the random source fails. An error
-- leaves the tables, since the transaction is rolled back.
unfoldable pub register_client :
    Encodings
    → Option String
    → OauthTables
    → ℕ
    → ClientRegistration
    → Result (OauthTables × OauthClient)
register_client p source db now i = checked_metadata p now "" i >>= λ c.
    or_fail source failed >>= λ id.
    insert_client (prune now db) (client_row p (record c { id = id })) >>= λ db'.
    ok (db', record c { id = id })
