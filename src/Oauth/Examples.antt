-- ===== src/Oauth/Examples.antt =====
-- OAuth on concrete inputs: a code that is exchanged and replayed, and the theorems at that run.
use nexusdock.Shared.{
  text_before, ◌*◌, ◌≡◌, ◌≢◌, refl, String, text_append, is_blank, trim_space, is_space, List, [],
  ◌∷◌, none, some, Bool, true, false,
}
use nexusdock.Continuation.Types.{invalid, Result, ok, err, ◌>>=◌, ◌>>◌, refuse_if, or_fail, second}
use nexusdock.Oauth.Texts.{valid_pkce_value, normalize_scope}
use nexusdock.Oauth.Urls.{Encodings, equivalent_resource, canonical_resource, valid_redirect_uri}
use nexusdock.Oauth.Grants.{
  OauthCode, OauthGrant, OauthTables, IssuedTokens, revoke_grants, new_grant, issue_grant,
}
use nexusdock.Oauth.Packing.{pack, unpack}
use nexusdock.Oauth.Clients.{
  OauthClient, client, decode_client, client_allows, insert_code, issue_authorization_code,
}
use nexusdock.Oauth.Registration.{
  normalize_redirect_uris, normalize_values, sort_texts, checked_metadata, prune, client_row,
  insert_client, register_client,
}
use nexusdock.Oauth.Exchange.{
  CodeRequest, revoke_replayed, use_first, exchange_code, exchange_authorization_code,
}
use nexusdock.Oauth.Access.{
  refresh, rotate_grant, refresh_replayed, authenticate_access, revoke_user_grants,
}
use nexusdock.Oauth.Replay.{exchange_once, replay_revokes}
use nexusdock.Oauth.Rotation.{rotated_replay_revokes}
use nexusdock.Oauth.Denied.{revoked_user_denied}

abbrev pub encodings : Encodings
encodings = record {
  digest = λ s. text_append "h:" s;
  challenge = λ s. text_append "c-" s;
  parse_url = λ s. some (record {
    scheme = "https";
    has_user = false;
    host = "host";
    opaque = "";
    rest = s;
    fragment = "";
  });
  print_url = λ u. u.rest;
  hostname = λ h. h;
  port = λ h. "";
  to_lower = λ s. s;
  is_loopback = λ s. false;
  encode_texts = pack;
  decode_texts = λ s. some (unpack s);
}

abbrev pub verifier : String
verifier = "abcdefghijklmnopqrstuvwxyz0123456789-._~ABCDEFG"

abbrev oauth_code : OauthCode
oauth_code = record {
  code_hash = "h:code";
  client_id = "client";
  user_id = "alice";
  redirect_uri = "https://host/callback";
  code_challenge = text_append "c-" verifier;
  resource = "https://dock/mcp";
  scope = "mcp";
  expires_at = 600 * second;
  used_at = none;
  grant_id = none;
}

abbrev pub registered_client : OauthClient
registered_client = record {
  id = "client";
  name = "desktop";
  redirect_uris = "https://host/callback" ∷ [];
  grant_types = "authorization_code" ∷ [];
  response_types = "code" ∷ [];
  token_endpoint_auth_method = "none";
  created_at = 0;
  last_used_at = 0;
}

abbrev pub registered : OauthTables
registered = record {
  clients = client_row encodings registered_client ∷ [];
  users = record { id = "alice"; is_active = true } ∷ [];
  codes = oauth_code ∷ [];
  grants = [];
  rotated = [];
}

abbrev request : CodeRequest
request = record {
  client_id = "client";
  code = "code";
  redirect_uri = "https://host/callback";
  verifier = verifier;
  resource = "https://dock/mcp";
}

abbrev pub tokens : List String
tokens = "access" ∷ "refresh" ∷ "grant" ∷ []

abbrev exchange : OauthTables × Result IssuedTokens
exchange = exchange_authorization_code encodings tokens registered (1 * second) request

-- The names that a run has to unfold.
abbrev exchanged_db : OauthTables
exchanged_db = exchange.0

abbrev issued : IssuedTokens
issued = elim exchange.1 [
  | ok t ↦ t
  | err e ↦ record {
    access_token = "";
    refresh_token = "";
    access_expires_at = 0;
    refresh_expires_at = 0;
    scope = "";
    user_id = "";
    client_id = "";
    resource = "";
  }
]

unfoldable pub is_ok : {A : Type 0} → Result A → Bool
unfolding text_before is_space is_blank valid_pkce_value normalize_scope equivalent_resource
    canonical_resource valid_redirect_uri trim_space client decode_client client_allows insert_code
    issue_authorization_code pack unpack normalize_redirect_uris normalize_values sort_texts
    checked_metadata prune client_row insert_client register_client revoke_grants new_grant
    issue_grant revoke_replayed use_first exchange_code exchange_authorization_code
    authenticate_access revoke_user_grants refresh rotate_grant refresh_replayed ◌>>=◌ ◌>>◌
    refuse_if or_fail
is_ok (ok r) = true
is_ok (err e) = false

run_exchanges : is_ok exchange.1 ≡ true
unfolding is_ok
run_exchanges = refl

run_refreshes :
    is_ok
      (refresh encodings
        ("a2" ∷ "r2" ∷ [])
        exchanged_db
        (2 * second)
        "client"
        "refresh"
        "https://dock/mcp").1
    ≡ true
unfolding is_ok
run_refreshes = refl

exchange_once_example :
    (exchange_authorization_code encodings tokens exchanged_db (2 * second) request).1 ≡ err invalid
unfolding is_ok
exchange_once_example =
    exchange_once encodings tokens tokens registered exchanged_db (1 * second) (2 * second) request
      request issued (refl, (refl, (refl, tt))) refl refl

replay_revokes_example :
    authenticate_access encodings
      (exchange_authorization_code encodings tokens exchanged_db (2 * second) request).0
      (3 * second)
      issued.access_token
      "https://dock/mcp"
    ≡ err invalid
unfolding is_ok
replay_revokes_example =
    replay_revokes encodings tokens tokens registered exchanged_db (1 * second) (2 * second)
      (3 * second) request request issued oauth_code "https://dock/mcp" (refl, (refl, (refl, tt)))
      refl refl refl refl refl refl

abbrev granted : OauthGrant
granted = new_grant encodings (1 * second) oauth_code "access" "refresh" "grant"

abbrev bob_grant : OauthGrant
bob_grant = record granted { id = "g2"; user_id = "bob"; access_token_hash = "h:b" }

-- Alice's grants are revoked; the token of another user is still accepted.
abbrev with_bob : OauthTables
with_bob = record exchanged_db {
  users = record { id = "bob"; is_active = true } ∷ exchanged_db.users;
  grants = bob_grant ∷ exchanged_db.grants;
}

revoked_user_denied_example : bob_grant.user_id ≢ "alice"
unfolding is_ok
revoked_user_denied_example =
    revoked_user_denied encodings with_bob (2 * second) (3 * second) "alice" "b" "https://dock/mcp"
      bob_grant refl refl

abbrev rotation : OauthTables × Result IssuedTokens
rotation =
    refresh encodings ("a2" ∷ "r2" ∷ []) exchanged_db (2 * second) "client" "refresh"
      "https://dock/mcp"

abbrev rotated_tokens : IssuedTokens
rotated_tokens = record issued {
  access_token = "a2";
  refresh_token = "r2";
  access_expires_at = 3602 * second;
}

rotated_replay_revokes_example :
    authenticate_access encodings
      (refresh encodings
        ("a3" ∷ "r3" ∷ [])
        rotation.0
        (3 * second)
        "client"
        "refresh"
        "https://dock/mcp").0
      (4 * second)
      rotated_tokens.access_token
      "https://dock/mcp"
    ≡ err invalid
unfolding is_ok
rotated_replay_revokes_example =
    rotated_replay_revokes encodings ("a2" ∷ "r2" ∷ []) ("a3" ∷ "r3" ∷ []) exchanged_db rotation.0
      (2 * second) (3 * second) (4 * second) "client" "refresh" "https://dock/mcp"
      "https://dock/mcp" rotated_tokens granted refl refl refl refl refl refl
