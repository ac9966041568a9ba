-- ===== src/Oauth/ClientExamples.antt =====
-- OAuth on concrete inputs: a client that registers, and a code from its issue to its exchange.
use nexusdock.Shared.{ℕ, ◌*◌, ◌≡◌, refl, String, text_append, [], ◌∷◌, some, true, false, arith}
use nexusdock.Continuation.Types.{Result, ok, err, second}
use nexusdock.Oauth.Grants.{OauthTables}
use nexusdock.Oauth.Packing.{unpack-pack}
use nexusdock.Oauth.Exchange.{exchange_authorization_code}
use nexusdock.Oauth.Clients.{
  OauthClient, AuthorizationInput, client_allows, issue_authorization_code,
}
use nexusdock.Oauth.Registration.{ClientRegistration, client_row, register_client}
use nexusdock.Oauth.Registered.{Registers, register_client-Registers}
use nexusdock.Oauth.Issued.{redemption, tokens_of, issue_then_exchange}
use nexusdock.Oauth.Steps.{Reach, start, next, issues, exchanges, revokes}
use nexusdock.Oauth.References.{Referential}
use nexusdock.Oauth.Integrity.{Reach-Referential}
use nexusdock.Oauth.Access.{revoke_user_grants}
use nexusdock.Oauth.Examples.{encodings, verifier, registered, is_ok}

-- The metadata has a redirect twice and no grant types.
abbrev metadata : ClientRegistration
metadata = record {
  name = " phone ";
  redirect_uris = "https://phone/back" ∷ " https://phone/back" ∷ [];
  grant_types = [];
  response_types = "code" ∷ [];
  token_endpoint_auth_method = "";
}

-- 200 days later the first client is idle.
abbrev much_later : ℕ
much_later = 200 * 24 * 3600 * second

abbrev phone : OauthClient
phone = record {
  id = "phone";
  name = "phone";
  redirect_uris = "https://phone/back" ∷ [];
  grant_types = "authorization_code" ∷ "refresh_token" ∷ [];
  response_types = "code" ∷ [];
  token_endpoint_auth_method = "none";
  created_at = much_later;
  last_used_at = much_later;
}

abbrev with_phone : OauthTables
with_phone = record registered { clients = client_row encodings phone ∷ []; codes = [] }

run_registers :
    register_client encodings (some "phone") registered much_later metadata ≡ ok (with_phone, phone)
unfolding is_ok
run_registers = refl

register_client-Registers_example : Registers encodings metadata with_phone phone
unfolding is_ok
register_client-Registers_example =
    register_client-Registers encodings "phone" registered with_phone much_later metadata phone
      unpack-pack refl run_registers

abbrev authorization : AuthorizationInput
authorization = record {
  client_id = "client";
  user_id = "alice";
  redirect_uri = "https://host/callback";
  code_challenge = text_append "c-" verifier;
  resource = "https://dock/mcp";
  scope = " mcp  read ";
}

abbrev issue : Result (OauthTables × String)
issue = issue_authorization_code encodings (some "secret") registered second authorization

abbrev issued_db : OauthTables
issued_db = elim issue [ ok r ↦ r.0 | err e ↦ registered ]

-- An unknown redirect gets no code.
run_refuses :
    is_ok (
      issue_authorization_code encodings
        (some "secret")
        registered
        second
        (record authorization { redirect_uri = "https://evil/callback" }))
    ≡ false
unfolding is_ok
run_refuses = refl

issue_then_exchange_example :
    (client_allows encodings registered "client" "https://host/callback" ≡ true)
    × ((exchange_authorization_code encodings
          ("access" ∷ "refresh" ∷ "grant" ∷ [])
          issued_db
          (2 * second)
          (redemption authorization "secret" verifier "https://dock/mcp")).1
        ≡ ok (tokens_of (2 * second) authorization "access" "refresh"))
unfolding is_ok
issue_then_exchange_example =
    issue_then_exchange encodings (some "secret") registered issued_db second (2 * second)
      authorization "secret" verifier "https://dock/mcp" "access" "refresh" "grant" refl
      (omega arith) refl refl refl refl

registered-Referential : Referential registered
unfolding is_ok
registered-Referential = record {
  bounded = omega arith;
  ids = (refl, tt);
  hashes = (refl, tt);
  codes = (refl, tt);
  grants = tt;
  rotated = tt;
}

-- A code is issued and exchanged, and then the grants of the user are revoked.
abbrev busy_db : OauthTables
busy_db =
    revoke_user_grants
      (exchange_authorization_code encodings ("access" ∷ "refresh" ∷ "grant" ∷ []) issued_db
        (2 * second) (redemption authorization "secret" verifier "https://dock/mcp")).0
      (3 * second) "alice"

busy : Reach encodings registered busy_db
unfolding is_ok
busy =
    next
      (next (next start (issues (some "secret") second authorization issued_db "secret" refl)) (
        exchanges ("access" ∷ "refresh" ∷ "grant" ∷ []) (2 * second)
          (redemption authorization "secret" verifier "https://dock/mcp")))
      (revokes (3 * second) "alice")

Reach-Referential_example : Referential busy_db
unfolding is_ok
Reach-Referential_example =
    Reach-Referential encodings registered busy_db busy registered-Referential
