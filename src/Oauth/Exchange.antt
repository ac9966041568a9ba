-- ===== src/Oauth/Exchange.antt =====
-- internal/auth/oauth.go: ExchangeAuthorizationCode. It gives the tables beside the answer, since
-- a replay is refused and yet commits the revocation of the grant.
use nexusdock.Shared.{
  ℕ, ltb, String, str_eq, is_empty, List, map, Option, none, some, Bool, true, false, ◌&&◌, not,
  find_first, if◌then◌else◌,
}
use nexusdock.Continuation.Types.{invalid, Result, ok, err}
use nexusdock.Oauth.Texts.{valid_pkce_value}
use nexusdock.Oauth.Urls.{Encodings, equivalent_resource}
use nexusdock.Oauth.Grants.{
  OauthCode, OauthTables, verify_pkce, IssuedTokens, revoke_grants, touch_client, issue_grant,
}

pub record CodeRequest : Type 0 where
  pub client_id : String
  pub code : String
  pub redirect_uri : String
  pub verifier : String
  pub resource : String

-- The request is one that the code was issued for, and the code is not expired.
abbrev pub code_matches : Encodings → OauthCode → CodeRequest → ℕ → Bool
code_matches p c q now =
    ltb now c.expires_at
    && str_eq c.client_id q.client_id
    && str_eq c.redirect_uri q.redirect_uri
    && equivalent_resource p c.resource q.resource
    && verify_pkce p q.verifier c.code_challenge

abbrev pub is_used : OauthCode → Bool
is_used c = elim c.used_at [ none ↦ false | some t ↦ true ]

-- UPDATE … SET used_at = ?, grant_id = ? WHERE code_hash = ? AND used_at IS NULL
abbrev pub use_code : String → String → ℕ → OauthCode → OauthCode
use_code hash grant now c =
    if str_eq c.code_hash hash && not (is_used c)
    then record c { used_at = some now; grant_id = some grant }
    else c

-- The grant that a used code gave is revoked.
unfoldable pub revoke_replayed : OauthTables → ℕ → Option String → OauthTables
revoke_replayed db now none = db
revoke_replayed db now (some id) =
    if is_empty id then db else revoke_grants db now (λ g. str_eq g.id id)

-- The first use of a code.
unfoldable pub use_first :
    Encodings
    → List String
    → OauthTables
    → ℕ
    → OauthCode
    → CodeRequest
    → OauthTables × Result IssuedTokens
use_first p ids db now c q = elim (issue_grant p ids db now c) [
  | err e ↦ (db, err e)
  | ok (db', issued, id) ↦ (
    touch_client (record db' { codes = map (use_code (p.digest q.code) id now) db'.codes })
        q.client_id now,
    ok issued,
  )
]

-- A code that was found.
unfoldable pub exchange_code :
    Encodings
    → List String
    → OauthTables
    → ℕ
    → CodeRequest
    → OauthCode
    → OauthTables × Result IssuedTokens
exchange_code p ids db now q c =
    if not (code_matches p c q now)
    then (db, err invalid)
    else if is_used c
    then (revoke_replayed db now c.grant_id, err invalid)
    else use_first p ids db now c q

abbrev pub find_code : Encodings → OauthTables → String → Option OauthCode
find_code p db code = find_first (λ c. str_eq c.code_hash (p.digest code)) db.codes

unfoldable pub exchange_authorization_code :
    Encodings → List String → OauthTables → ℕ → CodeRequest → OauthTables × Result IssuedTokens
exchange_authorization_code p ids db now q =
    if not (valid_pkce_value q.verifier) then (db, err invalid) else elim (find_code p db q.code) [
      | none ↦ (db, err invalid)
      | some c ↦ exchange_code p ids db now q c
    ]
