-- ===== src/Oauth/Issued.antt =====
-- oauth.go: a code from its issue to its exchange.
use nexusdock.Shared.{
  ℕ, ◌≡◌, ◌<◌, ◌+◌, refl, lt→ltb, String, str_eq, str_eq_refl, [], ◌∷◌, Option, some, Bool, true,
  false, find_first-append, arith,
}
use nexusdock.Continuation.Types.{Error, Result, ok, err, ◌>>=◌, ◌>>◌, refuse_if}
use nexusdock.Continuation.Ensures.{
  Ensures, returns, raises, returned, chain, proceed, branch, require,
}
use nexusdock.Oauth.Texts.{valid_pkce_value, normalize_scope, normalize_scope_idem}
use nexusdock.Oauth.Urls.{Encodings, equivalent_resource}
use nexusdock.Oauth.Grants.{
  OauthTables, IssuedTokens, verify_pkce, access_token_ttl, refresh_token_ttl, is_taken,
  issue_grant,
}
use nexusdock.Oauth.Exchange.{
  CodeRequest, code_matches, use_first, exchange_code, find_code, exchange_authorization_code,
}
use nexusdock.Oauth.Clients.{
  AuthorizationInput, authorization_code_ttl, new_code, code_is_refused, insert_code, client_allows,
  issue_authorization_code,
}

-- What the issue of a code has checked and stored.
record Issues (p : Encodings) (db : OauthTables) (now : ℕ) (i : AuthorizationInput) (raw : String)
    (db' : OauthTables) : Type 0 where
  allowed : client_allows p db i.client_id i.redirect_uri ≡ true
  found : find_code p db' raw ≡ some (new_code p now i raw)
  grants : db'.grants ≡ db.grants

insert_code-found :
    (p : Encodings) (db : OauthTables) (now : ℕ) (i : AuthorizationInput) (raw : String)
    → client_allows p db i.client_id i.redirect_uri ≡ true
    → Ensures (Issues p db now i raw) (insert_code db (new_code p now i raw))
unfolding insert_code
insert_code-found p db now i raw a =
    branch (code_is_refused db (new_code p now i raw)) _ _ (λ h. raises)
      λ h. returns (record {
        allowed = a;
        found =
            find_first-append (λ x. str_eq x.code_hash (p.digest raw)) db.codes
              (new_code p now i raw) (ground (arith, h)) (str_eq_refl (p.digest raw));
        grants = refl;
      })

last_passed :
    (m : Result (Unit {0})) (b : Bool) (e : Error) → m >> refuse_if b e ≡ ok tt → b ≡ false
unfolding ◌>>◌ ◌>>=◌ refuse_if
last_passed (ok u) true e h = cc
last_passed (ok u) false e h = refl
last_passed (err f) b e h = cc

issue-Issues :
    (p : Encodings) (source : Option String) (db : OauthTables) (now : ℕ) (i : AuthorizationInput)
    → Ensures (λ r. Issues p db now i r.1 r.0) (issue_authorization_code p source db now i)
unfolding issue_authorization_code
issue-Issues p source db now i = proceed _ _ λ g. require _ _ _ λ raw e. chain _ _ λ db' f.
    returns (returned (insert_code-found p db now i raw (ground (arith, last_passed _ _ _ g))) f)

-- The request that redeems a code.
abbrev pub redemption : AuthorizationInput → String → String → String → CodeRequest
redemption i code verifier resource = record {
  client_id = i.client_id;
  code = code;
  redirect_uri = i.redirect_uri;
  verifier = verifier;
  resource = resource;
}

-- The tokens that a code gives.
abbrev pub tokens_of : ℕ → AuthorizationInput → String → String → IssuedTokens
tokens_of later i access refresh = record {
  access_token = access;
  refresh_token = refresh;
  access_expires_at = later + access_token_ttl;
  refresh_expires_at = later + refresh_token_ttl;
  scope = normalize_scope i.scope;
  user_id = i.user_id;
  client_id = i.client_id;
  resource = i.resource;
}

-- A code is issued only for a redirect that its client registered. The request that comes before the
-- code expires, with a verifier of its challenge, the same client and redirect and an equivalent
-- resource, gets tokens for the user, the resource and the scope that the code was issued for, when
-- the new hashes are not those of another grant.
pub issue_then_exchange :
    (p : Encodings) (source : Option String) (db db' : OauthTables) (now later : ℕ)
    (i : AuthorizationInput) (code verifier resource access refresh id : String)
    → issue_authorization_code p source db now i ≡ ok (db', code)
    → later < now + authorization_code_ttl
    → valid_pkce_value verifier ≡ true
    → verify_pkce p verifier i.code_challenge ≡ true
    → equivalent_resource p i.resource resource ≡ true
    → is_taken db.grants id (p.digest access) (p.digest refresh) ≡ false
    → (client_allows p db i.client_id i.redirect_uri ≡ true)
      × ((exchange_authorization_code p
            (access ∷ refresh ∷ id ∷ [])
            db'
            later
            (redemption i code verifier resource)).1
          ≡ ok (tokens_of later i access refresh))
unfolding exchange_authorization_code exchange_code use_first issue_grant
issue_then_exchange p source db db' now later i code verifier resource access refresh id h l v k e
      t =
    let x : Issues p db now i code db' = returned (issue-Issues p source db now i) h in
    let q = redemption i code verifier resource in
    let m : code_matches p (new_code p now i code) q later ≡ true = ground (
      arith,
      lt→ltb later (now + authorization_code_ttl) l,
      str_eq_refl i.client_id,
      str_eq_refl i.redirect_uri,
      e,
      k,
    ) in
    let free : is_taken db'.grants id (p.digest access) (p.digest refresh) ≡ false =
      rw x.grants t in
    (x.allowed, rw (v, x.found, m, use_first, free, normalize_scope_idem i.scope) refl)
