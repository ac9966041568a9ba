-- ===== src/Oauth/Redeemed.antt =====
-- oauth.go: the exchange of a code, the refresh and the revocation keep the tables consistent.
use nexusdock.Shared.{
  ℕ, ◌≡◌, refl, ltb, String, str_eq, str_eq_refl, is_blank, is_empty, text_before, List, [], ◌∷◌,
  ◌++◌, Option, none, some, Bool, true, false, not, ◌||◌, ◌&&◌, any, find_first, find_first-lacks,
  All-find_first, if◌then◌else◌, arith, Bool-cases, Option-cases, inl, inr,
}
use nexusdock.Continuation.Types.{Result}
use nexusdock.Continuation.Ensures.{Ensures, returns, raises, branch}
use nexusdock.Oauth.Urls.{Encodings, equivalent_resource}
use nexusdock.Oauth.Texts.{valid_pkce_value}
use nexusdock.Oauth.Grants.{
  OauthCode, OauthGrant, OauthTables, IssuedTokens, is_taken, new_grant, issue_grant,
}
use nexusdock.Oauth.Exchange.{
  CodeRequest, code_matches, is_used, use_code, revoke_replayed, use_first, exchange_code,
  find_code, exchange_authorization_code,
}
use nexusdock.Oauth.Access.{
  is_live, refresh_replayed, rotate, hashes_taken, rotate_grant, finish_rotation, refresh,
  revoke_user_grants,
}
use nexusdock.Oauth.References.{
  HasClient, HasGrant, Referential, map_grants-Referential, revoke_grants-Referential,
  touch_client-Referential, map_codes-Referential, add_grant-Referential, add_rotated-Referential,
}

use_code-keeps :
    (hash id : String) (now : ℕ) (c : OauthCode)
    → ((use_code hash id now c).code_hash ≡ c.code_hash)
      × ((use_code hash id now c).client_id ≡ c.client_id)
use_code-keeps hash id now c = elim (Bool-cases (str_eq c.code_hash hash && not (is_used c))) [
  | inl e ↦ rw e (refl, refl)
  | inr e ↦ rw e (refl, refl)
]

use_first-Referential :
    (p : Encodings) (ids : List String) (db : OauthTables) (now : ℕ) (c : OauthCode)
    (q : CodeRequest)
    → HasClient db.clients c.client_id
    → Referential db
    → Referential (use_first p ids db now c q).0
unfolding use_first issue_grant new_grant
use_first-Referential p [] db now c q k h = h
use_first-Referential p (a ∷ []) db now c q k h = h
use_first-Referential p (a ∷ b ∷ []) db now c q k h = h
use_first-Referential p (a ∷ b ∷ id ∷ ids) db now c q k h =
    elim (Bool-cases (is_taken db.grants id (p.digest a) (p.digest b))) [
      | inl e ↦ rw (e, use_first) h
      | inr e ↦
          rw (e, use_first)
            (touch_client-Referential _ q.client_id now (
              map_codes-Referential
                (record db { grants = db.grants ++ new_grant p now c a b id ∷ [] })
                (use_code (p.digest q.code) id now) (use_code-keeps (p.digest q.code) id now)
                (add_grant-Referential db (new_grant p now c a b id) k h)))
    ]

revoke_replayed-Referential :
    (db : OauthTables) (now : ℕ) (grant : Option String)
    → Referential db
    → Referential (revoke_replayed db now grant)
unfolding revoke_replayed
revoke_replayed-Referential db now none h = h
revoke_replayed-Referential db now (some id) h = elim (Bool-cases (is_empty id)) [
  | inl e ↦ rw e h
  | inr e ↦ rw e (revoke_grants-Referential db now (λ g. str_eq g.id id) h)
]

pub exchange-Referential :
    (p : Encodings) (ids : List String) (db : OauthTables) (now : ℕ) (q : CodeRequest)
    → Referential db
    → Referential (exchange_authorization_code p ids db now q).0
unfolding exchange_authorization_code exchange_code
exchange-Referential p ids db now q h = elim (Bool-cases (not (valid_pkce_value q.verifier))) [
  | inl e ↦ rw e h
  | inr e ↦ elim (Option-cases (find_code p db q.code)) [
    | inl f ↦ rw (e, f) h
    | inr (c, f) ↦ elim (Bool-cases (not (code_matches p c q now))) [
      | inl m ↦ rw (e, f, m) h
      | inr m ↦ elim (Bool-cases (is_used c)) [
        | inl u ↦ rw (e, f, m, u) (revoke_replayed-Referential db now c.grant_id h)
        | inr u ↦
            let k = All-find_first (λ x. HasClient db.clients x.client_id) _ db.codes c h.codes f in
            rw (e, f, m, u) (use_first-Referential p ids db now c q k h)
      ]
    ]
  ]
]

stored-HasGrant :
    (test : OauthGrant → Bool) (gs : List OauthGrant) (g : OauthGrant)
    → find_first test gs ≡ some g
    → HasGrant gs g.id
stored-HasGrant test gs g f = elim (Bool-cases (any (λ x. str_eq x.id g.id) gs)) [
  | inl e ↦ e
  | inr e ↦
      absurd
        (ground (arith, find_first-lacks test (λ x. str_eq x.id g.id) gs g f e, str_eq_refl g.id))
]

rotated-keeps :
    (test : Bool) (p : Encodings) (access token : String) (now : ℕ) (x : OauthGrant)
    → ((if test then rotate p access token now x else x).id ≡ x.id)
      × ((if test then rotate p access token now x else x).client_id ≡ x.client_id)
rotated-keeps true p access token now x = (refl, refl)
rotated-keeps false p access token now x = (refl, refl)

rotate_grant-Referential :
    (p : Encodings) (ids : List String) (db : OauthTables) (now : ℕ) (g : OauthGrant)
    → HasGrant db.grants g.id
    → Referential db
    → Ensures (λ r. Referential r.0) (rotate_grant p ids db now g)
unfolding rotate_grant
rotate_grant-Referential p [] db now g k h = raises
rotate_grant-Referential p (a ∷ []) db now g k h = raises
rotate_grant-Referential p (a ∷ b ∷ ids) db now g k h =
    branch
      (any (λ x. str_eq x.token_hash g.refresh_token_hash) db.rotated
        || hashes_taken db.grants g.id (p.digest a) (p.digest b))
      _ _ (λ l. raises)
      λ l. returns (
        touch_client-Referential _ g.client_id now (
          map_grants-Referential _ _
            (λ x.
              rotated-keeps
                (str_eq x.id g.id && str_eq x.refresh_token_hash g.refresh_token_hash && is_live x)
                p a b now x)
            (add_rotated-Referential db _ k h)))

finish_rotation-Referential :
    (db : OauthTables) (r : Result (OauthTables × IssuedTokens))
    → Referential db
    → Ensures (λ x. Referential x.0) r
    → Referential (finish_rotation db r).0
finish_rotation-Referential db _ h (returns k) = k
finish_rotation-Referential db _ h raises = h

refresh_replayed-Referential :
    (p : Encodings) (db : OauthTables) (now : ℕ) (client hash resource : String)
    → Referential db
    → Referential (refresh_replayed p db now client hash resource)
unfolding refresh_replayed
refresh_replayed-Referential p db now client hash resource h =
    elim (Option-cases
      (find_first (λ x. str_eq x.token_hash hash && text_before now x.expires_at) db.rotated)) [
        | inl e ↦ rw (refresh_replayed, e) h
        | inr (r, e) ↦ elim (Option-cases (find_first (λ g. str_eq g.id r.grant_id) db.grants)) [
          | inl f ↦ rw (refresh_replayed, e, f) h
          | inr (g, f) ↦
              elim (Bool-cases
                (str_eq g.client_id client && equivalent_resource p g.resource resource)) [
                  | inl k ↦
                      rw (refresh_replayed, e, f, k)
                        (revoke_grants-Referential db now (λ x. str_eq x.id g.id) h)
                  | inr k ↦ rw (refresh_replayed, e, f, k) h
                ]
        ]
      ]

pub refresh-Referential :
    (p : Encodings) (ids : List String) (db : OauthTables) (now : ℕ)
    (client token resource : String)
    → Referential db
    → Referential (refresh p ids db now client token resource).0
unfolding refresh
refresh-Referential p ids db now client token resource h =
    elim (Option-cases
      (find_first (λ g. str_eq g.refresh_token_hash (p.digest token) && is_live g) db.grants)) [
        | inl e ↦
            rw (refresh, e)
              (refresh_replayed-Referential p db now client (p.digest token) resource h)
        | inr (g, e) ↦
            elim (Bool-cases (
              not (str_eq g.client_id client)
              || not (equivalent_resource p g.resource resource)
              || not (ltb now g.refresh_expires_at))) [
                | inl k ↦ rw (refresh, e, k) h
                | inr k ↦
                    let rotation =
                      rotate_grant-Referential p ids db now g (stored-HasGrant _ db.grants g e) h in
                    rw (refresh, e, k)
                      (finish_rotation-Referential db (rotate_grant p ids db now g) h rotation)
              ]
      ]

pub revoke_user_grants-Referential :
    (db : OauthTables) (now : ℕ) (user : String)
    → Referential db
    → Referential (revoke_user_grants db now user)
unfolding revoke_user_grants
revoke_user_grants-Referential db now user h = elim (Bool-cases (is_blank user)) [
  | inl e ↦ rw e h
  | inr e ↦ rw e (revoke_grants-Referential db now (λ g. str_eq g.user_id user) h)
]
