-- ===== src/Oauth/Access.antt =====
-- internal/auth/oauth.go: Refresh, AuthenticateAccess and RevokeUserGrants.
use nexusdock.Shared.{
  ℕ, ◌+◌, ltb, String, str_eq, is_blank, text_before, List, [], ◌∷◌, ◌++◌, map, none, some, Bool,
  true, false, ◌&&◌, ◌||◌, not, any, find_first, if◌then◌else◌,
}
use nexusdock.Continuation.Types.{invalid, failed, Result, ok, err, ◌>>=◌, or_fail, refuse_if, ◌>>◌}
use nexusdock.Oauth.Urls.{Encodings, equivalent_resource}
use nexusdock.Oauth.Grants.{
  OauthGrant, OauthTables, IssuedTokens, revoke_grants, touch_client, access_token_ttl,
}

abbrev pub is_live : OauthGrant → Bool
is_live g = elim g.revoked_at [ none ↦ true | some t ↦ false ]

-- A rotated token that came back for its own client and resource revokes its grant.
unfoldable pub refresh_replayed :
    Encodings → OauthTables → ℕ → String → String → String → OauthTables
refresh_replayed p db now client hash resource =
    elim (find_first (λ h. str_eq h.token_hash hash && text_before now h.expires_at) db.rotated) [
      | none ↦ db
      | some h ↦ elim (find_first (λ g. str_eq g.id h.grant_id) db.grants) [
        | none ↦ db
        | some g ↦
            if str_eq g.client_id client && equivalent_resource p g.resource resource
            then revoke_grants db now (λ x. str_eq x.id g.id)
            else db
      ]
    ]

abbrev pub rotate : Encodings → String → String → ℕ → OauthGrant → OauthGrant
rotate p access refresh now g = record g {
  access_token_hash = p.digest access;
  refresh_token_hash = p.digest refresh;
  access_expires_at = now + access_token_ttl;
  updated_at = now;
}

-- The new token hashes collide with those of another grant.
abbrev pub hashes_taken : List OauthGrant → String → String → String → Bool
hashes_taken gs id access refresh =
    any
      (λ g.
        not (str_eq g.id id)
        && (str_eq g.access_token_hash access || str_eq g.refresh_token_hash refresh))
      gs

-- The rotation of a grant that was found; the supplied texts are the new access and refresh token.
unfoldable pub rotate_grant :
    Encodings → List String → OauthTables → ℕ → OauthGrant → Result (OauthTables × IssuedTokens)
rotate_grant p (access ∷ refresh ∷ ids) db now g =
    let rotated_db = record db {
      rotated =
          db.rotated
          ++ record {
            token_hash = g.refresh_token_hash;
            grant_id = g.id;
            expires_at = g.refresh_expires_at;
          }
            ∷ [];
      grants =
          map
            (λ x.
              if str_eq x.id g.id && str_eq x.refresh_token_hash g.refresh_token_hash && is_live x
              then rotate p access refresh now x
              else x)
            db.grants;
    } in
    if any (λ h. str_eq h.token_hash g.refresh_token_hash) db.rotated
      || hashes_taken db.grants g.id (p.digest access) (p.digest refresh)
    then err failed
    else ok (
      touch_client rotated_db g.client_id now,
      record {
        access_token = access;
        refresh_token = refresh;
        access_expires_at = now + access_token_ttl;
        refresh_expires_at = g.refresh_expires_at;
        scope = g.scope;
        user_id = g.user_id;
        client_id = g.client_id;
        resource = g.resource;
      },
    )
rotate_grant p _ db now g = err failed

abbrev pub finish_rotation :
    OauthTables → Result (OauthTables × IssuedTokens) → OauthTables × Result IssuedTokens
finish_rotation db (ok (db', issued)) = (db', ok issued)
finish_rotation db (err e) = (db, err e)

-- Refresh.
unfoldable pub refresh :
    Encodings
    → List String
    → OauthTables
    → ℕ
    → String
    → String
    → String
    → OauthTables × Result IssuedTokens
refresh p ids db now client token resource =
    elim (find_first (λ g. str_eq g.refresh_token_hash (p.digest token) && is_live g) db.grants) [
      | none ↦ (refresh_replayed p db now client (p.digest token) resource, err invalid)
      | some g ↦
          if not (str_eq g.client_id client)
            || not (equivalent_resource p g.resource resource)
            || not (ltb now g.refresh_expires_at)
          then (db, err invalid)
          else finish_rotation db (rotate_grant p ids db now g)
    ]

-- The user of the grant is active.
abbrev pub user_is_active : OauthTables → String → Bool
user_is_active db user = any (λ u. str_eq u.id user && u.is_active) db.users

abbrev pub grants_access : Encodings → OauthTables → String → OauthGrant → Bool
grants_access p db token g =
    str_eq g.access_token_hash (p.digest token) && is_live g && user_is_active db g.user_id

-- AuthenticateAccess: the grant that the token gives access by.
unfoldable pub authenticate_access :
    Encodings → OauthTables → ℕ → String → String → Result OauthGrant
authenticate_access p db now token resource =
    refuse_if (is_blank token) invalid
    >> (or_fail (find_first (grants_access p db token) db.grants) invalid >>= λ g.
        refuse_if (not (equivalent_resource p g.resource resource)) invalid
        >> (refuse_if (not (ltb now g.access_expires_at)) invalid >> ok g))

-- RevokeUserGrants.
unfoldable pub revoke_user_grants : OauthTables → ℕ → String → OauthTables
revoke_user_grants db now user =
    if is_blank user then db else revoke_grants db now (λ g. str_eq g.user_id user)
