-- ===== src/Oauth/Denied.antt =====
-- oauth.go, AuthenticateAccess and RevokeUserGrants: whom an access token authenticates.
use nexusdock.Shared.{
  All-find_first, ℕ, find_first-holds, ◌<◌, ◌≡◌, ◌≢◌, String, str_eq, str_eq_refl, is_blank, List,
  [], ◌∷◌, map, some, true, false, find_first, All, if◌then◌else◌, arith, Bool-cases, inl, inr,
  eq_iff,
}
use nexusdock.Continuation.Types.{ok}
use nexusdock.Continuation.Ensures.{Ensures, returns, returned, refuse, require}
use nexusdock.Oauth.Urls.{Encodings, equivalent_resource}
use nexusdock.Oauth.Grants.{OauthGrant, OauthTables, revoke_grant, revoke_grants}
use nexusdock.Oauth.Access.{
  is_live, user_is_active, grants_access, authenticate_access, revoke_user_grants,
}
use nexusdock.Oauth.Replay.{revoked-dead}

-- Why an access token was accepted.
pub record Authenticates (p : Encodings) (db : OauthTables) (t : ℕ) (token resource : String)
    (g : OauthGrant) : Type 0 where
  pub of_token : g.access_token_hash ≡ p.digest token
  pub live : is_live g ≡ true
  pub active : user_is_active db g.user_id ≡ true
  pub audience : equivalent_resource p g.resource resource ≡ true
  pub in_time : t < g.access_expires_at
  pub stored : find_first (grants_access p db token) db.grants ≡ some g

authenticate-Authenticates_lem :
    (p : Encodings) (db : OauthTables) (t : ℕ) (token resource : String)
    → Ensures (Authenticates p db t token resource) (authenticate_access p db t token resource)
unfolding authenticate_access
authenticate-Authenticates_lem p db t token resource = refuse _ _ _ λ full. require _ _ _ λ g f.
    refuse _ _ _ λ aud. refuse _ _ _ λ time.
      let a = find_first-holds (grants_access p db token) db.grants g f in
      returns (record {
        of_token = ground (arith, a, eq_iff g.access_token_hash (p.digest token));
        live = ground (arith, a);
        active = ground (arith, a);
        audience = ground (arith, aud);
        in_time = ground (arith, time);
        stored = f;
      })

-- An access token is accepted only for a grant whose stored hash is that of the token, which is
-- not revoked and not expired, whose user is active, and whose resource is the one asked for.
pub authenticate-Authenticates :
    (p : Encodings) (db : OauthTables) (t : ℕ) (token resource : String) (g : OauthGrant)
    → authenticate_access p db t token resource ≡ ok g
    → Authenticates p db t token resource g
authenticate-Authenticates p db t token resource g h =
    returned (authenticate-Authenticates_lem p db t token resource) h

user_dead :
    (user : String) (now : ℕ) (gs : List OauthGrant)
    → All
        (λ g. str_eq g.user_id user ≡ true → is_live g ≡ false)
        (map (λ g. if str_eq g.user_id user then revoke_grant now g else g) gs)
user_dead user now [] = tt
user_dead user now (g ∷ gs) = elim (Bool-cases (str_eq g.user_id user)) [
  | inl e ↦ (rw e (λ h. revoked-dead now g), user_dead user now gs)
  | inr e ↦ (rw e (λ h. cc), user_dead user now gs)
]

revoked-user_dead :
    (db : OauthTables) (now : ℕ) (user : String)
    → is_blank user ≡ false
    → All
        (λ g. str_eq g.user_id user ≡ true → is_live g ≡ false)
        (revoke_user_grants db now user).grants
unfolding revoke_user_grants revoke_grants
revoked-user_dead db now user b = rw b (user_dead user now db.grants)

-- Once the grants of a user were revoked, no access token authenticates that user on the tables
-- that were left, at any time and for any resource.
pub revoked_user_denied :
    (p : Encodings) (db : OauthTables) (now t : ℕ) (user token resource : String) (g : OauthGrant)
    → is_blank user ≡ false
    → authenticate_access p (revoke_user_grants db now user) t token resource ≡ ok g
    → g.user_id ≢ user
revoked_user_denied p db now t user token resource g b h e =
    let a = authenticate-Authenticates p (revoke_user_grants db now user) t token resource g h in
    let dead =
      All-find_first (λ g. str_eq g.user_id user ≡ true → is_live g ≡ false) _
        (revoke_user_grants db now user).grants g (revoked-user_dead db now user b) a.stored in
    absurd (ground (arith, a.live, dead (rw e (str_eq_refl user))))
