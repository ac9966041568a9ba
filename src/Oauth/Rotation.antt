-- ===== src/Oauth/Rotation.antt =====
-- oauth.go, Refresh: a refresh token that was rotated comes again.
use nexusdock.Shared.{
  ℕ, find_first-holds, find_first-append, any-weaken, ◌≡◌, refl, sym, ap, subst, ◌∙◌, String,
  str_eq, str_eq_refl, is_blank, ltb, text_before, List, [], ◌∷◌, ◌++◌, map, none, some, true,
  false, ◌&&◌, ◌||◌, not, any, find_first, All, if◌then◌else◌, arith, Bool-cases, Option-cases, inl,
  inr, eq_iff,
}
use nexusdock.Continuation.Types.{invalid, Result, ok, err, ◌>>=◌, ◌>>◌, or_fail, refuse_if}
use nexusdock.Oauth.Urls.{Encodings, equivalent_resource}
use nexusdock.Oauth.Grants.{OauthGrant, RotatedToken, OauthTables, IssuedTokens, revoke_grants}
use nexusdock.Oauth.Access.{
  is_live, rotate, hashes_taken, rotate_grant, refresh, refresh_replayed, finish_rotation,
  authenticate_access,
}
use nexusdock.Oauth.Replay.{Owns, revoked-no_access}

abbrev rotate_where : Encodings → String → String → ℕ → OauthGrant → OauthGrant → OauthGrant
rotate_where p access refresh now g x =
    if str_eq x.id g.id && str_eq x.refresh_token_hash g.refresh_token_hash && is_live x
    then rotate p access refresh now x
    else x

-- What a successful refresh found and left.
record Rotates (p : Encodings) (now : ℕ) (client token resource : String) (db db' : OauthTables)
    (issued : IssuedTokens) : Type 0 where
  grant : OauthGrant
  found :
      find_first (λ g. str_eq g.refresh_token_hash (p.digest token) && is_live g) db.grants
      ≡ some grant
  owner : grant.client_id ≡ client
  audience : equivalent_resource p grant.resource resource ≡ true
  fresh : any (λ h. str_eq h.token_hash grant.refresh_token_hash) db.rotated ≡ false
  unique :
      hashes_taken db.grants grant.id (p.digest issued.access_token) (p.digest issued.refresh_token)
      ≡ false
  until : issued.refresh_expires_at ≡ grant.refresh_expires_at
  grants :
      db'.grants ≡ map (rotate_where p issued.access_token issued.refresh_token now grant) db.grants
  history :
      db'.rotated
      ≡ db.rotated
        ++ record {
          token_hash = grant.refresh_token_hash;
          grant_id = grant.id;
          expires_at = grant.refresh_expires_at;
        }
          ∷ []

abbrev Leaves :
    Encodings
    → ℕ
    → String
    → String
    → String
    → OauthTables
    → OauthTables × Result IssuedTokens
    → Type 0
Leaves p now client token resource db (db', r) =
    (issued : IssuedTokens) → r ≡ ok issued → Rotates p now client token resource db db' issued

ok-issued : {a b : IssuedTokens} → ok a ≡ ok b → a ≡ b
ok-issued {a} h = ap (λ r. elim r [ ok x ↦ x | err e ↦ a ]) h

rotate_grant-Leaves :
    (p : Encodings) (ids : List String) (db : OauthTables) (now : ℕ)
    (client token resource : String) (g : OauthGrant)
    → find_first (λ g. str_eq g.refresh_token_hash (p.digest token) && is_live g) db.grants ≡ some g
    → g.client_id ≡ client
    → equivalent_resource p g.resource resource ≡ true
    → Leaves p now client token resource db (finish_rotation db (rotate_grant p ids db now g))
unfolding rotate_grant
rotate_grant-Leaves p [] db now client token resource g f c a = λ issued h. cc
rotate_grant-Leaves p (x ∷ []) db now client token resource g f c a = λ issued h. cc
rotate_grant-Leaves p (x ∷ y ∷ ids) db now client token resource g f c a =
    elim (Bool-cases (
      any (λ h. str_eq h.token_hash g.refresh_token_hash) db.rotated
      || hashes_taken db.grants g.id (p.digest x) (p.digest y))) [
        | inl e ↦ rw (e, rotate_grant) (λ issued h. cc)
        | inr e ↦
            rw (e, rotate_grant)
              (λ issued h. rw (← ok-issued h) (record {
                grant = g;
                found = f;
                owner = c;
                audience = a;
                fresh = ground (arith, e);
                unique = ground (arith, e);
                until = refl;
                grants = refl;
                history = refl;
              }))
      ]

refresh-Leaves :
    (p : Encodings) (ids : List String) (db : OauthTables) (now : ℕ)
    (client token resource : String)
    → Leaves p now client token resource db (refresh p ids db now client token resource)
unfolding refresh
refresh-Leaves p ids db now client token resource =
    elim (Option-cases
      (find_first (λ g. str_eq g.refresh_token_hash (p.digest token) && is_live g) db.grants)) [
        | inl f ↦ rw (f, refresh) (λ issued h. cc)
        | inr (g, f) ↦
            elim (Bool-cases (
              not (str_eq g.client_id client)
              || not (equivalent_resource p g.resource resource)
              || not (ltb now g.refresh_expires_at))) [
                | inl e ↦ rw (f, e, refresh) (λ issued h. cc)
                | inr e ↦
                    rw (f, e, refresh)
                      (rotate_grant-Leaves p ids db now client token resource g f
                        (ground (arith, e, eq_iff g.client_id client)) (ground (arith, e)))
              ]
      ]

rotated-Owns :
    (p : Encodings) (gs : List OauthGrant) (access fresh : String) (now : ℕ) (g : OauthGrant)
    → hashes_taken gs g.id (p.digest access) (p.digest fresh) ≡ false
    → All (Owns (p.digest access) g.id) (map (rotate_where p access fresh now g) gs)
rotated-Owns p [] access fresh now g h = tt
rotated-Owns p (x ∷ gs) access fresh now g h =
    elim (Bool-cases
      (str_eq x.id g.id && str_eq x.refresh_token_hash g.refresh_token_hash && is_live x)) [
        | inl e ↦
            rw e (λ a. ground (arith, e), rotated-Owns p gs access fresh now g (ground (arith, h)))
        | inr e ↦
            rw e
              (λ a. ground (arith, a, h), rotated-Owns p gs access fresh now g (ground (arith, h)))
      ]

-- A rotation keeps the id, the client and the resource.
record Keeps (a b : OauthGrant) : Type 0 where
  id : b.id ≡ a.id
  client : b.client_id ≡ a.client_id
  resource : b.resource ≡ a.resource

rotate-Keeps :
    (p : Encodings) (access fresh : String) (now : ℕ) (g x : OauthGrant)
    → Keeps x (rotate_where p access fresh now g x)
rotate-Keeps p access fresh now g x =
    elim (Bool-cases
      (str_eq x.id g.id && str_eq x.refresh_token_hash g.refresh_token_hash && is_live x)) [
        | inl e ↦ rw e (record { id = refl; client = refl; resource = refl })
        | inr e ↦ rw e (record { id = refl; client = refl; resource = refl })
      ]

some-grant : {a b : OauthGrant} → some a ≡ some b → a ≡ b
some-grant {a} k = ap (λ r. elim r [ some x ↦ x | none ↦ a ]) k

find-rotated :
    (p : Encodings) (gs : List OauthGrant) (access fresh : String) (now : ℕ) (g : OauthGrant)
    → find_first (λ x. str_eq x.id g.id) gs ≡ some g
    → find_first (λ x. str_eq x.id g.id) (map (rotate_where p access fresh now g) gs)
      ≡ some (rotate_where p access fresh now g g)
find-rotated p [] access fresh now g h = cc
find-rotated p (x ∷ gs) access fresh now g h = elim (Bool-cases (str_eq x.id g.id)) [
  | inl e ↦
      subst
        (λ z.
          find_first (λ x. str_eq x.id g.id) (map (rotate_where p access fresh now g) (z ∷ gs))
          ≡ some (rotate_where p access fresh now g g))
        (sym (some-grant (rw e at h)))
        (rw ((rotate-Keeps p access fresh now g g).id, str_eq_refl g.id) refl)
  | inr e ↦ rw (e, e) (find-rotated p gs access fresh now g (rw e at h))
]

history-found :
    (p : Encodings) (hs : List RotatedToken) (g : OauthGrant) (hash : String) (later : ℕ)
    → str_eq g.refresh_token_hash hash ≡ true
    → any (λ h. str_eq h.token_hash g.refresh_token_hash) hs ≡ false
    → text_before later g.refresh_expires_at ≡ true
    → let row : RotatedToken = record {
      token_hash = g.refresh_token_hash;
      grant_id = g.id;
      expires_at = g.refresh_expires_at;
    } in
      find_first (λ h. str_eq h.token_hash hash && text_before later h.expires_at) (hs ++ row ∷ [])
      ≡ some row
history-found p hs g hash later e f t =
    find_first-append (λ h. str_eq h.token_hash hash && text_before later h.expires_at) hs _
      (any-weaken (λ h. str_eq h.token_hash g.refresh_token_hash) _ hs
        (λ h k. ground (arith, k, e, eq_iff g.refresh_token_hash hash)) f)
      (ground (arith, e, t))

-- When a refresh token was rotated and comes again for the same client and resource before it
-- would have expired (in the order of the stored texts), no live grant carrying its hash, and the
-- grant being the one that its id finds, then the access token that the rotation gave
-- authenticates nobody from then on.
pub rotated_replay_revokes :
    (p : Encodings) (ids ids' : List String) (db db' : OauthTables) (now later t : ℕ)
    (client token resource audience : String) (issued : IssuedTokens) (g : OauthGrant)
    → refresh p ids db now client token resource ≡ (db', ok issued)
    → find_first (λ x. str_eq x.refresh_token_hash (p.digest token) && is_live x) db.grants ≡ some g
    → find_first (λ x. str_eq x.id g.id) db.grants ≡ some g
    → find_first (λ x. str_eq x.refresh_token_hash (p.digest token) && is_live x) db'.grants ≡ none
    → text_before later g.refresh_expires_at ≡ true
    → is_blank issued.access_token ≡ false
    → authenticate_access p
        (refresh p ids' db' later client token resource).0
        t
        issued.access_token
        audience
      ≡ err invalid
unfolding refresh refresh_replayed revoke_grants authenticate_access ◌>>=◌ ◌>>◌ refuse_if or_fail
rotated_replay_revokes p ids ids' db db' now later t client token resource audience issued g h f own
      dead time b =
    let x =
      subst (λ z. Leaves p now client token resource db z) h
        (refresh-Leaves p ids db now client token resource) issued refl in
    let mine : x.grant ≡ g = some-grant (sym x.found ∙ f) in
    let k = x.grant in
    let own' : find_first (λ y. str_eq y.id k.id) db.grants ≡ some k =
      subst (λ z. find_first (λ y. str_eq y.id z.id) db.grants ≡ some z) (sym mine) own in
    let time' : text_before later k.refresh_expires_at ≡ true =
      subst (λ z. text_before later z.refresh_expires_at ≡ true) (sym mine) time in
    let of_token =
      find_first-holds (λ y. str_eq y.refresh_token_hash (p.digest token) && is_live y) db.grants k
        x.found in
    let row = rotate_where p issued.access_token issued.refresh_token now k k in
    let kept = rotate-Keeps p issued.access_token issued.refresh_token now k k in
    let past =
      subst
        (λ z.
          find_first (λ h. str_eq h.token_hash (p.digest token) && text_before later h.expires_at) z
          ≡ some (record {
            token_hash = k.refresh_token_hash;
            grant_id = k.id;
            expires_at = k.refresh_expires_at;
          }))
        (sym x.history)
        (history-found p db.rotated k (p.digest token) later (ground (arith, of_token)) x.fresh
          time') in
    let there =
      subst (λ z. find_first (λ y. str_eq y.id k.id) z ≡ some row) (sym x.grants)
        (find-rotated p db.grants issued.access_token issued.refresh_token now k own') in
    let state : (refresh p ids' db' later client token resource).0
        ≡ revoke_grants db' later (λ y. str_eq y.id k.id) =
      rw
        (
          dead,
          refresh,
          past,
          refresh_replayed,
          there,
          kept.id,
          kept.client,
          kept.resource,
          x.owner,
          str_eq_refl client,
          x.audience,
        )
        refl in
    let owns : All (Owns (p.digest issued.access_token) k.id) db'.grants =
      subst (All (Owns (p.digest issued.access_token) k.id)) (sym x.grants)
        (rotated-Owns p db.grants issued.access_token issued.refresh_token now k x.unique) in
    subst (λ z. authenticate_access p z t issued.access_token audience ≡ err invalid) (sym state)
      (rw
        (
          b,
          revoked-no_access p (revoke_grants db' later (λ y. str_eq y.id k.id)) db'.grants
              issued.access_token k.id later owns,
        )
        refl)
