-- ===== src/Oauth/References.antt =====
-- oauth.go: what holds of the tables after any operations.
use nexusdock.Shared.{
  ℕ, ◌≡◌, ◌≤◌, refl, ap, ◌∙◌, String, str_eq, List, [], ◌∷◌, ◌++◌, map, Bool, true, false, any,
  length, length-map, length-append, ltb, any-append, any-unseen, All, All-weaken, All-map,
  All-append, Distinct, Distinct-map, Distinct-append, if◌then◌else◌, arith, Bool-cases, inl, inr,
}
use nexusdock.Oauth.Grants.{
  ClientRow, OauthCode, OauthGrant, OauthTables, RotatedToken, revoke_grant, revoke_grants,
  touch_client,
}
use nexusdock.Oauth.Registration.{client_limit}

-- A client with the id is stored.
abbrev pub HasClient : List ClientRow → String → Type 0
HasClient cs id = any (λ x. str_eq x.id id) cs ≡ true

abbrev pub HasGrant : List OauthGrant → String → Type 0
HasGrant gs id = any (λ g. str_eq g.id id) gs ≡ true

-- At most 1000 clients are stored, under different ids; codes have different hashes; and the
-- client of each code and of each grant is stored, and the grant of each rotated token.
pub record Referential (db : OauthTables) : Type 0 where
  pub bounded : length db.clients ≤ client_limit
  pub ids : Distinct (λ x y. str_eq x.id y.id) db.clients
  pub hashes : Distinct (λ x y. str_eq x.code_hash y.code_hash) db.codes
  pub codes : All (λ c. HasClient db.clients c.client_id) db.codes
  pub grants : All (λ g. HasClient db.clients g.client_id) db.grants
  pub rotated : All (λ r. HasGrant db.grants r.grant_id) db.rotated

-- A change of the grants that keeps their ids and their clients.
pub map_grants-Referential :
    (db : OauthTables) (f : OauthGrant → OauthGrant)
    → ((g : OauthGrant) → ((f g).id ≡ g.id) × ((f g).client_id ≡ g.client_id))
    → Referential db
    → Referential (record db { grants = map f db.grants })
map_grants-Referential db f k h = record {
  bounded = h.bounded;
  ids = h.ids;
  hashes = h.hashes;
  codes = h.codes;
  grants =
      All-map (λ g. HasClient db.clients g.client_id) (λ g. HasClient db.clients g.client_id) f
        db.grants (λ g a. rw (k g).1 a) h.grants;
  rotated =
      All-weaken db.rotated
        (λ r a.
          any-unseen (λ g. str_eq g.id r.grant_id) f db.grants
            (λ g. ap (λ z. str_eq z r.grant_id) (k g).0)
          ∙ a)
        h.rotated;
}

pub revoke_grants-Referential :
    (db : OauthTables) (now : ℕ) (p : OauthGrant → Bool)
    → Referential db
    → Referential (revoke_grants db now p)
unfolding revoke_grants
revoke_grants-Referential db now p h =
    map_grants-Referential db (λ g. if p g then revoke_grant now g else g)
      (λ g. elim (Bool-cases (p g)) [ inl e ↦ rw e (refl, refl) | inr e ↦ rw e (refl, refl) ]) h

abbrev touched : String → ℕ → ClientRow → ClientRow
touched client now c = if str_eq c.id client then record c { last_used_at = now } else c

touched-id : (client : String) (now : ℕ) (c : ClientRow) → (touched client now c).id ≡ c.id
touched-id client now c = elim (Bool-cases (str_eq c.id client)) [
  | inl e ↦ rw e refl
  | inr e ↦ rw e refl
]

HasClient-touched :
    (cs : List ClientRow) (client : String) (now : ℕ) (id : String)
    → HasClient cs id
    → HasClient (map (touched client now) cs) id
HasClient-touched cs client now id h =
    any-unseen (λ x. str_eq x.id id) (touched client now) cs
      (λ x. ap (λ z. str_eq z id) (touched-id client now x))
    ∙ h

pub touch_client-Referential :
    (db : OauthTables) (client : String) (now : ℕ)
    → Referential db
    → Referential (touch_client db client now)
touch_client-Referential db client now h = record {
  bounded = rw (length-map (touched client now) db.clients) h.bounded;
  ids =
      Distinct-map _ (touched client now) db.clients
        (λ x y. rw (touched-id client now x, touched-id client now y) refl) h.ids;
  hashes = h.hashes;
  codes = All-weaken db.codes (λ c. HasClient-touched db.clients client now c.client_id) h.codes;
  grants = All-weaken db.grants (λ g. HasClient-touched db.clients client now g.client_id) h.grants;
  rotated = h.rotated;
}

-- A change of the codes that keeps their hashes and their clients.
pub map_codes-Referential :
    (db : OauthTables) (f : OauthCode → OauthCode)
    → ((c : OauthCode) → ((f c).code_hash ≡ c.code_hash) × ((f c).client_id ≡ c.client_id))
    → Referential db
    → Referential (record db { codes = map f db.codes })
map_codes-Referential db f k h = record {
  bounded = h.bounded;
  ids = h.ids;
  hashes =
      Distinct-map (λ x y. str_eq x.code_hash y.code_hash) f db.codes
        (λ x y. rw ((k x).0, (k y).0) refl) h.hashes;
  codes =
      All-map (λ c. HasClient db.clients c.client_id) (λ c. HasClient db.clients c.client_id) f
        db.codes (λ c a. rw (k c).1 a) h.codes;
  grants = h.grants;
  rotated = h.rotated;
}

pub add_code-Referential :
    (db : OauthTables) (c : OauthCode)
    → any (λ x. str_eq x.code_hash c.code_hash) db.codes ≡ false
    → HasClient db.clients c.client_id
    → Referential db
    → Referential (record db { codes = db.codes ++ c ∷ [] })
add_code-Referential db c n k h = record {
  bounded = h.bounded;
  ids = h.ids;
  hashes = Distinct-append (λ x y. str_eq x.code_hash y.code_hash) db.codes c n h.hashes;
  codes = All-append (λ x. HasClient db.clients x.client_id) db.codes c h.codes k;
  grants = h.grants;
  rotated = h.rotated;
}

pub add_grant-Referential :
    (db : OauthTables) (g : OauthGrant)
    → HasClient db.clients g.client_id
    → Referential db
    → Referential (record db { grants = db.grants ++ g ∷ [] })
add_grant-Referential db g k h = record {
  bounded = h.bounded;
  ids = h.ids;
  hashes = h.hashes;
  codes = h.codes;
  grants = All-append (λ x. HasClient db.clients x.client_id) db.grants g h.grants k;
  rotated =
      All-weaken db.rotated
        (λ r a. rw (any-append (λ x. str_eq x.id r.grant_id) db.grants g) (ground (arith, a)))
        h.rotated;
}

pub add_rotated-Referential :
    (db : OauthTables) (r : RotatedToken)
    → HasGrant db.grants r.grant_id
    → Referential db
    → Referential (record db { rotated = db.rotated ++ r ∷ [] })
add_rotated-Referential db r k h = record {
  bounded = h.bounded;
  ids = h.ids;
  hashes = h.hashes;
  codes = h.codes;
  grants = h.grants;
  rotated = All-append (λ x. HasGrant db.grants x.grant_id) db.rotated r h.rotated k;
}

pub add_client-Referential :
    (db : OauthTables) (c : ClientRow)
    → any (λ x. str_eq x.id c.id) db.clients ≡ false
    → ltb (length db.clients) client_limit ≡ true
    → Referential db
    → Referential (record db { clients = db.clients ++ c ∷ [] })
add_client-Referential db c n l h =
    let wider : (id : String) → HasClient db.clients id → HasClient (db.clients ++ c ∷ []) id =
      λ id a. rw (any-append (λ x. str_eq x.id id) db.clients c) (ground (arith, a)) in
    record {
      bounded = rw (length-append db.clients (c ∷ [])) (ground (arith, l));
      ids = Distinct-append (λ x y. str_eq x.id y.id) db.clients c n h.ids;
      hashes = h.hashes;
      codes = All-weaken db.codes (λ x. wider x.client_id) h.codes;
      grants = All-weaken db.grants (λ x. wider x.client_id) h.grants;
      rotated = h.rotated;
    }
