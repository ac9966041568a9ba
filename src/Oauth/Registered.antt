-- ===== src/Oauth/Registered.antt =====
-- oauth.go: what a registered client reads back as.
use nexusdock.Shared.{
  ℕ, ◌≡◌, ◌≤◌, refl, sym, ap, subst, ltb, String, str_eq, str_eq_refl, eq_iff, trim_space, List, [],
  ◌∷◌, ◌++◌, some, Bool, true, false, not, ◌||◌, ◌==◌, any, length, length-append, any-append,
  find_first-append, some-injective, All, arith, Bool-cases, inl, inr,
}
use nexusdock.Continuation.Types.{Error, invalid, Result, ok, err, ◌>>=◌, ◌>>◌, refuse_if, or_fail}
use nexusdock.Continuation.Ensures.{
  Ensures, returns, raises, returned, weaken, chain, proceed, branch, require,
}
use nexusdock.Oauth.Urls.{Encodings, valid_redirect_uri}
use nexusdock.Oauth.Grants.{ClientRow, OauthTables}
use nexusdock.Oauth.Clients.{
  OauthClient, contains, find_client, client, decode_client, client_allows,
}
use nexusdock.Oauth.Registration.{
  auth_method, ClientRegistration, add_new, collect, normalize_redirect_uris, checked_metadata,
  prune, client_row, client_limit, insert_client, register_client,
}

-- JSON of a list of texts decodes to it.
abbrev pub DecodesTexts : Encodings → Type 0
DecodesTexts p = (xs : List String) → p.decode_texts (p.encode_texts xs) ≡ some xs

add_new-contains :
    (clean : List String) (v x : String)
    → contains clean x ≡ true
    → contains (add_new clean v) x ≡ true
add_new-contains clean v x h = elim (Bool-cases (contains clean v)) [
  | inl e ↦ rw e h
  | inr e ↦ rw (e, any-append (λ w. str_eq w x) clean v) (ground (arith, h))
]

add_new_self : (clean : List String) (v : String) → contains (add_new clean v) v ≡ true
add_new_self clean v = elim (Bool-cases (contains clean v)) [
  | inl e ↦ rw e e
  | inr e ↦ rw (e, any-append (λ w. str_eq w v) clean v) (ground (arith, str_eq_refl v))
]

-- Every value is allowed and is kept, trimmed.
abbrev Keeps : (String → Bool) → List String → List String → Type 0
Keeps allowed out vs =
    All (λ v. (contains out (trim_space v) ≡ true) × (allowed (trim_space v) ≡ true)) vs

collect-Keeps :
    (allowed : String → Bool) (clean vs : List String)
    → Ensures
        (λ out.
          ((x : String) → contains clean x ≡ true → contains out x ≡ true) × Keeps allowed out vs)
        (collect allowed clean vs)
collect-Keeps allowed clean [] = returns ((λ x h. h), tt)
collect-Keeps allowed clean (v ∷ vs) =
    branch (not (allowed (trim_space v))) _ _ (λ h. raises)
      λ h.
        weaken
          (λ out k. (
            (λ x g. k.0 x (add_new-contains clean (trim_space v) x g)),
            ((k.0 (trim_space v) (add_new_self clean (trim_space v)), ground (arith, h)), k.1),
          ))
          (collect-Keeps allowed (add_new clean (trim_space v)) vs)

-- What the checks of the metadata have found.
record Checked (p : Encodings) (i : ClientRegistration) (c : OauthClient) : Type 0 where
  redirects : Keeps (valid_redirect_uri p) c.redirect_uris i.redirect_uris
  grants : contains c.grant_types "authorization_code" ≡ true
  method : c.token_endpoint_auth_method ≡ "none"

passed {ℓ} :
    {A : Type ℓ} (b : Bool) (e : Error) (k : Result A) (a : A)
    → refuse_if b e >> k ≡ ok a
    → b ≡ false
unfolding ◌>>◌ ◌>>=◌ refuse_if
passed true e k a h = cc
passed false e k a h = refl

guarded : (b d : Bool) (e : Error) → refuse_if b e >> refuse_if d e ≡ ok tt → b ≡ false
guarded b d e h = passed b e (refuse_if d e) tt h

normalize_redirect_uris-Keeps :
    (p : Encodings) (vs out : List String)
    → normalize_redirect_uris p vs ≡ ok out
    → Keeps (valid_redirect_uri p) out vs
unfolding normalize_redirect_uris
normalize_redirect_uris-Keeps p vs out h =
    returned
      (branch (length vs == 0 || ltb 16 (length vs)) (err invalid) _ (λ k. raises)
        λ k. weaken (λ out g. g.1) (collect-Keeps (valid_redirect_uri p) [] vs))
      h

checked_metadata-Checked :
    (p : Encodings) (now : ℕ) (id : String) (i : ClientRegistration)
    → Ensures (Checked p i) (checked_metadata p now id i)
unfolding checked_metadata
checked_metadata-Checked p now id i = chain _ _ λ redirects a. chain _ _ λ grants b.
    chain _ _ λ responses d. proceed _ _ λ f. returns (record {
      redirects = normalize_redirect_uris-Keeps p i.redirect_uris redirects a;
      grants = ground (arith, passed _ _ _ _ d);
      method =
          (eq_iff (auth_method i.token_endpoint_auth_method) "none").0
            (ground (arith, guarded _ _ _ f));
    })

record Inserts (db : OauthTables) (c : ClientRow) (db' : OauthTables) : Type 0 where
  fresh : any (λ x. str_eq x.id c.id) db.clients ≡ false
  bounded : length db'.clients ≤ client_limit
  clients : db'.clients ≡ db.clients ++ c ∷ []

insert_client-Inserts :
    (db : OauthTables) (c : ClientRow) → Ensures (Inserts db c) (insert_client db c)
unfolding insert_client
insert_client-Inserts db c =
    branch (not (ltb (length db.clients) client_limit)) _ _ (λ h. raises)
      λ h.
        branch (any (λ x. str_eq x.id c.id) db.clients) _ _ (λ k. raises)
          λ k. returns (record {
            fresh = k;
            bounded = rw (length-append db.clients (c ∷ [])) (ground (arith, h));
            clients = refl;
          })

decoded :
    (p : Encodings) (c : OauthClient)
    → DecodesTexts p
    → c.token_endpoint_auth_method ≡ "none"
    → decode_client p (client_row p c) ≡ ok c
unfolding decode_client client_row ◌>>=◌ or_fail
decoded p c j m =
    rw (j c.redirect_uris, j c.grant_types, j c.response_types)
      (ap (λ t. ok (record c { token_endpoint_auth_method = t })) (sym m))

-- A client that was stored under its id reads back.
read_back :
    (p : Encodings) (db db' : OauthTables) (c : OauthClient)
    → DecodesTexts p
    → c.token_endpoint_auth_method ≡ "none"
    → trim_space c.id ≡ c.id
    → Inserts db (client_row p c) db'
    → client p db' c.id ≡ ok c
unfolding client client_row ◌>>=◌ or_fail
read_back p db db' c j m t x =
    let found : find_client db' c.id ≡ some (client_row p c) = rw x.clients (
      find_first-append (λ y. str_eq y.id c.id) db.clients (client_row p c) x.fresh
        (str_eq_refl c.id)) in
    rw (t, found) (decoded p c j m)

-- What a registration leaves: the client reads back, it may ask for codes, and each redirect that
-- was asked for is valid and is one that the client is allowed.
pub record Registers (p : Encodings) (i : ClientRegistration) (db' : OauthTables) (c : OauthClient)
    : Type 0 where
  reads : client p db' c.id ≡ ok c
  bounded : length db'.clients ≤ client_limit
  grants : contains c.grant_types "authorization_code" ≡ true
  allows :
      All
        (λ v.
          (client_allows p db' c.id (trim_space v) ≡ true)
          × (valid_redirect_uri p (trim_space v) ≡ true))
        i.redirect_uris

Keeps-allows :
    (p : Encodings) (db' : OauthTables) (c : OauthClient) (vs : List String)
    → client p db' c.id ≡ ok c
    → Keeps (valid_redirect_uri p) c.redirect_uris vs
    → All
        (λ v.
          (client_allows p db' c.id (trim_space v) ≡ true)
          × (valid_redirect_uri p (trim_space v) ≡ true))
        vs
unfolding client_allows
Keeps-allows p db' c [] r k = tt
Keeps-allows p db' c (v ∷ vs) r k =
    ((rw (client_allows, r) (k.0.0), k.0.1), Keeps-allows p db' c vs r k.1)

some-text : {a b : String} → some a ≡ some b → b ≡ a
some-text h = sym (some-injective h)

-- A registration that succeeds, with an id that has no white space around it and where JSON decodes
-- what it encodes, leaves at most 1000 clients, and the new client reads back as it was answered,
-- with the grant type authorization_code; each redirect that was asked for is valid, and the client
-- is allowed it, trimmed.
pub register_client-Registers :
    (p : Encodings) (id : String) (db db' : OauthTables) (now : ℕ) (i : ClientRegistration)
    (c : OauthClient)
    → DecodesTexts p
    → trim_space id ≡ id
    → register_client p (some id) db now i ≡ ok (db', c)
    → Registers p i db' c
unfolding register_client
register_client-Registers p id db db' now i c j t h =
    returned {P = λ r. Registers p i r.0 r.1}
      (chain _ _ λ m a. require _ _ _ λ id' b. chain _ _ λ db1 d.
        let checked : Checked p i m = returned (checked_metadata-Checked p now "" i) a in
        let same : id' ≡ id = some-text b in
        let stored : Inserts (prune now db) (client_row p (record m { id = id' })) db1 =
          returned (insert_client-Inserts _ _) d in
        let reads : client p db1 id' ≡ ok (record m { id = id' }) =
          read_back p (prune now db) db1 (record m { id = id' }) j checked.method
            (subst (λ z. trim_space z ≡ z) (sym same) t) stored in
        returns (record {
          reads = reads;
          bounded = stored.bounded;
          grants = checked.grants;
          allows =
              Keeps-allows p db1 (record m { id = id' }) i.redirect_uris reads checked.redirects;
        }))
      h
