-- ===== src/Oauth/Enrolled.antt =====
-- oauth.go: the registration of a client and the issue of a code keep the tables consistent.
use nexusdock.Shared.{
  ℕ, ltb, String, str_eq, Option, not, any, length, filter-All, length-filter, All-weaken,
  Distinct-filter, arith,
}
use nexusdock.Continuation.Ensures.{
  Ensures, returns, raises, returned, chain, proceed, branch, require,
}
use nexusdock.Oauth.Urls.{Encodings}
use nexusdock.Oauth.Grants.{ClientRow, OauthCode, OauthTables}
use nexusdock.Oauth.Clients.{
  AuthorizationInput, code_is_refused, insert_code, issue_authorization_code,
}
use nexusdock.Oauth.Registration.{
  ClientRegistration, client_limit, is_idle, prune, insert_client, register_client,
}
use nexusdock.Oauth.References.{Referential, add_code-Referential, add_client-Referential}

prune-Referential : (now : ℕ) (db : OauthTables) → Referential db → Referential (prune now db)
unfolding prune
prune-Referential now db h = record {
  bounded =
      let fewer = length-filter (λ c. not (is_idle now c)) db.clients in
      omega (arith, fewer, h.bounded);
  ids = Distinct-filter (λ x y. str_eq x.id y.id) (λ c. not (is_idle now c)) db.clients h.ids;
  hashes = Distinct-filter (λ x y. str_eq x.code_hash y.code_hash) _ db.codes h.hashes;
  codes = All-weaken _ (λ c a. ground (arith, a)) (filter-All _ db.codes);
  grants = filter-All _ db.grants;
  rotated = All-weaken _ (λ c a. ground (arith, a)) (filter-All _ db.rotated);
}

insert_client-Referential :
    (db : OauthTables) (c : ClientRow) → Referential db → Ensures Referential (insert_client db c)
unfolding insert_client
insert_client-Referential db c h =
    branch (not (ltb (length db.clients) client_limit)) _ _ (λ l. raises)
      λ l.
        branch (any (λ x. str_eq x.id c.id) db.clients) _ _ (λ k. raises)
          λ k. returns (add_client-Referential db c k (ground (arith, l)) h)

pub register_client-Referential :
    (p : Encodings) (source : Option String) (db : OauthTables) (now : ℕ) (i : ClientRegistration)
    → Referential db
    → Ensures (λ r. Referential r.0) (register_client p source db now i)
unfolding register_client
register_client-Referential p source db now i h = chain _ _ λ m a. require _ _ _ λ id b.
    chain _ _ λ db1 d.
      returns (returned (insert_client-Referential (prune now db) _ (prune-Referential now db h)) d)

insert_code-Referential :
    (db : OauthTables) (c : OauthCode) → Referential db → Ensures Referential (insert_code db c)
unfolding insert_code
insert_code-Referential db c h =
    branch (code_is_refused db c) _ _ (λ l. raises)
      λ l. returns (add_code-Referential db c (ground (arith, l)) (ground (arith, l)) h)

pub issue-Referential :
    (p : Encodings) (source : Option String) (db : OauthTables) (now : ℕ) (i : AuthorizationInput)
    → Referential db
    → Ensures (λ r. Referential r.0) (issue_authorization_code p source db now i)
unfolding issue_authorization_code
issue-Referential p source db now i h = proceed _ _ λ g.
    require _ _ _ λ raw e. chain _ _ λ db' f. returns (returned (insert_code-Referential db _ h) f)
