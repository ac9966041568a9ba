-- ===== src/Oauth/Integrity.antt =====
-- oauth.go: all operations keep the tables consistent.
use nexusdock.Continuation.Ensures.{returned}
use nexusdock.Oauth.Urls.{Encodings}
use nexusdock.Oauth.Grants.{OauthTables}
use nexusdock.Oauth.Steps.{
  Step, registers, issues, exchanges, refreshes, revokes, Reach, start, next,
}
use nexusdock.Oauth.References.{Referential}
use nexusdock.Oauth.Enrolled.{register_client-Referential, issue-Referential}
use nexusdock.Oauth.Redeemed.{
  exchange-Referential, refresh-Referential, revoke_user_grants-Referential,
}

Step-Referential : (p : Encodings) (a b : OauthTables) → Step p a b → Referential a → Referential b
Step-Referential p a _ (registers source now i b c e) h =
    returned (register_client-Referential p source a now i h) e
Step-Referential p a _ (issues source now i b code e) h =
    returned (issue-Referential p source a now i h) e
Step-Referential p a _ (exchanges ids now q) h = exchange-Referential p ids a now q h
Step-Referential p a _ (refreshes ids now client token resource) h =
    refresh-Referential p ids a now client token resource h
Step-Referential p a _ (revokes now user) h = revoke_user_grants-Referential a now user h

-- Whatever operations come in whatever order from consistent tables, at most 1000 clients are
-- stored, no two with one id; no two codes have one hash; the client of every code and of every
-- grant is stored, and so is the grant of every rotated token.
pub Reach-Referential :
    (p : Encodings) (a b : OauthTables) → Reach p a b → Referential a → Referential b
Reach-Referential p a _ start h = h
Reach-Referential p a _ (next {a = b} {b = c} r s) h =
    Step-Referential p b c s (Reach-Referential p a b r h)
