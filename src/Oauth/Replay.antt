-- ===== src/Oauth/Replay.antt =====
-- oauth.go, ExchangeAuthorizationCode: a code that comes a second time.
use nexusdock.Shared.{
  ℕ, ◌≡◌, refl, sym, ap, subst, ◌∙◌, String, str_eq, str_eq_refl, is_empty, is_blank, List, [], ◌∷◌,
  ◌++◌, map, none, some, true, false, not, find_first, All, if◌then◌else◌, arith, Bool-cases,
  Option-cases, inl, inr,
}
use nexusdock.Continuation.Types.{invalid, Result, ok, err, ◌>>=◌, ◌>>◌, or_fail, refuse_if}
use nexusdock.Oauth.Texts.{valid_pkce_value}
use nexusdock.Oauth.Urls.{Encodings}
use nexusdock.Oauth.Grants.{
  OauthCode, OauthGrant, OauthTables, IssuedTokens, revoke_grant, revoke_grants, is_taken,
  new_grant, issue_grant,
}
use nexusdock.Oauth.Exchange.{
  CodeRequest, code_matches, is_used, use_code, revoke_replayed, use_first, exchange_code,
  find_code, exchange_authorization_code,
}
use nexusdock.Oauth.Access.{is_live, grants_access, authenticate_access}

-- What a successful exchange found and left.
record Exchanges (p : Encodings) (q : CodeRequest) (now : ℕ) (db db' : OauthTables)
    (issued : IssuedTokens) : Type 0 where
  code : OauthCode
  found : find_code p db q.code ≡ some code
  unused : is_used code ≡ false
  id : String
  refresh : String
  named : is_empty id ≡ false
  fresh : is_taken db.grants id (p.digest issued.access_token) (p.digest refresh) ≡ false
  grants : db'.grants ≡ db.grants ++ new_grant p now code issued.access_token refresh id ∷ []
  codes : db'.codes ≡ map (use_code (p.digest q.code) id now) db.codes

abbrev Leaves :
    Encodings → CodeRequest → ℕ → OauthTables → OauthTables × Result IssuedTokens → Type 0
Leaves p q now db (db', r) =
    (issued : IssuedTokens) → r ≡ ok issued → Exchanges p q now db db' issued

ok-issued : {a b : IssuedTokens} → ok a ≡ ok b → a ≡ b
ok-issued {a} h = ap (λ r. elim r [ ok x ↦ x | err e ↦ a ]) h

use_first-Leaves :
    (p : Encodings) (ids : List String) (db : OauthTables) (now : ℕ) (c : OauthCode)
    (q : CodeRequest)
    → find_code p db q.code ≡ some c
    → is_used c ≡ false
    → All (λ id. is_empty id ≡ false) ids
    → Leaves p q now db (use_first p ids db now c q)
unfolding use_first issue_grant
use_first-Leaves p [] db now c q f u n = λ issued h. cc
use_first-Leaves p (a ∷ []) db now c q f u n = λ issued h. cc
use_first-Leaves p (a ∷ b ∷ []) db now c q f u n = λ issued h. cc
use_first-Leaves p (a ∷ b ∷ id ∷ ids) db now c q f u n =
    elim (Bool-cases (is_taken db.grants id (p.digest a) (p.digest b))) [
      | inl e ↦ rw (e, use_first) (λ issued h. cc)
      | inr e ↦
          rw (e, use_first)
            (λ issued h. rw (← ok-issued h) (record {
              code = c;
              found = f;
              unused = u;
              id = id;
              refresh = b;
              named = n.1.1.0;
              fresh = e;
              grants = refl;
              codes = refl;
            }))
    ]

exchange-Leaves :
    (p : Encodings) (ids : List String) (db : OauthTables) (now : ℕ) (q : CodeRequest)
    → All (λ id. is_empty id ≡ false) ids
    → Leaves p q now db (exchange_authorization_code p ids db now q)
unfolding exchange_authorization_code exchange_code
exchange-Leaves p ids db now q n = elim (Bool-cases (not (valid_pkce_value q.verifier))) [
  | inl e ↦ rw e (λ issued h. cc)
  | inr e ↦ elim (Option-cases (find_code p db q.code)) [
    | inl f ↦ rw (e, f) (λ issued h. cc)
    | inr (c, f) ↦ elim (Bool-cases (not (code_matches p c q now))) [
      | inl m ↦ rw (e, f, m) (λ issued h. cc)
      | inr m ↦ elim (Bool-cases (is_used c)) [
        | inl u ↦ rw (e, f, m, u) (λ issued h. cc)
        | inr u ↦ rw (e, f, m, u) (use_first-Leaves p ids db now c q f u n)
      ]
    ]
  ]
]

find-use_code :
    (cs : List OauthCode) (hash id : String) (now : ℕ) (c : OauthCode)
    → find_first (λ x. str_eq x.code_hash hash) cs ≡ some c
    → is_used c ≡ false
    → find_first (λ x. str_eq x.code_hash hash) (map (use_code hash id now) cs)
      ≡ some (record c { used_at = some now; grant_id = some id })
find-use_code [] hash id now c f u = cc
find-use_code (x ∷ cs) hash id now c f u = elim (Bool-cases (str_eq x.code_hash hash)) [
  | inl e ↦ ground (arith, e, f, u)
  | inr e ↦ ground (arith, e, f, find-use_code cs hash id now c)
]

-- The code of a successful exchange, as it is found afterwards.
used-code :
    (p : Encodings) (q : CodeRequest) (now : ℕ) (db db' : OauthTables) (issued : IssuedTokens)
    (x : Exchanges p q now db db' issued)
    → find_code p db' q.code ≡ some (record (x.code) { used_at = some now; grant_id = some x.id })
used-code p q now db db' issued x =
    rw x.codes (find-use_code db.codes (p.digest q.code) x.id now x.code x.found x.unused)

used-again :
    (p : Encodings) (q r : CodeRequest) (now : ℕ) (db db' : OauthTables) (issued : IssuedTokens)
    (x : Exchanges p q now db db' issued)
    → r.code ≡ q.code
    → find_code p db' r.code ≡ some (record (x.code) { used_at = some now; grant_id = some x.id })
used-again p q r now db db' issued x same =
    subst
      (λ z. find_code p db' z ≡ some (record (x.code) { used_at = some now; grant_id = some x.id }))
      (sym same) (used-code p q now db db' issued x)

some-code : {a b : OauthCode} → some a ≡ some b → a ≡ b
some-code {a} h = ap (λ r. elim r [ some x ↦ x | none ↦ a ]) h

-- A grant with the access hash is the one with the id.
abbrev pub Owns : String → String → OauthGrant → Type 0
Owns hash id g = str_eq g.access_token_hash hash ≡ true → str_eq g.id id ≡ true

pub Owns-append :
    (gs : List OauthGrant) (g : OauthGrant) (hash id refresh : String)
    → is_taken gs id hash refresh ≡ false
    → g.id ≡ id
    → All (Owns hash id) (gs ++ g ∷ [])
Owns-append [] g hash id refresh f e = (λ h. rw e (str_eq_refl id), tt)
Owns-append (x ∷ gs) g hash id refresh f e =
    (λ h. ground (arith, f, h), Owns-append gs g hash id refresh (ground (arith, f)) e)

pub revoked-dead : (now : ℕ) (g : OauthGrant) → is_live (revoke_grant now g) ≡ false
revoked-dead now g = elim (Option-cases g.revoked_at) [ inl e ↦ rw e refl | inr (t, e) ↦ rw e refl ]

pub revoked-no_access :
    (p : Encodings) (db : OauthTables) (gs : List OauthGrant) (token id : String) (now : ℕ)
    → All (Owns (p.digest token) id) gs
    → find_first
        (grants_access p db token)
        (map (λ g. if str_eq g.id id then revoke_grant now g else g) gs)
      ≡ none
revoked-no_access p db [] token id now o = refl
revoked-no_access p db (g ∷ gs) token id now o =
    let rest = revoked-no_access p db gs token id now o.1 in
    elim (Bool-cases (str_eq g.id id)) [
      | inl e ↦ rw e (ground (arith, rest, revoked-dead now g))
      | inr e ↦ elim (Bool-cases (str_eq g.access_token_hash (p.digest token))) [
        | inl h ↦ absurd (ground (arith, e, o.0 h))
        | inr h ↦ rw e (ground (arith, rest, h))
      ]
    ]

exchanged :
    (p : Encodings) (ids : List String) (db db' : OauthTables) (now : ℕ) (q : CodeRequest)
    (issued : IssuedTokens)
    → All (λ id. is_empty id ≡ false) ids
    → exchange_authorization_code p ids db now q ≡ (db', ok issued)
    → Exchanges p q now db db' issued
exchanged p ids db db' now q issued n h =
    subst (λ x. Leaves p q now db x) h (exchange-Leaves p ids db now q n) issued refl

-- A code is exchanged once: after a successful exchange, every request with the same code is
-- refused, at any time and whatever else it says.
pub exchange_once :
    (p : Encodings) (ids ids' : List String) (db db' : OauthTables) (now later : ℕ)
    (q r : CodeRequest) (issued : IssuedTokens)
    → All (λ id. is_empty id ≡ false) ids
    → exchange_authorization_code p ids db now q ≡ (db', ok issued)
    → r.code ≡ q.code
    → (exchange_authorization_code p ids' db' later r).1 ≡ err invalid
unfolding exchange_authorization_code exchange_code
exchange_once p ids ids' db db' now later q r issued n h same =
    let x = exchanged p ids db db' now q issued n h in
    let f = used-again p q r now db db' issued x same in
    elim (Bool-cases (not (valid_pkce_value r.verifier))) [
      | inl e ↦ rw e refl
      | inr e ↦
          elim (Bool-cases (
            not (
              code_matches p (record (x.code) { used_at = some now; grant_id = some x.id }) r
                later))) [ inl m ↦ rw (e, f, m) refl | inr m ↦ rw (e, f, m) refl ]
    ]

-- When the code of a successful exchange is replayed by a request that passes all checks of the
-- first one, the access token that the exchange gave authenticates nobody from then on.
pub replay_revokes :
    (p : Encodings) (ids ids' : List String) (db db' : OauthTables) (now later t : ℕ)
    (q r : CodeRequest) (issued : IssuedTokens) (c : OauthCode) (resource : String)
    → All (λ id. is_empty id ≡ false) ids
    → exchange_authorization_code p ids db now q ≡ (db', ok issued)
    → r.code ≡ q.code
    → valid_pkce_value r.verifier ≡ true
    → find_code p db q.code ≡ some c
    → code_matches p c r later ≡ true
    → is_blank issued.access_token ≡ false
    → authenticate_access p
        (exchange_authorization_code p ids' db' later r).0
        t
        issued.access_token
        resource
      ≡ err invalid
unfolding exchange_authorization_code exchange_code revoke_replayed revoke_grants
    authenticate_access ◌>>=◌ ◌>>◌ refuse_if or_fail new_grant
replay_revokes p ids ids' db db' now later t q r issued c resource n h same v fc m b =
    let x = exchanged p ids db db' now q issued n h in
    let f = used-again p q r now db db' issued x same in
    let mine : x.code ≡ c = some-code (sym x.found ∙ fc) in
    let checked : code_matches p (record (x.code) { used_at = some now; grant_id = some x.id }) r
          later
        ≡ true =
      subst (λ z. code_matches p z r later ≡ true) (sym mine) m in
    let state : (exchange_authorization_code p ids' db' later r).0
        ≡ revoke_grants db' later (λ g. str_eq g.id x.id) =
      rw (v, f, checked, x.named) refl in
    let owns : All (Owns (p.digest issued.access_token) x.id) db'.grants = rw x.grants (
      Owns-append db.grants (new_grant p now x.code issued.access_token x.refresh x.id)
        (p.digest issued.access_token) x.id (p.digest x.refresh) x.fresh refl) in
    subst (λ z. authenticate_access p z t issued.access_token resource ≡ err invalid) (sym state)
      (rw
        (
          b,
          revoked-no_access p (revoke_grants db' later (λ g. str_eq g.id x.id)) db'.grants
              issued.access_token x.id later owns,
        )
        refl)
