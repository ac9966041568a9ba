-- ===== src/Sessions/Retries.antt =====
-- session.go, BeginWorkSession: the same client request again.
use nexusdock.Shared.{
  ℕ, find_first-any, find_first-append, any-weaken, All, ◌≡◌, ◌≢◌, ◌⊎◌, ◌∙◌, refl, ap, String,
  str_eq, str_eq_refl, trim_space, trim_space_idem, List, [], ◌∷◌, ◌++◌, some, Bool, true, false,
  ◌&&◌, ◌||◌, not, any, find_first, if◌then◌else◌, arith, eq_iff, Bool-cases, Option-cases, inl,
  inr,
}
use nexusdock.Continuation.Types.{failed, request_conflict, Result, ok, err, or_fail, ◌>>=◌}
use nexusdock.Sessions.Tables.{WorkSession, Tables, is_session, get_work_session}
use nexusdock.Sessions.Opening.{
  OpenRequest, trimmed, is_incomplete, is_request, work_session_by_request, new_session,
  existing_session, insert_session, begin_work_session,
}

-- The session that the tables bind to the request of an owner.
pub record IsBound (db : Tables) (q : OpenRequest) (s : WorkSession) : Type 0 where
  pub found :
      find_first (is_request (trim_space q.owner_key) (trim_space q.client_request_id)) db.sessions
      ≡ some s
  pub project : s.project_id ≡ trim_space q.project_id
  pub hash : s.request_hash ≡ trim_space q.request_hash

existing_session-IsBound :
    (db : Tables) (q : OpenRequest) (s : WorkSession) (fresh : Bool)
    → existing_session db (trimmed q) ≡ ok (s, fresh)
    → IsBound db q s
unfolding existing_session work_session_by_request or_fail ◌>>=◌
existing_session-IsBound db q s fresh h =
    let o = trim_space_idem q.owner_key in
    let c = trim_space_idem q.client_request_id in
    elim (Option-cases (
      find_first (is_request (trim_space q.owner_key) (trim_space q.client_request_id))
        db.sessions)) [
          | inl e ↦ ground (arith, o, c, e, h)
          | inr (t, e) ↦ record {
            found = ground (arith, o, c, e, h);
            project = ground (arith, o, c, e, h, eq_iff t.project_id (trim_space q.project_id));
            hash = ground (arith, o, c, e, h, eq_iff t.request_hash (trim_space q.request_hash));
          }
        ]

abbrev with_new : Tables → OpenRequest → String → ℕ → Tables
with_new db q id now = record db { sessions = db.sessions ++ new_session (trimmed q) id now ∷ [] }

get_work_session-new :
    (db : Tables) (q : OpenRequest) (id : String) (now : ℕ)
    → trim_space id ≡ id
    → any (λ s. str_eq s.id id) db.sessions ≡ false
    → get_work_session (with_new db q id now) (trim_space q.owner_key) id
      ≡ ok (new_session (trimmed q) id now)
unfolding get_work_session new_session or_fail
get_work_session-new db q id now t free =
    let o = trim_space_idem q.owner_key in
    rw (
      find_first-append (is_session (trim_space q.owner_key) id) db.sessions
        (new_session (trimmed q) id now)
        (any-weaken (λ s. str_eq s.id id) (is_session (trim_space q.owner_key) id) db.sessions
          (λ s e. rw t (ground (arith, e))) free)
        (rw (t, o) (ground (arith, str_eq_refl id, str_eq_refl (trim_space q.owner_key)))))

answered : WorkSession → Result (WorkSession × Bool) → WorkSession
answered s (ok r) = r.0
answered s (err e) = s

ok-session :
    {s u : WorkSession} {x y : Bool}
    → ◌≡◌ {A = Result (WorkSession × Bool)} (ok (s, x)) (ok (u, y))
    → s ≡ u
unfolding answered
ok-session {s} h = ap (answered s) h

fresh-IsBound :
    (db : Tables) (q : OpenRequest) (id : String) (now : ℕ) (s : WorkSession) (fresh : Bool)
    → trim_space id ≡ id
    → any (is_request (trim_space q.owner_key) (trim_space q.client_request_id)) db.sessions ≡ false
    → any (λ s. str_eq s.id id) db.sessions ≡ false
    → (◌>>=◌ {B = WorkSession × Bool}
        (get_work_session (with_new db q id now) (trim_space q.owner_key) id)
        (λ s. ok (s, true)))
      ≡ ok (s, fresh)
    → IsBound (with_new db q id now) q s
unfolding ◌>>=◌ new_session
fresh-IsBound db q id now s fresh t new free h =
    let same =
      ok-session {x = true} {y = fresh} (rw (get_work_session-new db q id now t free) at h) in
    rw (← same) (record {
      found =
          find_first-append (is_request (trim_space q.owner_key) (trim_space q.client_request_id))
            db.sessions (new_session (trimmed q) id now) new
            (ground (
              arith,
              str_eq_refl (trim_space q.owner_key),
              str_eq_refl (trim_space q.client_request_id),
            ));
      project = refl;
      hash = refl;
    })

-- An answer with a session is that of the request, in the tables that are left.
Opens : OpenRequest → Tables × Result (WorkSession × Bool) → Type 0
Opens q (db, r) = (s : WorkSession) (fresh : Bool) → r ≡ ok (s, fresh) → IsBound db q s

insert_session-Opens :
    (db : Tables) (q : OpenRequest) (id : String) (now : ℕ)
    → trim_space id ≡ id
    → Opens q (insert_session db (trimmed q) id now)
unfolding Opens insert_session
insert_session-Opens db q id now t =
    elim (Bool-cases (
      not (any (λ p. str_eq p.id (trim_space q.project_id)) db.projects)
      || any (is_request (trim_space q.owner_key) (trim_space q.client_request_id)) db.sessions)) [
        | inl e ↦ rw e (existing_session-IsBound db q)
        | inr e ↦ elim (Bool-cases (any (λ s. str_eq s.id id) db.sessions)) [
          | inl taken ↦ rw (e, taken) (λ s fresh h. cc)
          | inr free ↦
              rw (e, free) (λ s fresh h. fresh-IsBound db q id now s fresh t (ground arith) free h)
        ]
      ]

open_with-Opens :
    (ids : List String) (db : Tables) (now : ℕ) (q : OpenRequest)
    → All (λ id. trim_space id ≡ id) ids
    → Opens q
        (elim ids [ [] ↦ (db, err failed) | id ∷ rest ↦ insert_session db (trimmed q) id now ])
unfolding Opens
open_with-Opens [] db now q t = λ s fresh h. cc
open_with-Opens (id ∷ ids) db now q t = insert_session-Opens db q id now t.0

begin_work_session-Opens :
    (ids : List String) (db : Tables) (now : ℕ) (q : OpenRequest)
    → All (λ id. trim_space id ≡ id) ids
    → Opens q (begin_work_session ids db now q)
unfolding Opens begin_work_session
begin_work_session-Opens ids db now q t = elim (Bool-cases (is_incomplete (trimmed q))) [
  | inl e ↦ rw e (λ s fresh h. cc)
  | inr e ↦ rw e (open_with-Opens ids db now q t)
]

-- The same request of the same owner, the spaces around the fields apart.
pub record SameRequest (q r : OpenRequest) : Type 0 where
  pub owner : trim_space r.owner_key ≡ trim_space q.owner_key
  pub request : trim_space r.client_request_id ≡ trim_space q.client_request_id

-- A retry reaches the session that is bound to the request.
retry :
    (db : Tables) (q r : OpenRequest) (s : WorkSession) (id : String) (ids : List String) (now : ℕ)
    → IsBound db q s
    → SameRequest q r
    → is_incomplete (trimmed r) ≡ false
    → begin_work_session (id ∷ ids) db now r ≡ (
      db,
      if str_eq s.project_id (trim_space r.project_id)
            && str_eq s.request_hash (trim_space r.request_hash)
          then ok (s, false)
          else err (request_conflict s.id),
    )
unfolding begin_work_session insert_session existing_session work_session_by_request or_fail ◌>>=◌
retry db q r s id ids now b same c =
    let mine = is_request (trim_space q.owner_key) (trim_space q.client_request_id) in
    let bound = find_first-any mine db.sessions s b.found in
    let o = trim_space_idem q.owner_key in
    let t = trim_space_idem q.client_request_id in
    rw (c, same.owner, same.request, o, t, bound, b.found) (ground arith)

opened-IsBound :
    (ids : List String) (db db' : Tables) (now : ℕ) (q : OpenRequest) (s : WorkSession)
    (fresh : Bool)
    → All (λ id. trim_space id ≡ id) ids
    → begin_work_session ids db now q ≡ (db', ok (s, fresh))
    → IsBound db' q s
unfolding Opens
opened-IsBound ids db db' now q s fresh t h =
    rw (← ap (λ x. x.0) h) (begin_work_session-Opens ids db now q t s fresh (ap (λ x. x.1) h))

-- When a request opened a session, or found the one it had opened, the same request of the same
-- owner for the same project with the same hash gives that session again, as not new, and leaves
-- the tables alone; the generated ids have no spaces around them.
pub begin_retry :
    (ids : List String) (db db' : Tables) (now later : ℕ) (q r : OpenRequest) (s : WorkSession)
    (fresh : Bool) (id : String) (more : List String)
    → All (λ id. trim_space id ≡ id) ids
    → begin_work_session ids db now q ≡ (db', ok (s, fresh))
    → SameRequest q r
    → trim_space r.project_id ≡ trim_space q.project_id
    → trim_space r.request_hash ≡ trim_space q.request_hash
    → is_incomplete (trimmed r) ≡ false
    → begin_work_session (id ∷ more) db' later r ≡ (db', ok (s, false))
begin_retry ids db db' now later q r s fresh id more t h same p k c =
    let b = opened-IsBound ids db db' now q s fresh t h in
    retry db' q r s id more later b same c
    ∙ rw
        (
          b.project,
          b.hash,
          p,
          k,
          str_eq_refl (trim_space q.project_id),
          str_eq_refl (trim_space q.request_hash),
        )
        refl

-- When the same request of the same owner comes for another project or with another hash, it is
-- refused with the id of the session that it had opened, and the tables stay as they are.
pub begin_conflict :
    (ids : List String) (db db' : Tables) (now later : ℕ) (q r : OpenRequest) (s : WorkSession)
    (fresh : Bool) (id : String) (more : List String)
    → All (λ id. trim_space id ≡ id) ids
    → begin_work_session ids db now q ≡ (db', ok (s, fresh))
    → SameRequest q r
    → (trim_space r.project_id ≢ trim_space q.project_id)
      ⊎ (trim_space r.request_hash ≢ trim_space q.request_hash)
    → is_incomplete (trimmed r) ≡ false
    → begin_work_session (id ∷ more) db' later r ≡ (db', err (request_conflict s.id))
begin_conflict ids db db' now later q r s fresh id more t h same other c =
    let b = opened-IsBound ids db db' now q s fresh t h in
    let differs : (str_eq s.project_id (trim_space r.project_id)
          && str_eq s.request_hash (trim_space r.request_hash))
        ≡ false =
      ground (
        arith,
        eq_iff s.project_id (trim_space r.project_id),
        eq_iff s.request_hash (trim_space r.request_hash),
        b.project,
        b.hash,
      ) in
    retry db' q r s id more later b same c ∙ rw differs refl
