-- ===== src/Sessions/Keys.antt =====
-- session.go and delivery.go: the keys of the tables under the operations, in any order.
use nexusdock.Shared.{
  Distinct, Distinct-map, Distinct-append, ℕ, ◌≡◌, refl, String, str_eq, trim_space, is_blank, List,
  [], ◌∷◌, map, Option, none, some, Bool, true, false, ◌&&◌, ◌||◌, not, any, if◌then◌else◌, arith,
  Bool-cases, inl, inr,
}
use nexusdock.Continuation.Types.{Result, ok, err, ◌>>◌}
use nexusdock.Continuation.Store.{SessionStatus, TargetStatus}
use nexusdock.Continuation.Ensures.{Ensures, returns, raises, returned, refuse, branch, proceed}
use nexusdock.Sessions.Tables.{
  ContextDelivery, WorkSession, WorkTarget, Tables, is_session, get_work_session,
}
use nexusdock.Sessions.Opening.{
  OpenRequest, trimmed, is_incomplete, is_request, new_session, insert_session, begin_work_session,
  update_session, set_work_session_state, update_work_session_context,
}
use nexusdock.Sessions.Binding.{
  Provenances, refreshed, upsert_target, target_row, target_written, store_target, store_named,
  put_work_target,
}
use nexusdock.Sessions.Delivery.{
  check_delivery_owner, find_delivery, record_context_returned, acknowledge_context_consumed,
}
use nexusdock.Sessions.Revocation.{
  revoke, revoke_where, selects, close_session, touches, revoke_targets_guarded,
  revoke_targets_for_deployment, revoke_stale_targets_for_deployment, revoke_targets_for_project,
}

abbrev pub same_id : WorkSession → WorkSession → Bool
same_id s u = str_eq s.id u.id

abbrev pub same_request : WorkSession → WorkSession → Bool
same_request s u = is_request u.owner_key u.client_request_id s

abbrev pub same_target : WorkTarget → WorkTarget → Bool
same_target t u = str_eq t.id u.id

abbrev pub same_slot : WorkTarget → WorkTarget → Bool
same_slot t u = str_eq t.work_session_id u.work_session_id && str_eq t.deployment_id u.deployment_id

-- The primary keys and the UNIQUE pairs of the two tables.
pub record Keyed (db : Tables) : Type 0 where
  pub ids : Distinct same_id db.sessions
  pub requests : Distinct same_request db.sessions
  pub target_ids : Distinct same_target db.targets
  pub slots : Distinct same_slot db.targets

-- A change of a session or a target that keeps its keys.
abbrev KeepsSession : (WorkSession → WorkSession) → Type 0
KeepsSession f =
    (s : WorkSession)
    → ((f s).id ≡ s.id)
      × ((f s).owner_key ≡ s.owner_key)
      × ((f s).client_request_id ≡ s.client_request_id)

abbrev KeepsTarget : (WorkTarget → WorkTarget) → Type 0
KeepsTarget f =
    (t : WorkTarget)
    → ((f t).id ≡ t.id)
      × ((f t).work_session_id ≡ t.work_session_id)
      × ((f t).deployment_id ≡ t.deployment_id)

map_sessions-Keyed :
    (db : Tables) (f : WorkSession → WorkSession)
    → KeepsSession f
    → Keyed db
    → Keyed (record db { sessions = map f db.sessions })
map_sessions-Keyed db f k d = record {
  ids = Distinct-map same_id f db.sessions (λ x y. rw ((k x).0, (k y).0) refl) d.ids;
  requests =
      Distinct-map same_request f db.sessions (λ x y. rw ((k x).1, (k x).2, (k y).1, (k y).2) refl)
        d.requests;
  target_ids = d.target_ids;
  slots = d.slots;
}

map_targets-Keyed :
    (db : Tables) (f : WorkTarget → WorkTarget)
    → KeepsTarget f
    → Keyed db
    → Keyed (record db { targets = map f db.targets })
map_targets-Keyed db f k d = record {
  ids = d.ids;
  requests = d.requests;
  target_ids =
      Distinct-map same_target f db.targets (λ x y. rw ((k x).0, (k y).0) refl) d.target_ids;
  slots =
      Distinct-map same_slot f db.targets (λ x y. rw ((k x).1, (k x).2, (k y).1, (k y).2) refl)
        d.slots;
}

insert_session-Keyed :
    (db : Tables) (q : OpenRequest) (id : String) (now : ℕ)
    → Keyed db
    → Keyed (insert_session db q id now).0
unfolding insert_session new_session
insert_session-Keyed db q id now d =
    elim (Bool-cases (
      not (any (λ p. str_eq p.id q.project_id) db.projects)
      || any (is_request q.owner_key q.client_request_id) db.sessions)) [
        | inl e ↦ rw e d
        | inr e ↦ elim (Bool-cases (any (λ s. str_eq s.id id) db.sessions)) [
          | inl taken ↦ rw (e, taken) d
          | inr free ↦
              rw (e, free)
                (record {
                  ids = Distinct-append same_id db.sessions (new_session q id now) free d.ids;
                  requests =
                      Distinct-append same_request db.sessions (new_session q id now) (ground arith)
                        d.requests;
                  target_ids = d.target_ids;
                  slots = d.slots;
                })
        ]
      ]

begin-Keyed :
    (ids : List String) (db : Tables) (now : ℕ) (q : OpenRequest)
    → Keyed db
    → Keyed (begin_work_session ids db now q).0
unfolding begin_work_session
begin-Keyed [] db now q d = elim (Bool-cases (is_incomplete (trimmed q))) [
  | inl e ↦ rw e d
  | inr e ↦ rw e d
]
begin-Keyed (id ∷ ids) db now q d = elim (Bool-cases (is_incomplete (trimmed q))) [
  | inl e ↦ rw e d
  | inr e ↦ rw e (insert_session-Keyed db (trimmed q) id now d)
]

update_session-Keyed :
    (db : Tables) (owner id : String) (f : WorkSession → WorkSession)
    → KeepsSession f
    → Keyed db
    → Keyed (update_session db owner id f).0
unfolding update_session
update_session-Keyed db owner id f k d = elim (Bool-cases (any (is_session owner id) db.sessions)) [
  | inl e ↦ rw e (
      map_sessions-Keyed db _
        (λ s. elim (Bool-cases (is_session owner id s)) [
          | inl m ↦ rw m (k s)
          | inr m ↦ rw m (refl, refl, refl)
        ])
        d)
  | inr e ↦ rw e d
]

upsert_target-Keyed :
    (db : Tables) (item : WorkTarget) → Keyed db → Ensures Keyed (upsert_target db item)
unfolding upsert_target refreshed
upsert_target-Keyed db item d =
    branch (any (λ t. str_eq t.id item.id) db.targets) _ _
      (λ old. returns (
        map_targets-Keyed db _
          (λ t. elim (Bool-cases (str_eq t.id item.id)) [
            | inl m ↦ rw m (refl, refl, refl)
            | inr m ↦ rw m (refl, refl, refl)
          ])
          d))
      (λ new.
        branch
          (not (any (λ s. str_eq s.id item.work_session_id) db.sessions)
            || any
                (λ t.
                  str_eq t.work_session_id item.work_session_id
                  && str_eq t.deployment_id item.deployment_id)
                db.targets)
          _ _ (λ bad. raises)
          (λ good. returns (record {
            ids = d.ids;
            requests = d.requests;
            target_ids = Distinct-append same_target db.targets item new d.target_ids;
            slots = Distinct-append same_slot db.targets item (ground arith) d.slots;
          })))

Keyed-if :
    {A : Type 0} (b : Bool) (x y : Tables × A)
    → Keyed x.0
    → Keyed y.0
    → Keyed (if b then x else y).0
Keyed-if true x y h k = h
Keyed-if false x y h k = k

-- An operation that goes on when a check passes.
Keyed-check :
    {A : Type 0} {B : Type 0} (db : Tables) (r : Result B) (k : B → Tables × Result A)
    → Keyed db
    → ((b : B) → Keyed (k b).0)
    → Keyed (elim r as (λ _. Tables × Result A) [ err e ↦ (db, err e) | ok b ↦ k b ]).0
Keyed-check db (ok b) k d h = h b
Keyed-check db (err e) k d h = d

target_written-Keyed :
    (db : Tables) (owner : String) (item : WorkTarget) (r : Result Tables)
    → Keyed db
    → Ensures Keyed r
    → Keyed (target_written db owner item r).0
unfolding target_written
target_written-Keyed db owner item _ d (returns h) = h
target_written-Keyed db owner item _ d raises = d

store_target-Keyed :
    (p : Provenances) (db : Tables) (now : ℕ) (owner : String) (item : WorkTarget)
    (status : Option TargetStatus)
    → Keyed db
    → Keyed (store_target p db now owner item status).0
unfolding store_target
store_target-Keyed p db now owner item none d = d
store_target-Keyed p db now owner item (some status) d =
    let row = target_row p now item status in
    Keyed-if _ _ (target_written db owner item (upsert_target db row)) d
      (target_written-Keyed db owner item (upsert_target db row) d (upsert_target-Keyed db row d))

store_named-Keyed :
    (p : Provenances) (ids : List String) (db : Tables) (now : ℕ) (owner : String)
    (item : WorkTarget) (status : Option TargetStatus)
    → Keyed db
    → Keyed (store_named p ids db now owner item status).0
unfolding store_named
store_named-Keyed p [] db now owner item status d =
    Keyed-if (is_blank item.id) _ (store_target p db now owner item status) d
      (store_target-Keyed p db now owner item status d)
store_named-Keyed p (id ∷ ids) db now owner item status d =
    store_target-Keyed p db now owner (if is_blank item.id then record item { id = id } else item)
      status d

put-Keyed :
    (p : Provenances) (ids : List String) (db : Tables) (now : ℕ) (owner : String)
    (item : WorkTarget) (status : Option TargetStatus)
    → Keyed db
    → Keyed (put_work_target p ids db now owner item status).0
unfolding put_work_target
put-Keyed p ids db now owner item status d =
    Keyed-check db (get_work_session db owner item.work_session_id)
      (λ s. store_named p ids db now owner item status) d
      (λ s. store_named-Keyed p ids db now owner item status d)

revoke_targets_guarded-Keyed :
    (db : Tables) (now : ℕ) (p : WorkTarget → Bool) (cancel : Bool) (guard : Result (Unit {0}))
    → Keyed db
    → Ensures (λ r. Keyed r.0) (revoke_targets_guarded db now p cancel guard)
unfolding revoke_targets_guarded revoke close_session
revoke_targets_guarded-Keyed db now p cancel guard d = proceed _ _ λ g.
    branch (any (selects p) db.targets) _ _
      (λ some_selected. returns (
        map_sessions-Keyed _
          (close_session (map (revoke_where p now) db.targets) (touches p db.targets) cancel now)
          (λ s. elim (Bool-cases (touches p db.targets s.id)) [
            | inl e ↦ rw e (refl, refl, refl)
            | inr e ↦ rw e (refl, refl, refl)
          ])
          (map_targets-Keyed db (revoke_where p now)
            (λ t. elim (Bool-cases (selects p t)) [
              | inl e ↦ rw e (refl, refl, refl)
              | inr e ↦ rw e (refl, refl, refl)
            ])
            d)))
      (λ nothing. returns d)

deliver-Keyed :
    (db : Tables) (ds : List ContextDelivery) → Keyed db → Keyed (record db { deliveries = ds })
deliver-Keyed db ds d = record {
  ids = d.ids;
  requests = d.requests;
  target_ids = d.target_ids;
  slots = d.slots;
}

returned_context-Keyed :
    (db : Tables) (now : ℕ) (owner ws target revision : String)
    → Keyed db
    → Keyed (record_context_returned db now owner ws target revision).0
unfolding record_context_returned
returned_context-Keyed db now owner ws target revision d = Keyed-if _ _ _ d (
    Keyed-check db (check_delivery_owner db (trim_space owner) (trim_space ws) (trim_space target))
      _ d (λ u. deliver-Keyed db _ d))

acknowledge-Keyed :
    (db : Tables) (now : ℕ) (owner ws target revision : String)
    → Keyed db
    → Keyed (acknowledge_context_consumed db now owner ws target revision).0
unfolding acknowledge_context_consumed
acknowledge-Keyed db now owner ws target revision d = Keyed-if _ _ _ d (
    Keyed-check db
      (check_delivery_owner db (trim_space owner) (trim_space ws) (trim_space target)
        >> find_delivery db (trim_space ws) (trim_space target))
      _ d
      (λ c.
        Keyed-if (str_eq c.context_revision (trim_space revision)) _ _ (deliver-Keyed db _ d) d))

-- The operations of the two files that change the tables.
pub data Step (p : Provenances) : Tables → Tables → Type 0 where
  begins :
      {db : Tables} (ids : List String) (now : ℕ) (q : OpenRequest)
      → Step p db (begin_work_session ids db now q).0
  sets :
      {db : Tables} (now : ℕ) (owner id : String) (status : Option SessionStatus) (context : String)
      → Step p db (set_work_session_state db now owner id status context).0
  refreshes :
      {db : Tables} (now : ℕ) (owner id revision : String) (status : Option SessionStatus)
      (context : String)
      → Step p db (update_work_session_context db now owner id revision status context).0
  puts :
      {db : Tables} (ids : List String) (now : ℕ) (owner : String) (item : WorkTarget)
      (status : Option TargetStatus)
      → Step p db (put_work_target p ids db now owner item status).0
  revokes :
      {db db' : Tables} (now : ℕ) (deployment : String) (items : List WorkTarget)
      → revoke_targets_for_deployment db now deployment ≡ ok (db', items)
      → Step p db db'
  revokes_stale :
      {db db' : Tables} (now : ℕ) (deployment revision : String) (items : List WorkTarget)
      → revoke_stale_targets_for_deployment db now deployment revision ≡ ok (db', items)
      → Step p db db'
  revokes_project :
      {db db' : Tables} (now : ℕ) (project : String) (items : List WorkTarget)
      → revoke_targets_for_project db now project ≡ ok (db', items)
      → Step p db db'
  returns_context :
      {db : Tables} (now : ℕ) (owner ws target revision : String)
      → Step p db (record_context_returned db now owner ws target revision).0
  acknowledges :
      {db : Tables} (now : ℕ) (owner ws target revision : String)
      → Step p db (acknowledge_context_consumed db now owner ws target revision).0

pub data Reach (p : Provenances) (db : Tables) : Tables → Type 0 where
  starts : Reach p db db
  follows : {db' db'' : Tables} → Reach p db db' → Step p db' db'' → Reach p db db''

Step-Keyed : {p : Provenances} {db db' : Tables} → Step p db db' → Keyed db → Keyed db'
unfolding set_work_session_state update_work_session_context revoke_targets_for_deployment
    revoke_stale_targets_for_deployment revoke_targets_for_project
Step-Keyed (begins ids now q) d = begin-Keyed ids _ now q d
Step-Keyed (sets now owner id none context) d = d
Step-Keyed (sets now owner id (some status) context) d =
    update_session-Keyed _ owner id _ (λ s. (refl, refl, refl)) d
Step-Keyed (refreshes now owner id revision none context) d = d
Step-Keyed (refreshes now owner id revision (some status) context) d =
    Keyed-if (is_blank revision) _ _ d
      (update_session-Keyed _ owner id _ (λ s. (refl, refl, refl)) d)
Step-Keyed {p} (puts ids now owner item status) d = put-Keyed p ids _ now owner item status d
Step-Keyed {p} {db} (revokes now deployment items e) d =
    returned (refuse _ _ _ λ full. revoke_targets_guarded-Keyed db now _ false (ok tt) d) e
Step-Keyed {p} {db} (revokes_stale now deployment revision items e) d =
    returned (refuse _ _ _ λ full. revoke_targets_guarded-Keyed db now _ false _ d) e
Step-Keyed {p} {db} (revokes_project now project items e) d =
    returned (refuse _ _ _ λ full. revoke_targets_guarded-Keyed db now _ true (ok tt) d) e
Step-Keyed {p} {db} (returns_context now owner ws target revision) d =
    returned_context-Keyed db now owner ws target revision d
Step-Keyed {p} {db} (acknowledges now owner ws target revision) d =
    acknowledge-Keyed db now owner ws target revision d

-- In every history of the operations, which callers may order in any way, the session ids, the
-- pairs of owner and client request, the target ids and the pairs of session and deployment stay
-- unique.
pub Reach-Keyed : (p : Provenances) (db db' : Tables) → Reach p db db' → Keyed db → Keyed db'
Reach-Keyed p db _ starts d = d
Reach-Keyed p db _ (follows r s) d = Step-Keyed s (Reach-Keyed p db _ r d)
