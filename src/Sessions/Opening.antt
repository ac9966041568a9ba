-- ===== src/Sessions/Opening.antt =====
-- internal/project/session.go: BeginWorkSession and the changes of a session. An operation gives
-- the tables that it leaves and its answer, since an error of the read after a write does not take
-- the write back.
use nexusdock.Shared.{
  ℕ, String, str_eq, is_empty, is_blank, trim_space, List, [], ◌∷◌, ◌++◌, map, Option, none, some,
  Bool, true, false, ◌&&◌, ◌||◌, not, any, find_first, if◌then◌else◌,
}
use nexusdock.Continuation.Types.{
  invalid, failed, work_session_not_found, request_conflict, Result, ok, err, or_fail, ◌>>=◌,
}
use nexusdock.Continuation.Store.{SessionStatus}
use nexusdock.Sessions.Tables.{WorkSession, Tables, is_session, get_work_session}

pub record OpenRequest : Type 0 where
  pub owner_key : String
  pub project_id : String
  pub client_request_id : String
  pub request_hash : String
  pub project_revision : String

-- The fields of the request, trimmed.
abbrev pub trimmed : OpenRequest → OpenRequest
trimmed q = record {
  owner_key = trim_space q.owner_key;
  project_id = trim_space q.project_id;
  client_request_id = trim_space q.client_request_id;
  request_hash = trim_space q.request_hash;
  project_revision = trim_space q.project_revision;
}

abbrev pub is_incomplete : OpenRequest → Bool
is_incomplete q =
    is_empty q.owner_key
    || is_empty q.project_id
    || is_empty q.client_request_id
    || is_empty q.request_hash
    || is_empty q.project_revision

abbrev pub is_request : String → String → WorkSession → Bool
is_request owner request s = str_eq s.owner_key owner && str_eq s.client_request_id request

unfoldable pub work_session_by_request : Tables → String → String → Result WorkSession
work_session_by_request db owner request =
    or_fail (find_first (is_request (trim_space owner) (trim_space request)) db.sessions)
      work_session_not_found

unfoldable pub new_session : OpenRequest → String → ℕ → WorkSession
new_session q id now = record {
  id = id;
  project_id = q.project_id;
  owner_key = q.owner_key;
  client_request_id = q.client_request_id;
  request_hash = q.request_hash;
  project_revision = q.project_revision;
  status = SessionStatus.preparing;
  context_revision = "";
  created_at = now;
  updated_at = now;
}

-- The session that the request was bound to before.
unfoldable pub existing_session : Tables → OpenRequest → Result (WorkSession × Bool)
unfolding work_session_by_request
existing_session db q = work_session_by_request db q.owner_key q.client_request_id >>= λ s.
    if str_eq s.project_id q.project_id && str_eq s.request_hash q.request_hash
    then ok (s, false)
    else err (request_conflict s.id)

-- INSERT … SELECT … FROM projects ON CONFLICT(owner_key, client_request_id) DO NOTHING, and what
-- is read after it; an id that is taken fails the insert.
unfoldable pub insert_session :
    Tables → OpenRequest → String → ℕ → Tables × Result (WorkSession × Bool)
unfolding existing_session new_session get_work_session
insert_session db q id now =
    if not (any (λ p. str_eq p.id q.project_id) db.projects)
      || any (is_request q.owner_key q.client_request_id) db.sessions
    then (db, existing_session db q)
    else if any (λ s. str_eq s.id id) db.sessions
    then (db, err failed)
    else let db' = record db { sessions = db.sessions ++ new_session q id now ∷ [] } in
      (db', get_work_session db' q.owner_key id >>= λ s. ok (s, true))

-- BeginWorkSession; the session, and whether it is new.
unfoldable pub begin_work_session :
    List String → Tables → ℕ → OpenRequest → Tables × Result (WorkSession × Bool)
unfolding insert_session
begin_work_session ids db now q =
    if is_incomplete (trimmed q)
    then (db, err invalid)
    else elim ids [ [] ↦ (db, err failed) | id ∷ ids ↦ insert_session db (trimmed q) id now ]

-- UPDATE work_sessions … WHERE id = ? AND owner_key = ?, and the read after it.
unfoldable pub update_session :
    Tables → String → String → (WorkSession → WorkSession) → Tables × Result WorkSession
unfolding get_work_session
update_session db owner id change =
    let db' = record db {
      sessions = map (λ s. if is_session owner id s then change s else s) db.sessions;
    } in
    if any (is_session owner id) db.sessions
    then (db', get_work_session db' owner id)
    else (db, err work_session_not_found)

-- SetWorkSessionState; `none` is a status text that is not valid.
unfoldable pub set_work_session_state :
    Tables → ℕ → String → String → Option SessionStatus → String → Tables × Result WorkSession
unfolding update_session
set_work_session_state db now owner id none context = (db, err invalid)
set_work_session_state db now owner id (some status) context =
    update_session db owner id
      λ s. record s { status = status; context_revision = trim_space context; updated_at = now }

-- UpdateWorkSessionContext.
unfoldable pub update_work_session_context :
    Tables
    → ℕ
    → String
    → String
    → String
    → Option SessionStatus
    → String
    → Tables × Result WorkSession
unfolding update_session
update_work_session_context db now owner id revision none context = (db, err invalid)
update_work_session_context db now owner id revision (some status) context =
    if is_blank revision
    then (db, err invalid)
    else update_session db owner id λ s. record s {
      project_revision = trim_space revision;
      status = status;
      context_revision = trim_space context;
      updated_at = now;
    }
