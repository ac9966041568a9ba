-- ===== src/Continuation/Store.antt =====
-- continuation.go, the tables that it reads and writes and the transactions over them:
-- loadContinuation, saveContinuation, compactContinuation, changeContinuation and
-- readContinuation.
use nexusdock.Shared.{
  ℕ, ◌-◌, String, str_eq, is_blank, List, [], ◌∷◌, map, Option, none, some, Bool, true, false, ◌&&◌,
  ◌||◌, not, ltb, if◌then◌else◌, any, find_first, count_if,
}
use nexusdock.Continuation.Types.{
  Phase, work_session_not_found, continuation_denied, Result, ok, err, ◌>>=◌, ◌>>◌, refuse_if,
  or_fail, CommandOutcome, WorkWake, Attempt, Document, ContinuationResult,
}
use nexusdock.Continuation.Document.{is_settled, expire_continuation, continuation_result}

pub data SessionStatus : Type 0 where
  preparing ready running completed partial failed cancelled : SessionStatus

pub data TargetStatus : Type 0 where
  preparing ready running idle unavailable context_error revoked : TargetStatus

pub record SessionRow : Type 0 where
  pub id : String
  pub owner_key : String
  pub status : SessionStatus

-- `full_access` is that of permissions_json, and `none` where that does not decode.
pub record TargetRow : Type 0 where
  pub id : String
  pub work_session_id : String
  pub project_id : String
  pub deployment_id : String
  pub node_id : String
  pub deployment_revision : String
  pub context_revision : String
  pub status : TargetStatus
  pub full_access : Option Bool

pub record ProjectRow : Type 0 where
  pub id : String
  pub enabled : Bool

pub record DeploymentRow : Type 0 where
  pub id : String
  pub desired_revision : ℕ
  pub applied_revision : ℕ
  pub apply_status : String
  pub enabled : Bool

pub record DeviceRow : Type 0 where
  pub id : String
  pub enabled : Bool
  pub full_access : Bool

-- The column `eligible`: 0, 1 and 2.
pub data Eligibility : Type 0 where
  retired eligible expired : Eligibility

-- A row of command_source_receipts; `none` is the outcome_json '{}'.
pub record Receipt : Type 0 where
  pub node_id : String
  pub event_id : String
  pub work_session_id : String
  pub target_id : String
  pub command_session_id : String
  pub outcome_hash : String
  pub outcome : Option CommandOutcome
  pub received_at : ℕ
  pub eligible : Eligibility

-- Rows stand in the order of their rowid.
pub record Database : Type 0 where
  pub work_sessions : List SessionRow
  pub work_targets : List TargetRow
  pub projects : List ProjectRow
  pub deployments : List DeploymentRow
  pub devices : List DeviceRow
  pub work_continuations : List (String × Document)
  pub receipts : List Receipt

unfoldable pub find_document : List (String × Document) → String → Option Document
find_document [] ws = none
find_document ((k, d) ∷ m) ws = if str_eq k ws then some d else find_document m ws

-- INSERT … ON CONFLICT(work_session_id) DO UPDATE.
unfoldable pub put_document :
    List (String × Document) → String → Document → List (String × Document)
put_document [] ws d = (ws, d) ∷ []
put_document ((k, e) ∷ m) ws d = if str_eq k ws then (k, d) ∷ m else (k, e) ∷ put_document m ws d

-- The document of a session that has no row yet.
unfoldable pub new_document : String → Document
new_document ws = record {
  state = record {
    work_session_id = ws;
    enabled = false;
    phase = Phase.disabled;
    max_rounds = 8;
    rounds_used = 0;
    max_failures = 3;
    failure_count = 0;
    sources = [];
    checkpoint = "";
    last_error = "";
    updated_at = none;
  };
  endpoint = record {
    work_session_id = "";
    endpoint_id = "";
    controller_generation = 0;
    binding_id = "";
    lease_expires_at = none;
  };
  binding_hash = "";
  view_consent = false;
  wakes = [];
  attempts = [];
}

unfoldable pub load_continuation : Database → String → String → Result Document
unfolding find_document new_document
load_continuation db owner ws = do
  refuse_if (is_blank owner || is_blank ws) continuation_denied
  session ← or_fail (find_first (λ s. str_eq s.id ws) db.work_sessions) work_session_not_found
  refuse_if (not (str_eq session.owner_key owner)) continuation_denied
  ok (elim (find_document db.work_continuations ws) [ none ↦ new_document ws | some d ↦ d ])

abbrev pub is_eligible : Eligibility → Bool
is_eligible eligible = true
is_eligible _ = false

-- UPDATE … SET outcome_json='{}',eligible=0 WHERE the session, the target, the command and eligible=1.
retire_receipt : WorkWake → CommandOutcome → Receipt → Receipt
retire_receipt w o r =
    if str_eq r.work_session_id w.work_session_id
      && str_eq r.target_id o.execution_context.target_id
      && str_eq r.command_session_id o.command_session_id
      && is_eligible r.eligible
    then record r { outcome = none; eligible = retired }
    else r

retire_sources : WorkWake → List CommandOutcome → List Receipt → List Receipt
unfolding retire_receipt
retire_sources w [] rs = rs
retire_sources w (o ∷ os) rs = retire_sources w os (map (retire_receipt w o) rs)

unfoldable pub retire_settled : List WorkWake → List Receipt → List Receipt
unfolding retire_sources
retire_settled [] rs = rs
retire_settled (w ∷ ws) rs =
    retire_settled ws (if is_settled w.state then retire_sources w w.sources rs else rs)

abbrev pub count_settled : List WorkWake → ℕ
count_settled = count_if (λ w. is_settled w.state)

-- While more than 32 settled wakes are left, the next settled one is dropped.
unfoldable pub drop_settled : ℕ → List WorkWake → List WorkWake
drop_settled n [] = []
drop_settled n (w ∷ ws) =
    let drop = is_settled w.state && ltb 32 n in
    let rest = drop_settled (if drop then n - 1 else n) ws in if drop then rest else w ∷ rest

-- The latest attempt of each wake that is kept.
unfoldable pub keep_attempts : List WorkWake → List Attempt → List Attempt
keep_attempts ws [] = []
keep_attempts ws (a ∷ l) =
    let rest = keep_attempts ws l in
    let kept = any (λ w. str_eq w.wake_id a.wake_id) ws in
    let later = any (λ b. str_eq b.wake_id a.wake_id) l in
    if kept && not later then a ∷ rest else rest

unfoldable pub compact_continuation : Document → Document
unfolding drop_settled keep_attempts
compact_continuation d =
    let wakes = drop_settled (count_settled d.wakes) d.wakes in
    record d { wakes = wakes; attempts = keep_attempts wakes d.attempts }

unfoldable pub touch : Document → ℕ → Document
touch d now = record d { state = record (d.state) { updated_at = some now } }

unfoldable pub save_continuation : Database → Document → ℕ → Database
unfolding put_document retire_settled compact_continuation touch
save_continuation db d now = record db {
  receipts = retire_settled d.wakes db.receipts;
  work_continuations =
      put_document db.work_continuations d.state.work_session_id
        (touch (compact_continuation d) now);
}

-- A handler runs inside the transaction, on the document after the sweep.
abbrev pub Handler : Type 0
Handler = Database → Document → ℕ → Result (Document × ContinuationResult)

-- The transaction of changeContinuation: an error leaves the database as it was.
unfoldable pub change_continuation :
    Database → ℕ → String → String → Handler → Result (Database × ContinuationResult)
change_continuation db now owner ws fn = do
  d ← load_continuation db owner ws
  (d', r) ← fn db (touch (expire_continuation d now).0 now) now
  ok (save_continuation db d' now, r)

-- The database after a transaction.
abbrev pub after {ℓ} : {A : Type ℓ} → Database → Result (Database × A) → Database
after db (ok (db', a)) = db'
after db (err e) = db

-- readContinuation: a snapshot at `now`; when something has expired, a transaction at `later` on
-- the database `db'` that other writers may have left meanwhile.
unfoldable pub read_continuation :
    Database
    → ℕ
    → Database
    → ℕ
    → String
    → String
    → (Document → ℕ → Result (Unit {0}))
    → Result (Database × ContinuationResult)
read_continuation db now db' later owner ws validate = do
  d ← load_continuation db owner ws
  validate d now
  let e = expire_continuation d now
  let write =
      change_continuation db' later owner ws
        (λ _ current time. do validate current time; ok (current, continuation_result current))
  if e.1 then write else ok (db', continuation_result e.0)
