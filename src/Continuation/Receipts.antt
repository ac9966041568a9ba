-- ===== src/Continuation/Receipts.antt =====
-- continuation.go, the receipts of command outcomes: RecordCommandOutcomes and
-- expireUnawaitedReceipts.
use Prim.Native.String.{len}
use nexusdock.Shared.{
  ℕ, ◌+◌, ◌-◌, ◌*◌, String, str_eq, is_empty, List, [], ◌∷◌, ◌++◌, Option, none, some, Bool, true,
  false, ◌&&◌, ◌||◌, not, leb, ltb, if◌then◌else◌, any, find_first, count_if, length, map,
  text_before,
}
use nexusdock.Continuation.Types.{
  Error, invalid, no_rows, continuation_source_denied, continuation_receipt_conflict, Result, ok,
  err, ◌>>=◌, ◌>>◌, refuse_if, or_fail, ExecutionContext, OutcomeState, CommandOutcome, Document,
  Protocol, second,
}
use nexusdock.Continuation.Document.{is_settled, expire_continuation}
use nexusdock.Continuation.Store.{
  Receipt, Database, Eligibility, eligible, retired, expired, is_eligible, load_continuation,
  save_continuation,
}
use nexusdock.Continuation.Targets.{bound_target}
use nexusdock.Continuation.Outcomes.{merge_continuation_outcome}

abbrev pub is_terminal : OutcomeState → Bool
is_terminal OutcomeState.running = false
is_terminal _ = true

unfoldable pub insert_receipt :
    Database
    → String
    → CommandOutcome
    → ExecutionContext
    → String
    → ℕ
    → Eligibility
    → Option CommandOutcome
    → Result Database
insert_receipt db node o e hash now kind stored = do
  -- UNIQUE(node_id, command_session_id)
  refuse_if
      (any (λ r. str_eq r.node_id node && str_eq r.command_session_id o.command_session_id)
        db.receipts)
      Error.failed
  let row : Receipt = record {
    node_id = node;
    event_id = o.event_id;
    work_session_id = e.work_session_id;
    target_id = e.target_id;
    command_session_id = o.command_session_id;
    outcome_hash = hash;
    outcome = stored;
    received_at = now;
    eligible = kind;
  }
  ok (record db { receipts = db.receipts ++ row ∷ [] })

-- The merge of a new receipt into the document of its session.
unfoldable pub merge_receipt :
    Protocol
    → Database
    → String
    → CommandOutcome
    → ℕ
    → List String
    → Result (Database × List String)
unfolding merge_continuation_outcome
merge_receipt p db ws o now ids = do
  session ← or_fail (find_first (λ s. str_eq s.id ws) db.work_sessions) no_rows
  d ← load_continuation db session.owner_key ws
  (d', ids') ← merge_continuation_outcome p (expire_continuation d now).0 o now ids
  ok (save_continuation db d' now, ids')

unfoldable pub find_receipt : Database → String → String → Option Receipt
find_receipt db node event =
    find_first (λ r. str_eq r.node_id node && str_eq r.event_id event) db.receipts

-- A receipt that is not stored yet, for a target that exists.
unfoldable pub record_eligible :
    Protocol
    → Database
    → String
    → CommandOutcome
    → ExecutionContext
    → String
    → ℕ
    → List String
    → Result (Database × List String)
unfolding insert_receipt merge_receipt
record_eligible p db node o e hash now ids = do
  db' ← insert_receipt db node o e hash now eligible (some o)
  merge_receipt p db' e.work_session_id o now ids

-- A receipt for a target or session that is gone keeps its identity only.
unfoldable pub record_orphan :
    Database → String → CommandOutcome → String → ℕ → List String → Result (Database × List String)
unfolding insert_receipt
record_orphan db node o hash now ids = do
  db' ← insert_receipt db node o o.execution_context hash now retired none
  ok (db', ids)

-- What the lookup of the bound target gives: a row, or `none` for sql.ErrNoRows.
abbrev pub bound_row :
    Result (ExecutionContext × String) → Result (Option (ExecutionContext × String))
bound_row (ok e) = ok (some e)
bound_row (err no_rows) = ok none
bound_row (err e) = err e

abbrev pub is_foreign : String → CommandOutcome → Option (ExecutionContext × String) → Bool
is_foreign node o none = false
is_foreign node o (some (e, n)) =
    not (str_eq n node)
    || not (str_eq e.project_id o.execution_context.project_id)
    || not (str_eq e.deployment_id o.execution_context.deployment_id)

unfoldable pub store_new :
    Protocol
    → Database
    → String
    → CommandOutcome
    → String
    → ℕ
    → List String
    → Option (ExecutionContext × String)
    → Result (Database × List String)
unfolding record_eligible record_orphan
store_new p db node o hash now ids (some e) = record_eligible p db node o e.0 hash now ids
store_new p db node o hash now ids none = record_orphan db node o hash now ids

-- A known event is acknowledged again when its facts are the same.
unfoldable pub store_outcome :
    Protocol
    → Database
    → String
    → CommandOutcome
    → String
    → ℕ
    → List String
    → Option (ExecutionContext × String)
    → Option Receipt
    → Result (Database × List String)
unfolding store_new
store_outcome p db node o hash now ids bound (some r) =
    refuse_if (not (str_eq r.outcome_hash hash)) continuation_receipt_conflict >> ok (db, ids)
store_outcome p db node o hash now ids bound none = store_new p db node o hash now ids bound

-- One terminal outcome; its id is acknowledged in every case that is no error.
unfoldable pub record_outcome :
    Protocol
    → Database
    → String
    → CommandOutcome
    → ℕ
    → List String
    → Result (Database × List String)
unfolding find_receipt store_outcome
record_outcome p db node o now ids = do
  refuse_if (ltb p.max_command_outcome_output_bytes (len o.output + len o.stdout + len o.stderr))
      invalid
  refuse_if
      (is_empty o.event_id
        || is_empty o.command_session_id
        || is_empty o.execution_context.deployment_revision
        || is_empty o.execution_context.context_revision)
      invalid
  bound ←
      bound_row (bound_target db o.execution_context.work_session_id o.execution_context.target_id)
  refuse_if (is_foreign node o bound) continuation_source_denied
  let fact = record o { pending_report = false }
  raw ← or_fail (p.encode_outcome fact) Error.failed
  let hash = p.secret_hash raw
  store_outcome p db node fact hash now ids bound (find_receipt db node o.event_id)

-- The batch: each outcome with the time at which it is stored. Outcomes that are not terminal
-- are passed over.
unfoldable pub record_each :
    Protocol
    → Database
    → String
    → List (CommandOutcome × ℕ)
    → List String
    → Result (Database × List String)
unfolding record_outcome
record_each p db node [] ids = ok (db, [])
record_each p db node ((o, now) ∷ os) ids =
    let skip = record_each p db node os ids in
    if is_terminal o.state
    then (record_outcome p db node o now ids >>= λ r.
        record_each p r.0 node os r.1 >>= λ rest. ok (rest.0, o.event_id ∷ rest.1))
    else skip

-- The number of eligible rows of the node that are newer, ORDER BY received_at DESC,rowid DESC.
unfoldable pub newer_count : String → Receipt → List Receipt → List Receipt → ℕ
newer_count node r earlier later =
    count_if
      (λ x.
        str_eq x.node_id node && is_eligible x.eligible && text_before r.received_at x.received_at)
      earlier
    + count_if
        (λ x.
          str_eq x.node_id node
          && is_eligible x.eligible
          && not (text_before x.received_at r.received_at))
        later

unfoldable pub awaited_by : Receipt → String × Document → Bool
awaited_by r (k, d) =
    str_eq k r.work_session_id
    && any (λ s. str_eq s.target_id r.target_id && str_eq s.command_session_id r.command_session_id)
        d.state.sources

unfoldable pub held_by : Receipt → String × Document → Bool
held_by r (k, d) =
    str_eq k r.work_session_id
    && any
        (λ w.
          not (is_settled w.state)
          && any
              (λ o.
                str_eq o.event_id r.event_id && str_eq o.execution_context.target_id r.target_id)
              w.sources)
        d.wakes

abbrev retention : ℕ
retention = 30 * 24 * 3600 * second

-- A row outside the window of the node that no wait and no unsettled wake holds.
unfoldable pub is_unawaited : Database → String → ℕ → List Receipt → Receipt → List Receipt → Bool
unfolding newer_count awaited_by held_by
is_unawaited db node now earlier r later =
    str_eq r.node_id node
    && is_eligible r.eligible
    && (text_before r.received_at (now - retention) || leb 1024 (newer_count node r earlier later))
    && not (any (awaited_by r) db.work_continuations)
    && not (any (held_by r) db.work_continuations)

unfoldable pub expire_rows : Database → String → ℕ → List Receipt → List Receipt → List Receipt
unfolding is_unawaited
expire_rows db node now earlier [] = []
expire_rows db node now earlier (r ∷ rs) =
    let rest = expire_rows db node now (r ∷ earlier) rs in
    if is_unawaited db node now earlier r rs
    then record r { outcome = none; eligible = expired } ∷ rest
    else r ∷ rest

unfoldable pub expire_unawaited_receipts : Database → String → ℕ → Database
unfolding expire_rows
expire_unawaited_receipts db node now = record db {
  receipts = expire_rows db node now [] db.receipts;
}

-- RecordCommandOutcomes: the database after the transaction, and the ids to acknowledge.
unfoldable pub record_command_outcomes :
    Protocol
    → Database
    → String
    → List (CommandOutcome × ℕ)
    → ℕ
    → List String
    → Result (Database × List String)
unfolding record_each expire_unawaited_receipts
record_command_outcomes p db node os now ids = do
  refuse_if (is_empty node || ltb p.max_command_outcomes_per_read (length os)) invalid
  size ← or_fail (p.encoded_size (map (λ d. d.0) os)) Error.failed
  refuse_if (ltb p.max_command_outcome_batch_bytes size) invalid
  (db', acks) ← record_each p db node os ids
  ok (expire_unawaited_receipts db' node now, acks)
