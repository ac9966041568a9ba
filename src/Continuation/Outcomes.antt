-- ===== src/Continuation/Outcomes.antt =====
-- continuation.go, the command outcomes: mergeContinuationOutcome,
-- mergeStoredContinuationOutcomes.
-- An id of core.NewID is the next of a list of supplied ids; when the list is empty, the random
-- source fails.
use Prim.Native.String.{compare}
use text.Mathlib.Text.{is_lt}
use nexusdock.Shared.{
  ℕ, String, str_eq, List, [], ◌∷◌, ◌++◌, Option, none, some, Bool, true, false, ◌&&◌, ◌||◌, not,
  ltb, if◌then◌else◌, any, length, text_before,
}
use nexusdock.Continuation.Types.{
  pending, Error, continuation_source_expired, Result, ok, err, ◌>>=◌, ◌>>◌, refuse_if, or_fail,
  OutcomeState, CommandOutcome, ContinuationSource, WorkWake, Document, Protocol,
}
use nexusdock.Continuation.Document.{is_pending, is_claimed}
use nexusdock.Continuation.Store.{Receipt, Database, Eligibility, expired, is_eligible}

abbrev pub next_id : List String → Result (String × List String)
next_id [] = err Error.failed
next_id (id ∷ ids) = ok (id, ids)

abbrev pub same_source : CommandOutcome → CommandOutcome → Bool
same_source a b =
    str_eq a.execution_context.target_id b.execution_context.target_id
    && str_eq a.command_session_id b.command_session_id

abbrev pub is_awaited : List ContinuationSource → CommandOutcome → Bool
is_awaited sources o =
    any
      (λ s.
        str_eq s.target_id o.execution_context.target_id
        && str_eq s.command_session_id o.command_session_id)
      sources

abbrev pub is_merged : List WorkWake → CommandOutcome → Bool
is_merged ws o = any (λ w. any (λ x. same_source x o) w.sources) ws

abbrev pub keep_wake : WorkWake → Option (List WorkWake) → Option (List WorkWake)
keep_wake w none = none
keep_wake w (some ws) = some (w ∷ ws)

-- The first pending or claimed wake that has room takes the outcome; `none` when none has.
unfoldable pub merge_into :
    Protocol → List WorkWake → CommandOutcome → ℕ → Result (Option (List WorkWake))
merge_into p [] o now = ok none
merge_into p (w ∷ ws) o now =
    let rest = merge_into p ws o now >>= (λ r. ok (keep_wake w r)) in
    let candidate = w.sources ++ o ∷ [] in
    let taken = record w { sources = candidate; updated_at = some now } in
    if (is_pending w.state || is_claimed w.state)
      && ltb (length w.sources) p.max_work_continuation_sources
    then (or_fail (p.encoded_size candidate) Error.failed >>= λ size.
        if ltb p.max_command_outcome_batch_bytes size then rest else ok (some (taken ∷ ws)))
    else rest

unfoldable pub new_wake : Document → CommandOutcome → ℕ → String → WorkWake
new_wake d o now id = record {
  work_session_id = d.state.work_session_id;
  endpoint_id = d.endpoint.endpoint_id;
  controller_generation = d.endpoint.controller_generation;
  wake_id = id;
  state = pending;
  sources = o ∷ [];
  created_at = some now;
  updated_at = some now;
}

-- The wake that took the outcome, or a new one.
unfoldable pub place_outcome :
    Document
    → CommandOutcome
    → ℕ
    → List String
    → Option (List WorkWake)
    → Result (Document × List String)
unfolding new_wake
place_outcome d o now ids (some ws) = ok (record d { wakes = ws }, ids)
place_outcome d o now ids none =
    next_id ids >>= λ n. ok (record d { wakes = d.wakes ++ new_wake d o now n.0 ∷ [] }, n.1)

unfoldable pub merge_continuation_outcome :
    Protocol → Document → CommandOutcome → ℕ → List String → Result (Document × List String)
unfolding merge_into place_outcome
merge_continuation_outcome p d o now ids =
    if not (is_awaited d.state.sources o) || is_merged d.wakes o
    then ok (d, ids)
    else merge_into p d.wakes o now >>= place_outcome d o now ids

-- What json.Unmarshal makes of '{}'.
empty_outcome : CommandOutcome
empty_outcome = record {
  event_id = "";
  command_session_id = "";
  execution_context = record {
    work_session_id = "";
    target_id = "";
    project_id = "";
    deployment_id = "";
    deployment_revision = "";
    context_revision = "";
  };
  state = OutcomeState.running;
  output = "";
  stdout = "";
  stderr = "";
  pending_report = false;
}

abbrev is_expired_receipt : Eligibility → Bool
is_expired_receipt expired = true
is_expired_receipt _ = false

-- ORDER BY received_at,event_id.
row_before : Receipt → Receipt → Bool
row_before a b =
    text_before a.received_at b.received_at
    || (not (text_before b.received_at a.received_at) && (is_lt (compare a.event_id b.event_id)))

insert_row : Receipt → List Receipt → List Receipt
unfolding row_before
insert_row r [] = r ∷ []
insert_row r (x ∷ xs) = if row_before r x then r ∷ x ∷ xs else x ∷ insert_row r xs

sort_rows : List Receipt → List Receipt
unfolding insert_row
sort_rows [] = []
sort_rows (r ∷ rs) = insert_row r (sort_rows rs)

-- The eligible rows of a session.
session_rows : String → List Receipt → List Receipt
session_rows ws [] = []
session_rows ws (r ∷ rs) =
    let rest = session_rows ws rs in
    if str_eq r.work_session_id ws && is_eligible r.eligible then r ∷ rest else rest

unfoldable pub merge_rows :
    Protocol → Document → List Receipt → ℕ → List String → Result (Document × List String)
unfolding merge_continuation_outcome empty_outcome
merge_rows p d [] now ids = ok (d, ids)
merge_rows p d (r ∷ rs) now ids = do
  (d', ids') ←
      merge_continuation_outcome p d (elim r.outcome [ none ↦ empty_outcome | some o ↦ o ]) now ids
  merge_rows p d' rs now ids'

-- Some awaited source has a receipt whose outcome was given up.
has_expired_source : Database → String → List ContinuationSource → Bool
has_expired_source db ws sources =
    any
      (λ s.
        any
          (λ r.
            str_eq r.work_session_id ws
            && str_eq r.target_id s.target_id
            && str_eq r.command_session_id s.command_session_id
            && is_expired_receipt r.eligible)
          db.receipts)
      sources

unfoldable pub merge_stored_outcomes :
    Protocol → Database → Document → ℕ → List String → Result (Document × List String)
unfolding has_expired_source merge_rows sort_rows session_rows
merge_stored_outcomes p db d now ids = do
  refuse_if (has_expired_source db d.state.work_session_id d.state.sources)
      continuation_source_expired
  merge_rows p d (sort_rows (session_rows d.state.work_session_id db.receipts)) now ids
