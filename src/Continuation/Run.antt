-- ===== src/Continuation/Run.antt =====
-- A run of the continuation on concrete inputs: one session that is enabled, presented, given an
-- outcome, dispatched, consumed and settled.
use nexusdock.Shared.{
  ◌*◌, ◌≡◌, refl, String, text_append, List, [], ◌∷◌, Option, none, some, Bool, true, false, length,
  pos, is_blank, is_space, decimal, trim_space,
}
use nexusdock.Continuation.Types.{
  WakeState, Result, ok, err, ◌>>=◌, ◌>>◌, refuse_if, or_fail, OutcomeState, CommandOutcome,
  Document, ContinuationResult, ResumeEnvelope, Protocol, second,
}
use nexusdock.Continuation.Document.{expire_continuation, continuation_result}
use nexusdock.Continuation.Store.{
  SessionStatus, TargetStatus, Database, after, load_continuation, touch, save_continuation,
  new_document, change_continuation, find_document,
}
use nexusdock.Continuation.Targets.{current_target, validate_wake_targets, bound_target}
use nexusdock.Continuation.Outcomes.{merge_continuation_outcome}
use nexusdock.Continuation.Receipts.{record_command_outcomes, record_each, record_outcome}
use nexusdock.Continuation.Control.{
  Action, enable, await, settle, ContinuationInput, control_continuation,
}
use nexusdock.Continuation.Controller.{
  accepted, ControllerInput, present_continuation, controller_identity,
}
use nexusdock.Continuation.Dispatch.{binds, acquires, prepares, prepare, controller_continuation}
use nexusdock.Continuation.Consume.{consume, consume_work_wake}

abbrev pub protocol : Protocol
protocol = record {
  secret_hash = λ s. text_append "h:" s;
  automatic_message = λ e. some (text_append "resume " e.consume_token);
  encode_outcome = λ o. some o.event_id;
  encoded_size = λ os. some (length os);
  max_work_continuation_sources = 32;
  max_command_outcome_batch_bytes = 1048576;
  max_command_outcomes_per_read = 64;
  max_command_outcome_output_bytes = 65536;
}

-- One session of `alice` with one target that is current.
abbrev pub start : Database
start = record {
  work_sessions = record { id = "ws"; owner_key = "alice"; status = SessionStatus.running } ∷ [];
  work_targets =
      record {
        id = "t";
        work_session_id = "ws";
        project_id = "p";
        deployment_id = "d";
        node_id = "n";
        deployment_revision = "rev-3";
        context_revision = "c";
        status = TargetStatus.ready;
        full_access = some false;
      }
      ∷ [];
  projects = record { id = "p"; enabled = true } ∷ [];
  deployments =
      record {
        id = "d";
        desired_revision = 3;
        applied_revision = 3;
        apply_status = "applied";
        enabled = true;
      }
      ∷ [];
  devices = record { id = "n"; enabled = true; full_access = false } ∷ [];
  work_continuations = [];
  receipts = [];
}

abbrev pub input : Action → ContinuationInput
input action = record {
  action = action;
  work_session_id = "ws";
  confirmed = true;
  max_rounds = pos 5;
  max_failures = pos 2;
  wake_id = "wake_1";
  checkpoint = "checked";
  sources = record { target_id = "t"; command_session_id = "cmd" } ∷ [];
}

abbrev pub view : String → ControllerInput
view attempt = record {
  work_session_id = "ws";
  endpoint_id = "ep_1";
  controller_generation = 1;
  binding_secret = "secret";
  binding_id = "view";
  user_enabled = true;
  wake_id = "wake_1";
  attempt_id = attempt;
  delivery_status = accepted;
}

abbrev pub outcome : CommandOutcome
outcome = record {
  event_id = "ev";
  command_session_id = "cmd";
  execution_context = record {
    work_session_id = "ws";
    target_id = "t";
    project_id = "p";
    deployment_id = "d";
    deployment_revision = "rev-3";
    context_revision = "c";
  };
  state = OutcomeState.completed;
  output = "done";
  stdout = "";
  stderr = "";
  pending_report = false;
}

abbrev pub resume : ResumeEnvelope
resume = record {
  protocol_version = 1;
  work_session_id = "ws";
  endpoint_id = "ep_1";
  controller_generation = 1;
  wake_id = "wake_1";
  attempt_id = "attempt_1";
  consume_token = "token";
}

-- The databases of the run, in order.
abbrev pub enabled_db : Database
enabled_db =
    after start (control_continuation protocol [] start (1 * second) "alice" (input enable))

abbrev pub presented_db : Database
presented_db = after enabled_db (
    present_continuation protocol ("ep_1" ∷ "secret" ∷ []) enabled_db (2 * second) "alice" "ws"
      false)

abbrev pub bound_db : Database
bound_db =
    after presented_db
      (controller_continuation protocol [] presented_db (3 * second) "alice" binds (view ""))

abbrev pub awaiting_db : Database
awaiting_db =
    after bound_db (control_continuation protocol [] bound_db (4 * second) "alice" (input await))

abbrev pub reported_db : Database
reported_db = after awaiting_db (
    record_command_outcomes protocol awaiting_db "n" ((outcome, 5 * second) ∷ []) (5 * second)
      ("wake_1" ∷ []))

abbrev pub claimed_db : Database
claimed_db = after reported_db (
    controller_continuation protocol ("attempt_1" ∷ []) reported_db (6 * second) "alice" acquires
      (view ""))

abbrev pub sent_db : Database
sent_db = after claimed_db (
    controller_continuation protocol ("token" ∷ []) claimed_db (7 * second) "alice" prepares
      (view "attempt_1"))

abbrev pub consumed_db : Database
consumed_db = after sent_db (consume_work_wake protocol sent_db (8 * second) "alice" resume)

abbrev pub settled_db : Database
settled_db =
    after consumed_db
      (control_continuation protocol [] consumed_db (9 * second) "alice" (input settle))

-- Whether a call succeeds; it computes where this name unfolds.
unfoldable pub is_ok : {A : Type 0} → Result A → Bool
unfolding is_space is_blank decimal trim_space control_continuation change_continuation
    load_continuation touch save_continuation expire_continuation ◌>>=◌ ◌>>◌ refuse_if or_fail
    present_continuation controller_continuation controller_identity current_target
    merge_continuation_outcome record_command_outcomes record_each record_outcome bound_target
    validate_wake_targets consume_work_wake find_document new_document consume prepare
is_ok (ok r) = true
is_ok (err e) = false

abbrev pub answer : {A : Type 0} → Result (A × ContinuationResult) → ContinuationResult
answer (ok r) = r.1
answer (err e) = continuation_result (new_document "ws")

-- What a handler left; the document `d` when it failed.
abbrev pub left : Document → Result (Document × ContinuationResult) → Document
left d (ok r) = r.0
left d (err e) = d

-- A transaction and a handler that succeed.
pub commits :
    (db : Database) (x : Result (Database × ContinuationResult))
    → is_ok x ≡ true
    → x ≡ ok (after db x, answer x)
unfolding is_ok
commits db (ok r) h = refl
commits db (err e) h = cc

pub leaves :
    (d : Document) (x : Result (Document × ContinuationResult))
    → is_ok x ≡ true
    → x ≡ ok (left d x, answer x)
unfolding is_ok
leaves d (ok r) h = refl
leaves d (err e) h = cc

unfoldable pub acks : Result (Database × List String) → List String
acks (ok r) = r.1
acks (err e) = []

pub records_commit :
    (db : Database) (x : Result (Database × List String))
    → is_ok x ≡ true
    → x ≡ ok (after db x, acks x)
unfolding is_ok acks
records_commit db (ok r) h = refl
records_commit db (err e) h = cc

-- The document of the session.
abbrev pub document : Database → Document
document db = elim (find_document db.work_continuations "ws") [
  | none ↦ new_document "ws"
  | some d ↦ d
]

abbrev pub state_in : Database → Option WakeState
state_in db = elim (document db).wakes [ [] ↦ none | w ∷ ws ↦ some w.state ]

run_claims : state_in claimed_db ≡ some WakeState.claimed
unfolding is_ok
run_claims = refl

run_settles : state_in settled_db ≡ some WakeState.settled
unfolding is_ok
run_settles = refl

abbrev pub awaiting_doc : Document
awaiting_doc = document awaiting_db

abbrev pub claimed_doc : Document
claimed_doc = document claimed_db

abbrev pub sent_doc : Document
sent_doc = document sent_db

abbrev pub preparation : Result (Document × ContinuationResult)
preparation = prepare protocol ("token" ∷ []) (view "attempt_1") claimed_db claimed_doc (7 * second)

abbrev pub consumption : Result (Document × ContinuationResult)
consumption = consume protocol resume sent_db sent_doc (8 * second)

pub enabled_db_ok :
    is_ok (control_continuation protocol [] start (1 * second) "alice" (input enable)) ≡ true
unfolding is_ok
enabled_db_ok = refl

pub presented_db_ok :
    is_ok (
      present_continuation protocol
        ("ep_1" ∷ "secret" ∷ [])
        enabled_db
        (2 * second)
        "alice"
        "ws"
        false)
    ≡ true
unfolding is_ok
presented_db_ok = refl

pub bound_db_ok :
    is_ok (controller_continuation protocol [] presented_db (3 * second) "alice" binds (view ""))
    ≡ true
unfolding is_ok
bound_db_ok = refl

pub awaiting_db_ok :
    is_ok (control_continuation protocol [] bound_db (4 * second) "alice" (input await)) ≡ true
unfolding is_ok
awaiting_db_ok = refl

pub reported_db_ok :
    is_ok (
      record_command_outcomes protocol awaiting_db "n"
        ((outcome, 5 * second) ∷ [])
        (5 * second)
        ("wake_1" ∷ []))
    ≡ true
unfolding is_ok
reported_db_ok = refl

pub claimed_db_ok :
    is_ok (
      controller_continuation protocol
        ("attempt_1" ∷ [])
        reported_db
        (6 * second)
        "alice"
        acquires
        (view ""))
    ≡ true
unfolding is_ok
claimed_db_ok = refl

pub sent_db_ok :
    is_ok (
      controller_continuation protocol
        ("token" ∷ [])
        claimed_db
        (7 * second)
        "alice"
        prepares
        (view "attempt_1"))
    ≡ true
unfolding is_ok
sent_db_ok = refl

pub consumed_db_ok : is_ok (consume_work_wake protocol sent_db (8 * second) "alice" resume) ≡ true
unfolding is_ok
consumed_db_ok = refl

pub settled_db_ok :
    is_ok (control_continuation protocol [] consumed_db (9 * second) "alice" (input settle)) ≡ true
unfolding is_ok
settled_db_ok = refl

pub preparation_ok : is_ok (preparation) ≡ true
unfolding is_ok
preparation_ok = refl

pub consumption_ok : is_ok (consumption) ≡ true
unfolding is_ok
consumption_ok = refl
