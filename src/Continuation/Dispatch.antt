-- ===== src/Continuation/Dispatch.antt =====
-- continuation.go, the rest of ControllerContinuation: `prepare` crosses the dispatch fence, and
-- `finish` records what became of the message; then the switch over the actions.
use nexusdock.Shared.{
  ℕ, ◌+◌, String, str_eq, List, Option, none, some, Bool, true, false, ◌&&◌, ◌||◌, not,
  if◌then◌else◌,
}
use nexusdock.Continuation.Types.{
  WakeState, prepared, dispatch_accepted, delivery_unknown, delivery_rejected, Phase, circuit_open,
  Error, invalid, continuation_needs_attention, continuation_paused, continuation_wake_not_found,
  continuation_dispatch_fenced, continuation_attempt_denied, Result, ok, err, ◌>>=◌, ◌>>◌,
  refuse_if, or_fail, WorkWake, Attempt, WorkContinuation, Document, ContinuationResult,
  ResumeEnvelope, Protocol, continuation_lease, continuation_dispatch_timeout,
}
use nexusdock.Continuation.Document.{
  wake_state, is_claimed, is_set, attempt_for_wake, set_attempt, find_wake, set_wake, blocked_wake,
  fail_continuation, ask_attention, continuation_result, continuation_wake_result,
}
use nexusdock.Continuation.Store.{Database, Handler, change_continuation}
use nexusdock.Continuation.Targets.{validate_wake_targets}
use nexusdock.Continuation.Outcomes.{next_id}
use nexusdock.Continuation.Controller.{
  DeliveryStatus, accepted, rejected, unknown, other, ControllerInput, controller_identity, bind,
  heartbeat, pause_view, over_budget, acquire,
}

-- The document behind the fence: the wake and its attempt are prepared, and a round is used.
unfoldable pub prepared_document : Document → WorkWake → Attempt → String → ℕ → Document
unfolding set_wake set_attempt
prepared_document d w a hash now = record d {
  wakes = set_wake d.wakes w.wake_id (wake_state w prepared now);
  attempts = set_attempt d.attempts w.wake_id (record a {
    state = prepared;
    prepared_at = some now;
    lease_expires_at = some (now + continuation_dispatch_timeout);
    consume_hash = hash;
  });
  endpoint = record (d.endpoint) { lease_expires_at = some (now + continuation_lease) };
  state = record (d.state) { rounds_used = d.state.rounds_used + 1; phase = Phase.dispatching };
}

unfoldable pub envelope : ControllerInput → WorkWake → Attempt → String → ResumeEnvelope
envelope i w a token = record {
  protocol_version = 1;
  work_session_id = i.work_session_id;
  endpoint_id = i.endpoint_id;
  controller_generation = i.controller_generation;
  wake_id = w.wake_id;
  attempt_id = a.attempt_id;
  consume_token = token;
}

unfoldable pub prepare :
    Protocol
    → List String
    → ControllerInput
    → Database
    → Document
    → ℕ
    → Result (Document × ContinuationResult)
unfolding find_wake attempt_for_wake blocked_wake prepared_document envelope
prepare p ids i db d now = do
  w ← or_fail (find_wake d.wakes i.wake_id) continuation_wake_not_found
  a ← or_fail (attempt_for_wake d.attempts w.wake_id) continuation_attempt_denied
  refuse_if (not (str_eq a.attempt_id i.attempt_id) || not (str_eq a.binding_id i.binding_id))
      continuation_attempt_denied
  refuse_if (not (is_claimed w.state) || is_set a.prepared_at) continuation_dispatch_fenced
  refuse_if (blocked_wake d.wakes) continuation_needs_attention
  refuse_if (not d.state.enabled || not d.view_consent || over_budget d.state) continuation_paused
  validate_wake_targets db w
  (token, _) ← next_id ids
  message ← or_fail (p.automatic_message (envelope i w a token)) Error.failed
  let d' = prepared_document d w a (p.secret_hash token) now
  ok (d', record (continuation_wake_result d' w.wake_id) { automatic_message = message })

abbrev pub delivered : DeliveryStatus → Option (WakeState × String)
delivered accepted = some (dispatch_accepted, "dispatch_accepted")
delivered rejected = some (delivery_rejected, "delivery_rejected")
delivered unknown = some (delivery_unknown, "delivery_unknown")
delivered other = none

-- Only a wake that waits for its receipt takes the status; an unknown one only a rejection.
abbrev pub takes_status : WakeState → WakeState → Bool
takes_status prepared status = true
takes_status dispatch_accepted status = true
takes_status delivery_unknown delivery_rejected = true
takes_status _ status = false

abbrev pub is_accepted : WakeState → Bool
is_accepted dispatch_accepted = true
is_accepted _ = false

abbrev pub is_alarmed : Phase → Bool
is_alarmed Phase.needs_attention = true
is_alarmed circuit_open = true
is_alarmed _ = false

-- The state of the session after a status that the wake took.
unfoldable pub count_delivery : WorkContinuation → WakeState × String → WorkContinuation
unfolding fail_continuation
count_delivery s (status, reason) =
    if is_accepted status || is_alarmed s.phase
    then s
    else ask_attention (fail_continuation s reason)

unfoldable pub finished_document : Document → WorkWake → Attempt → WakeState × String → ℕ → Document
unfolding set_wake set_attempt count_delivery
finished_document d w a status now =
    if not (is_set a.consumed_at) && takes_status w.state status.0
    then record d {
      wakes = set_wake d.wakes w.wake_id (wake_state w status.0 now);
      attempts =
          set_attempt d.attempts w.wake_id (record a { finished_at = some now; state = status.0 });
      state = count_delivery d.state status;
    }
    else record d {
      attempts = set_attempt d.attempts w.wake_id (record a { finished_at = some now });
    }

unfoldable pub finish : ControllerInput → Document → ℕ → Result (Document × ContinuationResult)
unfolding find_wake attempt_for_wake finished_document continuation_wake_result
finish i d now = do
  status ← or_fail (delivered i.delivery_status) invalid
  w ← or_fail (find_wake d.wakes i.wake_id) continuation_wake_not_found
  a ← or_fail (attempt_for_wake d.attempts w.wake_id) continuation_attempt_denied
  refuse_if
      (not (str_eq a.attempt_id i.attempt_id)
        || not (str_eq a.binding_id i.binding_id)
        || not (is_set a.prepared_at))
      continuation_attempt_denied
  let d' = if is_set a.finished_at then d else finished_document d w a status now
  ok (d', continuation_wake_result d' w.wake_id)

pub data ControllerAction : Type 0 where
  state binds beats pauses acquires prepares finishes : ControllerAction
  -- any other text
  undefined : ControllerAction

abbrev pub needs_lease : ControllerAction → Bool
needs_lease binds = false
needs_lease _ = true

abbrev pub with_result : Document → Document × ContinuationResult
with_result d = (d, continuation_result d)

-- The switch of ControllerContinuation.
unfoldable pub controller_action :
    Protocol
    → List String
    → ControllerInput
    → ControllerAction
    → Database
    → Document
    → ℕ
    → Result (Document × ContinuationResult)
unfolding bind heartbeat pause_view acquire prepare finish continuation_result
controller_action p ids i state db d now = ok (with_result d)
controller_action p ids i binds db d now = bind d i now >>= λ d'. ok (with_result d')
controller_action p ids i beats db d now = ok (with_result (heartbeat d now))
controller_action p ids i pauses db d now = ok (with_result (pause_view d))
controller_action p ids i acquires db d now = acquire ids i db d now
controller_action p ids i prepares db d now = prepare p ids i db d now
controller_action p ids i finishes db d now = finish i d now
controller_action p ids i undefined db d now = err invalid

unfoldable pub controller : Protocol → List String → ControllerAction → ControllerInput → Handler
unfolding controller_action controller_identity
controller p ids action i db d now =
    controller_identity p d i now (needs_lease action) >> controller_action p ids i action db d now

-- ControllerContinuation with an action other than `state`.
unfoldable pub controller_continuation :
    Protocol
    → List String
    → Database
    → ℕ
    → String
    → ControllerAction
    → ControllerInput
    → Result (Database × ContinuationResult)
unfolding controller change_continuation
controller_continuation p ids db now owner action i =
    change_continuation db now owner i.work_session_id (controller p ids action i)
