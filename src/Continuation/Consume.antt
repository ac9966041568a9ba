-- ===== src/Continuation/Consume.antt =====
-- continuation.go, ConsumeWorkWake: the model takes the outcomes of a wake, once.
use nexusdock.Shared.{ℕ, String, str_eq, some, Bool, true, false, ◌||◌, not, ◌==◌, if◌then◌else◌}
use nexusdock.Continuation.Types.{
  WakeState, prepared, dispatch_accepted, delivery_unknown, consumed, Phase,
  continuation_binding_denied, continuation_wake_not_found, continuation_consume_denied, Result, ok,
  ◌>>=◌, ◌>>◌, refuse_if, or_fail, WorkWake, Attempt, Document, ContinuationResult, ResumeEnvelope,
  Protocol,
}
use nexusdock.Continuation.Document.{
  valid_secret, wake_state, is_set, attempt_for_wake, set_attempt, find_wake, set_wake,
  continuation_result,
}
use nexusdock.Continuation.Store.{Database, Handler, change_continuation}
use nexusdock.Continuation.Targets.{validate_wake_targets}

abbrev pub is_dispatched : WakeState → Bool
is_dispatched prepared = true
is_dispatched dispatch_accepted = true
is_dispatched delivery_unknown = true
is_dispatched _ = false

unfoldable pub consumed_document : Document → WorkWake → Attempt → ℕ → Document
unfolding set_wake set_attempt
consumed_document d w a now = record d {
  wakes = set_wake d.wakes w.wake_id (wake_state w consumed now);
  attempts =
      set_attempt d.attempts w.wake_id
        (record a { consume_hash = ""; state = consumed; consumed_at = some now });
  state = record (d.state) { phase = Phase.processing };
}

-- The answer: the result, with the wake and the attempt of the envelope and their outcomes.
unfoldable pub consume_result : Document → WorkWake → Attempt → ContinuationResult
unfolding continuation_result
consume_result d w a = record (continuation_result d) {
  wake = some w;
  attempt = some a;
  outcomes = w.sources;
}

unfoldable pub consume : Protocol → ResumeEnvelope → Handler
unfolding find_wake attempt_for_wake consumed_document consume_result validate_wake_targets
consume p i db d now = do
  refuse_if
      (not (i.protocol_version == 1)
        || not (str_eq i.endpoint_id d.endpoint.endpoint_id)
        || not (i.controller_generation == d.endpoint.controller_generation))
      continuation_binding_denied
  w ← or_fail (find_wake d.wakes i.wake_id) continuation_wake_not_found
  refuse_if
      (not (str_eq w.endpoint_id i.endpoint_id)
        || not (w.controller_generation == i.controller_generation))
      continuation_wake_not_found
  a ← or_fail (attempt_for_wake d.attempts w.wake_id) continuation_consume_denied
  refuse_if
      (not (str_eq a.attempt_id i.attempt_id)
        || not (is_set a.prepared_at)
        || not (valid_secret p i.consume_token a.consume_hash))
      continuation_consume_denied
  validate_wake_targets db w
  refuse_if (not (is_dispatched w.state)) continuation_consume_denied
  let fresh = consumed_document d w a now
  let spent : Attempt = record a { consume_hash = ""; state = consumed; consumed_at = some now }
  if is_set a.consumed_at
      then ok (d, consume_result d w a)
      else ok (fresh, consume_result fresh (wake_state w consumed now) spent)

unfoldable pub consume_work_wake :
    Protocol → Database → ℕ → String → ResumeEnvelope → Result (Database × ContinuationResult)
unfolding consume change_continuation
consume_work_wake p db now owner i =
    change_continuation db now owner i.work_session_id (consume p i)
