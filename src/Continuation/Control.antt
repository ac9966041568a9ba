-- ===== src/Continuation/Control.antt =====
-- continuation.go, ControlContinuation: the actions of the model and of the user on a session.
use nexusdock.Shared.{
  ℕ, String, str_eq, is_blank, is_empty, text_append, List, [], ◌∷◌, Bool, true, false, ◌||◌, not,
  leb, ltb, ◌==◌, if◌then◌else◌, any, length, ℤ, pos, negsuc,
}
use nexusdock.Continuation.Types.{
  settled, Phase, invalid, continuation_confirmation_required, continuation_recovery_required,
  continuation_needs_attention, continuation_paused, continuation_wake_not_found,
  continuation_not_consumed, Result, ok, err, ◌>>=◌, ◌>>◌, refuse_if, or_fail, ContinuationSource,
  WorkWake, Attempt, Document, ContinuationResult, Protocol,
}
use nexusdock.Continuation.Document.{
  wake_state, is_settled, attempt_for_wake, set_attempt, update_attempt, find_wake, set_wake,
  blocked_wake, continuation_result, is_set,
}
use nexusdock.Continuation.Store.{Database, Handler, change_continuation}
use nexusdock.Continuation.Targets.{current_target}
use nexusdock.Continuation.Outcomes.{merge_stored_outcomes}

pub data Action : Type 0 where
  status enable pause recover await settle : Action
  -- any other text
  unknown : Action

pub record ContinuationInput : Type 0 where
  pub action : Action
  pub work_session_id : String
  pub confirmed : Bool
  pub max_rounds : ℤ
  pub max_failures : ℤ
  pub wake_id : String
  pub checkpoint : String
  pub sources : List ContinuationSource

-- A limit of 0 leaves the old one; any other has to lie in 1..top.
unfoldable pub set_limit : ℤ → ℕ → ℕ → Result ℕ
set_limit (negsuc n) top old = err invalid
set_limit (pos n) top old =
    if n == 0 then ok old else if ltb n 1 || ltb top n then err invalid else ok n

unfoldable pub enable_continuation : Document → ContinuationInput → Result Document
unfolding set_limit
enable_continuation d i = do
  refuse_if (not i.confirmed) continuation_confirmation_required
  refuse_if
      (leb d.state.max_failures d.state.failure_count || leb d.state.max_rounds d.state.rounds_used)
      continuation_recovery_required
  rounds ← set_limit i.max_rounds 100 d.state.max_rounds
  failures ← set_limit i.max_failures 10 d.state.max_failures
  ok (record d {
    state = record (d.state) {
      max_rounds = rounds;
      max_failures = failures;
      enabled = true;
      phase = Phase.ready;
    };
  })

unfoldable pub pause_continuation : Document → Document
pause_continuation d = record d {
  state = record (d.state) { enabled = false; phase = Phase.paused };
}

-- The wake that the user resolves by hand is settled, and its attempt can no longer be consumed.
unfoldable pub resolve_wake : Document → WorkWake → String → ℕ → Document
unfolding set_wake update_attempt
resolve_wake d w checkpoint now = if is_settled w.state then d else record d {
  wakes = set_wake d.wakes w.wake_id (wake_state w settled now);
  attempts = update_attempt d.attempts w.wake_id (λ a. record a {
    state = settled;
    last_error = text_append "manually resolved after explicit confirmation: " checkpoint;
    consume_hash = "";
  });
  state = record (d.state) { checkpoint = checkpoint };
}

unfoldable pub recover_wake : Document → ContinuationInput → ℕ → Result Document
unfolding find_wake resolve_wake
recover_wake d i now =
    if is_empty i.wake_id
    then ok d
    else (or_fail (find_wake d.wakes i.wake_id) invalid >>= λ w.
        refuse_if (is_blank i.checkpoint) invalid >> ok (resolve_wake d w i.checkpoint now))

unfoldable pub recover_continuation : Document → ContinuationInput → ℕ → Result Document
unfolding recover_wake blocked_wake
recover_continuation d i now = do
  refuse_if (not i.confirmed) continuation_confirmation_required
  d' ← recover_wake d i now
  refuse_if (blocked_wake d'.wakes) continuation_needs_attention
  ok (record d' {
    state = record (d'.state) {
      rounds_used = 0;
      failure_count = 0;
      last_error = "";
      enabled = true;
      phase = Phase.ready;
    };
  })

source_key : ContinuationSource → String
source_key s = text_append s.target_id (text_append "\0" s.command_session_id)

-- The loop over the sources of `await`, with the keys seen.
unfoldable pub check_sources :
    Database → String → List String → List ContinuationSource → Result (Unit {0})
unfolding source_key
check_sources db ws seen [] = ok tt
check_sources db ws seen (s ∷ ss) = do
  refuse_if (is_empty s.command_session_id || any (str_eq (source_key s)) seen) invalid
  _ ← current_target db ws s.target_id
  check_sources db ws (source_key s ∷ seen) ss

unfoldable pub await_sources :
    Protocol → List String → Database → Document → ContinuationInput → ℕ → Result Document
unfolding check_sources merge_stored_outcomes
await_sources p ids db d i now = do
  refuse_if (not d.state.enabled) continuation_paused
  refuse_if (length i.sources == 0 || ltb p.max_work_continuation_sources (length i.sources))
      invalid
  check_sources db i.work_session_id [] i.sources
  let waiting = record d { state = record (d.state) { sources = i.sources; phase = Phase.waiting } }
  (d', _) ← merge_stored_outcomes p db waiting now ids
  ok d'

unfoldable pub settle_attempt : Document → WorkWake → Attempt → String → ℕ → Document
unfolding set_wake set_attempt
settle_attempt d w a checkpoint now = record d {
  wakes = set_wake d.wakes w.wake_id (wake_state w settled now);
  attempts = set_attempt d.attempts w.wake_id (record a { state = settled });
  state = record (d.state) {
    checkpoint = checkpoint;
    failure_count = 0;
    last_error = "";
    phase = if d.state.enabled then Phase.ready else d.state.phase;
  };
}

unfoldable pub settle_wake : Document → ContinuationInput → ℕ → Result Document
unfolding find_wake attempt_for_wake settle_attempt
settle_wake d i now = do
  w ← or_fail (find_wake d.wakes i.wake_id) continuation_wake_not_found
  let settling =
      (or_fail (attempt_for_wake d.attempts w.wake_id) continuation_not_consumed >>= λ a.
      refuse_if (not (is_set a.consumed_at)) continuation_not_consumed
      >> (refuse_if (is_blank i.checkpoint) invalid >> ok (settle_attempt d w a i.checkpoint now)))
  if is_settled w.state then ok d else settling

-- The switch of ControlContinuation, on the document.
unfoldable pub control_action :
    Protocol → List String → ContinuationInput → Action → Database → Document → ℕ → Result Document
unfolding enable_continuation pause_continuation recover_continuation await_sources settle_wake
control_action p ids i status db d now = ok d
control_action p ids i enable db d now = enable_continuation d i
control_action p ids i pause db d now = ok (pause_continuation d)
control_action p ids i recover db d now = recover_continuation d i now
control_action p ids i await db d now = await_sources p ids db d i now
control_action p ids i settle db d now = settle_wake d i now
control_action p ids i unknown db d now = err invalid

unfoldable pub control : Protocol → List String → ContinuationInput → Handler
unfolding control_action continuation_result
control p ids i db d now = do
  d' ← control_action p ids i i.action db d now
  ok (d', continuation_result d')

-- ControlContinuation with an action other than `status`.
unfoldable pub control_continuation :
    Protocol
    → List String
    → Database
    → ℕ
    → String
    → ContinuationInput
    → Result (Database × ContinuationResult)
unfolding control change_continuation
control_continuation p ids db now owner i =
    change_continuation db now owner i.work_session_id (control p ids i)
