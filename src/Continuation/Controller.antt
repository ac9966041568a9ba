-- ===== src/Continuation/Controller.antt =====
-- continuation.go, the side of the view: PresentContinuation, controllerIdentity and
-- ControllerContinuation.
use Prim.Native.String.{len}
use nexusdock.Shared.{
  ℕ, ◌+◌, String, str_eq, is_empty, List, [], ◌∷◌, ◌++◌, map, Option, none, some, Bool, false, ◌&&◌,
  ◌||◌, not, leb, ltb, ◌==◌, if◌then◌else◌,
}
use nexusdock.Continuation.Types.{
  pending, claimed, Phase, continuation_recovery_required, continuation_needs_attention,
  continuation_paused, continuation_wake_not_found, continuation_binding_denied,
  continuation_lease_expired, continuation_view_busy, continuation_budget_exhausted,
  continuation_dispatch_fenced, Result, ok, err, ◌>>=◌, ◌>>◌, refuse_if, or_fail, WorkWake, Attempt,
  WorkContinuation, Document, ContinuationResult, Protocol, continuation_lease,
  continuation_claim_lease,
}
use nexusdock.Continuation.Document.{
  is_expired, valid_secret, wake_state, is_pending, is_claimed, attempt_for_wake, find_wake,
  blocked_wake, continuation_result, continuation_wake_result,
}
use nexusdock.Continuation.Store.{Database, Handler, change_continuation}
use nexusdock.Continuation.Targets.{validate_wake_targets}
use nexusdock.Continuation.Outcomes.{next_id}

-- The claim of the old view is taken back, and the wakes that wait go to the new endpoint.
unfoldable pub present_wake : String → ℕ → ℕ → WorkWake → WorkWake
present_wake id generation now w =
    let v = if is_claimed w.state then wake_state w pending now else w in
    if is_pending v.state
    then record v { endpoint_id = id; controller_generation = generation }
    else v

-- The new presentation: `ids` supplies the endpoint's id and then its secret.
unfoldable pub present : Protocol → List String → String → Bool → Handler
unfolding present_wake blocked_wake continuation_result
present p ids ws recover db d now = do
  refuse_if (not (is_empty d.endpoint.endpoint_id) && not recover) continuation_recovery_required
  refuse_if (blocked_wake d.wakes) continuation_needs_attention
  (id, ids') ← next_id ids
  (secret, _) ← next_id ids'
  let generation = d.endpoint.controller_generation + 1
  let d' : Document = record d {
    endpoint = record {
      work_session_id = ws;
      endpoint_id = id;
      controller_generation = generation;
      binding_id = "";
      lease_expires_at = none;
    };
    binding_hash = p.secret_hash secret;
    view_consent = false;
    wakes = map (present_wake id generation now) d.wakes;
  }
  ok (d', record (continuation_result d') { binding_secret = secret })

unfoldable pub present_continuation :
    Protocol
    → List String
    → Database
    → ℕ
    → String
    → String
    → Bool
    → Result (Database × ContinuationResult)
unfolding present change_continuation
present_continuation p ids db now owner ws recover =
    change_continuation db now owner ws (present p ids ws recover)

-- Any text but the three is refused.
pub data DeliveryStatus : Type 0 where
  accepted rejected unknown other : DeliveryStatus

pub record ControllerInput : Type 0 where
  pub work_session_id : String
  pub endpoint_id : String
  pub controller_generation : ℕ
  pub binding_secret : String
  pub binding_id : String
  pub user_enabled : Bool
  pub wake_id : String
  pub attempt_id : String
  pub delivery_status : DeliveryStatus

unfoldable pub controller_identity :
    Protocol → Document → ControllerInput → ℕ → Bool → Result (Unit {0})
controller_identity p d i now lease = do
  refuse_if
      (is_empty i.endpoint_id
        || not (str_eq i.endpoint_id d.endpoint.endpoint_id)
        || not (i.controller_generation == d.endpoint.controller_generation)
        || not (valid_secret p i.binding_secret d.binding_hash))
      continuation_binding_denied
  refuse_if (is_empty i.binding_id || ltb 160 (len i.binding_id)) continuation_binding_denied
  refuse_if
      (lease
        && (not (str_eq i.binding_id d.endpoint.binding_id)
            || is_expired d.endpoint.lease_expires_at now))
      continuation_lease_expired

unfoldable pub bind : Document → ControllerInput → ℕ → Result Document
bind d i now = do
  refuse_if
      (not (is_empty d.endpoint.binding_id)
        && not (str_eq d.endpoint.binding_id i.binding_id)
        && not (is_expired d.endpoint.lease_expires_at now))
      continuation_view_busy
  let consent = str_eq d.endpoint.binding_id i.binding_id && d.view_consent
  ok (record d {
    endpoint = record (d.endpoint) {
      binding_id = i.binding_id;
      lease_expires_at = some (now + continuation_lease);
    };
    view_consent = consent || i.user_enabled;
  })

unfoldable pub heartbeat : Document → ℕ → Document
heartbeat d now = record d {
  endpoint = record (d.endpoint) { lease_expires_at = some (now + continuation_lease) };
}

unfoldable pub pause_view : Document → Document
pause_view d = record d {
  state = record (d.state) { enabled = false; phase = Phase.paused };
  view_consent = false;
}

abbrev pub over_budget : WorkContinuation → Bool
over_budget s = leb s.max_rounds s.rounds_used || leb s.max_failures s.failure_count

-- The requested wake has to exist and to be pending or claimed.
unfoldable pub check_requested : Document → String → Result (Unit {0})
unfolding find_wake
check_requested d id =
    if is_empty id
    then ok tt
    else (or_fail (find_wake d.wakes id) continuation_wake_not_found >>= λ w.
        refuse_if (not (is_pending w.state) && not (is_claimed w.state))
          continuation_dispatch_fenced)

abbrev pub first_claimed : List WorkWake → Option WorkWake
first_claimed [] = none
first_claimed (w ∷ ws) = if is_claimed w.state then some w else first_claimed ws

-- A claim is given again to the view that holds it, and to no other.
unfoldable pub reclaim :
    Document → ControllerInput → WorkWake → Result (Document × ContinuationResult)
unfolding attempt_for_wake continuation_wake_result
reclaim d i w = do
  a ← or_fail (attempt_for_wake d.attempts w.wake_id) continuation_view_busy
  refuse_if
      (not (str_eq a.binding_id i.binding_id && (is_empty i.wake_id || str_eq i.wake_id w.wake_id)))
      continuation_view_busy
  ok (d, continuation_wake_result d w.wake_id)

-- A pending wake that is requested, or any when none is.
abbrev pub wanted : ControllerInput → WorkWake → Bool
wanted i w = is_pending w.state && (is_empty i.wake_id || str_eq w.wake_id i.wake_id)

unfoldable pub first_wanted : ControllerInput → List WorkWake → Option WorkWake
first_wanted i [] = none
first_wanted i (w ∷ ws) = if wanted i w then some w else first_wanted i ws

-- The write to that wake through its index.
unfoldable pub claim_wanted : ControllerInput → ℕ → List WorkWake → List WorkWake
claim_wanted i now [] = []
claim_wanted i now (w ∷ ws) =
    if wanted i w then wake_state w claimed now ∷ ws else w ∷ claim_wanted i now ws

unfoldable pub new_attempt : String → WorkWake → ControllerInput → ℕ → Attempt
new_attempt id w i now = record {
  attempt_id = id;
  wake_id = w.wake_id;
  state = claimed;
  lease_expires_at = some (now + continuation_claim_lease);
  prepared_at = none;
  consumed_at = none;
  finished_at = none;
  last_error = "";
  binding_id = i.binding_id;
  consume_hash = "";
}

unfoldable pub claim :
    List String
    → Database
    → Document
    → ControllerInput
    → ℕ
    → WorkWake
    → Result (Document × ContinuationResult)
unfolding claim_wanted new_attempt continuation_wake_result validate_wake_targets
claim ids db d i now w = do
  validate_wake_targets db w
  (id, _) ← next_id ids
  let d' : Document = record d {
    wakes = claim_wanted i now d.wakes;
    attempts = d.attempts ++ new_attempt id w i now ∷ [];
  }
  ok (d', continuation_wake_result d' w.wake_id)

-- The claims and the pending wakes, when no dispatch is unresolved. The source looks up the
-- requested wake once more in between, and looks for claims once more in its last loop; both
-- come to nothing after the tests above.
unfoldable pub acquire_open :
    List String → Database → Document → ControllerInput → ℕ → Result (Document × ContinuationResult)
unfolding reclaim first_wanted claim continuation_result
acquire_open ids db d i now = elim (first_claimed d.wakes) [
  | some w ↦ reclaim d i w
  | none ↦ elim (first_wanted i d.wakes) [
    | some w ↦ claim ids db d i now w
    | none ↦ ok (d, continuation_result d)
  ]
]

unfoldable pub acquire :
    List String → ControllerInput → Database → Document → ℕ → Result (Document × ContinuationResult)
unfolding check_requested acquire_open blocked_wake continuation_result
acquire ids i db d now = do
  refuse_if (not d.state.enabled || not d.view_consent) continuation_paused
  refuse_if (over_budget d.state) continuation_budget_exhausted
  check_requested d i.wake_id
  let blocked =
      if is_empty i.wake_id then ok (d, continuation_result d) else err continuation_needs_attention
  if blocked_wake d.wakes then blocked else acquire_open ids db d i now
