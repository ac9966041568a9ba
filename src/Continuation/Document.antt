-- ===== src/Continuation/Document.antt =====
-- continuation.go, the helpers on a document: the wakes and attempts that a pointer names, the
-- expiry of leases, and the result that a caller sees.
use nexusdock.Shared.{
  ℕ, ◌+◌, String, str_eq, is_empty, List, [], ◌∷◌, Option, none, some, Bool, true, false, ◌&&◌,
  ◌||◌, not, leb, if◌then◌else◌, any, find_first,
}
use nexusdock.Continuation.Types.{
  WakeState, pending, claimed, prepared, dispatch_accepted, delivery_unknown, delivery_rejected,
  consumed, settled, Phase, circuit_open, WorkWake, Attempt, WorkContinuation, Document,
  ContinuationResult, Protocol, continuation_settlement_timeout,
}

-- time.Parse fails on the empty text; else the time has come when `now` is not before it.
abbrev pub is_expired : Option ℕ → ℕ → Bool
is_expired none now = true
is_expired (some t) now = leb t now

abbrev pub valid_secret : Protocol → String → String → Bool
valid_secret p value hash =
    not (is_empty value) && not (is_empty hash) && str_eq (p.secret_hash value) hash

abbrev pub wake_state : WorkWake → WakeState → ℕ → WorkWake
wake_state w state now = record w { state = state; updated_at = some now }

abbrev pub is_pending : WakeState → Bool
is_pending pending = true
is_pending _ = false

abbrev pub is_claimed : WakeState → Bool
is_claimed claimed = true
is_claimed _ = false

abbrev pub is_settled : WakeState → Bool
is_settled settled = true
is_settled _ = false

abbrev pub is_set : Option ℕ → Bool
is_set none = false
is_set (some t) = true

-- The last attempt for the wake.
unfoldable pub attempt_for_wake : List Attempt → String → Option Attempt
attempt_for_wake [] id = none
attempt_for_wake (a ∷ atts) id = elim (attempt_for_wake atts id) [
  | some b ↦ some b
  | none ↦ if str_eq a.wake_id id then some a else none
]

-- A write through the pointer that `attempt_for_wake` returns.
unfoldable pub set_attempt : List Attempt → String → Attempt → List Attempt
unfolding attempt_for_wake
set_attempt [] id b = []
set_attempt (a ∷ atts) id b =
    let rest = set_attempt atts id b in
    elim (attempt_for_wake atts id) [
      | some c ↦ a ∷ rest
      | none ↦ if str_eq a.wake_id id then b ∷ atts else a ∷ atts
    ]

-- A write when there is an attempt.
unfoldable pub update_attempt : List Attempt → String → (Attempt → Attempt) → List Attempt
unfolding set_attempt
update_attempt atts id f = elim (attempt_for_wake atts id) [
  | none ↦ atts
  | some a ↦ set_attempt atts id (f a)
]

-- The first wake with the id.
unfoldable pub find_wake : List WorkWake → String → Option WorkWake
find_wake ws id = find_first (λ w. str_eq w.wake_id id) ws

-- A write through the pointer that `find_wake` returns.
unfoldable pub set_wake : List WorkWake → String → WorkWake → List WorkWake
set_wake [] id v = []
set_wake (w ∷ ws) id v = if str_eq w.wake_id id then v ∷ ws else w ∷ set_wake ws id v

abbrev pub blocks : WakeState → Bool
blocks prepared = true
blocks dispatch_accepted = true
blocks delivery_unknown = true
blocks delivery_rejected = true
blocks consumed = true
blocks WakeState.needs_attention = true
blocks _ = false

unfoldable pub blocked_wake : List WorkWake → Bool
blocked_wake ws = any (λ w. blocks w.state) ws

unfoldable pub fail_continuation : WorkContinuation → String → WorkContinuation
fail_continuation s reason =
    let failed = record s { failure_count = s.failure_count + 1; last_error = reason } in
    if leb failed.max_failures failed.failure_count
    then record failed { enabled = false; phase = circuit_open }
    else failed

-- `if d.State.Enabled { d.State.Phase = "needs_attention" }`.
abbrev pub ask_attention : WorkContinuation → WorkContinuation
ask_attention s = if s.enabled then record s { phase = Phase.needs_attention } else s

-- What one round of the loop of expireContinuation leaves.
pub record Expiry : Type 0 where
  pub wake : WorkWake
  pub attempts : List Attempt
  pub state : WorkContinuation
  pub changed : Bool

expire_claim : WorkWake → Attempt → List Attempt → WorkContinuation → ℕ → Expiry
unfolding set_attempt
expire_claim w a atts s now =
    if is_expired a.lease_expires_at now
    then record {
      wake = wake_state w pending now;
      attempts =
          set_attempt atts w.wake_id
            (record a { state = delivery_rejected; last_error = "claim expired before dispatch" });
      state = s;
      changed = true;
    }
    else record { wake = w; attempts = atts; state = s; changed = false }

expire_dispatch : WorkWake → Attempt → List Attempt → WorkContinuation → ℕ → Expiry
unfolding set_attempt fail_continuation
expire_dispatch w a atts s now =
    if is_expired a.lease_expires_at now
    then record {
      wake = wake_state w delivery_unknown now;
      attempts = set_attempt atts w.wake_id (record a { state = delivery_unknown });
      state = ask_attention (fail_continuation s "dispatch outcome requires inspection");
      changed = true;
    }
    else record { wake = w; attempts = atts; state = s; changed = false }

-- The text of `consumed_at` fails to parse, or the settlement timeout has passed since.
abbrev pub settlement_overdue : Option ℕ → ℕ → Bool
settlement_overdue none now = true
settlement_overdue (some t) now = leb (t + continuation_settlement_timeout) now

expire_consumed : WorkWake → Attempt → List Attempt → WorkContinuation → ℕ → Expiry
unfolding set_attempt
expire_consumed w a atts s now =
    if settlement_overdue a.consumed_at now
    then record {
      wake = wake_state w WakeState.needs_attention now;
      attempts = set_attempt atts w.wake_id (record a { state = WakeState.needs_attention });
      state = record s {
        phase = Phase.needs_attention;
        last_error = "consumed work has not been settled";
      };
      changed = true;
    }
    else record { wake = w; attempts = atts; state = s; changed = false }

expire_attempt : WakeState → WorkWake → Attempt → List Attempt → WorkContinuation → ℕ → Expiry
unfolding expire_claim expire_dispatch expire_consumed
expire_attempt claimed w a atts s now = expire_claim w a atts s now
expire_attempt prepared w a atts s now = expire_dispatch w a atts s now
expire_attempt dispatch_accepted w a atts s now = expire_dispatch w a atts s now
expire_attempt consumed w a atts s now = expire_consumed w a atts s now
expire_attempt _ w a atts s now = record { wake = w; attempts = atts; state = s; changed = false }

unfoldable pub expire_wake : WorkWake → List Attempt → WorkContinuation → ℕ → Expiry
unfolding expire_attempt attempt_for_wake
expire_wake w atts s now = elim (attempt_for_wake atts w.wake_id) [
  | none ↦ record { wake = w; attempts = atts; state = s; changed = false }
  | some a ↦ expire_attempt w.state w a atts s now
]

pub record Sweep : Type 0 where
  pub wakes : List WorkWake
  pub attempts : List Attempt
  pub state : WorkContinuation
  pub changed : Bool

-- The loop of expireContinuation over the wakes.
unfoldable pub sweep : List WorkWake → List Attempt → WorkContinuation → ℕ → Sweep
unfolding expire_wake
sweep [] atts s now = record { wakes = []; attempts = atts; state = s; changed = false }
sweep (w ∷ ws) atts s now =
    let e = expire_wake w atts s now in
    let rest = sweep ws e.attempts e.state now in
    record {
      wakes = e.wake ∷ rest.wakes;
      attempts = rest.attempts;
      state = rest.state;
      changed = e.changed || rest.changed;
    }

-- The document after the sweep, and whether anything expired.
unfoldable pub expire_continuation : Document → ℕ → Document × Bool
unfolding sweep
expire_continuation d now =
    let s = sweep d.wakes d.attempts d.state now in
    (record d { wakes = s.wakes; attempts = s.attempts; state = s.state }, s.changed)

-- The loop of continuationResult: the id selected so far, and the wakes left.
select_wake : String → List WorkWake → String
select_wake selected [] = selected
select_wake selected (w ∷ ws) =
    let first = if is_empty selected then w.wake_id else selected in
    let rest = select_wake (if is_settled w.state then selected else first) ws in
    if is_settled w.state then rest else if is_pending w.state then rest else w.wake_id

unfoldable pub continuation_wake_result : Document → String → ContinuationResult
unfolding find_wake attempt_for_wake
continuation_wake_result d id =
    let w = find_wake d.wakes id in
    record {
      work_session_id = d.state.work_session_id;
      endpoint_id = d.endpoint.endpoint_id;
      controller_generation = d.endpoint.controller_generation;
      binding_id = d.endpoint.binding_id;
      lease_expires_at = d.endpoint.lease_expires_at;
      state = d.state;
      wake = w;
      attempt = elim w [ none ↦ none | some v ↦ attempt_for_wake d.attempts v.wake_id ];
      binding_secret = "";
      automatic_message = "";
      outcomes = [];
    }

unfoldable pub continuation_result : Document → ContinuationResult
unfolding select_wake continuation_wake_result
continuation_result d = continuation_wake_result d (select_wake "" d.wakes)
