-- ===== src/Continuation/ViewSafety.antt =====
-- The handlers of the view and of ConsumeWorkWake, under the relation Sound.
use nexusdock.Shared.{
  ℕ, ◌+◌, ◌≤◌, ◌≡◌, refl, String, is_empty, List, none, some, Bool, true, false, ◌&&◌, not, arith,
  Bool-cases, Option-cases, inl, inr,
}
use nexusdock.Continuation.Types.{
  prepared, consumed, WakeState, WorkWake, Attempt, WorkContinuation, Document, Protocol,
  ResumeEnvelope, ContinuationResult,
}
use nexusdock.Continuation.Document.{find_wake, attempt_for_wake, blocked_wake, is_set, wake_state}
use nexusdock.Continuation.Store.{Database}
use nexusdock.Continuation.Controller.{
  ControllerInput, DeliveryStatus, present, bind, heartbeat, pause_view, first_claimed,
  first_wanted, new_attempt, reclaim, claim, acquire_open, acquire,
}
use nexusdock.Continuation.Dispatch.{
  prepared_document, prepare, delivered, takes_status, count_delivery, finished_document, finish,
  ControllerAction, state, binds, beats, pauses, acquires, prepares, finishes, undefined,
  controller_action, controller,
}
use nexusdock.Continuation.Consume.{consumed_document, consume}
use nexusdock.Continuation.Ensures.{
  Ensures, returns, returned, refuse, require, proceed, branch, chain,
}
use nexusdock.Continuation.Evolution.{
  Evolves-refl, rank, weight, present_wake-Tamer, claim_wanted-Evolves, no_flights,
}
use nexusdock.Continuation.Attempts.{Spent, Spent-set_attempt, Spent-attempt_for_wake, Spent-append}
use nexusdock.Continuation.Sound.{Limits, Sound, Sound-refl}
use nexusdock.Continuation.Safety.{Sound-write}

abbrev pub Kept : (String → Type 0) → Document → Document × ContinuationResult → Type 0
Kept N d r = Sound N d r.0

-- Neither the wakes, nor the attempts, nor the session change.
Sound-endpoint :
    {N : String → Type 0} (d e : Document)
    → e.wakes ≡ d.wakes
    → e.attempts ≡ d.attempts
    → (Limits d.state → Limits e.state)
    → e.state.work_session_id ≡ d.state.work_session_id
    → Sound N d e
Sound-endpoint d e w a l s = record {
  evolves = rw w (Evolves-refl d.wakes);
  valid = λ v. record { flight = rw w v.flight; limits = l v.limits; spent = rw a v.spent };
  session = s;
}

pub present-Sound :
    {N : String → Type 0} (p : Protocol) (ids : List String) (ws : String) (recover : Bool)
    (db : Database) (d : Document) (now : ℕ)
    → Ensures (Kept N d) (present p ids ws recover db d now)
unfolding present
present-Sound p ids ws recover db d now = refuse _ _ _ λ fresh. refuse _ _ _ λ free.
    chain _ _ λ id e. chain _ _ λ secret f.
      let tamer = present_wake-Tamer id.0 (d.endpoint.controller_generation + 1) now d.wakes in
      returns (record {
        evolves = tamer.evolves;
        valid = λ v. record {
          flight = omega (arith, tamer.fewer, v.flight);
          limits = v.limits;
          spent = v.spent;
        };
        session = refl;
      })

claim-Sound :
    {N : String → Type 0} (ids : List String) (db : Database) (d : Document) (i : ControllerInput)
    (now : ℕ) (w : WorkWake)
    → blocked_wake d.wakes ≡ false
    → first_claimed d.wakes ≡ none
    → Ensures (Kept N d) (claim ids db d i now w)
unfolding claim
claim-Sound ids db d i now w free open_ = proceed _ _ λ targets. chain _ _ λ id e.
    let claimed = claim_wanted-Evolves i now d.wakes in
    returns (record {
      evolves = claimed.0;
      valid = λ v. record {
        flight = omega (arith, claimed.1, no_flights d.wakes free open_);
        limits = v.limits;
        spent =
            Spent-append d.attempts (new_attempt id.0 w i now) v.spent (unfold new_attempt in refl);
      };
      session = refl;
    })

acquire_open-Sound :
    {N : String → Type 0} (ids : List String) (db : Database) (d : Document) (i : ControllerInput)
    (now : ℕ)
    → blocked_wake d.wakes ≡ false
    → Ensures (Kept N d) (acquire_open ids db d i now)
unfolding acquire_open reclaim
acquire_open-Sound ids db d i now free = elim (Option-cases (first_claimed d.wakes)) [
  | inr (w, e) ↦
      rw (e, acquire_open) (require _ _ _ λ a h. refuse _ _ _ λ mine. returns (Sound-refl d))
  | inl e ↦ elim (Option-cases (first_wanted i d.wakes)) [
    | inr (w, f) ↦ rw (e, f, acquire_open) (claim-Sound ids db d i now w free e)
    | inl f ↦ rw (e, f, acquire_open) (returns (Sound-refl d))
  ]
]

acquire-Sound :
    {N : String → Type 0} (ids : List String) (i : ControllerInput) (db : Database) (d : Document)
    (now : ℕ)
    → Ensures (Kept N d) (acquire ids i db d now)
unfolding acquire
acquire-Sound ids i db d now = refuse _ _ _ λ on. refuse _ _ _ λ budget. proceed _ _ λ requested.
    branch (blocked_wake d.wakes) _ _
      (λ b. branch (is_empty i.wake_id) _ _ (λ e. returns (Sound-refl d)) (λ e. Ensures.raises))
      (λ free. acquire_open-Sound ids db d i now free)

prepare-Sound :
    {N : String → Type 0} (p : Protocol) (ids : List String) (i : ControllerInput) (db : Database)
    (d : Document) (now : ℕ)
    → Ensures (Kept N d) (prepare p ids i db d now)
unfolding prepare prepared_document
prepare-Sound p ids i db d now = require _ _ _ λ w h. require _ _ _ λ a k. refuse _ _ _ λ own.
    refuse _ _ _ λ fence. refuse _ _ _ λ free. refuse _ _ _ λ on. proceed _ _ λ targets.
      chain _ _ λ token e. require _ _ _ λ m f.
        let fresh = λ (s : Spent d.attempts). Spent-attempt_for_wake d.attempts w.wake_id a s k in
        returns (
          Sound-write d _ i.wake_id w (wake_state w prepared now) h refl (ground arith)
            (ground arith) refl
            (λ s. Spent-set_attempt d.attempts w.wake_id _ s (ground (arith, fresh s)))
            (λ l. ground arith) refl)

-- The states that a delivery status gives.
taken-rank :
    (i : DeliveryStatus) (s : WakeState × String) (t : WakeState)
    → delivered i ≡ some s
    → takes_status t s.0 ≡ true
    → (rank t ≤ rank s.0) × (weight s.0 ≤ weight t)
taken-rank i s t h k = ground arith

count_delivery-Limits :
    (s : WorkContinuation) (status : WakeState × String)
    → (Limits s → Limits (count_delivery s status))
      × ((count_delivery s status).work_session_id ≡ s.work_session_id)
unfolding count_delivery
count_delivery-Limits s (t, reason) = ((λ l. ground arith), ground arith)

finished-Sound :
    {N : String → Type 0} (i : ControllerInput) (d : Document) (now : ℕ)
    (status : WakeState × String) (w : WorkWake) (a : Attempt)
    → delivered i.delivery_status ≡ some status
    → find_wake d.wakes i.wake_id ≡ some w
    → attempt_for_wake d.attempts w.wake_id ≡ some a
    → Sound N d (finished_document d w a status now)
unfolding finished_document
finished-Sound i d now status w a s h k =
    let old = λ (c : Spent d.attempts). Spent-attempt_for_wake d.attempts w.wake_id a c k in
    elim (Bool-cases (not (is_set a.consumed_at) && takes_status w.state status.0)) [
      | inl e ↦
          let r = taken-rank i.delivery_status status w.state s (ground arith) in
          rw (e, finished_document)
            (Sound-write d _ i.wake_id w (wake_state w status.0 now) h refl r.0 r.1 refl
              (λ c. Spent-set_attempt d.attempts w.wake_id _ c (old c))
              (count_delivery-Limits d.state status).0 (count_delivery-Limits d.state status).1)
      | inr e ↦
          rw (e, finished_document)
            (record {
              evolves = Evolves-refl d.wakes;
              valid = λ v. record {
                flight = v.flight;
                limits = v.limits;
                spent = Spent-set_attempt d.attempts w.wake_id _ v.spent (old v.spent);
              };
              session = refl;
            })
    ]

finish-Sound :
    {N : String → Type 0} (i : ControllerInput) (d : Document) (now : ℕ)
    → Ensures (Kept N d) (finish i d now)
unfolding finish
finish-Sound i d now = require _ _ _ λ status s. require _ _ _ λ w h. require _ _ _ λ a k.
    refuse _ _ _ λ own. returns (elim (Bool-cases (is_set a.finished_at)) [
      | inl e ↦ rw e (Sound-refl d)
      | inr e ↦ rw e (finished-Sound i d now status w a s h k)
    ])

pub consume-Sound :
    {N : String → Type 0} (p : Protocol) (i : ResumeEnvelope) (db : Database) (d : Document)
    (now : ℕ)
    → Ensures (Kept N d) (consume p i db d now)
unfolding consume consumed_document
consume-Sound p i db d now = refuse _ _ _ λ bound. require _ _ _ λ w h. refuse _ _ _ λ own.
    require _ _ _ λ a k. refuse _ _ _ λ secret. proceed _ _ λ targets. refuse _ _ _ λ sent.
      branch (is_set a.consumed_at) _ _ (λ e. returns (Sound-refl d))
        (λ e. returns (
          Sound-write d _ i.wake_id w (wake_state w consumed now) h refl (ground arith)
            (ground arith) refl (λ s. Spent-set_attempt d.attempts w.wake_id _ s (ground arith))
            (λ l. ground arith) refl))

bind-Sound :
    {N : String → Type 0} (d : Document) (i : ControllerInput) (now : ℕ)
    → Ensures (Sound N d) (bind d i now)
unfolding bind
bind-Sound d i now = refuse _ _ _ λ busy. returns (Sound-endpoint d _ refl refl (λ l. l) refl)

controller_action-Sound :
    {N : String → Type 0} (p : Protocol) (ids : List String) (i : ControllerInput)
    (action : ControllerAction) (db : Database) (d : Document) (now : ℕ)
    → Ensures (Kept N d) (controller_action p ids i action db d now)
unfolding controller_action heartbeat pause_view
controller_action-Sound p ids i state db d now = returns (Sound-refl d)
controller_action-Sound p ids i binds db d now =
    chain _ _ λ e h. returns (returned (bind-Sound d i now) h)
controller_action-Sound p ids i beats db d now =
    returns (Sound-endpoint d _ refl refl (λ l. l) refl)
controller_action-Sound p ids i pauses db d now =
    returns (Sound-endpoint d _ refl refl (λ l. ground arith) refl)
controller_action-Sound p ids i acquires db d now = acquire-Sound ids i db d now
controller_action-Sound p ids i prepares db d now = prepare-Sound p ids i db d now
controller_action-Sound p ids i finishes db d now = finish-Sound i d now
controller_action-Sound p ids i undefined db d now = Ensures.raises

-- The actions of ControllerContinuation.
pub controller-Sound :
    {N : String → Type 0} (p : Protocol) (ids : List String) (action : ControllerAction)
    (i : ControllerInput) (db : Database) (d : Document) (now : ℕ)
    → Ensures (Kept N d) (controller p ids action i db d now)
unfolding controller
controller-Sound p ids action i db d now =
    proceed _ _ λ identity. controller_action-Sound p ids i action db d now
