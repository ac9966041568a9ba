-- ===== src/Continuation/Once.antt =====
-- continuation.go, the dispatch fence and the consumption: what `prepare` and ConsumeWorkWake take
-- and leave.
use nexusdock.Shared.{
  ℕ, ◌+◌, ◌<◌, ◌≡◌, refl, ◌∙◌, String, List, [], ◌∷◌, some, true, false, arith, eq_iff,
}
use nexusdock.Continuation.Types.{
  claimed, prepared, consumed, Error, WorkWake, Attempt, Document, ContinuationResult,
  ResumeEnvelope, Protocol, ok, err, continuation_dispatch_timeout,
}
use nexusdock.Continuation.Document.{
  find_wake, set_wake, attempt_for_wake, set_attempt, is_set, valid_secret, wake_state,
  blocked_wake,
}
use nexusdock.Continuation.Store.{Database}
use nexusdock.Continuation.Controller.{ControllerInput}
use nexusdock.Continuation.Dispatch.{prepared_document, envelope, prepare}
use nexusdock.Continuation.Consume.{consumed_document, consume, is_dispatched}
use nexusdock.Continuation.Ensures.{
  Ensures, returns, returned, refuse, require, proceed, branch, chain, fails,
}
use nexusdock.Continuation.Evolution.{find_wake-id}
use nexusdock.Continuation.Attempts.{
  attempt_for_wake-set_attempt, attempt_for_wake-wake_id, Spent, Spent-attempt_for_wake,
}
use nexusdock.Continuation.Sound.{IsValid}

-- What is written to the wake that an id finds is found by that id.
pub find_wake-set_wake :
    (ws : List WorkWake) (id : String) (w v : WorkWake)
    → find_wake ws id ≡ some w
    → v.wake_id ≡ w.wake_id
    → find_wake (set_wake ws w.wake_id v) id ≡ some v
unfolding find_wake set_wake
find_wake-set_wake [] id w v h i = cc
find_wake-set_wake (x ∷ ws) id w v h i = ground (
  arith,
  eq_iff x.wake_id id,
  eq_iff x.wake_id w.wake_id,
  eq_iff v.wake_id id,
  find_wake-id ws id w,
  find_wake-set_wake ws id w v,
)

-- A document where the id finds a wake in the state, whose latest attempt is `b`.
pub record Holds (d : Document) (id : String) (v : WorkWake) (b : Attempt) : Type 0 where
  pub wake : find_wake d.wakes id ≡ some v
  pub attempt : attempt_for_wake d.attempts v.wake_id ≡ some b

written :
    (d e : Document) (id : String) (w v : WorkWake) (a b : Attempt)
    → find_wake d.wakes id ≡ some w
    → attempt_for_wake d.attempts w.wake_id ≡ some a
    → v.wake_id ≡ w.wake_id
    → b.wake_id ≡ a.wake_id
    → e.wakes ≡ set_wake d.wakes w.wake_id v
    → e.attempts ≡ set_attempt d.attempts w.wake_id b
    → Holds e id v b
written d e id w v a b h k i j x y = record {
  wake = rw x (find_wake-set_wake d.wakes id w v h i);
  attempt =
      rw (y, i)
        (attempt_for_wake-set_attempt d.attempts w.wake_id a b k
          (j ∙ attempt_for_wake-wake_id d.attempts w.wake_id a k));
}

-- What a successful `consume` took and left: a dispatched wake with its prepared attempt, the
-- credential of the envelope, and the outcomes; the wake is consumed and the credential gone.
pub record Consumes (p : Protocol) (i : ResumeEnvelope) (d d' : Document) (r : ContinuationResult)
    : Type 0 where
  pub before : WorkWake
  pub attempt : Attempt
  pub found : Holds d i.wake_id before attempt
  pub dispatched : is_dispatched before.state ≡ true
  pub credential : valid_secret p i.consume_token attempt.consume_hash ≡ true
  pub same_attempt : attempt.attempt_id ≡ i.attempt_id
  pub answer : r.outcomes ≡ before.sources
  pub after : WorkWake
  pub spent_attempt : Attempt
  pub left : Holds d' i.wake_id after spent_attempt
  pub taken : after.state ≡ consumed
  pub gone : spent_attempt.consume_hash ≡ ""

consume-Consumes_lem :
    (p : Protocol) (i : ResumeEnvelope) (db : Database) (d : Document) (now : ℕ)
    → Spent d.attempts
    → Ensures (λ r. Consumes p i d r.0 r.1) (consume p i db d now)
unfolding consume consumed_document
consume-Consumes_lem p i db d now s = refuse _ _ _ λ bound. require _ _ _ λ w h. refuse _ _ _ λ own.
    require _ _ _ λ a k. refuse _ _ _ λ secret. proceed _ _ λ targets. refuse _ _ _ λ sent.
      branch (is_set a.consumed_at) _ _
        (λ e. absurd (ground (arith, Spent-attempt_for_wake d.attempts w.wake_id a s k)))
        (λ e. returns (record {
          before = w;
          attempt = a;
          found = record { wake = h; attempt = k };
          dispatched = ground arith;
          credential = ground arith;
          same_attempt = ground (arith, eq_iff a.attempt_id i.attempt_id);
          answer = refl;
          after = wake_state w consumed now;
          spent_attempt = record a { consume_hash = ""; state = consumed; consumed_at = some now };
          left = written d _ i.wake_id w _ a _ h k refl refl refl refl;
          taken = refl;
          gone = refl;
        }))

-- In a valid document, a successful consume took the outcomes of a dispatched wake with the
-- credential of its latest attempt, and left the wake consumed and the credential erased.
pub consume-Consumes :
    (p : Protocol) (i : ResumeEnvelope) (db : Database) (d d' : Document) (now : ℕ)
    (r : ContinuationResult)
    → IsValid d
    → consume p i db d now ≡ ok (d', r)
    → Consumes p i d d' r
consume-Consumes p i db d d' now r v e = returned (consume-Consumes_lem p i db d now v.spent) e

-- No envelope is accepted for a wake whose latest attempt keeps no credential.
consume_without_credential :
    (p : Protocol) (i : ResumeEnvelope) (db : Database) (d : Document) (now : ℕ) (v : WorkWake)
    (b : Attempt)
    → Holds d i.wake_id v b
    → b.consume_hash ≡ ""
    → Ensures (λ _. ⊥) (consume p i db d now)
unfolding consume
consume_without_credential p i db d now v b s g = refuse _ _ _ λ bound. require _ _ _ λ w h.
    refuse _ _ _ λ own. require _ _ _ λ a k.
      refuse _ _ _ λ secret. absurd (ground (arith, s.wake, s.attempt, eq_iff a.consume_hash ""))

-- Once a wake of a valid document was consumed, no envelope consumes it again: every later
-- consume of the same wake on the document that was left fails, with any credential, at any time,
-- and whatever became of the other tables.
pub consume_once :
    (p : Protocol) (i j : ResumeEnvelope) (db db' : Database) (d d' : Document) (now later : ℕ)
    (r : ContinuationResult)
    → IsValid d
    → consume p i db d now ≡ ok (d', r)
    → j.wake_id ≡ i.wake_id
    → (e : Error) × (consume p j db' d' later ≡ err e)
consume_once p i j db db' d d' now later r v h same =
    let c = consume-Consumes p i db d d' now r v h in
    fails
      (consume_without_credential p j db' d' later c.after c.spent_attempt (rw same c.left) c.gone)

-- What a successful `prepare` took and left.
pub record Prepares (p : Protocol) (i : ControllerInput) (d d' : Document) (r : ContinuationResult)
    : Type 0 where
  pub before : WorkWake
  pub attempt : Attempt
  pub token : String
  pub found : Holds d i.wake_id before attempt
  pub claim : before.state ≡ claimed
  pub own : attempt.binding_id ≡ i.binding_id
  pub unblocked : blocked_wake d.wakes ≡ false
  pub enabled : d.state.enabled ≡ true
  pub consent : d.view_consent ≡ true
  pub rounds : d.state.rounds_used < d.state.max_rounds
  pub failures : d.state.failure_count < d.state.max_failures
  pub message : p.automatic_message (envelope i before attempt token) ≡ some r.automatic_message
  pub after : WorkWake
  pub sent : Attempt
  pub left : Holds d' i.wake_id after sent
  pub taken : after.state ≡ prepared
  pub stamped : is_set sent.prepared_at ≡ true
  pub hash : sent.consume_hash ≡ p.secret_hash token
  pub round : d'.state.rounds_used ≡ d.state.rounds_used + 1

prepare-Prepares_lem :
    (p : Protocol) (ids : List String) (i : ControllerInput) (db : Database) (d : Document)
    (now : ℕ)
    → Ensures (λ r. Prepares p i d r.0 r.1) (prepare p ids i db d now)
unfolding prepare prepared_document
prepare-Prepares_lem p ids i db d now = require _ _ _ λ w h. require _ _ _ λ a k.
    refuse _ _ _ λ own. refuse _ _ _ λ fence. refuse _ _ _ λ free. refuse _ _ _ λ on.
      proceed _ _ λ targets. chain _ _ λ token e. require _ _ _ λ m f. returns (record {
        before = w;
        attempt = a;
        token = token.0;
        found = record { wake = h; attempt = k };
        claim = ground arith;
        own = ground (arith, eq_iff a.binding_id i.binding_id);
        unblocked = free;
        enabled = ground arith;
        consent = ground arith;
        rounds = ground arith;
        failures = ground arith;
        message = f;
        after = wake_state w prepared now;
        sent = record a {
          state = prepared;
          prepared_at = some now;
          lease_expires_at = some (now + continuation_dispatch_timeout);
          consume_hash = p.secret_hash token.0;
        };
        left = written d _ i.wake_id w _ a _ h k refl refl refl refl;
        taken = refl;
        stamped = refl;
        hash = refl;
        round = refl;
      })

-- A successful prepare had an enabled session with consent, both budgets left, no unresolved
-- dispatch, and a wake that the same view had claimed; it returns the message of an envelope
-- whose token hashes to the credential that it stores, and uses exactly one round.
pub prepare-Prepares :
    (p : Protocol) (ids : List String) (i : ControllerInput) (db : Database) (d d' : Document)
    (now : ℕ) (r : ContinuationResult)
    → prepare p ids i db d now ≡ ok (d', r)
    → Prepares p i d d' r
prepare-Prepares p ids i db d d' now r e = returned (prepare-Prepares_lem p ids i db d now) e

prepare_behind_fence :
    (p : Protocol) (ids : List String) (i : ControllerInput) (db : Database) (d : Document)
    (now : ℕ) (v : WorkWake) (b : Attempt)
    → Holds d i.wake_id v b
    → is_set b.prepared_at ≡ true
    → Ensures (λ _. ⊥) (prepare p ids i db d now)
unfolding prepare
prepare_behind_fence p ids i db d now v b s g = require _ _ _ λ w h.
    require _ _ _
      λ a k. refuse _ _ _ λ own. refuse _ _ _ λ fence. absurd (ground (arith, s.wake, s.attempt))

-- After a successful prepare, every prepare of the same wake on the document that was left
-- fails, for any view and at any time: the message is returned once.
pub prepare_once :
    (p : Protocol) (ids ids' : List String) (i j : ControllerInput) (db db' : Database)
    (d d' : Document) (now later : ℕ) (r : ContinuationResult)
    → prepare p ids i db d now ≡ ok (d', r)
    → j.wake_id ≡ i.wake_id
    → (e : Error) × (prepare p ids' j db' d' later ≡ err e)
prepare_once p ids ids' i j db db' d d' now later r h same =
    let c = prepare-Prepares p ids i db d d' now r h in
    fails (prepare_behind_fence p ids' j db' d' later c.after c.sent (rw same c.left) c.stamped)
