-- ===== src/Continuation/History.antt =====
-- Histories of the store: any sequence of transactions of the continuation, by any callers, with
-- the changes of the other tables in between.
use nexusdock.Shared.{
  All, All-weaken, ◌≢◌, ◌⊎◌, inl, inr, ◌≤◌, ◌∙◌, arith, [], ℕ, ◌≡◌, String, List, Bool,
}
use nexusdock.Continuation.Types.{
  WorkWake, Document, Protocol, CommandOutcome, ResumeEnvelope, ContinuationResult, Result, ok,
}
use nexusdock.Continuation.Store.{Database, read_continuation}
use nexusdock.Continuation.Control.{ContinuationInput, control, control_continuation}
use nexusdock.Continuation.Controller.{ControllerInput, present, present_continuation}
use nexusdock.Continuation.Dispatch.{ControllerAction, controller, controller_continuation}
use nexusdock.Continuation.Consume.{consume, consume_work_wake}
use nexusdock.Continuation.Receipts.{record_command_outcomes}
use nexusdock.Continuation.Ensures.{returned}
use nexusdock.Continuation.Evolution.{Evolves, rank, grow, move, drop}
use nexusdock.Continuation.Safety.{control_handler-Sound}
use nexusdock.Continuation.ViewSafety.{present-Sound, controller-Sound, consume-Sound}
use nexusdock.Continuation.Advance.{
  Stored, Any, all-Any, wakes_of, Advance, Advance-refl, Advance-trans, Advance-same,
  change-Advance, read-Advance,
}
use nexusdock.Continuation.Batch.{record-Advance}

pub data Step (p : Protocol) : Database → Database → Type 0 where
  controls :
      {db db' : Database} (ids : List String) (now : ℕ) (owner : String) (i : ContinuationInput)
      (r : ContinuationResult)
      → control_continuation p ids db now owner i ≡ ok (db', r)
      → Step p db db'
  presents :
      {db db' : Database} (ids : List String) (now : ℕ) (owner ws : String) (recover : Bool)
      (r : ContinuationResult)
      → present_continuation p ids db now owner ws recover ≡ ok (db', r)
      → Step p db db'
  views :
      {db db' : Database} (ids : List String) (now : ℕ) (owner : String) (action : ControllerAction)
      (i : ControllerInput) (r : ContinuationResult)
      → controller_continuation p ids db now owner action i ≡ ok (db', r)
      → Step p db db'
  consumes :
      {db db' : Database} (now : ℕ) (owner : String) (i : ResumeEnvelope) (r : ContinuationResult)
      → consume_work_wake p db now owner i ≡ ok (db', r)
      → Step p db db'
  records :
      {db db' : Database} (node : String) (os : List (CommandOutcome × ℕ)) (now : ℕ)
      (ids acks : List String)
      → record_command_outcomes p db node os now ids ≡ ok (db', acks)
      → Step p db db'
  -- a read, whose snapshot `old` other writers may have overtaken
  reads :
      {db db' : Database} (old : Database) (now later : ℕ) (owner ws : String)
      (validate : Document → ℕ → Result (Unit {0})) (r : ContinuationResult)
      → read_continuation old now db later owner ws validate ≡ ok (db', r)
      → Step p db db'
  -- a change of the tables that the continuation only reads, or of the receipts
  others : {db db' : Database} → db'.work_continuations ≡ db.work_continuations → Step p db db'

pub data Reach (p : Protocol) (db : Database) : Database → Type 0 where
  here : Reach p db db
  then : {db' db'' : Database} → Reach p db db' → Step p db' db'' → Reach p db db''

-- The texts that the random source gives to a transaction.
abbrev pub supplied : {p : Protocol} {db db' : Database} → Step p db db' → List String
supplied (controls ids now owner i r e) = ids
supplied (presents ids now owner ws recover r e) = ids
supplied (views ids now owner action i r e) = ids
supplied (consumes now owner i r e) = []
supplied (records node os now ids acks e) = ids
supplied (reads old now later owner ws validate r e) = []
supplied (others e) = []

-- Every text that the random source gives in the history has the property.
abbrev pub Supplies :
    {p : Protocol} {db db' : Database} → (String → Type 0) → Reach p db db' → Type 0
Supplies N here = Unit
Supplies N (then r s) = Supplies N r × All N (supplied s)

Step-Advance :
    (N : String → Type 0) {p : Protocol} {db db' : Database} (s : Step p db db')
    → All N (supplied s)
    → Advance N db db'
unfolding control_continuation present_continuation controller_continuation consume_work_wake
Step-Advance N {p} {db} (controls ids now owner i r e) a =
    returned
      (change-Advance db now owner i.work_session_id (control p ids i)
        λ d. control_handler-Sound p ids i db d now a)
      e
Step-Advance N {p} {db} (presents ids now owner ws recover r e) a =
    returned
      (change-Advance db now owner ws (present p ids ws recover)
        λ d. present-Sound p ids ws recover db d now)
      e
Step-Advance N {p} {db} (views ids now owner action i r e) a =
    returned
      (change-Advance db now owner i.work_session_id (controller p ids action i)
        λ d. controller-Sound p ids action i db d now)
      e
Step-Advance N {p} {db} (consumes now owner i r e) a =
    returned
      (change-Advance db now owner i.work_session_id (consume p i) λ d. consume-Sound p i db d now)
      e
Step-Advance N {p} (records node os now ids acks e) a =
    returned (record-Advance N p _ node os now ids a) e
Step-Advance N (reads old now later owner ws validate r e) a =
    returned (read-Advance old now _ later owner ws validate) e
Step-Advance N (others e) a = Advance-same _ _ e

Reach-Advance :
    (N : String → Type 0) {p : Protocol} {db db' : Database} (r : Reach p db db')
    → Supplies N r
    → Advance N db db'
Reach-Advance N here a = Advance-refl _
Reach-Advance N (then r s) a = Advance-trans (Reach-Advance N r a.0) (Step-Advance N s a.1)

Supplies-Any : {p : Protocol} {db db' : Database} (r : Reach p db db') → Supplies Any r
Supplies-Any here = tt
Supplies-Any (then r s) = (Supplies-Any r, all-Any (supplied s))

-- In every history that starts from valid documents, such as none, each stored document is that
-- of its session and has at most one wake in flight (claimed, or dispatched and not settled),
-- 1..100 rounds of which at most 100 are used, 1..10 failures, and no consume credential left in
-- an attempt that was consumed.
pub Reach-Stored : (p : Protocol) (db db' : Database) → Reach p db db' → Stored db → Stored db'
Reach-Stored p db db' r s = (Reach-Advance Any r (Supplies-Any r)).stored s

-- A wake with the id, where there is one, has come at least as far as `n`.
abbrev pub Past : ℕ → String → List WorkWake → Type 0
Past n k ws = All (λ w. (w.wake_id ≢ k) ⊎ (n ≤ rank w.state)) ws

Evolves-Past :
    (n : ℕ) (k : String) {ws vs : List WorkWake}
    → Evolves (λ id. id ≢ k) ws vs
    → Past n k ws
    → Past n k vs
Evolves-Past n k (grow vs a) h = All-weaken vs (λ v b. inl b) a
Evolves-Past n k (move i r e) h = (
  elim h.0 [ inl d ↦ inl (λ t. d (i ∙ t)) | inr m ↦ inr (omega (arith, m, r)) ],
  Evolves-Past n k e h.1,
)
Evolves-Past n k (drop e) h = Evolves-Past n k e h.1

-- In a history that starts from valid documents, and in which the random source does not give the
-- id `k` again, a wake with that id never falls behind: once it has come as far as `n` (1 is
-- prepared, 2 accepted, 3 unknown, 4 rejected, 5 consumed, 6 needs attention, 7 settled), each
-- wake with that id that the session has at any later time has come as far. So no wake that
-- crossed the dispatch fence is ever pending or claimed again.
pub Reach-Past :
    (p : Protocol) (db db' : Database) (ws k : String) (n : ℕ) (r : Reach p db db')
    → Stored db
    → Supplies (λ id. id ≢ k) r
    → Past n k (wakes_of db ws)
    → Past n k (wakes_of db' ws)
Reach-Past p db db' ws k n r s f h =
    Evolves-Past n k ((Reach-Advance (λ id. id ≢ k) r f).evolves s ws) h
