-- ===== src/Continuation/Reads.antt =====
-- continuation.go, readContinuation and changeContinuation: what a caller sees, and what a
-- transaction can touch.
use nexusdock.Shared.{
  ◌⊎◌, true, subst, ℕ, ◌≡◌, ◌≢◌, refl, ◌∙◌, String, str_eq, List, some, Bool, false, arith,
  is_blank, eq_iff, Bool-cases, inl, inr, find_first,
}
use nexusdock.Continuation.Types.{
  Document, ContinuationResult, Protocol, ResumeEnvelope, Result, ok, ◌>>=◌, ◌>>◌,
}
use nexusdock.Continuation.Document.{expire_continuation, continuation_result}
use nexusdock.Continuation.Store.{
  Database, Handler, SessionRow, find_document, load_continuation, touch, save_continuation,
  change_continuation, read_continuation,
}
use nexusdock.Continuation.Control.{ContinuationInput, control, control_continuation}
use nexusdock.Continuation.Controller.{ControllerInput, present, present_continuation}
use nexusdock.Continuation.Dispatch.{ControllerAction, controller, controller_continuation}
use nexusdock.Continuation.Consume.{consume, consume_work_wake}
use nexusdock.Continuation.Safety.{control_handler-Sound}
use nexusdock.Continuation.ViewSafety.{present-Sound, controller-Sound, consume-Sound}
use nexusdock.Continuation.Ensures.{
  Ensures, returns, returned, chain, refuse, require, proceed, branch,
}
use nexusdock.Continuation.Expiry.{expire_again, expire_unchanged}
use nexusdock.Continuation.Sound.{Sound, Sound-trans, expire-Sound, touch-Sound}
use nexusdock.Continuation.Advance.{Stored, Any, all-Any, find_document-put, load-Loaded}

-- What a status read answers from a snapshot with `d` at `now`, and from a database `db'` with `d'`
-- at `later`: the whole answer is that of a document with nothing overdue at the time of the
-- answer. That document is `d` when nothing of it has expired, and then nothing is written; and
-- else it is `d'` after the sweep, which is saved.
pub record Shows (db' : Database) (now later : ℕ) (d d' : Document)
    (r : Result (Database × ContinuationResult)) : Type 0 where
  pub left : Database
  pub document : Document
  pub time : ℕ
  pub answer : r ≡ ok (left, continuation_result document)
  pub current : (expire_continuation document time).1 ≡ false
  pub source :
      (((expire_continuation d now).1 ≡ false) × (time ≡ now) × (document ≡ d) × (left ≡ db'))
      ⊎ (((expire_continuation d now).1 ≡ true)
          × (time ≡ later)
          × (document ≡ touch (expire_continuation d' later).0 later)
          × (left ≡ save_continuation db' document later))

-- When the session can be loaded from the snapshot and, at a later time, from the database that
-- other writers may have left meanwhile, and both documents pass the caller's check, then the
-- status read succeeds and shows nothing overdue: without a write when nothing of the snapshot has
-- expired, and else with the later document after its sweep, which is saved.
pub status_read :
    (db db' : Database) (now later : ℕ) (owner ws : String) (d d' : Document)
    (validate : Document → ℕ → Result (Unit {0}))
    → load_continuation db owner ws ≡ ok d
    → load_continuation db' owner ws ≡ ok d'
    → validate d now ≡ ok tt
    → validate (touch (expire_continuation d' later).0 later) later ≡ ok tt
    → Shows db' now later d d' (read_continuation db now db' later owner ws validate)
unfolding read_continuation change_continuation ◌>>=◌ ◌>>◌ touch
status_read db db' now later owner ws d d' validate h h' v v' =
    elim (Bool-cases (expire_continuation d now).1) [
      | inl late ↦ record {
        left = save_continuation db' (touch (expire_continuation d' later).0 later) later;
        document = touch (expire_continuation d' later).0 later;
        time = later;
        answer = rw (h, v, late, h', v') refl;
        current = expire_again d' later _;
        source = inr (late, refl, refl, refl);
      }
      | inr fresh ↦ record {
        left = db';
        document = d;
        time = now;
        answer = rw (h, v, fresh, expire_unchanged d now fresh) refl;
        current = fresh;
        source = inl (fresh, refl, refl, refl);
      }
    ]

-- The session is there, and is the caller's.
pub record Owns (db : Database) (owner ws : String) : Type 0 where
  pub session : SessionRow
  pub found : find_first (λ s. str_eq s.id ws) db.work_sessions ≡ some session
  pub own : session.owner_key ≡ owner
  pub named : is_blank owner ≡ false

load-Owns :
    (db : Database) (owner ws : String)
    → Ensures (λ d. Owns db owner ws) (load_continuation db owner ws)
unfolding load_continuation
load-Owns db owner ws = refuse _ _ _ λ named. require _ _ _ λ session h. refuse _ _ _ λ own.
    returns (record {
      session = session;
      found = h;
      own = ground (arith, own, eq_iff session.owner_key owner);
      named = ground (arith, named);
    })

change-Owns :
    (db : Database) (now : ℕ) (owner ws : String) (fn : Handler)
    → Ensures (λ r. Owns db owner ws) (change_continuation db now owner ws fn)
unfolding change_continuation
change-Owns db now owner ws fn =
    chain _ _ λ d e. chain _ _ λ r f. returns (returned (load-Owns db owner ws) e)

-- A transaction or a read of `owner` on the session `ws` that succeeds.
pub data Serves (p : Protocol) (db : Database) (owner ws : String) : Type 0 where
  controls :
      (ids : List String) (now : ℕ) (i : ContinuationInput) (r : Database × ContinuationResult)
      → i.work_session_id ≡ ws
      → control_continuation p ids db now owner i ≡ ok r
      → Serves p db owner ws
  presents :
      (ids : List String) (now : ℕ) (recover : Bool) (r : Database × ContinuationResult)
      → present_continuation p ids db now owner ws recover ≡ ok r
      → Serves p db owner ws
  views :
      (ids : List String) (now : ℕ) (action : ControllerAction) (i : ControllerInput)
      (r : Database × ContinuationResult)
      → i.work_session_id ≡ ws
      → controller_continuation p ids db now owner action i ≡ ok r
      → Serves p db owner ws
  consumes :
      (now : ℕ) (i : ResumeEnvelope) (r : Database × ContinuationResult)
      → i.work_session_id ≡ ws
      → consume_work_wake p db now owner i ≡ ok r
      → Serves p db owner ws
  -- a read whose snapshot is `db`
  reads :
      (now : ℕ) (db' : Database) (later : ℕ) (validate : Document → ℕ → Result (Unit {0}))
      (r : Database × ContinuationResult)
      → read_continuation db now db' later owner ws validate ≡ ok r
      → Serves p db owner ws

-- Only the owner is served: when a control action, a presentation, an action of a view, a consume
-- or a read on a session succeeds, whatever else it asks for, then the session is there, and the
-- caller is the owner that its row names, and has a name.
pub served_owner :
    (p : Protocol) (db : Database) (owner ws : String) → Serves p db owner ws → Owns db owner ws
unfolding control_continuation present_continuation controller_continuation consume_work_wake
    read_continuation
served_owner p db owner ws (controls ids now i r e h) =
    subst (λ k. Owns db owner k) e
      (returned (change-Owns db now owner i.work_session_id (control p ids i)) h)
served_owner p db owner ws (presents ids now recover r h) =
    returned (change-Owns db now owner ws (present p ids ws recover)) h
served_owner p db owner ws (views ids now action i r e h) =
    subst (λ k. Owns db owner k) e
      (returned (change-Owns db now owner i.work_session_id (controller p ids action i)) h)
served_owner p db owner ws (consumes now i r e h) =
    subst (λ k. Owns db owner k) e
      (returned (change-Owns db now owner i.work_session_id (consume p i)) h)
served_owner p db owner ws (reads now db' later validate r h) =
    returned {P = λ x. Owns db owner ws}
      (chain _ _ λ d e. proceed _ _ λ v.
        let own = returned (load-Owns db owner ws) e in
        branch (expire_continuation d now).1 _ _
          (λ late. chain _ _ λ x y. chain _ _ λ u z. returns own) (λ fresh. returns own))
      h

change-frame :
    {N : String → Type 0} (db : Database) (now : ℕ) (owner ws other : String) (fn : Handler)
    → Stored db
    → ((d : Document) → Ensures (λ r. Sound N d r.0) (fn db d now))
    → other ≢ ws
    → Ensures
        (λ x.
          find_document x.0.work_continuations other ≡ find_document db.work_continuations other)
        (change_continuation db now owner ws fn)
unfolding change_continuation save_continuation
change-frame db now owner ws other fn st h n = chain _ _ λ d e. chain _ _ λ r f.
    let begin = Sound-trans (expire-Sound d now) (touch-Sound _ now) in
    let key =
      (Sound-trans begin (returned (h _) f)).session
      ∙ ((returned (load-Loaded db owner ws) e).1 st).1 in
    returns (
      find_document-put db.work_continuations _ other _
      ∙ ground (arith, key, eq_iff r.0.state.work_session_id other))

-- The transactions on the session `ws`.
pub data Writes (p : Protocol) (ws : String) : Database → Database → Type 0 where
  controls :
      {db db' : Database} (ids : List String) (now : ℕ) (owner : String) (i : ContinuationInput)
      (r : ContinuationResult)
      → i.work_session_id ≡ ws
      → control_continuation p ids db now owner i ≡ ok (db', r)
      → Writes p ws db db'
  presents :
      {db db' : Database} (ids : List String) (now : ℕ) (owner : String) (recover : Bool)
      (r : ContinuationResult)
      → present_continuation p ids db now owner ws recover ≡ ok (db', r)
      → Writes p ws db db'
  views :
      {db db' : Database} (ids : List String) (now : ℕ) (owner : String) (action : ControllerAction)
      (i : ControllerInput) (r : ContinuationResult)
      → i.work_session_id ≡ ws
      → controller_continuation p ids db now owner action i ≡ ok (db', r)
      → Writes p ws db db'
  consumes :
      {db db' : Database} (now : ℕ) (owner : String) (i : ResumeEnvelope) (r : ContinuationResult)
      → i.work_session_id ≡ ws
      → consume_work_wake p db now owner i ≡ ok (db', r)
      → Writes p ws db db'

-- A transaction on one session leaves the stored documents of all other sessions as they were.
pub session_frame :
    (p : Protocol) (ws other : String) (db db' : Database)
    → Stored db
    → Writes p ws db db'
    → other ≢ ws
    → find_document db'.work_continuations other ≡ find_document db.work_continuations other
unfolding control_continuation present_continuation controller_continuation consume_work_wake
session_frame p ws other db db' st (controls ids now owner i r k e) n =
    returned
      (change-frame {N = Any} db now owner i.work_session_id other (control p ids i) st
        (λ d. control_handler-Sound p ids i db d now (all-Any ids)) (rw k n))
      e
session_frame p ws other db db' st (presents ids now owner recover r e) n =
    returned
      (change-frame {N = Any} db now owner ws other (present p ids ws recover) st
        (λ d. present-Sound p ids ws recover db d now) n)
      e
session_frame p ws other db db' st (views ids now owner action i r k e) n =
    returned
      (change-frame {N = Any} db now owner i.work_session_id other (controller p ids action i) st
        (λ d. controller-Sound p ids action i db d now) (rw k n))
      e
session_frame p ws other db db' st (consumes now owner i r k e) n =
    returned
      (change-frame {N = Any} db now owner i.work_session_id other (consume p i) st
        (λ d. consume-Sound p i db d now) (rw k n))
      e
