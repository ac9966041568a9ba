-- ===== src/Continuation/Examples.antt =====
-- The theorems on the continuation, at the run.
use nexusdock.Shared.{
  text_before, All, Option-cases, inl, inr, ◌*◌, ◌≡◌, refl, String, List, [], ◌∷◌, none, some,
  false, true, arith, eq_iff,
}
use nexusdock.Continuation.Types.{Error, err, Document, second}
use nexusdock.Continuation.Store.{after, Database, new_document, find_document}
use nexusdock.Continuation.Control.{enable, await, settle}
use nexusdock.Continuation.Dispatch.{binds, acquires, prepares, prepare}
use nexusdock.Continuation.Consume.{consume}
use nexusdock.Continuation.Sound.{IsValid}
use nexusdock.Continuation.Advance.{Stored, IsStored, find_document-IsStored, wakes_of}
use nexusdock.Continuation.History.{
  Step, Reach, here, then, controls, presents, views, records, consumes, Reach-Stored, Past,
  Reach-Past,
}
use nexusdock.Continuation.Once.{
  Consumes, Prepares, consume-Consumes, consume_once, prepare-Prepares, prepare_once,
}
use nexusdock.Continuation.Reads.{Writes, session_frame}
use nexusdock.Continuation.Receipts.{record_command_outcomes}
use nexusdock.Continuation.Run.{
  protocol, start, input, view, outcome, resume, enabled_db, presented_db, bound_db, awaiting_db,
  reported_db, claimed_db, sent_db, consumed_db, settled_db, is_ok, answer, left, commits, leaves,
  records_commit, claimed_doc, sent_doc, preparation, consumption, enabled_db_ok, presented_db_ok,
  bound_db_ok, awaiting_db_ok, reported_db_ok, claimed_db_ok, sent_db_ok, consumed_db_ok,
  settled_db_ok, preparation_ok, consumption_ok,
}

opening : Reach protocol start claimed_db
opening =
    then
      (then
        (then
          (then
            (then
              (then here
                (controls [] (1 * second) "alice" (input enable) _ (commits start _ enabled_db_ok)))
              (presents ("ep_1" ∷ "secret" ∷ []) (2 * second) "alice" "ws" false _
                (commits enabled_db _ presented_db_ok)))
            (views [] (3 * second) "alice" binds (view "") _ (commits presented_db _ bound_db_ok)))
          (controls [] (4 * second) "alice" (input await) _ (commits bound_db _ awaiting_db_ok)))
        (records "n" ((outcome, 5 * second) ∷ []) (5 * second) ("wake_1" ∷ []) _
          (records_commit awaiting_db _ reported_db_ok)))
      (views ("attempt_1" ∷ []) (6 * second) "alice" acquires (view "") _
        (commits reported_db _ claimed_db_ok))

sending : Step protocol claimed_db sent_db
sending =
    views ("token" ∷ []) (7 * second) "alice" prepares (view "attempt_1") _
      (commits claimed_db _ sent_db_ok)

closing : Reach protocol claimed_db settled_db
closing =
    then
      (then (then here sending)
        (consumes (8 * second) "alice" resume _ (commits sent_db _ consumed_db_ok)))
      (controls [] (9 * second) "alice" (input settle) _ (commits consumed_db _ settled_db_ok))

Reach-Stored_example : Stored claimed_db
Reach-Stored_example = Reach-Stored protocol start claimed_db opening tt

claimed-Stored : Stored claimed_db
claimed-Stored = Reach-Stored protocol start claimed_db opening tt

sent-Stored : Stored sent_db
sent-Stored = Reach-Stored protocol claimed_db sent_db (then here sending) claimed-Stored

document-IsValid :
    (m : List (String × Document))
    → All IsStored m
    → IsValid (elim (find_document m "ws") [ none ↦ new_document "ws" | some d ↦ d ])
unfolding new_document
document-IsValid m s = elim (Option-cases (find_document m "ws")) [
  | inl e ↦ rw e (record {
    flight = omega arith;
    limits = record {
      some_rounds = omega arith;
      few_rounds = omega arith;
      some_failures = omega arith;
      few_failures = omega arith;
      used = omega arith;
    };
    spent = tt;
  })
  | inr (d, e) ↦ rw e (find_document-IsStored m "ws" d s e).0
]

sent-IsValid : IsValid sent_doc
sent-IsValid = document-IsValid sent_db.work_continuations sent-Stored

-- The node reports the outcome once more after its wake was settled; the random source would give
-- another wake.
abbrev repeated_db : Database
repeated_db = after settled_db (
    record_command_outcomes protocol settled_db "n" ((outcome, 10 * second) ∷ []) (10 * second)
      ("wake_2" ∷ []))

repeated_db_ok :
    is_ok (
      record_command_outcomes protocol settled_db "n"
        ((outcome, 10 * second) ∷ [])
        (10 * second)
        ("wake_2" ∷ []))
    ≡ true
unfolding is_ok text_before
repeated_db_ok = refl

finishing : Reach protocol sent_db repeated_db
finishing =
    then
      (then (then here (consumes (8 * second) "alice" resume _ (commits sent_db _ consumed_db_ok)))
        (controls [] (9 * second) "alice" (input settle) _ (commits consumed_db _ settled_db_ok)))
      (records "n" ((outcome, 10 * second) ∷ []) (10 * second) ("wake_2" ∷ []) _
        (records_commit settled_db _ repeated_db_ok))

Reach-Past_example : Past 1 "wake_1" (wakes_of repeated_db "ws")
unfolding is_ok finishing
Reach-Past_example =
    Reach-Past protocol sent_db repeated_db "ws" "wake_1" 1 finishing sent-Stored
      (((tt, tt), tt), (λ e. absurd (ground (arith, eq_iff "wake_2" "wake_1", e)), tt))
      (inr (omega arith), tt)

consume-Consumes_example :
    Consumes protocol resume sent_doc (left sent_doc consumption) (answer consumption)
consume-Consumes_example =
    consume-Consumes protocol resume sent_db sent_doc (left sent_doc consumption) (8 * second)
      (answer consumption) sent-IsValid (leaves sent_doc consumption consumption_ok)

consume_once_example :
    (e : Error) × (consume protocol resume consumed_db (left sent_doc consumption) (9 * second)
      ≡ err e)
consume_once_example =
    consume_once protocol resume resume sent_db consumed_db sent_doc (left sent_doc consumption)
      (8 * second) (9 * second) (answer consumption) sent-IsValid
      (leaves sent_doc consumption consumption_ok) refl

prepare-Prepares_example :
    Prepares protocol
      (view "attempt_1")
      claimed_doc
      (left claimed_doc preparation)
      (answer preparation)
prepare-Prepares_example =
    prepare-Prepares protocol ("token" ∷ []) (view "attempt_1") claimed_db claimed_doc
      (left claimed_doc preparation) (7 * second) (answer preparation)
      (leaves claimed_doc preparation preparation_ok)

prepare_once_example :
    (e : Error) × (prepare protocol
        ("token_2" ∷ [])
        (view "attempt_1")
        sent_db
        (left claimed_doc preparation)
        (8 * second)
      ≡ err e)
prepare_once_example =
    prepare_once protocol ("token" ∷ []) ("token_2" ∷ []) (view "attempt_1") (view "attempt_1")
      claimed_db sent_db claimed_doc (left claimed_doc preparation) (7 * second) (8 * second)
      (answer preparation) (leaves claimed_doc preparation preparation_ok) refl

session_frame_example :
    find_document consumed_db.work_continuations "other"
    ≡ find_document sent_db.work_continuations "other"
session_frame_example =
    session_frame protocol "ws" "other" sent_db consumed_db sent-Stored
      (Writes.consumes (8 * second) "alice" resume _ refl (commits sent_db _ consumed_db_ok))
      (λ e. absurd (ground (arith, eq_iff "other" "ws", e)))
