-- ===== src/Continuation/TableExamples.antt =====
-- The theorems on the tables of the continuation, at the run: reads, compaction and retention.
use nexusdock.Shared.{
  ℕ, zero, suc, not, str_eq, text_before, All, ◌*◌, ◌≡◌, refl, String, List, [], ◌∷◌, none, some,
  true,
}
use nexusdock.Continuation.Types.{
  Error, ok, err, Document, second, WorkWake, Attempt, WakeState, refuse_if,
}
use nexusdock.Continuation.Store.{
  Database, Receipt, Eligibility, new_document, read_continuation, compact_continuation,
  count_settled,
}
use nexusdock.Continuation.Outcomes.{merge_continuation_outcome}
use nexusdock.Continuation.Document.{expire_continuation}
use nexusdock.Continuation.Reads.{Shows, status_read, Owns, Serves, served_owner}
use nexusdock.Continuation.Compaction.{unsettled, capped, SameAttempt, compact_lossless}
use nexusdock.Continuation.Replays.{merge_once}
use nexusdock.Continuation.Receipts.{expire_unawaited_receipts}
use nexusdock.Continuation.Retention.{Retained, expire-Retained}
use nexusdock.Continuation.Run.{
  protocol, outcome, resume, awaiting_db, reported_db, claimed_db, sent_db, is_ok, commits,
  awaiting_doc, claimed_doc, sent_doc, consumed_db_ok,
}

-- The claim has expired in the snapshot, so that the read sweeps and writes: in the meantime the
-- view has prepared the wake.
status_read_example : Shows sent_db (60 * second) (61 * second) claimed_doc sent_doc (
    read_continuation claimed_db
      (60 * second)
      sent_db
      (61 * second)
      "alice"
      "ws"
      (λ c time. refuse_if (not (str_eq c.state.work_session_id "ws")) Error.continuation_denied))
unfolding is_ok
status_read_example =
    status_read claimed_db sent_db (60 * second) (61 * second) "alice" "ws" claimed_doc sent_doc
      (λ c time. refuse_if (not (str_eq c.state.work_session_id "ws")) Error.continuation_denied)
      refl refl refl refl

-- Both documents are overdue by then.
run_overdue :
    ((expire_continuation claimed_doc (60 * second)).1 ≡ true)
    × ((expire_continuation sent_doc (61 * second)).1 ≡ true)
unfolding is_ok
run_overdue = (refl, refl)

served_owner_example : Owns sent_db "alice" "ws"
served_owner_example =
    served_owner protocol sent_db "alice" "ws"
      (Serves.consumes (8 * second) resume _ refl (commits sent_db _ consumed_db_ok))

-- A wake without sources.
abbrev wake : String → WakeState → WorkWake
wake id state = record {
  work_session_id = "ws";
  endpoint_id = "ep_1";
  controller_generation = 1;
  wake_id = id;
  state = state;
  sources = [];
  created_at = none;
  updated_at = none;
}

abbrev attempt : String → Attempt
attempt id = record {
  attempt_id = id;
  wake_id = "wake_1";
  state = WakeState.claimed;
  lease_expires_at = some (60 * second);
  prepared_at = none;
  consumed_at = none;
  finished_at = none;
  last_error = "";
  binding_id = "secret";
  consume_hash = "";
}

-- The settled wake `n` times, before a claimed one.
abbrev settled_wakes : ℕ → List WorkWake
settled_wakes zero = wake "wake_1" WakeState.claimed ∷ []
settled_wakes (suc n) = wake "old" WakeState.settled ∷ settled_wakes n

abbrev long_doc : Document
long_doc = record (new_document "ws") {
  wakes = settled_wakes 33;
  attempts = attempt "attempt_0" ∷ attempt "attempt_1" ∷ [];
}

-- One settled wake and the earlier attempt are dropped.
run_compacts :
    ((compact_continuation long_doc).wakes ≡ settled_wakes 32)
    × ((compact_continuation long_doc).attempts ≡ attempt "attempt_1" ∷ [])
unfolding compact_continuation new_document
run_compacts = (refl, refl)

compact_lossless_example :
    (unsettled (compact_continuation long_doc).wakes ≡ unsettled long_doc.wakes)
    × (count_settled (compact_continuation long_doc).wakes ≡ capped (count_settled long_doc.wakes))
    × All
        (SameAttempt (compact_continuation long_doc).attempts long_doc.attempts)
        (compact_continuation long_doc).wakes
unfolding is_ok
compact_lossless_example = compact_lossless long_doc

abbrev merged : Document
merged =
    elim (merge_continuation_outcome protocol awaiting_doc outcome (5 * second) ("wake_1" ∷ [])) [
      | ok r ↦ r.0
      | err e ↦ awaiting_doc
    ]

merge_once_example :
    merge_continuation_outcome protocol merged outcome (6 * second) ("wake_2" ∷ [])
    ≡ ok (merged, "wake_2" ∷ [])
unfolding is_ok
merge_once_example =
    merge_once protocol awaiting_doc merged outcome (5 * second) (6 * second) ("wake_1" ∷ []) []
      ("wake_2" ∷ []) refl

-- An outcome that nobody awaits, received before the one that a wake holds.
abbrev forgotten : Receipt
forgotten = record {
  node_id = "n";
  event_id = "ev_0";
  work_session_id = "ws";
  target_id = "t";
  command_session_id = "other";
  outcome_hash = "hash";
  outcome = some outcome;
  received_at = 1 * second;
  eligible = Eligibility.eligible;
}

-- One whose command the session awaits.
abbrev awaited : Receipt
awaited = record forgotten { event_id = "ev_1"; command_session_id = "cmd" }

abbrev crowded_db : Database
crowded_db = record awaiting_db { receipts = forgotten ∷ awaited ∷ [] }

abbrev holding_db : Database
holding_db = record reported_db { receipts = forgotten ∷ reported_db.receipts }

-- After forty days the first is given up, and the awaited one and the held one are kept.
run_forgets :
    ((expire_unawaited_receipts crowded_db "n" (40 * 24 * 3600 * second)).receipts
      ≡ record forgotten { outcome = none; eligible = Eligibility.expired } ∷ awaited ∷ [])
    × ((expire_unawaited_receipts holding_db "n" (40 * 24 * 3600 * second)).receipts
        ≡ record forgotten { outcome = none; eligible = Eligibility.expired }
          ∷ reported_db.receipts)
unfolding is_ok text_before
run_forgets = (refl, refl)

expire-Retained_example :
    Retained crowded_db "n"
      (40 * 24 * 3600 * second)
      []
      (forgotten ∷ awaited ∷ [])
      (record forgotten { outcome = none; eligible = Eligibility.expired } ∷ awaited ∷ [])
unfolding is_ok text_before
expire-Retained_example = expire-Retained crowded_db "n" (40 * 24 * 3600 * second)
