-- ===== src/Continuation/Replays.antt =====
-- continuation.go, mergeContinuationOutcome: an outcome that is reported again.
use nexusdock.Shared.{
  ℕ, ◌≡◌, String, str_eq_refl, ltb, length, List, [], ◌∷◌, ◌++◌, Option, none, some, true, not,
  ◌||◌, ◌&&◌, arith, any,
}
use nexusdock.Continuation.Types.{WorkWake, CommandOutcome, Document, Protocol, ok, ◌>>=◌}
use nexusdock.Continuation.Document.{is_pending, is_claimed}
use nexusdock.Continuation.Outcomes.{
  same_source, is_awaited, is_merged, keep_wake, merge_into, new_wake, place_outcome,
  merge_continuation_outcome,
}
use nexusdock.Continuation.Ensures.{Ensures, returns, returned, require, branch, chain}

same_source_refl : (o : CommandOutcome) → same_source o o ≡ true
same_source_refl o =
    ground (arith, str_eq_refl o.execution_context.target_id, str_eq_refl o.command_session_id)

any-append :
    (os : List CommandOutcome) (o : CommandOutcome)
    → any (λ x. same_source x o) (os ++ o ∷ []) ≡ true
any-append [] o = ground (arith, same_source_refl o)
any-append (x ∷ os) o = ground (arith, any-append os o)

is_merged-append :
    (ws : List WorkWake) (v : WorkWake) (o : CommandOutcome)
    → any (λ x. same_source x o) v.sources ≡ true
    → is_merged (ws ++ v ∷ []) o ≡ true
is_merged-append [] v o h = ground (arith, h)
is_merged-append (w ∷ ws) v o h = ground (arith, is_merged-append ws v o h)

abbrev Merged : CommandOutcome → Option (List WorkWake) → Type 0
Merged o none = Unit
Merged o (some ws) = is_merged ws o ≡ true

Merged-keep :
    (w : WorkWake) (o : CommandOutcome) (r : Option (List WorkWake))
    → Merged o r
    → Merged o (keep_wake w r)
Merged-keep w o none h = tt
Merged-keep w o (some ws) h = ground (arith, h)

merge_into-Merged :
    (p : Protocol) (ws : List WorkWake) (o : CommandOutcome) (now : ℕ)
    → Ensures (Merged o) (merge_into p ws o now)
unfolding merge_into
merge_into-Merged p [] o now = returns tt
merge_into-Merged p (w ∷ ws) o now =
    let later : Ensures (Merged o) (merge_into p ws o now >>= λ r. ok (keep_wake w r)) =
      chain _ _ λ r e. returns (Merged-keep w o r (returned (merge_into-Merged p ws o now) e)) in
    branch
      ((is_pending w.state || is_claimed w.state)
        && ltb (length w.sources) p.max_work_continuation_sources)
      _ _
      (λ room. require (p.encoded_size (w.sources ++ o ∷ [])) _ _ λ size e.
        branch (ltb p.max_command_outcome_batch_bytes size) _ _ (λ big. later)
          (λ fits. returns (ground (arith, any-append w.sources o))))
      (λ full. later)

-- A document into which the outcome need not be merged: it is not awaited, or merged already.
abbrev Known : CommandOutcome → Document → Type 0
Known o d = (not (is_awaited d.state.sources o) || is_merged d.wakes o) ≡ true

place_outcome-Known :
    (d : Document) (o : CommandOutcome) (now : ℕ) (ids : List String) (r : Option (List WorkWake))
    → Merged o r
    → Ensures (λ x. Known o x.0) (place_outcome d o now ids r)
unfolding place_outcome new_wake
place_outcome-Known d o now ids none h = chain _ _ λ n e. returns (
    ground (
      arith,
      is_merged-append d.wakes (new_wake d o now n.0) o (ground (arith, same_source_refl o)),
    ))
place_outcome-Known d o now ids (some ws) h = returns (ground (arith, h))

merge-Known :
    (p : Protocol) (d : Document) (o : CommandOutcome) (now : ℕ) (ids : List String)
    → Ensures (λ x. Known o x.0) (merge_continuation_outcome p d o now ids)
unfolding merge_continuation_outcome
merge-Known p d o now ids =
    branch (not (is_awaited d.state.sources o) || is_merged d.wakes o) _ _ (λ known. returns known)
      (λ fresh.
        chain _ _
          λ r e. place_outcome-Known d o now ids r (returned (merge_into-Merged p d.wakes o now) e))

-- An outcome that was merged into a document is not merged again: a second merge, at any time,
-- returns the same document and takes no new id.
pub merge_once :
    (p : Protocol) (d d' : Document) (o : CommandOutcome) (now later : ℕ)
    (ids ids' fresh : List String)
    → merge_continuation_outcome p d o now ids ≡ ok (d', ids')
    → merge_continuation_outcome p d' o later fresh ≡ ok (d', fresh)
unfolding merge_continuation_outcome
merge_once p d d' o now later ids ids' fresh h = rw (returned (merge-Known p d o now ids) h)
