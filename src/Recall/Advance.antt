-- ===== src/Recall/Advance.antt =====
-- lifecycle.go, TransitionLifecycle: what a transition that succeeds makes of the record.
use nexusdock.Shared.{
  zero, suc, ◌≤◌, ◌≡◌, ◌≢◌, ◌⊎◌, refl, ap, String, str_eq, eq_iff, codes, length, List, none, some,
  Bool, true, false, if◌then◌else◌, is_empty, ℤ, pos, negsuc, arith, Bool-cases, Option-cases, inl,
  inr,
}
use nexusdock.Continuation.Types.{Error, ok, ◌>>=◌, ◌>>◌, refuse_if}
use nexusdock.Continuation.Ensures.{Ensures, returns, raises, returned, require, proceed, weaken}
use nexusdock.Recall.Records.{
  LifecycleOperation, LifecycleRecord, LifecycleTransition, LifecycleTransitionResult,
  is_lifecycle_id, validate_lifecycle_record, same_identity,
}
use nexusdock.Recall.Lifecycle.{
  LifecycleFile, LifecycleCodec, max_applied_operation_ids, normalized, read_lifecycle,
  next_revision, same_int, next_record, apply_to_existing, transition_lifecycle,
  find_lifecycle_operation,
}
use nexusdock.Recall.Operations.{length-append_applied_operation, find-append_applied_operation}
use nexusdock.Recall.Retries.{commit_record-Written, read-id}

same_int-eq : (a b : ℤ) → same_int a b ≡ true → a ≡ b
same_int-eq (pos m) (pos n) h = ap pos (ground (arith, h))
same_int-eq (negsuc m) (negsuc n) h = ap negsuc (ground (arith, h))
same_int-eq (pos m) (negsuc n) h = cc
same_int-eq (negsuc m) (pos n) h = cc

-- The record holds the operation of the transition, with the digest of the transition.
pub record Remembers (p : LifecycleCodec) (q : LifecycleTransition) (r : LifecycleRecord)
    : Type 0 where
  pub operation : LifecycleOperation
  pub found : find_lifecycle_operation r.applied_operations q.operation_id ≡ some operation
  pub digest : p.digest (normalized q) ≡ some (operation.digest)

-- The record that a transition replaces, and the one that it writes.
pub record Advances (p : LifecycleCodec) (q : LifecycleTransition) (old new : LifecycleRecord)
    : Type 0 where
  pub fresh : find_lifecycle_operation old.applied_operations q.operation_id ≡ none
  pub expected : q.expected_revision ≡ old.revision
  pub remembers : Remembers p q new
  pub status : new.status ≡ q.next_state
  pub revision : new.revision ≡ next_revision old.revision
  pub policy : new.policy_version ≡ old.policy_version
  pub identity : same_identity old new ≡ true
  pub created :
      new.created_at ≡ (if is_empty old.created_at then new.updated_at else old.created_at)
  pub bounded : length new.applied_operations ≤ max_applied_operation_ids
  pub valid : validate_lifecycle_record new ≡ ok tt

-- Either the transition was applied before and nothing changes, or the record advances.
abbrev pub Outcome :
    LifecycleCodec
    → LifecycleTransition
    → List LifecycleFile
    → LifecycleRecord
    → List LifecycleFile × LifecycleTransitionResult
    → Type 0
Outcome p q files old (left, result) =
    (Remembers p q old × (result ≡ record { updated = old; idempotent = true }) × (left ≡ files))
    ⊎ ((read_lifecycle left q.target.evolution_id ≡ ok result.updated)
        × (result.idempotent ≡ false)
        × Advances p q old result.updated)

-- The guards of a transition of a record that is there.
guards_passed :
    (a b c : Bool) (e f g : Error)
    → refuse_if a e >> refuse_if b f >> refuse_if c g ≡ ok tt
    → (a ≡ false) × (b ≡ false) × (c ≡ false)
unfolding ◌>>◌ ◌>>=◌ refuse_if
guards_passed true b c e f g h = cc
guards_passed false true c e f g h = cc
guards_passed false false true e f g h = cc
guards_passed false false false e f g h = (refl, refl, refl)

existing-Outcome :
    (p : LifecycleCodec) (files : List LifecycleFile) (now digest : String)
    (q : LifecycleTransition) (old : LifecycleRecord)
    → is_lifecycle_id (codes q.target.evolution_id) ≡ true
    → p.digest (normalized q) ≡ some digest
    → Ensures (Outcome p q files old) (apply_to_existing p files now q digest old)
unfolding apply_to_existing next_record
existing-Outcome p files now digest q old i d =
    elim (Option-cases (find_lifecycle_operation old.applied_operations q.operation_id)) [
      | inl e ↦
          rw (e, apply_to_existing)
            (proceed _ _ λ g.
              let (a, b, c) = guards_passed _ _ _ _ _ _ g in
              let same = same_int-eq q.expected_revision old.revision (ground (arith, a)) in
              let next = next_record q digest now old.applied_operations old.created_at in
              weaken
                (λ x w. inr (
                  rw (w.result) w.read,
                  rw (w.result) refl,
                  rw (w.result) (record {
                    fresh = e;
                    expected = same;
                    remembers = record {
                      operation = record { id = q.operation_id; digest = digest };
                      found = find-append_applied_operation old.applied_operations _;
                      digest = d;
                    };
                    status = refl;
                    revision = ap next_revision same;
                    policy = ground (arith, b, eq_iff old.policy_version q.policy_version);
                    identity = ground (arith, c);
                    created = refl;
                    bounded = length-append_applied_operation old.applied_operations _;
                    valid = w.valid;
                  }),
                ))
                (commit_record-Written p files next i))
      | inr (o, e) ↦ elim (Bool-cases (str_eq o.digest digest)) [
        | inl same ↦
            rw (e, apply_to_existing, same)
              (returns (
                inl (
                  record {
                    operation = o;
                    found = e;
                    digest = rw ((eq_iff o.digest digest).0 same) d;
                  },
                  refl,
                  refl,
                )))
        | inr other ↦ rw (e, apply_to_existing, other) raises
      ]
    ]

pub transition-Outcome :
    (p : LifecycleCodec) (files left : List LifecycleFile) (now : String) (q : LifecycleTransition)
    (old : LifecycleRecord) (result : LifecycleTransitionResult)
    → read_lifecycle files q.target.evolution_id ≡ ok old
    → transition_lifecycle p files now q ≡ ok (left, result)
    → Outcome p q files old (left, result)
unfolding transition_lifecycle
transition-Outcome p files left now q old result read h =
    returned {P = Outcome p q files old}
      (proceed _ _ λ v. require _ _ _ λ digest d.
        rw read (elim (read-id files q.target.evolution_id (ok old) read) [
          | inl i ↦ existing-Outcome p files now digest q old i d
          | inr e ↦ cc (e)
        ]))
      h

-- A transition from the revision before the one that is there, and not applied to it.
stale_refused :
    (p : LifecycleCodec) (files : List LifecycleFile) (now : String) (q : LifecycleTransition)
    (r : LifecycleRecord)
    → read_lifecycle files q.target.evolution_id ≡ ok r
    → find_lifecycle_operation r.applied_operations q.operation_id ≡ none
    → same_int q.expected_revision r.revision ≡ false
    → Ensures (λ x. true ≡ false) (transition_lifecycle p files now q)
unfolding transition_lifecycle apply_to_existing
stale_refused p files now q r read missing stale = proceed _ _ λ v. require _ _ _ λ digest d.
    rw (read, missing, apply_to_existing)
      (proceed _ _ λ g. let (a, b, c) = guards_passed _ _ _ _ _ _ g in ground (arith, a, stale))

next_revision-differs : (n : ℤ) → same_int n (next_revision n) ≡ false
next_revision-differs (pos n) = ground arith
next_revision-differs (negsuc zero) = refl
next_revision-differs (negsuc (suc n)) = ground arith

-- When a transition has changed a record, another one on the same record that names the same
-- revision and whose operation the record does not remember is refused.
pub second_transition_refused :
    (p : LifecycleCodec) (files left : List LifecycleFile) (now later : String)
    (q other : LifecycleTransition) (old : LifecycleRecord) (result : LifecycleTransitionResult)
    (x : List LifecycleFile × LifecycleTransitionResult)
    → read_lifecycle files q.target.evolution_id ≡ ok old
    → transition_lifecycle p files now q ≡ ok (left, result)
    → result.idempotent ≡ false
    → other.target.evolution_id ≡ q.target.evolution_id
    → other.expected_revision ≡ old.revision
    → find_lifecycle_operation result.updated.applied_operations other.operation_id ≡ none
    → transition_lifecycle p left later other ≢ ok x
second_transition_refused p files left now later q other old result x read h fresh id revision
      missing =
    λ k. elim (transition-Outcome p files left now q old result read h) [
      | inl (known, same, e) ↦ ground (arith, fresh, ap (λ r. r.idempotent) same)
      | inr (read', f, a) ↦
          let stale : same_int other.expected_revision result.updated.revision ≡ false =
            rw (revision, a.revision) (next_revision-differs old.revision) in
          let no : true ≡ false =
            returned (stale_refused p left later other result.updated (rw id read') missing stale)
              k in
          cc (no)
    ]
