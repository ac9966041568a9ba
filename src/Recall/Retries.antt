-- ===== src/Recall/Retries.antt =====
-- lifecycle.go, TransitionLifecycle: the same transition again, and another at the same revision.
use nexusdock.Shared.{
  ◌+◌, ◌≡◌, ◌⊎◌, refl, sym, subst, ◌∙◌, String, str_eq, str_eq_refl, ltb, codes, List, [], ◌∷◌,
  some, true, false, find_first, Bool-cases, Option-cases, inl, inr,
}
use nexusdock.Continuation.Types.{invalid, failed, Result, ok, err, ◌>>=◌, ◌>>◌, or_fail, refuse_if}
use nexusdock.Continuation.Ensures.{
  Ensures, returns, raises, returned, chain, require, proceed, refuse, branch, weaken,
}
use nexusdock.Recall.Records.{
  LifecycleOperation, LifecycleRecord, LifecycleTransition, LifecycleTransitionResult,
  is_lifecycle_id, validate_lifecycle_transition, validate_lifecycle_record,
}
use nexusdock.Recall.Lifecycle.{
  LifecycleFile, LifecycleCodec, max_file_bytes, normalized, read_lifecycle, put_file,
  write_lifecycle, next_record, commit_record, apply_to_existing, apply_to_none, is_not_exist,
  apply_to, transition_lifecycle, find_lifecycle_operation,
}
use nexusdock.Recall.Operations.{find-append_applied_operation}

find-put_file :
    (files : List LifecycleFile) (f : LifecycleFile)
    → find_first (λ g. str_eq g.id f.id) (put_file files f) ≡ some f
find-put_file [] f = rw (str_eq_refl f.id) refl
find-put_file (x ∷ files) f = elim (Bool-cases (str_eq x.id f.id)) [
  | inl e ↦ rw (e, str_eq_refl f.id) refl
  | inr e ↦ rw (e, e) (find-put_file files f)
]

write_lifecycle-read :
    (p : LifecycleCodec) (files : List LifecycleFile) (r : LifecycleRecord)
    → is_lifecycle_id (codes r.evolution_id) ≡ true
    → validate_lifecycle_record r ≡ ok tt
    → Ensures (λ left. read_lifecycle left r.evolution_id ≡ ok r) (write_lifecycle p files r)
unfolding write_lifecycle read_lifecycle ◌>>=◌ ◌>>◌ or_fail refuse_if
write_lifecycle-read p files r i v = require (p.encoded_size r) failed _ λ n e.
    refuse (ltb max_file_bytes (n + 1)) failed _ λ small. returns (
      rw
        (
          i,
          find-put_file files (record { id = r.evolution_id; size = n + 1; content = some r }),
          small,
          v,
        )
        refl)

-- What a commit writes is read back.
pub record Written (id : String) (r : LifecycleRecord)
    (x : List LifecycleFile × LifecycleTransitionResult) : Type 0 where
  pub read : read_lifecycle x.0 id ≡ ok r
  pub valid : validate_lifecycle_record r ≡ ok tt
  pub result : x.1 ≡ record { updated = r; idempotent = false }

pub commit_record-Written :
    (p : LifecycleCodec) (files : List LifecycleFile) (r : LifecycleRecord)
    → is_lifecycle_id (codes r.evolution_id) ≡ true
    → Ensures (Written r.evolution_id r) (commit_record p files r)
unfolding commit_record
commit_record-Written p files r i = proceed _ _ λ v. chain _ _ λ left w.
    returns
      (record { read = returned (write_lifecycle-read p files r i v) w; valid = v; result = refl })

-- A record whose operations have the transition answers it again.
replay_answer :
    (p : LifecycleCodec) (files : List LifecycleFile) (later digest : String)
    (q : LifecycleTransition) (r : LifecycleRecord) (o : LifecycleOperation)
    → validate_lifecycle_transition q ≡ ok tt
    → p.digest (normalized q) ≡ some digest
    → read_lifecycle files q.target.evolution_id ≡ ok r
    → find_lifecycle_operation r.applied_operations q.operation_id ≡ some o
    → str_eq o.digest digest ≡ true
    → transition_lifecycle p files later q ≡ ok (files, record { updated = r; idempotent = true })
unfolding transition_lifecycle apply_to_existing ◌>>=◌ ◌>>◌ or_fail
replay_answer p files later digest q r o v d read found same =
    rw (v, d, read, apply_to_existing, found, same) refl

-- What a transition answers it answers again.
Again :
    LifecycleCodec → LifecycleTransition → List LifecycleFile × LifecycleTransitionResult → Type 0
Again p q (left, result) =
    (later : String)
    → transition_lifecycle p left later q
      ≡ ok (left, record { updated = result.updated; idempotent = true })

commit-Again :
    (p : LifecycleCodec) (files : List LifecycleFile) (now digest created : String)
    (q : LifecycleTransition) (operations : List LifecycleOperation)
    → is_lifecycle_id (codes q.target.evolution_id) ≡ true
    → validate_lifecycle_transition q ≡ ok tt
    → p.digest (normalized q) ≡ some digest
    → Ensures (Again p q) (commit_record p files (next_record q digest now operations created))
unfolding next_record Again
commit-Again p files now digest created q operations i v d =
    weaken
      (λ x w later.
        let o : LifecycleOperation = record { id = q.operation_id; digest = digest } in
        rw (w.result) (
          replay_answer p x.0 later digest q _ o v d w.read
            (find-append_applied_operation operations o) (str_eq_refl digest)))
      (commit_record-Written p files (next_record q digest now operations created) i)

existing-Again :
    (p : LifecycleCodec) (files : List LifecycleFile) (now digest : String)
    (q : LifecycleTransition) (existing : LifecycleRecord)
    → is_lifecycle_id (codes q.target.evolution_id) ≡ true
    → validate_lifecycle_transition q ≡ ok tt
    → p.digest (normalized q) ≡ some digest
    → read_lifecycle files q.target.evolution_id ≡ ok existing
    → Ensures (Again p q) (apply_to_existing p files now q digest existing)
unfolding apply_to_existing Again
existing-Again p files now digest q existing i v d read =
    elim (Option-cases (find_lifecycle_operation existing.applied_operations q.operation_id)) [
      | inl e ↦
          rw (e, apply_to_existing)
            (proceed _ _ λ a.
              commit-Again p files now digest existing.created_at q existing.applied_operations i v
                d)
      | inr (o, e) ↦ elim (Bool-cases (str_eq o.digest digest)) [
        | inl same ↦
            rw (e, apply_to_existing, same)
              (returns λ later. replay_answer p files later digest q existing o v d read e same)
        | inr other ↦ rw (e, apply_to_existing, other) raises
      ]
    ]

-- Only an id that fits the pattern is looked for.
pub read-id :
    (files : List LifecycleFile) (id : String) (r : Result LifecycleRecord)
    → read_lifecycle files id ≡ r
    → (is_lifecycle_id (codes id) ≡ true) ⊎ (r ≡ err invalid)
unfolding read_lifecycle ◌>>◌ ◌>>=◌ refuse_if
read-id files id r h = elim (Bool-cases (is_lifecycle_id (codes id))) [
  | inl e ↦ inl e
  | inr e ↦ inr (sym h ∙ rw (e, read_lifecycle) refl)
]

none-Again :
    (p : LifecycleCodec) (files : List LifecycleFile) (now digest : String)
    (q : LifecycleTransition)
    → is_lifecycle_id (codes q.target.evolution_id) ≡ true
    → validate_lifecycle_transition q ≡ ok tt
    → p.digest (normalized q) ≡ some digest
    → Ensures (Again p q) (apply_to_none p files now q digest)
unfolding apply_to_none
none-Again p files now digest q i v d =
    proceed _ _ λ a. commit-Again p files now digest "" q [] i v d

apply_to-Again :
    (p : LifecycleCodec) (files : List LifecycleFile) (now digest : String)
    (q : LifecycleTransition) (r : Result LifecycleRecord)
    → validate_lifecycle_transition q ≡ ok tt
    → p.digest (normalized q) ≡ some digest
    → read_lifecycle files q.target.evolution_id ≡ r
    → Ensures (Again p q) (apply_to p files now q digest r)
apply_to-Again p files now digest q (ok existing) v d read = elim (read-id files _ _ read) [
  | inl i ↦ existing-Again p files now digest q existing i v d read
  | inr e ↦ cc (e)
]
apply_to-Again p files now digest q (err e) v d read = elim (read-id files _ _ read) [
  | inl i ↦ branch (is_not_exist e) _ _ (λ k. none-Again p files now digest q i v d) (λ k. raises)
  | inr k ↦ subst (λ r. Ensures (Again p q) (apply_to p files now q digest r)) (sym k) raises
]

-- When a transition succeeds, then the same transition again, at any later time and on the files
-- that it left, succeeds, is reported as idempotent, gives the same record and changes no file.
pub transition_again :
    (p : LifecycleCodec) (files left : List LifecycleFile) (now later : String)
    (q : LifecycleTransition) (result : LifecycleTransitionResult)
    → transition_lifecycle p files now q ≡ ok (left, result)
    → transition_lifecycle p left later q
      ≡ ok (left, record { updated = result.updated; idempotent = true })
unfolding transition_lifecycle Again
transition_again p files left now later q result h =
    returned {P = Again p q}
      (proceed _ _ λ v. require _ _ _ λ digest d.
        apply_to-Again p files now digest q (read_lifecycle files q.target.evolution_id) v d refl)
      h later
