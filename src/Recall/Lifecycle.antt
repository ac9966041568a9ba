-- ===== src/Recall/Lifecycle.antt =====
-- internal/recall/lifecycle.go: TransitionLifecycle. The directory of records is a list of files,
-- each with its id, its length and what it decodes to; a write replaces the file as a whole.
use nexusdock.Shared.{
  drop, ℕ, zero, suc, ◌+◌, ◌-◌, ◌*◌, String, str_eq, is_empty, codes, ltb, ◌==◌, List, [], ◌∷◌,
  ◌++◌, Option, none, some, Bool, true, false, not, find_first, length, if◌then◌else◌, ℤ, pos,
  negsuc,
}
use nexusdock.Continuation.Types.{
  Error, invalid, failed, lifecycle_revision_conflict, lifecycle_policy_conflict,
  lifecycle_operation_conflict, not_exist, Result, ok, err, ◌>>=◌, ◌>>◌, or_fail, refuse_if,
}
use nexusdock.Projects.Revisions.{max_int}
use nexusdock.Recall.Records.{
  LifecycleOperation, LifecycleRecord, LifecycleTransition, LifecycleTransitionResult,
  is_lifecycle_id, validate_lifecycle_transition, validate_lifecycle_record, same_identity,
}

-- `content` is `none` when the file is not one JSON value of a record.
pub record LifecycleFile : Type 0 where
  pub id : String
  pub size : ℕ
  pub content : Option LifecycleRecord

-- What the code takes from the Go library: the SHA-256 of the JSON of a normalised transition, as
-- hexadecimal text, and the length of the JSON of a record; `none` when the encoding fails.
pub record LifecycleCodec : Type 0 where
  pub digest : LifecycleTransition → Option String
  pub encoded_size : LifecycleRecord → Option ℕ

abbrev pub max_file_bytes : ℕ
max_file_bytes = 512 * 1024

abbrev pub max_applied_operation_ids : ℕ
max_applied_operation_ids = 256

-- lifecycleTransitionDigest: the operation's id is left out.
abbrev pub normalized : LifecycleTransition → LifecycleTransition
normalized q = record q {
  operation_id = "";
  target = record (q.target) {
    revision = pos 0;
    status = q.next_state;
    policy_version = q.policy_version;
    applied_operations = [];
    created_at = "";
    updated_at = "";
  };
}

unfoldable pub read_lifecycle : List LifecycleFile → String → Result LifecycleRecord
read_lifecycle files id =
    refuse_if (not (is_lifecycle_id (codes id))) invalid
    >> (or_fail (find_first (λ f. str_eq f.id id) files) not_exist >>= λ f.
        refuse_if (ltb max_file_bytes f.size) failed
        >> (or_fail f.content failed >>= λ r. validate_lifecycle_record r >> ok r))

abbrev pub put_file : List LifecycleFile → LifecycleFile → List LifecycleFile
put_file [] f = f ∷ []
put_file (x ∷ xs) f = if str_eq x.id f.id then f ∷ xs else x ∷ put_file xs f

-- The length counts the newline behind the JSON.
unfoldable pub write_lifecycle :
    LifecycleCodec → List LifecycleFile → LifecycleRecord → Result (List LifecycleFile)
write_lifecycle p files r = or_fail (p.encoded_size r) failed >>= λ n.
    refuse_if (ltb max_file_bytes (n + 1)) failed
    >> ok (put_file files (record { id = r.evolution_id; size = n + 1; content = some r }))

unfoldable pub append_applied_operation :
    List LifecycleOperation → LifecycleOperation → List LifecycleOperation
append_applied_operation values o =
    let out = values ++ o ∷ [] in
    if ltb max_applied_operation_ids (length out)
    then drop (length out - max_applied_operation_ids) out
    else out

-- The last operation with the id.
abbrev pub or_else :
    Option LifecycleOperation → Option LifecycleOperation → Option LifecycleOperation
or_else none d = d
or_else (some x) d = some x

unfoldable pub find_lifecycle_operation :
    List LifecycleOperation → String → Option LifecycleOperation
find_lifecycle_operation [] id = none
find_lifecycle_operation (o ∷ os) id =
    or_else (find_lifecycle_operation os id) (if str_eq o.id id then some o else none)

-- ExpectedRevision + 1 in int64.
abbrev pub next_revision : ℤ → ℤ
next_revision (pos n) = if ltb n max_int then pos (n + 1) else negsuc max_int
next_revision (negsuc zero) = pos 0
next_revision (negsuc (suc n)) = negsuc n

abbrev pub same_int : ℤ → ℤ → Bool
same_int (pos m) (pos n) = m == n
same_int (negsuc m) (negsuc n) = m == n
same_int _ _ = false

-- The record that a transition writes; `operations` and `created` are those of the record that is
-- there, and empty when there is none.
unfoldable pub next_record :
    LifecycleTransition → String → String → List LifecycleOperation → String → LifecycleRecord
next_record q digest now operations created = record (q.target) {
  revision = next_revision q.expected_revision;
  policy_version = q.policy_version;
  status = q.next_state;
  applied_operations =
      append_applied_operation operations (record { id = q.operation_id; digest = digest });
  created_at = if is_empty created then now else created;
  updated_at = now;
}

unfoldable pub commit_record :
    LifecycleCodec
    → List LifecycleFile
    → LifecycleRecord
    → Result (List LifecycleFile × LifecycleTransitionResult)
commit_record p files r =
    validate_lifecycle_record r
    >> (write_lifecycle p files r >>= λ left. ok (left, record { updated = r; idempotent = false }))

-- A record with the id is there.
unfoldable pub apply_to_existing :
    LifecycleCodec
    → List LifecycleFile
    → String
    → LifecycleTransition
    → String
    → LifecycleRecord
    → Result (List LifecycleFile × LifecycleTransitionResult)
apply_to_existing p files now q digest existing =
    elim (find_lifecycle_operation existing.applied_operations q.operation_id) [
      | some o ↦
          if str_eq o.digest digest
          then ok (files, record { updated = existing; idempotent = true })
          else err lifecycle_operation_conflict
      | none ↦
          refuse_if (not (same_int q.expected_revision existing.revision))
            lifecycle_revision_conflict
          >> refuse_if (not (str_eq existing.policy_version q.policy_version))
              lifecycle_policy_conflict
          >> refuse_if (not (same_identity existing q.target)) invalid
          >> commit_record p files
              (next_record q digest now existing.applied_operations existing.created_at)
    ]

-- No record has the id.
unfoldable pub apply_to_none :
    LifecycleCodec
    → List LifecycleFile
    → String
    → LifecycleTransition
    → String
    → Result (List LifecycleFile × LifecycleTransitionResult)
apply_to_none p files now q digest =
    refuse_if (not (same_int q.expected_revision (pos 0))) lifecycle_revision_conflict
    >> commit_record p files (next_record q digest now [] "")

abbrev pub is_not_exist : Error → Bool
is_not_exist not_exist = true
is_not_exist _ = false

-- The switch over what the read gave.
abbrev pub apply_to :
    LifecycleCodec
    → List LifecycleFile
    → String
    → LifecycleTransition
    → String
    → Result LifecycleRecord
    → Result (List LifecycleFile × LifecycleTransitionResult)
apply_to p files now q digest (ok existing) = apply_to_existing p files now q digest existing
apply_to p files now q digest (err e) =
    if is_not_exist e then apply_to_none p files now q digest else err e

unfoldable pub transition_lifecycle :
    LifecycleCodec
    → List LifecycleFile
    → String
    → LifecycleTransition
    → Result (List LifecycleFile × LifecycleTransitionResult)
transition_lifecycle p files now q =
    validate_lifecycle_transition q
    >> (or_fail (p.digest (normalized q)) failed >>= λ digest.
        apply_to p files now q digest (read_lifecycle files q.target.evolution_id))
