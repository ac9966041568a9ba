-- ===== src/Recall/Records.antt =====
-- internal/recall/lifecycle.go: a lifecycle record, the transition of one, and their checks. An
-- int64 is an integer in its range. A text is the characters that its bytes stand for.
use nexusdock.Shared.{
  ℕ, ◌+◌, String, str_eq, trim_space, is_blank, is_empty, codes, lowers_to, ltb, leb, ◌==◌, List,
  [], ◌∷◌, Bool, true, false, ◌&&◌, ◌||◌, not, any, length, if◌then◌else◌, ℤ, pos, negsuc, is_digit,
}
use nexusdock.Continuation.Types.{invalid, Result, ◌>>◌, refuse_if}

pub record LifecycleEvidence : Type 0 where
  pub ref : String
  pub relation : String
  pub task_id : String
  pub review_revision : String
  pub rationale : String
  pub recorded_at : String

pub record LifecycleOperation : Type 0 where
  pub id : String
  pub digest : String

-- `kind` is the field Type.
pub record LifecycleRecord : Type 0 where
  pub evolution_id : String
  pub title : String
  pub statement : String
  pub kind : String
  pub scope : String
  pub project : String
  pub device : String
  pub canonical_key : String
  pub status : String
  pub policy_version : String
  pub revision : ℤ
  pub support_count : ℤ
  pub contradict_count : ℤ
  pub source : String
  pub tags : List String
  pub evidence : List LifecycleEvidence
  pub superseded_by : String
  pub applied_operations : List LifecycleOperation
  pub created_at : String
  pub updated_at : String

pub record LifecycleTransition : Type 0 where
  pub operation_id : String
  pub expected_revision : ℤ
  pub policy_version : String
  pub next_state : String
  pub evidence_refs : List String
  pub target : LifecycleRecord

pub record LifecycleTransitionResult : Type 0 where
  pub updated : LifecycleRecord
  pub idempotent : Bool

abbrev pub every : (ℕ → Bool) → List ℕ → Bool
every p [] = true
every p (c ∷ l) = p c && every p l

abbrev pub is_lower_hex : ℕ → Bool
is_lower_hex c = is_digit c || (leb b'a' c && leb c b'f')

abbrev pub is_name_char : ℕ → Bool
is_name_char c =
    is_digit c || (leb b'a' c && leb c b'z') || (leb b'A' c && leb c b'Z') || c == b'_' || c == b'-'

abbrev pub in_class : (ℕ → Bool) → ℕ → ℕ → List ℕ → Bool
in_class p least most l = leb least (length l) && leb (length l) most && every p l

-- ^evo_[a-f0-9]{16,64}$
abbrev pub is_lifecycle_id : List ℕ → Bool
is_lifecycle_id (e ∷ v ∷ o ∷ u ∷ l) =
    e == b'e' && v == b'v' && o == b'o' && u == b'_' && in_class is_lower_hex 16 64 l
is_lifecycle_id _ = false

-- ^op_[A-Za-z0-9_-]{8,128}$
abbrev pub is_operation_id : List ℕ → Bool
is_operation_id (o ∷ p ∷ u ∷ l) =
    o == b'o' && p == b'p' && u == b'_' && in_class is_name_char 8 128 l
is_operation_id _ = false

-- The bytes of a text in UTF-8.
abbrev pub char_bytes : ℕ → ℕ
char_bytes c = if ltb c 0x80 then 1 else if ltb c 0x800 then 2 else if ltb c 0x10000 then 3 else 4

abbrev pub bytes_of : List ℕ → ℕ
bytes_of [] = 0
bytes_of (c ∷ l) = char_bytes c + bytes_of l

unfoldable pub valid_lifecycle_status : String → Bool
valid_lifecycle_status value =
    lowers_to (trim_space value) "provisional"
    || lowers_to (trim_space value) "active"
    || lowers_to (trim_space value) "verified"
    || lowers_to (trim_space value) "quarantine"
    || lowers_to (trim_space value) "retired"

unfoldable pub valid_lifecycle_relation : String → Bool
valid_lifecycle_relation value =
    lowers_to (trim_space value) "support" || lowers_to (trim_space value) "contradict"

abbrev pub is_negative : ℤ → Bool
is_negative (pos n) = false
is_negative (negsuc n) = true

-- value <= 0.
abbrev pub is_not_positive : ℤ → Bool
is_not_positive (pos n) = n == 0
is_not_positive (negsuc n) = true

-- hex.DecodeString, on a text of 64 characters.
abbrev pub is_hex : ℕ → Bool
is_hex c = is_lower_hex c || (leb b'A' c && leb c b'F')

-- validateLifecycleRecordIdentity.
unfoldable pub validate_record_identity : LifecycleRecord → Result (Unit {0})
validate_record_identity r =
    refuse_if (not (is_lifecycle_id (codes (trim_space r.evolution_id)))) invalid
    >> refuse_if (is_blank r.kind || is_blank r.statement || is_blank r.scope || is_blank r.project)
        invalid
    >> refuse_if (ltb 2000 (length (codes r.statement)) || ltb 64 (length r.tags)) invalid

abbrev pub bad_reference : String → Bool
bad_reference r = is_blank r || ltb 512 (bytes_of (codes r))

-- A text that is given must be the one of the transition.
abbrev pub differs : String → String → Bool
differs given wanted = not (is_empty given) && not (str_eq given wanted)

unfoldable pub validate_lifecycle_transition : LifecycleTransition → Result (Unit {0})
validate_lifecycle_transition q =
    refuse_if (not (is_operation_id (codes (trim_space q.operation_id)))) invalid
    >> refuse_if (is_negative q.expected_revision) invalid
    >> refuse_if (is_blank q.policy_version) invalid
    >> refuse_if (not (valid_lifecycle_status q.next_state)) invalid
    >> refuse_if (differs q.target.policy_version q.policy_version) invalid
    >> refuse_if (differs q.target.status q.next_state) invalid
    >> refuse_if (ltb 128 (length q.evidence_refs)) invalid
    >> refuse_if (any bad_reference q.evidence_refs) invalid
    >> validate_record_identity q.target

abbrev pub bad_evidence : LifecycleEvidence → Bool
bad_evidence e = is_blank e.ref || not (valid_lifecycle_relation e.relation)

abbrev pub bad_operation : LifecycleOperation → Bool
bad_operation o =
    not (is_operation_id (codes o.id))
    || not (length (codes o.digest) == 64)
    || not (every is_hex (codes o.digest))

unfoldable pub validate_lifecycle_record : LifecycleRecord → Result (Unit {0})
validate_lifecycle_record r =
    validate_record_identity r
    >> refuse_if (not (valid_lifecycle_status r.status)) invalid
    >> refuse_if (is_blank r.policy_version) invalid
    >> refuse_if
        (is_not_positive r.revision
          || is_negative r.support_count
          || is_negative r.contradict_count)
        invalid
    >> refuse_if (ltb 1024 (length r.evidence)) invalid
    >> refuse_if (any bad_evidence r.evidence) invalid
    >> refuse_if (any bad_operation r.applied_operations) invalid

-- validateLifecycleIdentity: the fields that a transition may not change.
abbrev pub same_identity : LifecycleRecord → LifecycleRecord → Bool
same_identity a b =
    str_eq a.evolution_id b.evolution_id
    && str_eq a.kind b.kind
    && str_eq a.statement b.statement
    && str_eq a.scope b.scope
    && str_eq a.project b.project
    && str_eq a.device b.device
    && str_eq a.canonical_key b.canonical_key
