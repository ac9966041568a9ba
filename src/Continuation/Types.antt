-- ===== src/Continuation/Types.antt =====
-- The data of internal/project/continuation.go. The protocol structs are those of the protocol
-- package, with the fields that the code reads or writes. A time that is stored as text is `none`
-- for the empty text, and else the nanoseconds that the text stands for.
use nexusdock.Shared.{ℕ, ◌*◌, String, List, Option, Bool, ◌≡◌, ◌⊎◌, inl, inr, refl}

pub data WakeState : Type 0 where
  pending claimed prepared dispatch_accepted delivery_unknown delivery_rejected : WakeState
  consumed needs_attention settled : WakeState

pub data Phase : Type 0 where
  disabled ready paused waiting dispatching processing needs_attention circuit_open : Phase

-- Continuation errors by their code, and the other errors of the store with what they carry: the
-- session or the revision in conflict. `invalid` is a validation error, `no_rows` is
-- sql.ErrNoRows, and `failed` any other error of the database, of JSON or of the random source.
pub data Error : Type 0 where
  continuation_denied continuation_target_denied continuation_confirmation_required : Error
  continuation_recovery_required continuation_needs_attention continuation_paused : Error
  continuation_wake_not_found continuation_not_consumed continuation_binding_denied : Error
  continuation_lease_expired continuation_view_busy continuation_budget_exhausted : Error
  continuation_dispatch_fenced continuation_attempt_denied continuation_consume_denied : Error
  continuation_source_expired continuation_source_denied continuation_receipt_conflict : Error
  invalid work_session_not_found no_rows failed : Error
  work_target_not_found deployment_not_found context_delivery_not_found : Error
  project_not_found node_not_found node_session_not_found duplicate_node : Error
  lifecycle_revision_conflict lifecycle_policy_conflict lifecycle_operation_conflict : Error
  not_exist oauth_client_not_found oauth_client_limit : Error
  invalid_token : Error
  rate_limited : ℕ → Error
  request_conflict revision_conflict delivery_revision_conflict : String → Error

pub data Result {ℓ} (A : Type ℓ) : Type ℓ where
  ok : A → Result A
  err : Error → Result A

pub Result-cases {ℓ} :
    {A : Type ℓ} (r : Result A) → ((e : Error) × (r ≡ err e)) ⊎ ((a : A) × (r ≡ ok a))
Result-cases (ok a) = inr (a, refl)
Result-cases (err e) = inl (e, refl)

infixl 5 ◌>>=◌ ◌>>◌
unfoldable pub ◌>>=◌ {ℓ κ} : {A : Type ℓ} {B : Type κ} → Result A → (A → Result B) → Result B
ok a >>= f = f a
err e >>= f = err e

unfoldable pub ◌>>◌ {ℓ} : {B : Type ℓ} → Result (Unit {0}) → Result B → Result B
unfolding ◌>>=◌
m >> k = m >>= λ _. k

-- `if test { return err }`.
unfoldable pub refuse_if : Bool → Error → Result (Unit {0})
refuse_if Bool.true e = err e
refuse_if Bool.false e = ok tt

unfoldable pub or_fail {ℓ} : {A : Type ℓ} → Option A → Error → Result A
or_fail Option.none e = err e
or_fail (Option.some a) e = ok a

pub record ExecutionContext : Type 0 where
  pub work_session_id : String
  pub target_id : String
  pub project_id : String
  pub deployment_id : String
  pub deployment_revision : String
  pub context_revision : String

pub data OutcomeState : Type 0 where
  completed failed interrupted outcome_unknown : OutcomeState
  -- any state that is not terminal
  running : OutcomeState

pub record CommandOutcome : Type 0 where
  pub event_id : String
  pub command_session_id : String
  pub execution_context : ExecutionContext
  pub state : OutcomeState
  pub output : String
  pub stdout : String
  pub stderr : String
  pub pending_report : Bool

pub record ContinuationSource : Type 0 where
  pub target_id : String
  pub command_session_id : String

pub record WorkWake : Type 0 where
  pub work_session_id : String
  pub endpoint_id : String
  pub controller_generation : ℕ
  pub wake_id : String
  pub state : WakeState
  pub sources : List CommandOutcome
  pub created_at : Option ℕ
  pub updated_at : Option ℕ

-- continuationAttempt, with the fields of its protocol.WorkWakeAttempt.
pub record Attempt : Type 0 where
  pub attempt_id : String
  pub wake_id : String
  pub state : WakeState
  pub lease_expires_at : Option ℕ
  pub prepared_at : Option ℕ
  pub consumed_at : Option ℕ
  pub finished_at : Option ℕ
  pub last_error : String
  pub binding_id : String
  pub consume_hash : String

pub record WorkContinuation : Type 0 where
  pub work_session_id : String
  pub enabled : Bool
  pub phase : Phase
  pub max_rounds : ℕ
  pub rounds_used : ℕ
  pub max_failures : ℕ
  pub failure_count : ℕ
  pub sources : List ContinuationSource
  pub checkpoint : String
  pub last_error : String
  pub updated_at : Option ℕ

pub record Endpoint : Type 0 where
  pub work_session_id : String
  pub endpoint_id : String
  pub controller_generation : ℕ
  pub binding_id : String
  pub lease_expires_at : Option ℕ

-- continuationDocument.
pub record Document : Type 0 where
  pub state : WorkContinuation
  pub endpoint : Endpoint
  pub binding_hash : String
  pub view_consent : Bool
  pub wakes : List WorkWake
  pub attempts : List Attempt

-- protocol.WorkContinuationResult; its wake and attempt ids are those of `wake` and `attempt`.
pub record ContinuationResult : Type 0 where
  pub work_session_id : String
  pub endpoint_id : String
  pub controller_generation : ℕ
  pub binding_id : String
  pub lease_expires_at : Option ℕ
  pub state : WorkContinuation
  pub wake : Option WorkWake
  pub attempt : Option Attempt
  pub binding_secret : String
  pub automatic_message : String
  pub outcomes : List CommandOutcome

pub record ResumeEnvelope : Type 0 where
  pub protocol_version : ℕ
  pub work_session_id : String
  pub endpoint_id : String
  pub controller_generation : ℕ
  pub wake_id : String
  pub attempt_id : String
  pub consume_token : String

-- What the code takes from the protocol package and from crypto/sha256: the hash of a secret as
-- hexadecimal text, the message of an envelope, the JSON of outcomes, and the limits. `none` is
-- an error of the encoder.
pub record Protocol : Type 0 where
  pub secret_hash : String → String
  pub automatic_message : ResumeEnvelope → Option String
  pub encode_outcome : CommandOutcome → Option String
  pub encoded_size : List CommandOutcome → Option ℕ
  pub max_work_continuation_sources : ℕ
  pub max_command_outcome_batch_bytes : ℕ
  pub max_command_outcomes_per_read : ℕ
  pub max_command_outcome_output_bytes : ℕ

-- Durations in nanoseconds.
abbrev pub second : ℕ
second = 1000000000

abbrev pub continuation_lease : ℕ
continuation_lease = 90 * second

abbrev pub continuation_claim_lease : ℕ
continuation_claim_lease = 30 * second

abbrev pub continuation_dispatch_timeout : ℕ
continuation_dispatch_timeout = 45 * second

abbrev pub continuation_settlement_timeout : ℕ
continuation_settlement_timeout = 300 * second
