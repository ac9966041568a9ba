-- ===== src/Sessions/Tables.antt =====
-- The tables of internal/project/session.go and delivery.go, and the reads of one row. The scan of
-- a row decodes what an insert encoded; the column last_error is left out.
use nexusdock.Shared.{ℕ, String, str_eq, trim_space, List, Option, Bool, ◌&&◌, any, find_first}
use nexusdock.Continuation.Types.{work_session_not_found, work_target_not_found, Result, or_fail}
use nexusdock.Continuation.Store.{SessionStatus, TargetStatus}

pub record WorkSession : Type 0 where
  pub id : String
  pub project_id : String
  pub owner_key : String
  pub client_request_id : String
  pub request_hash : String
  pub project_revision : String
  pub status : SessionStatus
  pub context_revision : String
  pub created_at : ℕ
  pub updated_at : ℕ

-- protocol.SourceProvenance: its kind, and the other fields together.
pub record SourceProvenance : Type 0 where
  pub kind : String
  pub details : String

-- `permissions`, `prompt` and `prompt_scopes` are stored and returned only, and kept as the text
-- of their column. `created_at` is `none` for the zero time of an item that is not stored.
pub record WorkTarget : Type 0 where
  pub id : String
  pub work_session_id : String
  pub project_id : String
  pub deployment_id : String
  pub node_id : String
  pub cwd_rel : String
  pub deployment_revision : String
  pub context_revision : String
  pub status : TargetStatus
  pub permissions : String
  pub prompt : String
  pub prompt_scopes : String
  pub source_provenance : SourceProvenance
  pub created_at : Option ℕ
  pub updated_at : ℕ

pub data DeliveryState : Type 0 where
  returned host_consumed : DeliveryState

pub record ContextDelivery : Type 0 where
  pub work_session_id : String
  pub target_id : String
  pub context_revision : String
  pub status : DeliveryState
  pub returned_at : ℕ
  pub host_consumed_at : Option ℕ
  pub updated_at : ℕ

-- `node_id` is that of a project of kind `node`, and `none` for the other kinds.
pub record ProjectEntry : Type 0 where
  pub id : String
  pub node_id : Option String

pub record DeploymentEntry : Type 0 where
  pub id : String
  pub desired_revision : ℕ

pub record Tables : Type 0 where
  pub projects : List ProjectEntry
  pub deployments : List DeploymentEntry
  pub sessions : List WorkSession
  pub targets : List WorkTarget
  pub deliveries : List ContextDelivery

-- WHERE id = ? AND owner_key = ?
abbrev pub is_session : String → String → WorkSession → Bool
is_session owner id s = str_eq s.id (trim_space id) && str_eq s.owner_key (trim_space owner)

unfoldable pub get_work_session : Tables → String → String → Result WorkSession
get_work_session db owner id =
    or_fail (find_first (is_session owner id) db.sessions) work_session_not_found

-- The row of the target joins a session of the owner.
abbrev pub is_owned : Tables → String → String → Bool
is_owned db owner ws =
    any (λ s. str_eq s.id ws && str_eq s.owner_key (trim_space owner)) db.sessions

abbrev pub is_target : String → String → WorkTarget → Bool
is_target ws id t = str_eq t.id (trim_space id) && str_eq t.work_session_id (trim_space ws)

unfoldable pub get_work_target : Tables → String → String → String → Result WorkTarget
get_work_target db owner ws id =
    or_fail (find_first (λ t. is_target ws id t && is_owned db owner t.work_session_id) db.targets)
      work_target_not_found

unfoldable pub find_work_target_by_deployment :
    Tables → String → String → String → Result WorkTarget
find_work_target_by_deployment db owner ws deployment =
    or_fail
      (find_first
        (λ t.
          str_eq t.work_session_id (trim_space ws)
          && str_eq t.deployment_id (trim_space deployment)
          && is_owned db owner t.work_session_id)
        db.targets)
      work_target_not_found
