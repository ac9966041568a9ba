-- ===== src/Projects/Steps.antt =====
-- project/store.go: the operations that write, as a step relation on the tables.
use nexusdock.Shared.{ℕ, String, Bool, List, ◌≡◌}
use nexusdock.Continuation.Types.{ok}
use nexusdock.Projects.Tables.{DeploymentPermissions, NodeSession, ProjectTables}
use nexusdock.Projects.Writes.{ProjectInput, create_project, update_project, delete_project}
use nexusdock.Projects.Rollout.{
  PermissionRules, DeploymentInput, ApplyOutcome, create_deployment, update_deployment,
  delete_deployment, record_apply_result, mark_pending, record_removal_result,
}
use nexusdock.Projects.Nodes.{put_node_session_configuration, delete_node_session}

pub data Step (p : PermissionRules) (db : ProjectTables) : ProjectTables → Type 0 where
  project_created :
      (ids : List String) (now : ℕ) (input : ProjectInput)
      → Step p db (create_project ids db now input).0
  project_updated :
      (now : ℕ) (id revision : String) (input : ProjectInput)
      → Step p db (update_project db now id revision input).0
  project_deleted :
      (now : ℕ) (id revision : String) → Step p db (delete_project db now id revision).0
  deployment_created :
      (ids : List String) (now : ℕ) (project node : String) (input : DeploymentInput)
      → Step p db (create_deployment p ids db now project node input).0
  deployment_updated :
      (now : ℕ) (project id revision : String) (input : DeploymentInput)
      → Step p db (update_deployment p db now project id revision input).0
  deployment_deleted :
      (now : ℕ) (project id revision : String)
      → Step p db (delete_deployment db now project id revision).0
  apply_recorded :
      (now : ℕ) (project id revision : String) (outcome : ApplyOutcome)
      → Step p db (record_apply_result db now project id revision outcome).0
  pending_marked :
      (now : ℕ) (project id revision : String)
      → Step p db (mark_pending db now project id revision).0
  removal_recorded :
      (deployment : String) (outcome : ApplyOutcome)
      → Step p db (record_removal_result db deployment outcome).0
  node_configured :
      (ids : List String) (now : ℕ) (node : String) (enabled : Bool)
      (permissions : DeploymentPermissions) (db' : ProjectTables) (session : NodeSession)
      (created : Bool)
      → put_node_session_configuration p ids db now node enabled permissions
        ≡ ok (db', session, created)
      → Step p db db'
  node_removed :
      (node : String) (db' : ProjectTables) → delete_node_session db node ≡ ok db' → Step p db db'

-- The tables that operations, one after another, make of `db`.
pub data Reach (p : PermissionRules) (db : ProjectTables) : ProjectTables → Type 0 where
  start : Reach p db db
  next : {a b : ProjectTables} → Reach p db a → Step p a b → Reach p db b
