-- ===== src/Projects/Rollout.antt =====
-- internal/project/store.go: CreateDeployment, UpdateDeployment, DeleteDeployment,
-- RecordApplyResult, MarkPending, RecordRemovalResult. What the protocol package accepts as
-- permissions is a parameter.
use nexusdock.Shared.{
  codes, filter, ℕ, ◌+◌, String, str_eq, trim_space, is_empty, ◌==◌, List, [], ◌∷◌, ◌++◌, map,
  Option, none, some, Bool, false, ◌&&◌, ◌||◌, not, find_first, any, if◌then◌else◌,
}
use nexusdock.Continuation.Types.{
  Error, invalid, failed, project_not_found, node_not_found, duplicate_node, deployment_not_found,
  revision_conflict, Result, ok, err, ◌>>=◌, ◌>>◌, or_fail, refuse_if,
}
use nexusdock.Continuation.Outcomes.{next_id}
use nexusdock.Sessions.Revocation.{revision_string}
use nexusdock.Projects.Revisions.{parse_revision}
use nexusdock.Projects.Folders.{validate_working_folder_for_os}
use nexusdock.Projects.Tables.{
  DeploymentPermissions, ApplyStatus, DeploymentRow, Deployment, ProjectTables, is_user,
  is_deployment, scan_deployment, get_deployment,
}
use nexusdock.Projects.Writes.{settle, stage_removal}

-- DeploymentPermissions.Validate of the protocol package.
pub record PermissionRules : Type 0 where
  pub accepts : DeploymentPermissions → Bool

pub record DeploymentInput : Type 0 where
  pub working_folder : String
  pub role : String
  pub purpose : String
  pub permissions : DeploymentPermissions
  pub enabled : Bool

abbrev has_nul : List ℕ → Bool
has_nul l = any (λ c. c == 0) l

-- validateDeploymentFields: the folder, trimmed.
unfoldable pub validate_deployment_fields : PermissionRules → DeploymentInput → Result String
validate_deployment_fields p input =
    refuse_if (has_nul (codes (trim_space input.working_folder))) invalid
    >> refuse_if (not (p.accepts input.permissions)) invalid
    >> ok (trim_space input.working_folder)

-- The columns of the permissions.
abbrev pub stored : DeploymentPermissions → DeploymentPermissions
stored p = record p { full_access = false }

-- CHECK (files_permission IN ('none', 'read_only', 'read_write')).
abbrev pub files_allowed : DeploymentPermissions → Bool
files_allowed p = str_eq p.files "none" || str_eq p.files "read_only" || str_eq p.files "read_write"

abbrev pub new_deployment : ℕ → String → String → String → DeploymentInput → String → DeploymentRow
new_deployment now project node working input id = record {
  id = id;
  project_id = project;
  node_id = node;
  working_folder = working;
  role = input.role;
  purpose = input.purpose;
  permissions = stored input.permissions;
  desired_revision = 1;
  applied_revision = 0;
  enabled = input.enabled;
  apply_status = ApplyStatus.pending;
  created_at = now;
  updated_at = now;
}

-- The unique columns: the id, and the project with the node.
abbrev pub collides : String → String → String → DeploymentRow → Bool
collides id project node d =
    str_eq d.id id || (str_eq d.project_id project && str_eq d.node_id node)

-- The INSERT of CreateDeployment.
unfoldable pub insert_deployment : ProjectTables → DeploymentRow → ProjectTables × Result Deployment
insert_deployment db row =
    let left : ProjectTables = record db { deployments = db.deployments ++ row ∷ [] } in
    if not (files_allowed row.permissions)
    then (db, err failed)
    else if any (collides row.id row.project_id row.node_id) db.deployments
    then (db, err duplicate_node)
    else (left, get_deployment left row.project_id row.id)

unfoldable pub create_deployment :
    PermissionRules
    → List String
    → ProjectTables
    → ℕ
    → String
    → String
    → DeploymentInput
    → ProjectTables × Result Deployment
create_deployment p ids db now project node input = settle db do
  working ← validate_deployment_fields p input
  refuse_if (is_empty (trim_space project) || is_empty (trim_space node)) invalid
  refuse_if (not (any (λ q. str_eq q.id (trim_space project) && is_user q) db.projects))
      project_not_found
  device ← or_fail (find_first (λ n. str_eq n.id (trim_space node)) db.devices) node_not_found
  validate_working_folder_for_os working device.os
  id ← next_id ids
  ok (
      insert_deployment db
        (new_deployment now (trim_space project) (trim_space node) working input id.0))

-- deploymentConflictOrNotFound.
unfoldable pub deployment_conflict_or_not_found : ProjectTables → String → String → Error
deployment_conflict_or_not_found db project id =
    elim (find_first (is_deployment project id) db.deployments) [
      | none ↦ deployment_not_found
      | some d ↦ revision_conflict (revision_string d.desired_revision)
    ]

-- WHERE project_id = ? AND id = ? AND desired_revision = ?
abbrev pub at_desired : String → String → ℕ → DeploymentRow → Bool
at_desired project id revision d = is_deployment project id d && d.desired_revision == revision

abbrev pub change_deployment : ℕ → String → DeploymentInput → DeploymentRow → DeploymentRow
change_deployment now working input d = record d {
  working_folder = working;
  role = input.role;
  purpose = input.purpose;
  permissions = stored input.permissions;
  desired_revision = d.desired_revision + 1;
  enabled = input.enabled;
  apply_status = ApplyStatus.pending;
  updated_at = now;
}

abbrev pub set_where {ℓ} : {A : Type ℓ} → (A → Bool) → (A → A) → List A → List A
set_where p f l = map (λ x. if p x then f x else x) l

-- The UPDATE of UpdateDeployment, by whether it changed a row. A row that it would change is
-- refused when the new permissions are no value of the column.
unfoldable pub write_deployment :
    ProjectTables
    → ℕ
    → String
    → String
    → ℕ
    → String
    → DeploymentInput
    → ProjectTables × Result Deployment
write_deployment db now project id expected working input =
    let left : ProjectTables = record db {
      deployments =
          set_where (at_desired project id expected) (change_deployment now working input)
            db.deployments;
    } in
    if any (at_desired project id expected) db.deployments
    then (if files_allowed input.permissions
        then (left, get_deployment left project id)
        else (db, err failed))
    else (db, err (deployment_conflict_or_not_found db project id))

-- The system of the deployment's node, in the join of the two tables.
abbrev node_os : ProjectTables → String → String → Option String
node_os db project id = elim (find_first (is_deployment project id) db.deployments) [
  | none ↦ none
  | some d ↦ elim (find_first (λ n. str_eq n.id d.node_id) db.devices) [
    | none ↦ none
    | some n ↦ some n.os
  ]
]

unfoldable pub update_deployment :
    PermissionRules
    → ProjectTables
    → ℕ
    → String
    → String
    → String
    → DeploymentInput
    → ProjectTables × Result Deployment
update_deployment p db now project id expected_revision input = settle db do
  expected ← parse_revision expected_revision
  working ← validate_deployment_fields p input
  os ← or_fail (node_os db project id) (deployment_conflict_or_not_found db project id)
  validate_working_folder_for_os working os
  ok (write_deployment db now project id expected working input)

-- DeleteDeployment after the parse, with the row that it read.
unfoldable pub drop_deployment :
    ProjectTables → ℕ → String → String → ℕ → DeploymentRow → ProjectTables × Result Deployment
drop_deployment db now project id expected d =
    if not (str_eq (revision_string d.desired_revision) (revision_string expected))
    then (db, err (revision_conflict (revision_string d.desired_revision)))
    else if any (at_desired project id expected) db.deployments
    then (
      record db {
        deployments = filter (λ e. not (at_desired project id expected e)) db.deployments;
        removals = stage_removal now db.removals (scan_deployment d);
      },
      ok (scan_deployment d),
    )
    else (db, err (revision_conflict (revision_string d.desired_revision)))

unfoldable pub delete_deployment :
    ProjectTables → ℕ → String → String → String → ProjectTables × Result Deployment
delete_deployment db now project id expected_revision = settle db do
  expected ← parse_revision expected_revision
  d ← or_fail (find_first (is_deployment project id) db.deployments) deployment_not_found
  ok (drop_deployment db now project id expected d)

-- The outcome of an apply on the node.
pub data ApplyOutcome : Type 0 where
  succeeded refused : ApplyOutcome

-- CASE WHEN enabled = 1 THEN 'applied' ELSE 'disabled' END.
abbrev pub applied_status : Bool → ApplyStatus
applied_status enabled = if enabled then ApplyStatus.applied else ApplyStatus.disabled

abbrev pub apply_outcome : ℕ → ℕ → ApplyOutcome → DeploymentRow → DeploymentRow
apply_outcome now desired succeeded d = record d {
  applied_revision = desired;
  apply_status = applied_status d.enabled;
  updated_at = now;
}
apply_outcome now desired refused d = record d {
  apply_status = ApplyStatus.failed;
  updated_at = now;
}

unfoldable pub record_apply_result :
    ProjectTables → ℕ → String → String → String → ApplyOutcome → ProjectTables × Result Deployment
record_apply_result db now project id desired_revision outcome = settle db (
    parse_revision desired_revision >>= λ desired.
    let left : ProjectTables = record db {
      deployments =
          set_where (at_desired project id desired) (apply_outcome now desired outcome)
            db.deployments;
    } in
    ok (left, get_deployment left project id))

abbrev pub ask_again : ℕ → DeploymentRow → DeploymentRow
ask_again now d = record d { apply_status = ApplyStatus.pending; updated_at = now }

unfoldable pub mark_pending :
    ProjectTables → ℕ → String → String → String → ProjectTables × Result Deployment
mark_pending db now project id desired_revision = settle db (
    parse_revision desired_revision >>= λ desired.
    let left : ProjectTables = record db {
      deployments = set_where (at_desired project id desired) (ask_again now) db.deployments;
    } in
    ok (left, get_deployment left project id))

-- A failed removal stays; only its column last_error changes.
unfoldable pub record_removal_result :
    ProjectTables → String → ApplyOutcome → ProjectTables × Result (Unit {0})
record_removal_result db deployment outcome =
    if is_empty (trim_space deployment) then (db, err invalid) else elim outcome [
      | succeeded ↦ (
        record db {
          removals = filter (λ r. not (str_eq r.deployment_id (trim_space deployment))) db.removals;
        },
        ok tt,
      )
      | refused ↦ (db, ok tt)
    ]
