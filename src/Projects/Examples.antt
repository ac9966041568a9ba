-- ===== src/Projects/Examples.antt =====
-- The project store on concrete inputs, and its theorems at them.
use nexusdock.Shared.{
  codes, lowers_to, ◌≡◌, ◌≢◌, ◌↔◌, refl, String, List, [], ◌∷◌, none, Bool, true, false, ◌||◌, ◌&&◌,
  any, is_space, trim_space, decimal, digits_value, text_before, arith, str_eq,
}
use nexusdock.Continuation.Types.{invalid, Result, ok, err, ◌>>=◌, ◌>>◌, refuse_if, or_fail}
use nexusdock.Sessions.Revocation.{revision_string}
use nexusdock.Projects.Revisions.{atoi, parse_revision}
use nexusdock.Projects.Parsing.{parse_revision-revision_string}
use nexusdock.Projects.Folders.{
  is_windows_absolute_path, is_native_path, validate_working_folder_for_os,
}
use nexusdock.Projects.Tables.{
  DeploymentPermissions, kind_user, ApplyStatus, ProjectRow, DeploymentRow, Deployment,
  ProjectTables, scan_project, scan_deployment, list_deployments, get_deployment, get_project,
  get_node_session,
}
use nexusdock.Projects.Writes.{
  settle, validate_project_fields, create_project, project_conflict_or_not_found, update_projects,
  write_project, update_project, stage_removal, stage_all, without_project, drop_project,
  delete_project,
}
use nexusdock.Projects.Rollout.{
  PermissionRules, DeploymentInput, succeeded, validate_deployment_fields, insert_deployment,
  create_deployment, deployment_conflict_or_not_found, write_deployment, update_deployment,
  drop_deployment, delete_deployment, record_apply_result, mark_pending, record_removal_result,
}
use nexusdock.Projects.Nodes.{
  ensure_container, rename_container, add_deployment, adapt_deployment, ensure_deployment,
  put_node_session_configuration, without_container, delete_node_session,
}
use nexusdock.Projects.Register.{
  ProjectStep, create, update, delete, run_step, run_steps, row_of, cell_step, run_cell,
  run_steps-run_cell,
}
use nexusdock.Projects.Steps.{Step, Reach}
use nexusdock.Projects.Applied.{Consistent, Reach-Consistent}
use nexusdock.Projects.Conflicts.{late_result, second_update_refused}
use nexusdock.Projects.Removed.{removes, delete_project-Staged}
use nexusdock.Projects.Paths.{WindowsPath, is_windows_absolute_path-WindowsPath}

abbrev any_permissions : PermissionRules
any_permissions = record { accepts = λ p. true }

abbrev read_only : DeploymentPermissions
read_only = record {
  files = "read_only";
  shell = true;
  browser = false;
  dynamic_mcp = false;
  acp = false;
  full_access = false;
}

abbrev project_row : ProjectRow
project_row = record {
  id = "p1";
  name = "Dock";
  orchestration_policy = "";
  kind = kind_user;
  node_id = none;
  revision = 3;
  enabled = true;
  created_at = 0;
  updated_at = 0;
}

abbrev deployment_row : DeploymentRow
deployment_row = record {
  id = "d1";
  project_id = "p1";
  node_id = "n1";
  working_folder = "/srv/dock";
  role = "build";
  purpose = "";
  permissions = read_only;
  desired_revision = 2;
  applied_revision = 1;
  enabled = true;
  apply_status = ApplyStatus.pending;
  created_at = 0;
  updated_at = 0;
}

abbrev tables : ProjectTables
tables = record {
  devices = record { id = "n1"; name = "node"; os = "Linux" } ∷ [];
  projects = project_row ∷ [];
  deployments = deployment_row ∷ [];
  removals = [];
  sessions = [];
  receipts = [];
}

abbrev new_folder : DeploymentInput
new_folder = record {
  working_folder = " /srv/next ";
  role = "";
  purpose = "";
  permissions = read_only;
  enabled = true;
}

-- The names that a run has to unfold.
is_ok : {A : Type 0} → Result A → Bool
unfolding atoi parse_revision lowers_to is_native_path is_windows_absolute_path
    validate_working_folder_for_os scan_project scan_deployment list_deployments get_deployment
    get_project get_node_session settle validate_project_fields create_project
    project_conflict_or_not_found update_projects write_project update_project stage_removal
    stage_all without_project drop_project delete_project validate_deployment_fields
    insert_deployment create_deployment deployment_conflict_or_not_found write_deployment
    update_deployment drop_deployment delete_deployment record_apply_result mark_pending
    record_removal_result ensure_container rename_container add_deployment adapt_deployment
    ensure_deployment put_node_session_configuration without_container delete_node_session run_step
    run_steps cell_step run_cell is_space trim_space decimal digits_value text_before ◌>>=◌ ◌>>◌
    refuse_if or_fail
is_ok (ok r) = true
is_ok (err e) = false

-- A sign and leading zeros are read.
lenient_parse :
    (parse_revision "rev-+3" ≡ ok 3)
    × (parse_revision " rev-007 " ≡ ok 7)
    × (parse_revision "rev-9223372036854775808" ≡ err invalid)
unfolding is_ok
lenient_parse = (refl, refl, refl)

parse_revision-revision_string_example : parse_revision (revision_string 4070) ≡ ok 4070
parse_revision-revision_string_example =
    parse_revision-revision_string 4070 (omega arith) (omega arith)

is_windows_absolute_path-WindowsPath_example :
    (is_windows_absolute_path (codes "//host/share") ≡ true) ↔ WindowsPath (codes "//host/share")
is_windows_absolute_path-WindowsPath_example =
    is_windows_absolute_path-WindowsPath (codes "//host/share")

abbrev steps : List ProjectStep
steps =
    update 5 " p1" "rev-3" (record { name = "Dock 2"; orchestration_policy = ""; enabled = true })
    ∷ delete 6 "p1" "rev-3"
    ∷ create ("p2" ∷ []) 7 (record { name = "New"; orchestration_policy = ""; enabled = true })
    ∷ []

run_steps-run_cell_example :
    row_of (run_steps steps tables) "p1" ≡ run_cell steps "p1" (row_of tables "p1")
run_steps-run_cell_example = run_steps-run_cell steps tables "p1" (refl, tt)

abbrev updated : ProjectTables
updated = (update_deployment any_permissions tables 5 "p1" "d1" "rev-2" new_folder).0

Reach-Consistent_example : Consistent (record_apply_result updated 6 "p1" "d1" "rev-3" succeeded).0
Reach-Consistent_example =
    Reach-Consistent any_permissions tables
      (record_apply_result updated 6 "p1" "d1" "rev-3" succeeded).0
      (Reach.next (Reach.next Reach.start (Step.deployment_updated 5 "p1" "d1" "rev-2" new_folder))
        (Step.apply_recorded 6 "p1" "d1" "rev-3" succeeded))
      (record { rows = ((omega arith, tt), tt) })

run_applies :
    (is_ok (update_deployment any_permissions tables 5 "p1" "d1" "rev-2" new_folder).1 ≡ true)
    × (is_ok (record_apply_result updated 6 "p1" "d1" "rev-3" succeeded).1 ≡ true)
unfolding is_ok
run_applies = (refl, refl)

late_result_example :
    record_apply_result updated 6 "p1" "d1" "rev-2" succeeded
    ≡ (updated, get_deployment updated "p1" "d1")
unfolding is_ok
late_result_example = late_result updated 6 "p1" "d1" "rev-2" succeeded 2 refl refl

abbrev after_update : Deployment
after_update = scan_deployment (record deployment_row {
  working_folder = "/srv/next";
  role = "";
  desired_revision = 3;
  updated_at = 5;
})

second_update_refused_example :
    ((update_deployment any_permissions updated 6 "p1" "d1" "rev-2" new_folder).0 ≡ updated)
    × ((x : Deployment)
        → (update_deployment any_permissions updated 6 "p1" "d1" "rev-2" new_folder).1 ≢ ok x)
unfolding is_ok
second_update_refused_example =
    second_update_refused any_permissions tables updated 5 6 "p1" "d1" "rev-2" new_folder new_folder
      after_update refl

abbrev deleted : ProjectTables
deleted = (delete_project tables 8 "p1" "rev-3").0

delete_project-Staged_example :
    ((key : String)
      → any (removes key) deleted.removals
        ≡ any (removes key) tables.removals
          || any (λ d. str_eq d.project_id (trim_space "p1") && str_eq d.id key) tables.deployments)
    × (any (λ d. str_eq d.project_id (trim_space "p1")) deleted.deployments ≡ false)
unfolding is_ok
delete_project-Staged_example =
    delete_project-Staged tables deleted 8 "p1" "rev-3" (scan_deployment deployment_row ∷ []) refl
