-- ===== src/Projects/Nodes.antt =====
-- internal/project/store.go: the container of a node's sessions (PutNodeSessionConfiguration,
-- DeleteNodeSession). The rows of targets, continuations and deliveries that go with a work session
-- are those of Sessions and Continuation, and not in these tables.
use nexusdock.Shared.{
  filter, ℕ, ◌+◌, String, str_eq, trim_space, is_empty, List, [], ◌∷◌, ◌++◌, none, some, Bool, true,
  false, ◌&&◌, ◌||◌, not, find_first, any, if◌then◌else◌,
}
use nexusdock.Continuation.Types.{
  Error, invalid, failed, no_rows, node_not_found, node_session_not_found, Result, ok, err, ◌>>=◌,
  ◌>>◌, or_fail, refuse_if,
}
use nexusdock.Continuation.Outcomes.{next_id}
use nexusdock.Projects.Tables.{
  DeploymentPermissions, kind_node, ApplyStatus, ProjectRow, DeploymentRow, NodeSession,
  ProjectTables, scan_project, is_node_container, is_user, scan_deployment, get_node_session,
}
use nexusdock.Projects.Rollout.{
  PermissionRules, stored, files_allowed, set_where, collides, new_deployment,
}

abbrev new_container : ℕ → String → String → String → ProjectRow
new_container now name node id = record {
  id = id;
  name = name;
  orchestration_policy = "";
  kind = kind_node;
  node_id = some node;
  revision = 1;
  enabled = true;
  created_at = now;
  updated_at = now;
}

-- INSERT … ON CONFLICT DO NOTHING, and whether it inserted.
unfoldable pub ensure_container :
    ProjectTables → ℕ → String → String → String → ProjectTables × Bool
ensure_container db now name node id =
    if any (λ p. str_eq p.id id || is_node_container node p) db.projects
    then (db, false)
    else (record db { projects = db.projects ++ new_container now name node id ∷ [] }, true)

-- The container takes the name that the node has now.
unfoldable pub rename_container : ProjectTables → ℕ → ProjectRow → String → ProjectTables
rename_container db now p name = if str_eq p.name name then db else record db {
  projects =
      set_where (λ q. str_eq q.id p.id) (λ q. record q { name = name; updated_at = now })
        db.projects;
}

abbrev pub same_bool : Bool → Bool → Bool
same_bool true b = b
same_bool false b = not b

abbrev pub same_permissions : DeploymentPermissions → DeploymentPermissions → Bool
same_permissions p q =
    str_eq p.files q.files
    && same_bool p.shell q.shell
    && same_bool p.browser q.browser
    && same_bool p.dynamic_mcp q.dynamic_mcp
    && same_bool p.acp q.acp
    && same_bool p.full_access q.full_access

abbrev pub reconfigure : ℕ → Bool → DeploymentPermissions → DeploymentRow → DeploymentRow
reconfigure now enabled permissions d = record d {
  permissions = permissions;
  desired_revision = d.desired_revision + 1;
  enabled = enabled;
  apply_status = ApplyStatus.pending;
  updated_at = now;
}

-- A new deployment for the container.
unfoldable pub add_deployment :
    List String
    → ProjectTables
    → ℕ
    → ProjectRow
    → String
    → Bool
    → DeploymentPermissions
    → Result (ProjectTables × DeploymentRow × Bool)
add_deployment ids db now p node enabled permissions = next_id ids >>= λ id.
    let row =
      new_deployment now p.id node ""
        (record {
          working_folder = "";
          role = "";
          purpose = "";
          permissions = permissions;
          enabled = enabled;
        })
        id.0 in
    refuse_if (not (files_allowed permissions) || any (collides id.0 p.id node) db.deployments)
      failed
    >> ok (record db { deployments = db.deployments ++ row ∷ [] }, row, true)

-- The deployment that is there already, changed when the request differs.
unfoldable pub adapt_deployment :
    ProjectTables
    → ℕ
    → DeploymentRow
    → Bool
    → DeploymentPermissions
    → Result (ProjectTables × DeploymentRow × Bool)
adapt_deployment db now d enabled permissions =
    if not (is_empty d.working_folder)
    then err failed
    else if same_bool d.enabled enabled && same_permissions d.permissions permissions
    then ok (db, d, false)
    else if files_allowed permissions
    then ok (
      record db {
        deployments =
            set_where (λ e. str_eq e.id d.id) (reconfigure now enabled permissions) db.deployments;
      },
      reconfigure now enabled permissions d,
      false,
    )
    else err failed

-- The deployment of the container, and whether it is new.
unfoldable pub ensure_deployment :
    List String
    → ProjectTables
    → ℕ
    → ProjectRow
    → String
    → Bool
    → DeploymentPermissions
    → Result (ProjectTables × DeploymentRow × Bool)
ensure_deployment ids db now p node enabled permissions =
    elim (find_first (λ d. str_eq d.project_id p.id && str_eq d.node_id node) db.deployments) [
      | none ↦ add_deployment ids db now p node enabled permissions
      | some d ↦ adapt_deployment db now d enabled permissions
    ]

-- The answer is the container with its name, its deployment, and whether either is new.
unfoldable pub put_node_session_configuration :
    PermissionRules
    → List String
    → ProjectTables
    → ℕ
    → String
    → Bool
    → DeploymentPermissions
    → Result (ProjectTables × NodeSession × Bool)
put_node_session_configuration rules ids db now node enabled requested = do
  refuse_if (is_empty (trim_space node)) invalid
  refuse_if (not (rules.accepts (stored requested))) invalid
  device ← or_fail (find_first (λ n. str_eq n.id (trim_space node)) db.devices) node_not_found
  id ← next_id ids
  let inserted = ensure_container db now device.name (trim_space node) id.0 in
      or_fail (find_first (is_node_container (trim_space node)) inserted.0.projects) no_rows
      >>= λ p.
          ensure_deployment id.1 (rename_container inserted.0 now p device.name) now p
            (trim_space node) enabled (stored requested)
          >>= λ r. ok (
            r.0,
            record {
              project = record (scan_project p) { name = device.name };
              deployment = scan_deployment r.1;
            },
            inserted.1 || r.2,
          )

-- The rows that go with the container.
unfoldable pub without_container : ProjectTables → String → ProjectTables
without_container db project = record db {
  receipts =
      filter
        (λ r.
          not (any (λ s. str_eq s.id r.work_session_id && str_eq s.project_id project) db.sessions))
        db.receipts;
  sessions = filter (λ s. not (str_eq s.project_id project)) db.sessions;
  projects = filter (λ p. not (str_eq p.id project && not (is_user p))) db.projects;
  deployments = filter (λ d. not (str_eq d.project_id project)) db.deployments;
}

abbrev pub is_missing : Error → Bool
is_missing node_session_not_found = true
is_missing _ = false

abbrev pub delete_container : ProjectTables → Result NodeSession → Result ProjectTables
delete_container db (ok item) = ok (without_container db item.project.id)
delete_container db (err e) = if is_missing e then ok db else err e

unfoldable pub delete_node_session : ProjectTables → String → Result ProjectTables
delete_node_session db node = delete_container db (get_node_session db node)
