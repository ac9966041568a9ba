-- ===== src/Projects/Tables.antt =====
-- internal/project/store.go: the tables, the scan of a row, and the reads. The column last_error
-- is left out. A foreign key that cascades is written out where a row is deleted.
use Prim.Native.Char.{code}
use nexusdock.Shared.{
  filter, ℕ, ◌+◌, String, str_eq, trim_space, is_empty, ltb, ◌==◌, leb, List, [], ◌∷◌, map, Option,
  none, some, Bool, true, false, ◌&&◌, ◌||◌, not, find_first, if◌then◌else◌, text_before,
}
use nexusdock.Continuation.Types.{
  Error, invalid, deployment_not_found, project_not_found, node_session_not_found, Result, ok, err,
  ◌>>=◌, ◌>>◌, or_fail, refuse_if,
}
use nexusdock.Sessions.Listing.{sort_by, text_less}
use nexusdock.Sessions.Revocation.{revision_string}

-- protocol.DeploymentPermissions. The column full_access does not exist: a stored row has it off.
pub record DeploymentPermissions : Type 0 where
  pub files : String
  pub shell : Bool
  pub browser : Bool
  pub dynamic_mcp : Bool
  pub acp : Bool
  pub full_access : Bool

pub data ProjectKind : Type 0 where
  kind_user kind_node : ProjectKind

pub data ApplyStatus : Type 0 where
  draft pending applied failed disabled : ApplyStatus

pub record ProjectRow : Type 0 where
  pub id : String
  pub name : String
  pub orchestration_policy : String
  pub kind : ProjectKind
  pub node_id : Option String
  pub revision : ℕ
  pub enabled : Bool
  pub created_at : ℕ
  pub updated_at : ℕ

pub record DeploymentRow : Type 0 where
  pub id : String
  pub project_id : String
  pub node_id : String
  pub working_folder : String
  pub role : String
  pub purpose : String
  pub permissions : DeploymentPermissions
  pub desired_revision : ℕ
  pub applied_revision : ℕ
  pub enabled : Bool
  pub apply_status : ApplyStatus
  pub created_at : ℕ
  pub updated_at : ℕ

pub record Deployment : Type 0 where
  pub id : String
  pub project_id : String
  pub node_id : String
  pub working_folder : String
  pub role : String
  pub purpose : String
  pub permissions : DeploymentPermissions
  pub desired_revision : String
  pub applied_revision : String
  pub enabled : Bool
  pub apply_status : ApplyStatus
  pub created_at : ℕ
  pub updated_at : ℕ

pub record Project : Type 0 where
  pub id : String
  pub name : String
  pub orchestration_policy : String
  pub kind : ProjectKind
  pub node_id : String
  pub revision : String
  pub enabled : Bool
  pub created_at : ℕ
  pub updated_at : ℕ
  pub deployments : List Deployment

pub record NodeSession : Type 0 where
  pub project : Project
  pub deployment : Deployment

pub record Removal : Type 0 where
  pub deployment_id : String
  pub project_id : String
  pub node_id : String
  pub removed_at : ℕ

-- The columns of agentdock_devices that this store reads.
pub record Device : Type 0 where
  pub id : String
  pub name : String
  pub os : String

-- The columns of work_sessions and command_source_receipts by which this store deletes rows.
pub record SessionEntry : Type 0 where
  pub id : String
  pub project_id : String

pub record ReceiptEntry : Type 0 where
  pub event_id : String
  pub work_session_id : String

pub record ProjectTables : Type 0 where
  pub devices : List Device
  pub projects : List ProjectRow
  pub deployments : List DeploymentRow
  pub removals : List Removal
  pub sessions : List SessionEntry
  pub receipts : List ReceiptEntry

-- COALESCE(node_id, '').
abbrev text_or_empty : Option String → String
text_or_empty none = ""
text_or_empty (some s) = s

unfoldable pub scan_project : ProjectRow → Project
scan_project r = record {
  id = r.id;
  name = r.name;
  orchestration_policy = r.orchestration_policy;
  kind = r.kind;
  node_id = text_or_empty r.node_id;
  revision = revision_string r.revision;
  enabled = r.enabled;
  created_at = r.created_at;
  updated_at = r.updated_at;
  deployments = [];
}

unfoldable pub scan_deployment : DeploymentRow → Deployment
scan_deployment r = record {
  id = r.id;
  project_id = r.project_id;
  node_id = r.node_id;
  working_folder = r.working_folder;
  role = r.role;
  purpose = r.purpose;
  permissions = r.permissions;
  desired_revision = revision_string r.desired_revision;
  applied_revision = if ltb 0 r.applied_revision then revision_string r.applied_revision else "";
  enabled = r.enabled;
  apply_status = r.apply_status;
  created_at = r.created_at;
  updated_at = r.updated_at;
}

-- COLLATE NOCASE: ASCII letters compare as lower case.
abbrev pub fold_ascii : ℕ → ℕ
fold_ascii c = if leb b'A' c && leb c b'Z' then c + 32 else c

unfoldable pub nocase_less : String → String → Bool
nocase_less s String.[] = false
nocase_less String.[] (String.◌∷◌ d t) = true
nocase_less (String.◌∷◌ c s) (String.◌∷◌ d t) =
    ltb (fold_ascii (code c)) (fold_ascii (code d))
    || (fold_ascii (code c) == fold_ascii (code d) && nocase_less s t)

-- ORDER BY name COLLATE NOCASE, id.
unfoldable pub by_name : ProjectRow → ProjectRow → Bool
by_name p q = nocase_less p.name q.name || (not (nocase_less q.name p.name) && text_less p.id q.id)

abbrev pub is_user : ProjectRow → Bool
is_user p = elim p.kind [ kind_user ↦ true | kind_node ↦ false ]

abbrev pub is_node_container : String → ProjectRow → Bool
is_node_container node p = not (is_user p) && str_eq (text_or_empty p.node_id) node

unfoldable pub list_projects : ProjectTables → List Project
list_projects db = map scan_project (sort_by by_name (filter is_user db.projects))

abbrev pub by_deployment_id : DeploymentRow → DeploymentRow → Bool
by_deployment_id d e = text_less d.id e.id

unfoldable pub list_deployments : ProjectTables → String → List Deployment
list_deployments db project = map scan_deployment (
    sort_by by_deployment_id
      (filter (λ d. str_eq d.project_id (trim_space project)) db.deployments))

-- ORDER BY project_id, id.
abbrev by_project : DeploymentRow → DeploymentRow → Bool
by_project d e =
    text_less d.project_id e.project_id || (str_eq d.project_id e.project_id && text_less d.id e.id)

unfoldable pub list_deployments_for_node : ProjectTables → String → List Deployment
list_deployments_for_node db node =
    map scan_deployment
      (sort_by by_project (filter (λ d. str_eq d.node_id (trim_space node)) db.deployments))

abbrev pub is_deployment : String → String → DeploymentRow → Bool
is_deployment project id d = str_eq d.project_id (trim_space project) && str_eq d.id (trim_space id)

unfoldable pub get_deployment : ProjectTables → String → String → Result Deployment
get_deployment db project id =
    or_fail (find_first (is_deployment project id) db.deployments) deployment_not_found >>= λ d.
    ok (scan_deployment d)

unfoldable pub get_project : ProjectTables → String → Result Project
get_project db id = do
  refuse_if (is_empty (trim_space id)) invalid
  r ← or_fail (find_first (λ p. str_eq p.id (trim_space id)) db.projects) project_not_found
  ok (record (scan_project r) { deployments = list_deployments db (trim_space id) })

unfoldable pub get_user_project : ProjectTables → String → Result Project
get_user_project db id = do
  refuse_if (is_empty (trim_space id)) invalid
  r ←
      or_fail (find_first (λ p. str_eq p.id (trim_space id) && is_user p) db.projects)
        project_not_found
  ok (record (scan_project r) { deployments = list_deployments db (trim_space id) })

-- The container of a node has the one deployment, on the node and without a folder.
abbrev sole_deployment : String → List Deployment → Result Deployment
sole_deployment node (d ∷ []) =
    if str_eq d.node_id node && is_empty d.working_folder then ok d else err Error.failed
sole_deployment node _ = err Error.failed

unfoldable pub get_node_session : ProjectTables → String → Result NodeSession
get_node_session db node = do
  refuse_if (is_empty (trim_space node)) invalid
  r ← or_fail (find_first (is_node_container (trim_space node)) db.projects) node_session_not_found
  d ← sole_deployment (trim_space node) (list_deployments db r.id)
  ok (record {
    project = record (scan_project r) { deployments = list_deployments db r.id };
    deployment = d;
  })

-- ORDER BY removed_at, deployment_id.
abbrev by_removal : Removal → Removal → Bool
by_removal a b =
    text_before a.removed_at b.removed_at
    || (a.removed_at == b.removed_at && text_less a.deployment_id b.deployment_id)

unfoldable pub list_pending_removals_for_node : ProjectTables → String → List Removal
list_pending_removals_for_node db node =
    sort_by by_removal (filter (λ r. str_eq r.node_id (trim_space node)) db.removals)
