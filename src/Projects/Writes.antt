-- ===== src/Projects/Writes.antt =====
-- internal/project/store.go: CreateProject, UpdateProject, DeleteProject, stageRemoval. An
-- operation gives the tables that it leaves beside its answer; an error before the first write
-- leaves them as they were.
use nexusdock.Shared.{
  filter, ℕ, ◌+◌, String, str_eq, trim_space, is_empty, ◌==◌, List, [], ◌∷◌, ◌++◌, map, none, some,
  Bool, ◌&&◌, not, find_first, any, if◌then◌else◌,
}
use nexusdock.Continuation.Types.{
  Error, invalid, failed, project_not_found, revision_conflict, Result, ok, err, ◌>>=◌, ◌>>◌,
  refuse_if,
}
use nexusdock.Continuation.Outcomes.{next_id}
use nexusdock.Sessions.Revocation.{revision_string}
use nexusdock.Projects.Revisions.{parse_revision}
use nexusdock.Projects.Tables.{
  kind_user, ProjectRow, Deployment, Project, Removal, ProjectTables, list_deployments, get_project,
}

-- The tables as they were, when the operation stops with an error before it writes.
unfoldable pub settle {ℓ} :
    {A : Type ℓ} → ProjectTables → Result (ProjectTables × Result A) → ProjectTables × Result A
settle db (ok r) = r
settle db (err e) = (db, err e)

pub record ProjectInput : Type 0 where
  pub name : String
  pub orchestration_policy : String
  pub enabled : Bool

-- validateProjectFields: the name, trimmed.
unfoldable pub validate_project_fields : String → Result String
validate_project_fields name =
    if is_empty (trim_space name) then err invalid else ok (trim_space name)

abbrev pub new_project : ℕ → String → ProjectInput → String → ProjectRow
new_project now name input id = record {
  id = id;
  name = name;
  orchestration_policy = input.orchestration_policy;
  kind = kind_user;
  node_id = none;
  revision = 1;
  enabled = input.enabled;
  created_at = now;
  updated_at = now;
}

unfoldable pub create_project :
    List String → ProjectTables → ℕ → ProjectInput → ProjectTables × Result Project
create_project ids db now input = settle db do
  name ← validate_project_fields input.name
  id ← next_id ids
  refuse_if (any (λ p. str_eq p.id id.0) db.projects) failed
  let left : ProjectTables = record db {
    projects = db.projects ++ new_project now name input id.0 ∷ [];
  } in
      ok (left, get_project left id.0)

-- projectConflictOrNotFound.
unfoldable pub project_conflict_or_not_found : ProjectTables → String → Error
project_conflict_or_not_found db id =
    elim (find_first (λ p. str_eq p.id (trim_space id)) db.projects) [
      | none ↦ project_not_found
      | some p ↦ revision_conflict (revision_string p.revision)
    ]

-- WHERE id = ? AND revision = ?
abbrev pub at_revision : String → ℕ → ProjectRow → Bool
at_revision id revision p = str_eq p.id id && p.revision == revision

abbrev pub change_project : ℕ → String → ProjectInput → ProjectRow → ProjectRow
change_project now name input p = record p {
  name = name;
  orchestration_policy = input.orchestration_policy;
  enabled = input.enabled;
  revision = p.revision + 1;
  updated_at = now;
}

-- The UPDATE of UpdateProject.
unfoldable pub update_projects :
    ℕ → String → ProjectInput → String → ℕ → List ProjectRow → List ProjectRow
update_projects now name input id expected rows =
    map (λ p. if at_revision id expected p then change_project now name input p else p) rows

-- The UPDATE, by whether it changed a row.
unfoldable pub write_project :
    ProjectTables → ℕ → String → ProjectInput → String → ℕ → ProjectTables × Result Project
write_project db now name input id expected =
    let left : ProjectTables = record db {
      projects = update_projects now name input id expected db.projects;
    } in
    if any (at_revision id expected) db.projects
    then (left, get_project left id)
    else (db, err (project_conflict_or_not_found db id))

unfoldable pub update_project :
    ProjectTables → ℕ → String → String → ProjectInput → ProjectTables × Result Project
update_project db now id expected_revision input = settle db do
  expected ← parse_revision expected_revision
  name ← validate_project_fields input.name
  ok (write_project db now name input (trim_space id) expected)

-- The upsert of stageRemoval.
abbrev pub put_removal : List Removal → Removal → List Removal
put_removal [] r = r ∷ []
put_removal (x ∷ xs) r =
    if str_eq x.deployment_id r.deployment_id then r ∷ xs else x ∷ put_removal xs r

abbrev pub removal_of : ℕ → Deployment → Removal
removal_of now d = record {
  deployment_id = d.id;
  project_id = d.project_id;
  node_id = d.node_id;
  removed_at = now;
}

-- stageRemoval.
unfoldable pub stage_removal : ℕ → List Removal → Deployment → List Removal
stage_removal now rs d = put_removal rs (removal_of now d)

unfoldable pub stage_all : ℕ → List Removal → List Deployment → List Removal
stage_all now rs [] = rs
stage_all now rs (d ∷ ds) = stage_all now (stage_removal now rs d) ds

-- The rows that remain when the project goes, and with it its deployments.
unfoldable pub without_project : ProjectTables → String → ℕ → ProjectTables
without_project db id expected = record db {
  projects = filter (λ p. not (at_revision id expected p)) db.projects;
  deployments = filter (λ d. not (str_eq d.project_id id)) db.deployments;
}

-- DeleteProject after the parse; a conflict takes back the removals that were staged.
unfoldable pub drop_project :
    ProjectTables → ℕ → String → ℕ → ProjectTables × Result (List Deployment)
drop_project db now id expected =
    let gone = list_deployments db id in
    if any (at_revision id expected) db.projects
    then (
      record (without_project db id expected) { removals = stage_all now db.removals gone },
      ok gone,
    )
    else (db, err (project_conflict_or_not_found db id))

unfoldable pub delete_project :
    ProjectTables → ℕ → String → String → ProjectTables × Result (List Deployment)
delete_project db now id expected_revision = settle db (
    parse_revision expected_revision >>= λ expected.
    ok (drop_project db now (trim_space id) expected))
