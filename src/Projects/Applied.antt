-- ===== src/Projects/Applied.antt =====
-- project/store.go: the desired and the applied revision of a deployment.
use nexusdock.Shared.{
  ℕ, ◌≤◌, ◌≡◌, refl, sym, String, trim_space, Bool, true, false, List, All, All-append, All-filter,
  All-where, arith, Bool-cases, Option-cases, inl, inr, any, not, ◌&&◌, ◌||◌, if◌then◌else◌,
  find_first, str_eq, is_empty,
}
use nexusdock.Continuation.Types.{Result, ok, err}
use nexusdock.Continuation.Ensures.{
  Ensures, returns, raises, returned, branch, chain, require, proceed,
}
use nexusdock.Sessions.Revocation.{revision_string}
use nexusdock.Projects.Tables.{
  ApplyStatus, DeploymentPermissions, DeploymentRow, NodeSession, ProjectTables, ProjectRow,
  get_node_session, is_node_container,
}
use nexusdock.Projects.Writes.{
  settle, ProjectInput, create_project, write_project, update_project, at_revision, drop_project,
  delete_project, without_project,
}
use nexusdock.Projects.Rollout.{
  PermissionRules, DeploymentInput, ApplyOutcome, succeeded, refused, create_deployment,
  update_deployment, delete_deployment, record_apply_result, mark_pending, record_removal_result,
  insert_deployment, write_deployment, drop_deployment, at_desired, apply_outcome, ask_again,
  change_deployment, stored, files_allowed, collides,
}
use nexusdock.Projects.Nodes.{
  ensure_container, rename_container, add_deployment, adapt_deployment, same_bool, same_permissions,
  is_missing, ensure_deployment, reconfigure, delete_container, without_container,
  put_node_session_configuration, delete_node_session,
}
use nexusdock.Projects.Steps.{Step, Reach}

-- A status that says applied or disabled is that of the desired revision, and of a deployment
-- that is enabled, or not.
abbrev pub Agrees : ApplyStatus → DeploymentRow → Type 0
Agrees ApplyStatus.applied d = (d.applied_revision ≡ d.desired_revision) × (d.enabled ≡ true)
Agrees ApplyStatus.disabled d = (d.applied_revision ≡ d.desired_revision) × (d.enabled ≡ false)
Agrees _ d = Unit

abbrev pub InStep : DeploymentRow → Type 0
InStep d = (d.applied_revision ≤ d.desired_revision) × Agrees d.apply_status d

pub record Consistent (db : ProjectTables) : Type 0 where
  pub rows : All InStep db.deployments

-- The tables beside an answer are consistent.
record Leaves {A : Type 0} (r : ProjectTables × A) : Type 0 where
  rows : All InStep r.0.deployments

module _ {A : Type 0} where
  settled :
      (db : ProjectTables) (m : Result (ProjectTables × Result A))
      → Consistent db
      → Ensures (Leaves {A = Result A}) m
      → Leaves (settle db m)
  unfolding settle
  settled db _ c (returns h) = h
  settled db _ c raises = record { rows = c.rows }

  either :
      (b : Bool) (x y : ProjectTables × Result A)
      → Leaves x
      → Leaves y
      → Leaves (if b then x else y)
  either true x y h k = h
  either false x y h k = k

  alike :
      (db db' : ProjectTables) (a : Result A)
      → Consistent db
      → db'.deployments ≡ db.deployments
      → Leaves {A = Result A} (db', a)
  alike db db' a c e = record { rows = rw e c.rows }

create_project-Leaves :
    (ids : List String) (db : ProjectTables) (now : ℕ) (input : ProjectInput)
    → Consistent db
    → Leaves (create_project ids db now input)
unfolding create_project
create_project-Leaves ids db now input c =
    settled db _ c
      (chain _ _ λ name e. chain _ _ λ id f. proceed _ _ λ g. returns (alike db _ _ c refl))

update_project-Leaves :
    (db : ProjectTables) (now : ℕ) (id revision : String) (input : ProjectInput)
    → Consistent db
    → Leaves (update_project db now id revision input)
unfolding update_project write_project
update_project-Leaves db now id revision input c = settled db _ c (
    chain _ _ λ n e. chain _ _ λ name f. returns (
      either (any (at_revision (trim_space id) n) db.projects) _ _ (alike db _ _ c refl)
        (alike db _ _ c refl)))

delete_project-Leaves :
    (db : ProjectTables) (now : ℕ) (id revision : String)
    → Consistent db
    → Leaves (delete_project db now id revision)
unfolding delete_project drop_project without_project
delete_project-Leaves db now id revision c = settled db _ c (
    chain _ _ λ n e. returns (
      either (any (at_revision (trim_space id) n) db.projects) _ _
        (record { rows = All-filter InStep _ db.deployments c.rows }) (alike db _ _ c refl)))

create_deployment-Leaves :
    (p : PermissionRules) (ids : List String) (db : ProjectTables) (now : ℕ) (project node : String)
    (input : DeploymentInput)
    → Consistent db
    → Leaves (create_deployment p ids db now project node input)
unfolding create_deployment insert_deployment
create_deployment-Leaves p ids db now project node input c = settled db _ c (
    chain _ _ λ working e. proceed _ _ λ f. proceed _ _ λ g. require _ _ _ λ device h.
      proceed _ _ λ i. chain _ _ λ id j. returns (
        either (not (files_allowed input.permissions)) _ _ (alike db _ _ c refl) (
          either (any (collides id.0 (trim_space project) (trim_space node)) db.deployments) _ _
            (alike db _ _ c refl)
            (record { rows = All-append InStep db.deployments _ c.rows (omega arith, tt) }))))

update_deployment-Leaves :
    (p : PermissionRules) (db : ProjectTables) (now : ℕ) (project id revision : String)
    (input : DeploymentInput)
    → Consistent db
    → Leaves (update_deployment p db now project id revision input)
unfolding update_deployment write_deployment
update_deployment-Leaves p db now project id revision input c = settled db _ c (
    chain _ _ λ n e. chain _ _ λ working f. require _ _ _ λ os g. proceed _ _ λ h. returns (
      either (any (at_desired project id n) db.deployments) _ _
        (either (files_allowed input.permissions) _ _
          (record {
            rows =
                All-where InStep (at_desired project id n) (change_deployment now working input)
                  db.deployments (λ d e h. (omega (arith, h.0), tt)) c.rows;
          })
          (alike db _ _ c refl))
        (alike db _ _ c refl)))

delete_deployment-Leaves :
    (db : ProjectTables) (now : ℕ) (project id revision : String)
    → Consistent db
    → Leaves (delete_deployment db now project id revision)
unfolding delete_deployment drop_deployment
delete_deployment-Leaves db now project id revision c = settled db _ c (
    chain _ _ λ n e. require _ _ _ λ d f. returns (
      either (not (str_eq (revision_string d.desired_revision) (revision_string n))) _ _
        (alike db _ _ c refl)
        (either (any (at_desired project id n) db.deployments) _ _
          (record { rows = All-filter InStep _ db.deployments c.rows }) (alike db _ _ c refl))))

apply_outcome-InStep :
    (now n : ℕ) (outcome : ApplyOutcome) (project id : String) (d : DeploymentRow)
    → at_desired project id n d ≡ true
    → InStep d
    → InStep (apply_outcome now n outcome d)
apply_outcome-InStep now n succeeded project id d e h =
    let same : d.desired_revision ≡ n = ground (arith, e) in
    elim (Bool-cases d.enabled) [
      | inl on ↦ rw on (omega (arith, same), (sym same, refl))
      | inr off ↦ rw off (omega (arith, same), (sym same, refl))
    ]
apply_outcome-InStep now n refused project id d e h = (h.0, tt)

record_apply_result-Leaves :
    (db : ProjectTables) (now : ℕ) (project id revision : String) (outcome : ApplyOutcome)
    → Consistent db
    → Leaves (record_apply_result db now project id revision outcome)
unfolding record_apply_result
record_apply_result-Leaves db now project id revision outcome c = settled db _ c (
    chain _ _ λ n e. returns (record {
      rows =
          All-where InStep (at_desired project id n) (apply_outcome now n outcome) db.deployments
            (apply_outcome-InStep now n outcome project id) c.rows;
    }))

mark_pending-Leaves :
    (db : ProjectTables) (now : ℕ) (project id revision : String)
    → Consistent db
    → Leaves (mark_pending db now project id revision)
unfolding mark_pending
mark_pending-Leaves db now project id revision c = settled db _ c (
    chain _ _ λ n e. returns (record {
      rows =
          All-where InStep (at_desired project id n) (ask_again now) db.deployments
            (λ d e h. (h.0, tt)) c.rows;
    }))

record_removal_result-Leaves :
    (db : ProjectTables) (deployment : String) (outcome : ApplyOutcome)
    → Consistent db
    → Leaves (record_removal_result db deployment outcome)
unfolding record_removal_result
record_removal_result-Leaves db deployment succeeded c =
    either (is_empty (trim_space deployment)) _ _ (alike db _ _ c refl) (alike db _ _ c refl)
record_removal_result-Leaves db deployment refused c =
    either (is_empty (trim_space deployment)) _ _ (alike db _ _ c refl) (alike db _ _ c refl)

-- The operations on the container of a node.
ensure_container-rows :
    (db : ProjectTables) (now : ℕ) (name node id : String)
    → Consistent db
    → Consistent (ensure_container db now name node id).0
unfolding ensure_container
ensure_container-rows db now name node id c =
    elim (Bool-cases (any (λ p. str_eq p.id id || is_node_container node p) db.projects)) [
      | inl e ↦ rw e c
      | inr e ↦ rw e (record { rows = c.rows })
    ]

rename_container-rows :
    (db : ProjectTables) (now : ℕ) (p : ProjectRow) (name : String)
    → Consistent db
    → Consistent (rename_container db now p name)
unfolding rename_container
rename_container-rows db now p name c = elim (Bool-cases (str_eq p.name name)) [
  | inl e ↦ rw e c
  | inr e ↦ rw e (record { rows = c.rows })
]

adapt_deployment-Consistent :
    (db : ProjectTables) (now : ℕ) (d : DeploymentRow) (enabled : Bool)
    (permissions : DeploymentPermissions)
    → Consistent db
    → Ensures (λ r. Consistent r.0) (adapt_deployment db now d enabled permissions)
unfolding adapt_deployment
adapt_deployment-Consistent db now d enabled permissions c =
    branch (not (is_empty d.working_folder)) _ _ (λ f. raises)
      λ f.
        branch (same_bool d.enabled enabled && same_permissions d.permissions permissions) _ _
          (λ g. returns c)
          λ g.
            branch (files_allowed permissions) _ _
              (λ h. returns (record {
                rows =
                    All-where InStep (λ e. str_eq e.id d.id) (reconfigure now enabled permissions)
                      db.deployments (λ x k s. (omega (arith, s.0), tt)) c.rows;
              }))
              (λ h. raises)

ensure_deployment-Consistent :
    (ids : List String) (db : ProjectTables) (now : ℕ) (p : ProjectRow) (node : String)
    (enabled : Bool) (permissions : DeploymentPermissions)
    → Consistent db
    → Ensures (λ r. Consistent r.0) (ensure_deployment ids db now p node enabled permissions)
unfolding ensure_deployment add_deployment
ensure_deployment-Consistent ids db now p node enabled permissions c =
    elim (Option-cases
      (find_first (λ d. str_eq d.project_id p.id && str_eq d.node_id node) db.deployments)) [
        | inl e ↦
            rw (e, ensure_deployment)
              (chain _ _ λ id f. proceed _ _ λ g.
                returns
                  (record { rows = All-append InStep db.deployments _ c.rows (omega arith, tt) }))
        | inr (d, e) ↦
            rw (e, ensure_deployment) (adapt_deployment-Consistent db now d enabled permissions c)
      ]

put_node-Consistent :
    (p : PermissionRules) (ids : List String) (db : ProjectTables) (now : ℕ) (node : String)
    (enabled : Bool) (permissions : DeploymentPermissions)
    → Consistent db
    → Ensures
        (λ r. Consistent r.0)
        (put_node_session_configuration p ids db now node enabled permissions)
unfolding put_node_session_configuration
put_node-Consistent p ids db now node enabled permissions c = proceed _ _ λ a. proceed _ _ λ b.
    require _ _ _ λ device d. chain _ _ λ id e. require _ _ _ λ row f. chain _ _ λ r g. returns (
      returned
        (ensure_deployment-Consistent id.1 _ now row (trim_space node) enabled (stored permissions)
          (rename_container-rows _ now row device.name
            (ensure_container-rows db now device.name (trim_space node) id.0 c)))
        g)

delete_node-Consistent :
    (db : ProjectTables) (r : Result NodeSession)
    → Consistent db
    → Ensures Consistent (delete_container db r)
unfolding without_container
delete_node-Consistent db (ok item) c =
    returns (record { rows = All-filter InStep _ db.deployments c.rows })
delete_node-Consistent db (err e) c = branch (is_missing e) _ _ (λ f. returns c) (λ f. raises)

pub Step-Consistent :
    (p : PermissionRules) (db db' : ProjectTables) → Step p db db' → Consistent db → Consistent db'
unfolding delete_node_session
Step-Consistent p db _ (Step.project_created ids now input) c = record {
  rows = (create_project-Leaves ids db now input c).rows;
}
Step-Consistent p db _ (Step.project_updated now id revision input) c = record {
  rows = (update_project-Leaves db now id revision input c).rows;
}
Step-Consistent p db _ (Step.project_deleted now id revision) c = record {
  rows = (delete_project-Leaves db now id revision c).rows;
}
Step-Consistent p db _ (Step.deployment_created ids now project node input) c = record {
  rows = (create_deployment-Leaves p ids db now project node input c).rows;
}
Step-Consistent p db _ (Step.deployment_updated now project id revision input) c = record {
  rows = (update_deployment-Leaves p db now project id revision input c).rows;
}
Step-Consistent p db _ (Step.deployment_deleted now project id revision) c = record {
  rows = (delete_deployment-Leaves db now project id revision c).rows;
}
Step-Consistent p db _ (Step.apply_recorded now project id revision outcome) c = record {
  rows = (record_apply_result-Leaves db now project id revision outcome c).rows;
}
Step-Consistent p db _ (Step.pending_marked now project id revision) c = record {
  rows = (mark_pending-Leaves db now project id revision c).rows;
}
Step-Consistent p db _ (Step.removal_recorded deployment outcome) c = record {
  rows = (record_removal_result-Leaves db deployment outcome c).rows;
}
Step-Consistent p db db' (Step.node_configured ids now node enabled permissions _ session created e)
      c =
    returned (put_node-Consistent p ids db now node enabled permissions c) e
Step-Consistent p db db' (Step.node_removed node _ e) c =
    returned (delete_node-Consistent db (get_node_session db node) c) e

-- After any sequence of the operations on projects, deployments and node sessions, from tables
-- that were so, each deployment has an applied revision that is at most the desired one; a
-- deployment whose status is applied has the desired revision applied and is enabled, and one
-- whose status is disabled has the desired revision applied and is not enabled.
pub Reach-Consistent :
    (p : PermissionRules) (db db' : ProjectTables) → Reach p db db' → Consistent db → Consistent db'
Reach-Consistent p db _ Reach.start c = c
Reach-Consistent p db db' (Reach.next {a} r s) c =
    Step-Consistent p a db' s (Reach-Consistent p db a r c)
