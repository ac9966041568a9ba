-- ===== src/Projects/Conflicts.antt =====
-- project/store.go: revisions in conflict, of a late apply result and of a second writer.
use nexusdock.Shared.{
  ℕ, ◌≡◌, refl, subst, ◌≢◌, String, List, [], ◌∷◌, Bool, false, any, arith, Bool-cases, inl, inr,
}
use nexusdock.Continuation.Types.{Result, ok, ◌>>=◌}
use nexusdock.Continuation.Ensures.{returns, chain, require, proceed}
use nexusdock.Projects.Revisions.{parse_revision}
use nexusdock.Projects.Tables.{DeploymentRow, Deployment, ProjectTables, get_deployment}
use nexusdock.Projects.Writes.{settle}
use nexusdock.Projects.Settled.{settle-holds}
use nexusdock.Projects.Rollout.{
  PermissionRules, DeploymentInput, ApplyOutcome, at_desired, set_where, apply_outcome,
  record_apply_result, change_deployment, write_deployment, update_deployment, files_allowed,
}

set_where-none :
    (p : DeploymentRow → Bool) (f : DeploymentRow → DeploymentRow) (rows : List DeploymentRow)
    → any p rows ≡ false
    → set_where p f rows ≡ rows
set_where-none p f [] h = refl
set_where-none p f (x ∷ rows) h = elim (Bool-cases (p x)) [
  | inl e ↦ ground (arith, h, e)
  | inr e ↦ rw (e, set_where-none p f rows (ground (arith, h))) refl
]

-- When no row of the deployment has the revision that an apply result names, then the result
-- leaves all tables as they are, and the answer is the deployment as it is now.
pub late_result :
    (db : ProjectTables) (now : ℕ) (project id revision : String) (outcome : ApplyOutcome) (n : ℕ)
    → parse_revision revision ≡ ok n
    → any (at_desired project id n) db.deployments ≡ false
    → record_apply_result db now project id revision outcome ≡ (db, get_deployment db project id)
unfolding record_apply_result settle ◌>>=◌
late_result db now project id revision outcome n f h =
    rw (f, set_where-none (at_desired project id n) (apply_outcome now n outcome) db.deployments h)
      refl

changed-missed :
    (project id : String) (n now : ℕ) (working : String) (input : DeploymentInput)
    (rows : List DeploymentRow)
    → any
        (at_desired project id n)
        (set_where (at_desired project id n) (change_deployment now working input) rows)
      ≡ false
changed-missed project id n now working input [] = refl
changed-missed project id n now working input (d ∷ rows) =
    elim (Bool-cases (at_desired project id n d)) [
      | inl e ↦ rw (e, changed-missed project id n now working input rows) (ground (arith, e))
      | inr e ↦ rw (e, e) (changed-missed project id n now working input rows)
    ]

-- After an update that succeeds, no row is left at the revision that it named.
abbrev Missed : String → String → String → ProjectTables × Result Deployment → Type 0
Missed project id revision (db, r) =
    (d : Deployment) (n : ℕ)
    → r ≡ ok d
    → parse_revision revision ≡ ok n
    → any (at_desired project id n) db.deployments ≡ false

write-Missed :
    (db : ProjectTables) (now : ℕ) (project id revision : String) (n : ℕ) (working : String)
    (input : DeploymentInput)
    → parse_revision revision ≡ ok n
    → Missed project id revision (write_deployment db now project id n working input)
unfolding write_deployment
write-Missed db now project id revision n working input f =
    elim (Bool-cases (any (at_desired project id n) db.deployments)) [
      | inl e ↦ elim (Bool-cases (files_allowed input.permissions)) [
        | inl g ↦
            rw (e, g)
              λ d m h k.
                let same : n ≡ m = ground (arith, f, k) in
                rw (← same) (changed-missed project id n now working input db.deployments)
        | inr g ↦ rw (e, g) λ d m h k. cc
      ]
      | inr e ↦ rw e λ d m h k. cc
    ]

update-Missed :
    (p : PermissionRules) (db : ProjectTables) (now : ℕ) (project id revision : String)
    (input : DeploymentInput)
    → Missed project id revision (update_deployment p db now project id revision input)
unfolding update_deployment
update-Missed p db now project id revision input =
    settle-holds (Missed project id revision) db _ (λ e d n h k. cc)
      (chain _ _ λ n e. chain _ _ λ working f. require _ _ _ λ os g.
        proceed _ _ λ h. returns (write-Missed db now project id revision n working input e))

abbrev Unchanged : ProjectTables → ProjectTables × Result Deployment → Type 0
Unchanged db (db', r) = (db' ≡ db) × ((d : Deployment) → r ≢ ok d)

write-Unchanged :
    (db : ProjectTables) (now : ℕ) (project id : String) (n : ℕ) (working : String)
    (input : DeploymentInput)
    → any (at_desired project id n) db.deployments ≡ false
    → Unchanged db (write_deployment db now project id n working input)
unfolding write_deployment
write-Unchanged db now project id n working input h = rw h (refl, λ d e. cc)

-- When an update of a deployment has succeeded at a revision, then any other update that names
-- the same revision, whatever it asks for, is refused and leaves the tables of the first.
pub second_update_refused :
    (p : PermissionRules) (db db' : ProjectTables) (now later : ℕ) (project id revision : String)
    (input other : DeploymentInput) (d : Deployment)
    → update_deployment p db now project id revision input ≡ (db', ok d)
    → ((update_deployment p db' later project id revision other).0 ≡ db')
      × ((x : Deployment) → (update_deployment p db' later project id revision other).1 ≢ ok x)
unfolding update_deployment
second_update_refused p db db' now later project id revision input other d h =
    let missed : Missed project id revision (db', ok d) =
      subst (Missed project id revision) h (update-Missed p db now project id revision input) in
    settle-holds (Unchanged db') db' _ (λ e. (refl, λ x k. cc))
      (chain _ _ λ n e. chain _ _ λ working f. require _ _ _ λ os g.
        proceed _ _
          λ i. returns (write-Unchanged db' later project id n working other (missed d n refl e)))
