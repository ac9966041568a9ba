-- ===== src/Projects/Removed.antt =====
-- project/store.go: what a deletion leaves for the nodes to remove.
use nexusdock.Shared.{
  ℕ, ◌≡◌, refl, ap, subst, ◌∙◌, String, str_eq, eq_iff, trim_space, trim_space_idem, List, [], ◌∷◌,
  map, filter, Bool, false, ◌&&◌, ◌||◌, not, any, arith, Bool-cases, inl, inr,
}
use nexusdock.Continuation.Types.{Result, ok}
use nexusdock.Continuation.Ensures.{returns, chain}
use nexusdock.Sessions.Listing.{insert_by, sort_by}
use nexusdock.Projects.Tables.{
  DeploymentRow, Deployment, Removal, ProjectTables, scan_deployment, list_deployments,
  by_deployment_id,
}
use nexusdock.Projects.Writes.{
  at_revision, put_removal, removal_of, stage_removal, stage_all, without_project, drop_project,
  delete_project,
}
use nexusdock.Projects.Settled.{settle-holds}

module _ {A : Type 0} where
  any-insert_by :
      (before : A → A → Bool) (p : A → Bool) (x : A) (xs : List A)
      → any p (insert_by before x xs) ≡ p x || any p xs
  any-insert_by before p x [] = refl
  any-insert_by before p x (y ∷ ys) = ground (arith, any-insert_by before p x ys)

  any-sort_by :
      (before : A → A → Bool) (p : A → Bool) (xs : List A) → any p (sort_by before xs) ≡ any p xs
  any-sort_by before p [] = refl
  any-sort_by before p (x ∷ xs) =
      any-insert_by before p x (sort_by before xs) ∙ ap (λ b. p x || b) (any-sort_by before p xs)

  any-of_filter : (p q : A → Bool) (xs : List A) → any p (filter q xs) ≡ any (λ x. q x && p x) xs
  any-of_filter p q [] = refl
  any-of_filter p q (x ∷ xs) = ground (arith, any-of_filter p q xs)

-- A removal of the deployment with the id.
abbrev pub removes : String → Removal → Bool
removes key r = str_eq r.deployment_id key

any-put_removal :
    (rs : List Removal) (r : Removal) (key : String)
    → any (removes key) (put_removal rs r) ≡ any (removes key) rs || removes key r
any-put_removal [] r key = ground arith
any-put_removal (x ∷ rs) r key =
    ground (arith, eq_iff x.deployment_id r.deployment_id, any-put_removal rs r key)

any-stage_all :
    (now : ℕ) (rows : List DeploymentRow) (rs : List Removal) (key : String)
    → any (removes key) (stage_all now rs (map scan_deployment rows))
      ≡ any (removes key) rs || any (λ d. str_eq d.id key) rows
unfolding stage_all stage_removal scan_deployment
any-stage_all now [] rs key = ground arith
any-stage_all now (d ∷ rows) rs key =
    any-stage_all now rows _ key
    ∙ rw (any-put_removal rs (removal_of now (scan_deployment d)) key) (ground arith)

-- What a deletion that succeeds leaves.
abbrev Staged : ProjectTables → String → ProjectTables × Result (List Deployment) → Type 0
Staged db id (db', r) =
    (gone : List Deployment)
    → r ≡ ok gone
    → ((key : String)
        → any (removes key) db'.removals
          ≡ any (removes key) db.removals
            || any (λ d. str_eq d.project_id (trim_space id) && str_eq d.id key) db.deployments)
      × (any (λ d. str_eq d.project_id (trim_space id)) db'.deployments ≡ false)

any-rejected :
    (q : DeploymentRow → Bool) (rows : List DeploymentRow)
    → any q (filter (λ d. not (q d)) rows) ≡ false
any-rejected q [] = refl
any-rejected q (d ∷ rows) = ground (arith, any-rejected q rows)

listed_removals :
    (db : ProjectTables) (now : ℕ) (id key : String)
    → any (removes key) (stage_all now db.removals (list_deployments db (trim_space id)))
      ≡ any (removes key) db.removals
        || any (λ d. str_eq d.project_id (trim_space id) && str_eq d.id key) db.deployments
unfolding list_deployments
listed_removals db now id key = rw (trim_space_idem id) (
    any-stage_all now _ db.removals key
    ∙ ap (λ b. any (removes key) db.removals || b)
        (any-sort_by by_deployment_id (λ d. str_eq d.id key) _
          ∙ any-of_filter (λ d. str_eq d.id key) (λ d. str_eq d.project_id (trim_space id))
              db.deployments))

drop-Staged :
    (db : ProjectTables) (now : ℕ) (id : String) (n : ℕ)
    → Staged db id (drop_project db now (trim_space id) n)
unfolding drop_project without_project
drop-Staged db now id n = elim (Bool-cases (any (at_revision (trim_space id) n) db.projects)) [
  | inl e ↦ rw e λ gone h. (listed_removals db now id, any-rejected _ db.deployments)
  | inr e ↦ rw e λ gone h. cc
]

-- When a project is deleted, the deployments that have a removal staged afterwards are exactly
-- those that had one before and those of the project, and the project has no deployment left.
pub delete_project-Staged :
    (db db' : ProjectTables) (now : ℕ) (id revision : String) (gone : List Deployment)
    → delete_project db now id revision ≡ (db', ok gone)
    → ((key : String)
        → any (removes key) db'.removals
          ≡ any (removes key) db.removals
            || any (λ d. str_eq d.project_id (trim_space id) && str_eq d.id key) db.deployments)
      × (any (λ d. str_eq d.project_id (trim_space id)) db'.deployments ≡ false)
unfolding delete_project
delete_project-Staged db db' now id revision gone h =
    subst (Staged db id) h
      (settle-holds (Staged db id) db _ (λ e g k. cc)
        (chain _ _ λ n e. returns (drop-Staged db now id n)))
      gone refl
