-- ===== src/Sessions/Listing.antt =====
-- internal/project/session.go: the lists of sessions and targets, and the reads for a project or a
-- node, which do not ask for the owner.
use Prim.Native.String.{compare}
use text.Mathlib.Text.{is_lt}
use nexusdock.Shared.{
  take, filter, ℕ, String, str_eq, is_empty, trim_space, ltb, ◌==◌, List, [], ◌∷◌, Option, none,
  some, Bool, ◌&&◌, ◌||◌, any, find_first, if◌then◌else◌, ℤ, pos, negsuc, text_before,
}
use nexusdock.Continuation.Types.{invalid, work_session_not_found, Result, ok, err, or_fail}
use nexusdock.Sessions.Tables.{WorkSession, WorkTarget, Tables, is_owned}

module _ {ℓ} {A : Type ℓ} where
  abbrev pub insert_by : (A → A → Bool) → A → List A → List A
  insert_by before x [] = x ∷ []
  insert_by before x (y ∷ ys) = if before y x then y ∷ insert_by before x ys else x ∷ y ∷ ys

  -- ORDER BY.
  abbrev pub sort_by : (A → A → Bool) → List A → List A
  sort_by before [] = []
  sort_by before (x ∷ xs) = insert_by before x (sort_by before xs)

-- The order of texts in SQLite, which is that of their code points.
abbrev pub text_less : String → String → Bool
text_less s t = is_lt (compare s t)

unfoldable pub page_limit : ℤ → ℕ
page_limit (negsuc n) = 100
page_limit (pos n) = if n == 0 then 100 else if ltb 500 n then 500 else n

-- ORDER BY updated_at DESC, id DESC.
unfoldable pub is_newer : WorkSession → WorkSession → Bool
is_newer s t =
    text_before t.updated_at s.updated_at || (t.updated_at == s.updated_at && text_less t.id s.id)

unfoldable pub list_project_work_sessions : Tables → String → ℤ → Result (List WorkSession)
unfolding page_limit is_newer
list_project_work_sessions db project limit =
    if is_empty (trim_space project)
    then err invalid
    else ok (
        take (page_limit limit)
          (sort_by is_newer (filter (λ s. str_eq s.project_id (trim_space project)) db.sessions)))

-- The node of the session's project, when that is a project of kind `node`.
abbrev pub node_of : Tables → WorkSession → Option String
node_of db s = elim (find_first (λ p. str_eq p.id s.project_id) db.projects) [
  | none ↦ none
  | some p ↦ p.node_id
]

abbrev with_nodes : Tables → List WorkSession → List (String × WorkSession)
with_nodes db [] = []
with_nodes db (s ∷ ss) = elim (node_of db s) [
  | none ↦ with_nodes db ss
  | some n ↦ (n, s) ∷ with_nodes db ss
]

unfoldable pub list_node_work_sessions : Tables → ℤ → List (String × WorkSession)
unfolding page_limit is_newer
list_node_work_sessions db limit =
    take (page_limit limit) (with_nodes db (sort_by is_newer db.sessions))

unfoldable pub get_node_work_session : Tables → String → Result (String × WorkSession)
get_node_work_session db id =
    elim (with_nodes db (filter (λ s. str_eq s.id (trim_space id)) db.sessions)) [
      | [] ↦ err work_session_not_found
      | x ∷ xs ↦ ok x
    ]

unfoldable pub get_project_work_session : Tables → String → String → Result WorkSession
get_project_work_session db project id =
    or_fail
      (find_first (λ s. str_eq s.id (trim_space id) && str_eq s.project_id (trim_space project))
        db.sessions)
      work_session_not_found

abbrev pub by_id : WorkTarget → WorkTarget → Bool
by_id t u = text_less t.id u.id

unfoldable pub list_work_targets : Tables → String → String → List WorkTarget
list_work_targets db owner ws = sort_by by_id (
    filter (λ t. str_eq t.work_session_id (trim_space ws) && is_owned db owner t.work_session_id)
      db.targets)

unfoldable pub list_project_work_targets : Tables → String → String → Result (List WorkTarget)
list_project_work_targets db project ws =
    if is_empty (trim_space project) || is_empty (trim_space ws)
    then err invalid
    else ok (
        sort_by by_id (
          filter
            (λ t.
              str_eq t.work_session_id (trim_space ws)
              && str_eq t.project_id (trim_space project)
              && any
                  (λ s. str_eq s.id t.work_session_id && str_eq s.project_id (trim_space project))
                  db.sessions)
            db.targets))
