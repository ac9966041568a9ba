-- ===== src/Projects/Register.antt =====
-- project/store.go, the projects: each id as a versioned register, and the operations on it.
use nexusdock.Shared.{
  filter, any-filter, any-weaken, Distinct, Distinct-map, Distinct-append, Distinct-filter,
  find_first-map, find_first-lacks, find_first-none, find_first-holds, ℕ, ◌≡◌, refl, sym, ap, ◌∙◌,
  String, str_eq, eq_iff, trim_space, ◌==◌, List, [], ◌∷◌, ◌++◌, Option, none, some, Bool, true,
  false, ◌&&◌, not, find_first, any, if◌then◌else◌, arith, Bool-cases, Option-cases, inl, inr,
}
use nexusdock.Continuation.Types.{Result-cases, ok, err, ◌>>=◌, ◌>>◌, refuse_if}
use nexusdock.Continuation.Outcomes.{next_id}
use nexusdock.Projects.Revisions.{parse_revision}
use nexusdock.Projects.Tables.{ProjectRow, ProjectTables}
use nexusdock.Projects.Writes.{
  settle, ProjectInput, validate_project_fields, new_project, create_project, at_revision,
  change_project, update_projects, write_project, update_project, without_project, drop_project,
  delete_project,
}

-- An operation of a caller, with the ids that the random source would give and the time.
pub data ProjectStep : Type 0 where
  create : List String → ℕ → ProjectInput → ProjectStep
  update : ℕ → String → String → ProjectInput → ProjectStep
  delete : ℕ → String → String → ProjectStep

unfoldable pub run_step : ProjectStep → ProjectTables → ProjectTables
run_step (create ids now input) db = (create_project ids db now input).0
run_step (update now id revision input) db = (update_project db now id revision input).0
run_step (delete now id revision) db = (delete_project db now id revision).0

unfoldable pub run_steps : List ProjectStep → ProjectTables → ProjectTables
unfolding run_step
run_steps [] db = db
run_steps (s ∷ ss) db = run_steps ss (run_step s db)

-- The row of an id.
abbrev pub row_of : ProjectTables → String → Option ProjectRow
row_of db id = find_first (λ p. str_eq p.id id) db.projects

-- What an operation does to the register of the id `key`: it starts an empty one, or it compares
-- the revision and then changes or clears the one that is there.
abbrev pub start_cell : String → ProjectRow → Option ProjectRow → Option ProjectRow
start_cell key row (some p) = some p
start_cell key row none = if str_eq row.id key then some row else none

abbrev pub swap_cell :
    String → String → ℕ → (ProjectRow → Option ProjectRow) → Option ProjectRow → Option ProjectRow
swap_cell key id expected f none = none
swap_cell key id expected f (some p) =
    if str_eq id key && p.revision == expected then f p else some p

unfoldable pub cell_step : ProjectStep → String → Option ProjectRow → Option ProjectRow
cell_step (create ids now input) key cell = elim (validate_project_fields input.name) [
  | err e ↦ cell
  | ok name ↦ elim (next_id ids) [
    | err e ↦ cell
    | ok id ↦ start_cell key (new_project now name input id.0) cell
  ]
]
cell_step (update now id revision input) key cell = elim (parse_revision revision) [
  | err e ↦ cell
  | ok n ↦ elim (validate_project_fields input.name) [
    | err e ↦ cell
    | ok name ↦ swap_cell key (trim_space id) n (λ p. some (change_project now name input p)) cell
  ]
]
cell_step (delete now id revision) key cell = elim (parse_revision revision) [
  | err e ↦ cell
  | ok n ↦ swap_cell key (trim_space id) n (λ p. none) cell
]

unfoldable pub run_cell : List ProjectStep → String → Option ProjectRow → Option ProjectRow
unfolding cell_step
run_cell [] key cell = cell
run_cell (s ∷ ss) key cell = run_cell ss key (cell_step s key cell)

abbrev pub same_project : ProjectRow → ProjectRow → Bool
same_project p q = str_eq p.id q.id

-- The new tables hold what the operation makes of the register of `key`, and the ids stay distinct.
abbrev Refines : ProjectStep → String → ProjectTables → ProjectTables → Type 0
Refines s key db db' =
    (row_of db' key ≡ cell_step s key (row_of db key)) × Distinct same_project db'.projects

row_of-append :
    (rows : List ProjectRow) (row : ProjectRow) (key : String)
    → any (λ p. str_eq p.id row.id) rows ≡ false
    → find_first (λ p. str_eq p.id key) (rows ++ row ∷ [])
      ≡ start_cell key row (find_first (λ p. str_eq p.id key) rows)
row_of-append [] row key h = refl
row_of-append (p ∷ rows) row key h = elim (Bool-cases (str_eq p.id key)) [
  | inl e ↦ rw e refl
  | inr e ↦ rw e (row_of-append rows row key (ground (arith, h)))
]

start_cell-other :
    (row : ProjectRow) (key : String) (cell : Option ProjectRow)
    → str_eq row.id key ≡ false
    → start_cell key row cell ≡ cell
start_cell-other row key none h = rw h refl
start_cell-other row key (some p) h = refl

taken_cell :
    (rows : List ProjectRow) (row : ProjectRow) (key : String)
    → any (λ p. str_eq p.id row.id) rows ≡ true
    → start_cell key row (find_first (λ p. str_eq p.id key) rows)
      ≡ find_first (λ p. str_eq p.id key) rows
taken_cell [] row key h = cc
taken_cell (p ∷ rows) row key h = elim (Bool-cases (str_eq p.id key)) [
  | inl e ↦ rw e refl
  | inr e ↦ elim (Bool-cases (str_eq p.id row.id)) [
    | inl same ↦
        start_cell-other row key _
          (ground (arith, e, same, eq_iff p.id row.id, eq_iff row.id key, eq_iff p.id key))
    | inr other ↦ rw e (taken_cell rows row key (ground (arith, h)))
  ]
]

create-Refines :
    (ids : List String) (now : ℕ) (input : ProjectInput) (db : ProjectTables) (key : String)
    → Distinct same_project db.projects
    → Refines (create ids now input) key db (create_project ids db now input).0
unfolding create_project settle ◌>>=◌ ◌>>◌ refuse_if cell_step
create-Refines ids now input db key d = elim (Result-cases (validate_project_fields input.name)) [
  | inl (e, f) ↦ rw (f, cell_step) (refl, d)
  | inr (name, f) ↦ elim (Result-cases (next_id ids)) [
    | inl (e, g) ↦ rw (f, g, cell_step) (refl, d)
    | inr (id, g) ↦
        let row = new_project now name input id.0 in
        elim (Bool-cases (any (λ p. str_eq p.id id.0) db.projects)) [
          | inl t ↦ rw (f, g, t, cell_step) (sym (taken_cell db.projects row key t), d)
          | inr t ↦
              rw (f, g, t, cell_step)
                (
                  row_of-append db.projects row key t,
                  Distinct-append same_project db.projects row t d,
                )
        ]
  ]
]

-- A row found for the key compares with the id as the key does.
at_revision-key :
    (key id : String) (n : ℕ) (p : ProjectRow)
    → str_eq p.id key ≡ true
    → at_revision id n p ≡ str_eq id key && p.revision == n
at_revision-key key id n p h = ground (arith, h, eq_iff p.id key, eq_iff p.id id, eq_iff id key)

swap_cell-found :
    (key id : String) (n : ℕ) (g : ProjectRow → ProjectRow) (p : ProjectRow)
    → str_eq p.id key ≡ true
    → some (if at_revision id n p then g p else p) ≡ swap_cell key id n (λ p. some (g p)) (some p)
swap_cell-found key id n g p h =
    rw (at_revision-key key id n p h) (elim (Bool-cases (str_eq id key && p.revision == n)) [
      | inl e ↦ rw e refl
      | inr e ↦ rw e refl
    ])

swap_cell-missed :
    (key id : String) (n : ℕ) (g : ProjectRow → Option ProjectRow) (rows : List ProjectRow)
    → any (at_revision id n) rows ≡ false
    → find_first (λ p. str_eq p.id key) rows
      ≡ swap_cell key id n g (find_first (λ p. str_eq p.id key) rows)
swap_cell-missed key id n g rows h = elim (Option-cases (find_first (λ p. str_eq p.id key) rows)) [
  | inl e ↦ rw e refl
  | inr (p, e) ↦
      rw
        (
          e,
          sym (at_revision-key key id n p (find_first-holds _ rows p e))
              ∙ find_first-lacks _ (at_revision id n) rows p e h,
        )
        refl
]

change-id :
    (now : ℕ) (name : String) (input : ProjectInput) (id : String) (n : ℕ) (p : ProjectRow)
    → (if at_revision id n p then change_project now name input p else p).id ≡ p.id
change-id now name input id n p = elim (Bool-cases (at_revision id n p)) [
  | inl e ↦ rw e refl
  | inr e ↦ rw e refl
]

row_of-update_projects :
    (now : ℕ) (name : String) (input : ProjectInput) (id : String) (n : ℕ) (rows : List ProjectRow)
    (key : String)
    → find_first (λ p. str_eq p.id key) (update_projects now name input id n rows)
      ≡ swap_cell key id n
          (λ p. some (change_project now name input p))
          (find_first (λ p. str_eq p.id key) rows)
unfolding update_projects
row_of-update_projects now name input id n rows key =
    find_first-map (λ p. str_eq p.id key) _ rows
      (λ p. ap (λ z. str_eq z key) (change-id now name input id n p))
    ∙ elim (Option-cases (find_first (λ p. str_eq p.id key) rows)) [
      | inl e ↦ rw e refl
      | inr (p, e) ↦
          rw e (
            swap_cell-found key id n (change_project now name input) p
              (find_first-holds _ rows p e))
    ]

update_projects-Distinct :
    (now : ℕ) (name : String) (input : ProjectInput) (id : String) (n : ℕ) (rows : List ProjectRow)
    → Distinct same_project rows
    → Distinct same_project (update_projects now name input id n rows)
unfolding update_projects
update_projects-Distinct now name input id n rows d =
    Distinct-map same_project _ rows
      (λ p q. rw (change-id now name input id n p, change-id now name input id n q) refl) d

update-Refines :
    (now : ℕ) (id revision : String) (input : ProjectInput) (db : ProjectTables) (key : String)
    → Distinct same_project db.projects
    → Refines (update now id revision input) key db (update_project db now id revision input).0
unfolding update_project settle ◌>>=◌ write_project cell_step
update-Refines now id revision input db key d = elim (Result-cases (parse_revision revision)) [
  | inl (e, f) ↦ rw (f, cell_step) (refl, d)
  | inr (n, f) ↦ elim (Result-cases (validate_project_fields input.name)) [
    | inl (e, g) ↦ rw (f, g, cell_step) (refl, d)
    | inr (name, g) ↦ elim (Bool-cases (any (at_revision (trim_space id) n) db.projects)) [
      | inl t ↦
          rw (f, g, t, cell_step)
            (
              row_of-update_projects now name input (trim_space id) n db.projects key,
              update_projects-Distinct now name input (trim_space id) n db.projects d,
            )
      | inr t ↦ rw (f, g, t, cell_step) (swap_cell-missed key (trim_space id) n _ db.projects t, d)
    ]
  ]
]

row_of-filter :
    (key id : String) (n : ℕ) (rows : List ProjectRow)
    → Distinct same_project rows
    → find_first (λ p. str_eq p.id key) (filter (λ p. not (at_revision id n p)) rows)
      ≡ swap_cell key id n (λ p. none) (find_first (λ p. str_eq p.id key) rows)
row_of-filter key id n [] d = refl
row_of-filter key id n (p ∷ rows) d = elim (Bool-cases (str_eq p.id key)) [
  | inl e ↦ elim (Bool-cases (at_revision id n p)) [
    | inl a ↦
        rw (e, a, sym (at_revision-key key id n p e) ∙ a)
          (find_first-none (λ q. str_eq q.id key) (filter (λ q. not (at_revision id n q)) rows)
            (any-filter (λ q. str_eq q.id key) (λ q. not (at_revision id n q)) rows
              (any-weaken (same_project p) (λ q. str_eq q.id key) rows
                (λ q k. ground (arith, k, e, eq_iff p.id key, eq_iff p.id q.id, eq_iff q.id key))
                d.0)))
    | inr a ↦ rw (e, a, e, sym (at_revision-key key id n p e) ∙ a) refl
  ]
  | inr e ↦ elim (Bool-cases (at_revision id n p)) [
    | inl a ↦ rw (e, a) (row_of-filter key id n rows d.1)
    | inr a ↦ rw (e, a, e) (row_of-filter key id n rows d.1)
  ]
]

delete-Refines :
    (now : ℕ) (id revision : String) (db : ProjectTables) (key : String)
    → Distinct same_project db.projects
    → Refines (delete now id revision) key db (delete_project db now id revision).0
unfolding delete_project settle ◌>>=◌ drop_project without_project cell_step
delete-Refines now id revision db key d = elim (Result-cases (parse_revision revision)) [
  | inl (e, f) ↦ rw (f, cell_step) (refl, d)
  | inr (n, f) ↦ elim (Bool-cases (any (at_revision (trim_space id) n) db.projects)) [
    | inl t ↦
        rw (f, t, cell_step)
          (
            row_of-filter key (trim_space id) n db.projects d,
            Distinct-filter same_project _ db.projects d,
          )
    | inr t ↦ rw (f, t, cell_step) (swap_cell-missed key (trim_space id) n _ db.projects t, d)
  ]
]

run_step-Refines :
    (s : ProjectStep) (db : ProjectTables) (key : String)
    → Distinct same_project db.projects
    → Refines s key db (run_step s db)
unfolding run_step
run_step-Refines (create ids now input) db key d = create-Refines ids now input db key d
run_step-Refines (update now id revision input) db key d =
    update-Refines now id revision input db key d
run_step-Refines (delete now id revision) db key d = delete-Refines now id revision db key d

-- When the ids of the projects differ, any sequence of creations, updates and deletions does to
-- the row of each id what it does to a versioned register of that id alone: a creation starts an
-- empty register, an update or a deletion acts only at the revision that it names, and all else
-- leaves the register as it is.
pub run_steps-run_cell :
    (steps : List ProjectStep) (db : ProjectTables) (key : String)
    → Distinct same_project db.projects
    → row_of (run_steps steps db) key ≡ run_cell steps key (row_of db key)
unfolding run_steps run_cell
run_steps-run_cell [] db key d = refl
run_steps-run_cell (s ∷ ss) db key d =
    let r = run_step-Refines s db key d in
    run_steps-run_cell ss (run_step s db) key r.1 ∙ ap (run_cell ss key) r.0
