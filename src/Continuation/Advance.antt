-- ===== src/Continuation/Advance.antt =====
-- What every transaction of the continuation keeps, over the stored documents of all sessions.
use nexusdock.Shared.{
  ℕ, ◌≡◌, refl, sym, ◌∙◌, String, str_eq, List, [], ◌∷◌, none, some, arith, eq_iff, if◌then◌else◌,
  All, Option-cases, Bool-cases, subst, inl, inr,
}
use nexusdock.Continuation.Types.{WorkWake, Document, Result}
use nexusdock.Continuation.Document.{expire_continuation}
use nexusdock.Continuation.Store.{
  Database, Handler, find_document, put_document, new_document, load_continuation, touch,
  compact_continuation, save_continuation, change_continuation, read_continuation,
}
use nexusdock.Continuation.Ensures.{
  Ensures, returns, returned, refuse, require, proceed, branch, chain,
}
use nexusdock.Continuation.Evolution.{Evolves, Evolves-refl, Evolves-trans}
use nexusdock.Continuation.Sound.{
  IsValid, Sound, Sound-refl, Sound-trans, expire-Sound, touch-Sound, compact-Sound,
}

-- The stored document of session `k` is valid, and is that session's.
abbrev pub IsStored : String × Document → Type 0
IsStored (k, d) = IsValid d × (d.state.work_session_id ≡ k)

abbrev pub Stored : Database → Type 0
Stored db = All IsStored db.work_continuations

-- The wakes of a session; none when it has no document yet.
abbrev pub wakes_of : Database → String → List WorkWake
wakes_of db ws = elim (find_document db.work_continuations ws) [ none ↦ [] | some d ↦ d.wakes ]

pub record Advance (N : String → Type 0) (db db' : Database) : Type 0 where
  pub stored : Stored db → Stored db'
  pub evolves : Stored db → (ws : String) → Evolves N (wakes_of db ws) (wakes_of db' ws)

-- Every id may be new.
abbrev pub Any : String → Type 0
Any id = Unit

pub all-Any : (ids : List String) → All Any ids
all-Any [] = tt
all-Any (id ∷ ids) = (tt, all-Any ids)

pub Advance-refl : {N : String → Type 0} (db : Database) → Advance N db db
Advance-refl db = record { stored = λ s. s; evolves = λ s ws. Evolves-refl (wakes_of db ws) }

pub Advance-trans :
    {N : String → Type 0} {a b c : Database} → Advance N a b → Advance N b c → Advance N a c
Advance-trans f g = record {
  stored = λ s. g.stored (f.stored s);
  evolves = λ s ws. Evolves-trans (f.evolves s ws) (g.evolves (f.stored s) ws);
}

-- A change of the other tables.
pub Advance-same :
    {N : String → Type 0} (a b : Database)
    → b.work_continuations ≡ a.work_continuations
    → Advance N a b
Advance-same a b e = record {
  stored = λ s. rw e s;
  evolves = λ s ws. rw e (Evolves-refl (wakes_of a ws));
}

pub find_document-IsStored :
    (m : List (String × Document)) (ws : String) (d : Document)
    → All IsStored m
    → find_document m ws ≡ some d
    → IsStored (ws, d)
unfolding find_document
find_document-IsStored [] ws d s h = cc
find_document-IsStored ((k, e) ∷ m) ws d s h = elim (Bool-cases (str_eq k ws)) [
  | inl t ↦ rw (← (eq_iff k ws).0 t) (subst (λ x. IsStored (k, x)) (ground arith) s.0)
  | inr f ↦ find_document-IsStored m ws d s.1 (ground arith)
]

put_document-Stored :
    (m : List (String × Document)) (ws : String) (d : Document)
    → All IsStored m
    → IsStored (ws, d)
    → All IsStored (put_document m ws d)
unfolding put_document
put_document-Stored [] ws d s h = (h, tt)
put_document-Stored ((k, e) ∷ m) ws d s h = elim (Bool-cases (str_eq k ws)) [
  | inl t ↦ rw (t, put_document) (rw ((eq_iff k ws).0 t) h, s.1)
  | inr f ↦ rw (f, put_document) (s.0, put_document-Stored m ws d s.1 h)
]

pub find_document-put :
    (m : List (String × Document)) (ws j : String) (d : Document)
    → find_document (put_document m ws d) j ≡ (if str_eq ws j then some d else find_document m j)
unfolding find_document put_document
find_document-put [] ws j d = refl
find_document-put ((k, e) ∷ m) ws j d =
    ground (arith, eq_iff k ws, eq_iff k j, eq_iff ws j, find_document-put m ws j d)

new_document-IsStored : (ws : String) → IsStored (ws, new_document ws)
unfolding new_document
new_document-IsStored ws = (record { flight = omega arith; limits = omega arith; spent = tt }, refl)

-- What loadContinuation returns: the wakes of the session, in a valid document of its own.
abbrev pub Loaded : Database → String → Document → Type 0
Loaded db ws d = (d.wakes ≡ wakes_of db ws) × (Stored db → IsStored (ws, d))

pub load-Loaded :
    (db : Database) (owner ws : String) → Ensures (Loaded db ws) (load_continuation db owner ws)
unfolding load_continuation
load-Loaded db owner ws = refuse _ _ _ λ named. require _ _ _ λ session h. refuse _ _ _ λ own.
    elim (Option-cases (find_document db.work_continuations ws)) [
      | inl e ↦ rw e (
          returns {a = new_document ws}
            (unfold new_document in rw (e, wakes_of) refl, λ s. new_document-IsStored ws))
      | inr (d, e) ↦
          rw e (returns {a = d} (rw (e, wakes_of) refl, λ s. find_document-IsStored _ ws d s e))
    ]

pub save-Advance :
    {N : String → Type 0} (db : Database) (ws : String) (d d' : Document) (now : ℕ)
    → Loaded db ws d
    → Sound N d d'
    → Advance N db (save_continuation db d' now)
unfolding save_continuation
save-Advance {N} db ws d d' now l s =
    let final = touch (compact_continuation d') now in
    let k = Sound-trans s (Sound-trans (compact-Sound d') (touch-Sound _ now)) in
    let key = λ (st : Stored db). s.session ∙ (l.1 st).1 in
    record {
      stored =
          λ st. put_document-Stored _ _ final st (k.valid (l.1 st).0, k.session ∙ sym s.session);
      evolves = λ st j.
          rw (find_document-put db.work_continuations d'.state.work_session_id j final, wakes_of)
            (elim (Bool-cases (str_eq d'.state.work_session_id j)) [
              | inl t ↦ rw t (
                  subst (λ x. Evolves N (wakes_of db x) final.wakes)
                    (sym (key st) ∙ (eq_iff _ j).0 t) (rw l.0 at k.evolves))
              | inr f ↦ rw f (Evolves-refl (wakes_of db j))
            ]);
    }

-- A transaction with a sound handler.
pub change-Advance :
    {N : String → Type 0} (db : Database) (now : ℕ) (owner ws : String) (fn : Handler)
    → ((d : Document) → Ensures (λ r. Sound N d r.0) (fn db d now))
    → Ensures (λ r. Advance N db r.0) (change_continuation db now owner ws fn)
unfolding change_continuation
change-Advance db now owner ws fn h = chain _ _ λ d e. chain _ _ λ r f.
    let begin = Sound-trans (expire-Sound d now) (touch-Sound _ now) in
    returns (
      save-Advance db ws d r.0 now (returned (load-Loaded db owner ws) e)
        (Sound-trans begin (returned (h _) f)))

pub read-Advance :
    {N : String → Type 0} (db : Database) (now : ℕ) (db' : Database) (later : ℕ) (owner ws : String)
    (validate : Document → ℕ → Result (Unit {0}))
    → Ensures (λ r. Advance N db' r.0) (read_continuation db now db' later owner ws validate)
unfolding read_continuation
read-Advance db now db' later owner ws validate = chain _ _ λ d e. proceed _ _ λ valid.
    branch (expire_continuation d now).1 _ _
      (λ late. change-Advance db' later owner ws _ (λ c. proceed _ _ λ ok. returns (Sound-refl c)))
      (λ fresh. returns (Advance-refl db'))
