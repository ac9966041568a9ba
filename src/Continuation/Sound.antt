-- ===== src/Continuation/Sound.antt =====
-- What every operation on a document keeps, whatever its arguments: the relation, and that the
-- sweep, the merge of outcomes and the compaction have it.
use nexusdock.Shared.{
  All, ℕ, ◌≤◌, ◌≡◌, refl, ◌∙◌, String, List, [], ◌∷◌, Option, none, some, ◌||◌, not, arith,
}
use nexusdock.Continuation.Types.{
  WorkWake, Attempt, WorkContinuation, CommandOutcome, Document, Protocol, ◌>>=◌,
}
use nexusdock.Continuation.Document.{expire_wake, sweep, expire_continuation}
use nexusdock.Continuation.Store.{Receipt, Database, touch, compact_continuation, count_settled}
use nexusdock.Continuation.Outcomes.{
  is_awaited, is_merged, new_wake, place_outcome, merge_continuation_outcome, merge_rows,
  merge_stored_outcomes,
}
use nexusdock.Continuation.Ensures.{
  Ensures, returns, raises, returned, weaken, refuse, branch, chain,
}
use nexusdock.Continuation.Evolution.{
  Evolves, Evolves-refl, Evolves-trans, Evolves-append, flights, flights-append,
  flights-drop_settled, Evolves-drop_settled, Placed, merge_into-Placed, sweep-Tamer,
}
use nexusdock.Continuation.Attempts.{Spent, Spent-sweep, Spent-keep_attempts}

-- The budget stays in its bounds.
pub record Limits (s : WorkContinuation) : Type 0 where
  pub some_rounds : 1 ≤ s.max_rounds
  pub few_rounds : s.max_rounds ≤ 100
  pub some_failures : 1 ≤ s.max_failures
  pub few_failures : s.max_failures ≤ 10
  pub used : s.rounds_used ≤ 100

-- What holds of a document at any time: at most one wake is in flight, the limits, and that
-- consumed attempts are spent.
pub record IsValid (d : Document) : Type 0 where
  pub flight : flights d.wakes ≤ 1
  pub limits : Limits d.state
  pub spent : Spent d.attempts

-- The wakes evolve, and what is valid stays so; `N` allows the ids of new wakes.
pub record Sound (N : String → Type 0) (d d' : Document) : Type 0 where
  pub evolves : Evolves N d.wakes d'.wakes
  pub valid : IsValid d → IsValid d'
  pub session : d'.state.work_session_id ≡ d.state.work_session_id

pub Sound-refl : {N : String → Type 0} (d : Document) → Sound N d d
Sound-refl d = record { evolves = Evolves-refl d.wakes; valid = λ v. v; session = refl }

pub Sound-trans : {N : String → Type 0} {d e f : Document} → Sound N d e → Sound N e f → Sound N d f
Sound-trans s t = record {
  evolves = Evolves-trans s.evolves t.evolves;
  valid = λ v. t.valid (s.valid v);
  session = t.session ∙ s.session;
}

expire_wake-state :
    (w : WorkWake) (l : List Attempt) (s : WorkContinuation) (now : ℕ)
    → Limits s
    → Limits (expire_wake w l s now).state
unfolding expire_wake
expire_wake-state w l s now h = ground arith

expire_wake-session :
    (w : WorkWake) (l : List Attempt) (s : WorkContinuation) (now : ℕ)
    → (expire_wake w l s now).state.work_session_id ≡ s.work_session_id
unfolding expire_wake
expire_wake-session w l s now = ground arith

sweep-state :
    (ws : List WorkWake) (l : List Attempt) (s : WorkContinuation) (now : ℕ)
    → (Limits s → Limits (sweep ws l s now).state)
      × ((sweep ws l s now).state.work_session_id ≡ s.work_session_id)
unfolding sweep
sweep-state [] l s now = (λ h. h, refl)
sweep-state (w ∷ ws) l s now =
    let e = expire_wake w l s now in
    let rest = sweep-state ws e.attempts e.state now in
    (λ h. rest.0 (expire_wake-state w l s now h), rest.1 ∙ expire_wake-session w l s now)

-- The sweep, and the time stamp of the transaction.
pub expire-Sound :
    {N : String → Type 0} (d : Document) (now : ℕ) → Sound N d (expire_continuation d now).0
unfolding expire_continuation
expire-Sound d now =
    let tamer = sweep-Tamer d.wakes d.attempts d.state now in
    let state = sweep-state d.wakes d.attempts d.state now in
    record {
      evolves = tamer.evolves;
      valid = λ v. record {
        flight = omega (arith, tamer.fewer, v.flight);
        limits = state.0 v.limits;
        spent = Spent-sweep d.wakes d.attempts d.state now v.spent;
      };
      session = state.1;
    }

pub touch-Sound : {N : String → Type 0} (d : Document) (now : ℕ) → Sound N d (touch d now)
unfolding touch
touch-Sound d now = record {
  evolves = Evolves-refl d.wakes;
  valid = λ v. record { flight = v.flight; limits = ground arith; spent = v.spent };
  session = refl;
}

pub compact-Sound : {N : String → Type 0} (d : Document) → Sound N d (compact_continuation d)
unfolding compact_continuation
compact-Sound d = record {
  evolves = Evolves-drop_settled (count_settled d.wakes) d.wakes;
  valid = λ v. record {
    flight = omega (arith, flights-drop_settled (count_settled d.wakes) d.wakes, v.flight);
    limits = v.limits;
    spent = Spent-keep_attempts _ d.attempts v.spent;
  };
  session = refl;
}

-- Wakes that change in their sources only, or gain a pending one.
Sound-wakes :
    {N : String → Type 0} (d : Document) (ws : List WorkWake)
    → Evolves N d.wakes ws
    → flights ws ≡ flights d.wakes
    → Sound N d (record d { wakes = ws })
Sound-wakes d ws e f = record {
  evolves = e;
  valid = λ v. record { flight = omega (arith, v.flight); limits = v.limits; spent = v.spent };
  session = refl;
}

-- The documents, and the supplied ids that are left: they are allowed too.
abbrev pub SoundIds : (String → Type 0) → Document → Document × List String → Type 0
SoundIds N d r = Sound N d r.0 × All N r.1

place_outcome-SoundIds :
    (N : String → Type 0) (d : Document) (o : CommandOutcome) (now : ℕ) (ids : List String)
    (placed : Option (List WorkWake))
    → All N ids
    → Placed N d.wakes placed
    → Ensures (SoundIds N d) (place_outcome d o now ids placed)
unfolding place_outcome new_wake ◌>>=◌
place_outcome-SoundIds N d o now [] none a h = raises
place_outcome-SoundIds N d o now (id ∷ ids) none a h = returns (
  Sound-wakes d _ (Evolves-append d.wakes _ (a.0, tt))
      (omega (arith, flights-append d.wakes (new_wake d o now id))),
  a.1,
)
place_outcome-SoundIds N d o now ids (some ws) a h = returns (Sound-wakes d ws h.0 h.1, a)

pub merge-SoundIds :
    (N : String → Type 0) (p : Protocol) (d : Document) (o : CommandOutcome) (now : ℕ)
    (ids : List String)
    → All N ids
    → Ensures (SoundIds N d) (merge_continuation_outcome p d o now ids)
unfolding merge_continuation_outcome
merge-SoundIds N p d o now ids a =
    branch (not (is_awaited d.state.sources o) || is_merged d.wakes o) _ _
      (λ known. returns (Sound-refl d, a))
      (λ fresh. chain _ _ λ placed e.
        place_outcome-SoundIds N d o now ids placed a
          (returned (merge_into-Placed N p d.wakes o now) e))

merge_rows-SoundIds :
    (N : String → Type 0) (p : Protocol) (d : Document) (rs : List Receipt) (now : ℕ)
    (ids : List String)
    → All N ids
    → Ensures (SoundIds N d) (merge_rows p d rs now ids)
unfolding merge_rows
merge_rows-SoundIds N p d [] now ids a = returns (Sound-refl d, a)
merge_rows-SoundIds N p d (r ∷ rs) now ids a = chain _ _ λ m e.
    let first = returned (merge-SoundIds N p d _ now ids a) e in
    weaken (λ x s. (Sound-trans first.0 s.0, s.1)) (merge_rows-SoundIds N p m.0 rs now m.1 first.1)

pub merge_stored-SoundIds :
    (N : String → Type 0) (p : Protocol) (db : Database) (d : Document) (now : ℕ)
    (ids : List String)
    → All N ids
    → Ensures (SoundIds N d) (merge_stored_outcomes p db d now ids)
unfolding merge_stored_outcomes
merge_stored-SoundIds N p db d now ids a =
    refuse _ _ _ λ live. merge_rows-SoundIds N p d _ now ids a
