-- ===== src/Continuation/Evolution.antt =====
-- How the wakes of a document change: the relation, and the lemmas for each way of writing them.
use nexusdock.Shared.{
  All, subst, ℕ, ◌+◌, ◌-◌, ◌≤◌, ◌≡◌, refl, ◌∙◌, String, str_eq, ltb, List, [], ◌∷◌, ◌++◌, map,
  Option, none, some, Bool, true, false, ◌&&◌, ◌||◌, if◌then◌else◌, count_if, arith, eq_iff,
  Bool-cases, inl, inr, length,
}
use nexusdock.Continuation.Types.{
  WakeState, pending, claimed, prepared, dispatch_accepted, delivery_unknown, delivery_rejected,
  consumed, settled, WorkWake, WorkContinuation, Attempt, CommandOutcome, Protocol, ok, ◌>>=◌,
}
use nexusdock.Continuation.Document.{
  find_wake, set_wake, is_settled, is_pending, is_claimed, expire_wake, sweep, blocked_wake,
}
use nexusdock.Continuation.Store.{drop_settled}
use nexusdock.Continuation.Outcomes.{merge_into, keep_wake}
use nexusdock.Continuation.Controller.{
  ControllerInput, present_wake, claim_wanted, wanted, first_claimed,
}
use nexusdock.Continuation.Ensures.{Ensures, returns, returned, branch, require, chain}

-- How far a wake has come; 0 is before the dispatch fence.
abbrev pub rank : WakeState → ℕ
rank pending = 0
rank claimed = 0
rank prepared = 1
rank dispatch_accepted = 2
rank delivery_unknown = 3
rank delivery_rejected = 4
rank consumed = 5
rank WakeState.needs_attention = 6
rank settled = 7

-- Every wake keeps its place and its id and does not fall behind, or is dropped; new wakes stand
-- at the end, under ids that `N` allows.
pub data Evolves (N : String → Type 0) : List WorkWake → List WorkWake → Type 0 where
  grow : (vs : List WorkWake) → All (λ v. N v.wake_id) vs → Evolves N [] vs
  move :
      {w v : WorkWake} {ws vs : List WorkWake}
      → w.wake_id ≡ v.wake_id
      → rank w.state ≤ rank v.state
      → Evolves N ws vs
      → Evolves N (w ∷ ws) (v ∷ vs)
  drop : {w : WorkWake} {ws vs : List WorkWake} → Evolves N ws vs → Evolves N (w ∷ ws) vs

pub Evolves-refl : {N : String → Type 0} (ws : List WorkWake) → Evolves N ws ws
Evolves-refl [] = grow [] tt
Evolves-refl (w ∷ ws) = move refl (omega arith) (Evolves-refl ws)

-- Allowed ids stay allowed.
Evolves-All :
    {N : String → Type 0} {ws vs : List WorkWake}
    → All (λ w. N w.wake_id) ws
    → Evolves N ws vs
    → All (λ w. N w.wake_id) vs
Evolves-All {N} a (grow vs n) = n
Evolves-All {N} a (move i r e) = (subst N i a.0, Evolves-All a.1 e)
Evolves-All {N} a (drop e) = Evolves-All a.1 e

pub Evolves-trans :
    {N : String → Type 0} {ws vs us : List WorkWake}
    → Evolves N ws vs
    → Evolves N vs us
    → Evolves N ws us
Evolves-trans (grow vs n) f = grow _ (Evolves-All n f)
Evolves-trans (drop e) f = drop (Evolves-trans e f)
Evolves-trans (move i r e) (move j s f) = move (i ∙ j) (omega arith) (Evolves-trans e f)
Evolves-trans (move i r e) (drop f) = drop (Evolves-trans e f)

pub Evolves-append :
    {N : String → Type 0} (ws vs : List WorkWake)
    → All (λ v. N v.wake_id) vs
    → Evolves N ws (ws ++ vs)
Evolves-append [] vs n = grow vs n
Evolves-append (w ∷ ws) vs n = move refl (omega arith) (Evolves-append ws vs n)

abbrev pub in_flight : WakeState → Bool
in_flight pending = false
in_flight settled = false
in_flight _ = true

-- The wakes that are claimed, or dispatched and not settled.
abbrev pub flights : List WorkWake → ℕ
flights = count_if (λ w. in_flight w.state)

abbrev pub weight : WakeState → ℕ
weight s = if in_flight s then 1 else 0

pub find_wake-id :
    (ws : List WorkWake) (id : String) (w : WorkWake) → find_wake ws id ≡ some w → w.wake_id ≡ id
unfolding find_wake
find_wake-id [] id w h = cc
find_wake-id (x ∷ ws) id w h = ground (arith, eq_iff x.wake_id id, find_wake-id ws id w)

flights-set_wake :
    (ws : List WorkWake) (id : String) (w v : WorkWake)
    → find_wake ws id ≡ some w
    → flights (set_wake ws w.wake_id v) + weight w.state ≡ flights ws + weight v.state
unfolding find_wake set_wake
flights-set_wake [] id w v h = cc
flights-set_wake (x ∷ ws) id w v h = ground (
  arith,
  eq_iff x.wake_id id,
  eq_iff x.wake_id w.wake_id,
  find_wake-id ws id w,
  flights-set_wake ws id w v,
)

-- A write to a wake that is found adds no flight, if the new state is in flight only when the old
-- one is.
pub flights-set_wake-le :
    (ws : List WorkWake) (id : String) (w v : WorkWake)
    → find_wake ws id ≡ some w
    → weight v.state ≤ weight w.state
    → flights (set_wake ws w.wake_id v) ≤ flights ws
flights-set_wake-le ws id w v h le = omega (arith, flights-set_wake ws id w v h)

Evolves-set :
    {N : String → Type 0} (ws : List WorkWake) (id : String) (w v : WorkWake)
    → find_wake ws id ≡ some w
    → w.wake_id ≡ v.wake_id
    → rank w.state ≤ rank v.state
    → Evolves N ws (set_wake ws id v)
unfolding find_wake set_wake
Evolves-set [] id w v h i r = grow [] tt
Evolves-set (x ∷ ws) id w v h i r = elim (Bool-cases (str_eq x.wake_id id)) [
  | inl e ↦ rw (e, set_wake) (move (ground arith) (ground arith) (Evolves-refl ws))
  | inr e ↦ rw (e, set_wake) (move refl (omega arith) (Evolves-set ws id w v (ground arith) i r))
]

pub Evolves-set_wake :
    {N : String → Type 0} (ws : List WorkWake) (id : String) (w v : WorkWake)
    → find_wake ws id ≡ some w
    → w.wake_id ≡ v.wake_id
    → rank w.state ≤ rank v.state
    → Evolves N ws (set_wake ws w.wake_id v)
Evolves-set_wake ws id w v h i r = rw (find_wake-id ws id w h) (Evolves-set ws id w v h i r)

pub Evolves-drop_settled :
    {N : String → Type 0} (n : ℕ) (ws : List WorkWake) → Evolves N ws (drop_settled n ws)
unfolding drop_settled
Evolves-drop_settled n [] = grow [] tt
Evolves-drop_settled n (w ∷ ws) = elim (Bool-cases (is_settled w.state && ltb 32 n)) [
  | inl e ↦ rw (e, drop_settled) (drop (Evolves-drop_settled (n - 1) ws))
  | inr e ↦ rw (e, drop_settled) (move refl (omega arith) (Evolves-drop_settled n ws))
]

pub flights-drop_settled : (n : ℕ) (ws : List WorkWake) → flights (drop_settled n ws) ≡ flights ws
unfolding drop_settled
flights-drop_settled n [] = refl
flights-drop_settled n (w ∷ ws) =
    ground (arith, flights-drop_settled (n - 1) ws, flights-drop_settled n ws)

pub flights-append :
    (ws : List WorkWake) (v : WorkWake) → flights (ws ++ v ∷ []) ≡ flights ws + weight v.state
flights-append [] v = omega arith
flights-append (w ∷ ws) v = omega (arith, flights-append ws v)

-- What a search for room leaves: other wakes that differ in their sources only, or none.
abbrev pub Placed : (String → Type 0) → List WorkWake → Option (List WorkWake) → Type 0
Placed N ws none = Unit
Placed N ws (some vs) = Evolves N ws vs × (flights vs ≡ flights ws)

Placed-keep :
    (N : String → Type 0) (w : WorkWake) (ws : List WorkWake) (r : Option (List WorkWake))
    → Placed N ws r
    → Placed N (w ∷ ws) (keep_wake w r)
Placed-keep N w ws none h = tt
Placed-keep N w ws (some vs) h = (move refl (omega arith) h.0, omega arith)

pub merge_into-Placed :
    (N : String → Type 0) (p : Protocol) (ws : List WorkWake) (o : CommandOutcome) (now : ℕ)
    → Ensures (Placed N ws) (merge_into p ws o now)
unfolding merge_into
merge_into-Placed N p [] o now = returns tt
merge_into-Placed N p (w ∷ ws) o now =
    let later : Ensures (Placed N (w ∷ ws)) (merge_into p ws o now >>= λ r. ok (keep_wake w r)) =
      chain _ _
        λ r e. returns (Placed-keep N w ws r (returned (merge_into-Placed N p ws o now) e)) in
    branch
      ((is_pending w.state || is_claimed w.state)
        && ltb (length w.sources) p.max_work_continuation_sources)
      _ _
      (λ room. require (p.encoded_size (w.sources ++ o ∷ [])) _ _ λ size e.
        branch (ltb p.max_command_outcome_batch_bytes size) _ _ (λ big. later)
          (λ fits. returns (move refl (omega arith) (Evolves-refl ws), omega arith)))
      (λ full. later)

pub record Tamer (N : String → Type 0) (ws vs : List WorkWake) : Type 0 where
  pub evolves : Evolves N ws vs
  pub fewer : flights vs ≤ flights ws

pub present_wake-Tamer :
    {N : String → Type 0} (id : String) (generation now : ℕ) (ws : List WorkWake)
    → Tamer N ws (map (present_wake id generation now) ws)
unfolding present_wake
present_wake-Tamer {N} id generation now [] = record { evolves = grow [] tt; fewer = omega arith }
present_wake-Tamer {N} id generation now (w ∷ ws) =
    let rest = present_wake-Tamer {N = N} id generation now ws in
    record {
      evolves = move (ground arith) (ground arith) rest.evolves;
      fewer = ground (arith, rest.fewer);
    }

-- What the expiry of one wake and of its attempt leaves.
expire_wake-rank :
    (w : WorkWake) (l : List Attempt) (s : WorkContinuation) (now : ℕ)
    → let e = expire_wake w l s now in
      (w.wake_id ≡ e.wake.wake_id)
      × (rank w.state ≤ rank e.wake.state)
      × (weight e.wake.state ≤ weight w.state)
unfolding expire_wake
expire_wake-rank w l s now = ground arith

pub sweep-Tamer :
    {N : String → Type 0} (ws : List WorkWake) (l : List Attempt) (s : WorkContinuation) (now : ℕ)
    → Tamer N ws (sweep ws l s now).wakes
unfolding sweep
sweep-Tamer {N} [] l s now = record { evolves = grow [] tt; fewer = omega arith }
sweep-Tamer {N} (w ∷ ws) l s now =
    let e = expire_wake w l s now in
    let h = expire_wake-rank w l s now in
    let rest = sweep-Tamer {N = N} ws e.attempts e.state now in
    record { evolves = move h.0 h.1 rest.evolves; fewer = omega (arith, h.2, rest.fewer) }

-- With no wake in flight, the claim of one leaves one.
pub claim_wanted-Evolves :
    {N : String → Type 0} (i : ControllerInput) (now : ℕ) (ws : List WorkWake)
    → Evolves N ws (claim_wanted i now ws) × (flights (claim_wanted i now ws) ≤ flights ws + 1)
unfolding claim_wanted
claim_wanted-Evolves {N} i now [] = (grow [] tt, omega arith)
claim_wanted-Evolves {N} i now (w ∷ ws) =
    let rest = claim_wanted-Evolves {N = N} i now ws in
    elim (Bool-cases (wanted i w)) [
      | inl e ↦ rw (e, claim_wanted) (move refl (ground arith) (Evolves-refl ws), ground arith)
      | inr e ↦ rw (e, claim_wanted) (move refl (omega arith) rest.0, omega arith)
    ]

pub no_flights :
    (ws : List WorkWake) → blocked_wake ws ≡ false → first_claimed ws ≡ none → flights ws ≡ 0
unfolding blocked_wake
no_flights [] b c = refl
no_flights (w ∷ ws) b c = ground (arith, no_flights ws)
