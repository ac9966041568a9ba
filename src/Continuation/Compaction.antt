-- ===== src/Continuation/Compaction.antt =====
-- continuation.go, compactContinuation: the settled wakes and the attempts that it drops.
use nexusdock.Shared.{
  All, str_eq_refl, ℕ, ◌-◌, ◌≤◌, ◌≡◌, refl, String, str_eq, ltb, List, [], ◌∷◌, none, Bool, true,
  false, arith, if◌then◌else◌, eq_iff, any, Option-cases, Bool-cases, inl, inr,
}
use nexusdock.Continuation.Types.{WorkWake, Attempt, Document}
use nexusdock.Continuation.Document.{attempt_for_wake, is_settled}
use nexusdock.Continuation.Store.{count_settled, drop_settled, keep_attempts, compact_continuation}

-- The wakes that are not settled, in their order.
abbrev pub unsettled : List WorkWake → List WorkWake
unsettled [] = []
unsettled (w ∷ ws) = if is_settled w.state then unsettled ws else w ∷ unsettled ws

unsettled-drop_settled : (n : ℕ) (ws : List WorkWake) → unsettled (drop_settled n ws) ≡ unsettled ws
unfolding drop_settled
unsettled-drop_settled n [] = refl
unsettled-drop_settled n (w ∷ ws) =
    ground (arith, unsettled-drop_settled n ws, unsettled-drop_settled (n - 1) ws)

-- The number, and 32 when it is more.
abbrev pub capped : ℕ → ℕ
capped n = if ltb 32 n then 32 else n

drop_settled-few : (n : ℕ) (ws : List WorkWake) → n ≤ 32 → drop_settled n ws ≡ ws
unfolding drop_settled
drop_settled-few n [] h = refl
drop_settled-few n (w ∷ ws) h = ground (arith, drop_settled-few n ws h)

count-drop_settled :
    (n : ℕ) (ws : List WorkWake)
    → n ≡ count_settled ws
    → count_settled (drop_settled n ws) ≡ capped n
unfolding drop_settled
count-drop_settled n [] h = ground (arith, h)
count-drop_settled n (w ∷ ws) h = elim (Bool-cases (ltb 32 n)) [
  | inl many ↦ ground (arith, count-drop_settled n ws, count-drop_settled (n - 1) ws)
  | inr few ↦ ground (arith, drop_settled-few n ws)
]

-- Some wake of the list has the id.
abbrev pub has_wake : List WorkWake → String → Bool
has_wake ws id = any (λ w. str_eq w.wake_id id) ws

no_attempt :
    (l : List Attempt) (id : String)
    → attempt_for_wake l id ≡ none
    → any (λ b. str_eq b.wake_id id) l ≡ false
unfolding attempt_for_wake
no_attempt [] id h = refl
no_attempt (a ∷ l) id h = elim (Option-cases (attempt_for_wake l id)) [
  | inl e ↦ ground (arith, e, no_attempt l id e)
  | inr (b, e) ↦ ground (arith, e)
]

attempt_for_wake-keep_attempts :
    (ws : List WorkWake) (l : List Attempt) (id : String)
    → has_wake ws id ≡ true
    → attempt_for_wake (keep_attempts ws l) id ≡ attempt_for_wake l id
unfolding attempt_for_wake keep_attempts
attempt_for_wake-keep_attempts ws [] id h = refl
attempt_for_wake-keep_attempts ws (a ∷ l) id h =
    let rest = attempt_for_wake-keep_attempts ws l id h in
    elim (Option-cases (attempt_for_wake l id)) [
      | inr (b, e) ↦ ground (arith, e, rest)
      | inl e ↦ elim (Bool-cases (str_eq a.wake_id id)) [
        | inl own ↦
            let same = (eq_iff a.wake_id id).0 own in
            ground (arith, e, rest, no_attempt l id e, same)
        | inr other ↦ ground (arith, e, rest, other)
      ]
    ]

-- The lookup of a wake gives the same attempt in both lists.
abbrev pub SameAttempt : List Attempt → List Attempt → WorkWake → Type 0
SameAttempt l m w = attempt_for_wake l w.wake_id ≡ attempt_for_wake m w.wake_id

keep_attempts-SameAttempt :
    (ws vs : List WorkWake) (l : List Attempt)
    → ((id : String) → has_wake vs id ≡ true → has_wake ws id ≡ true)
    → All (SameAttempt (keep_attempts ws l) l) vs
keep_attempts-SameAttempt ws [] l h = tt
keep_attempts-SameAttempt ws (v ∷ vs) l h = (
  attempt_for_wake-keep_attempts ws l v.wake_id
      (h v.wake_id (ground (arith, str_eq_refl v.wake_id))),
  keep_attempts-SameAttempt ws vs l (λ id k. h id (ground (arith, k))),
)

-- Compaction keeps every wake that is not settled, in order; of the settled ones it keeps 32, or
-- all when there are fewer; and for each wake that it keeps, the lookup gives the same attempt as
-- before.
pub compact_lossless :
    (d : Document)
    → (unsettled (compact_continuation d).wakes ≡ unsettled d.wakes)
      × (count_settled (compact_continuation d).wakes ≡ capped (count_settled d.wakes))
      × All
          (SameAttempt (compact_continuation d).attempts d.attempts)
          (compact_continuation d).wakes
unfolding compact_continuation
compact_lossless d =
    let kept = drop_settled (count_settled d.wakes) d.wakes in
    (
      unsettled-drop_settled (count_settled d.wakes) d.wakes,
      count-drop_settled (count_settled d.wakes) d.wakes refl,
      keep_attempts-SameAttempt kept kept d.attempts (λ id k. k),
    )
