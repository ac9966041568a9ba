-- ===== src/Continuation/Expiry.antt =====
-- continuation.go, expireContinuation: what makes a wake due, and the sweep made twice.
use nexusdock.Shared.{
  ℕ, ◌≡◌, refl, sym, ◌∙◌, ap, String, str_eq, List, [], ◌∷◌, Option, none, some, Bool, false, arith,
  eq_iff, All, Option-cases, Bool-cases, inl, inr,
}
use nexusdock.Continuation.Types.{
  WakeState, claimed, prepared, dispatch_accepted, delivery_unknown, delivery_rejected, consumed,
  WorkWake, Attempt, WorkContinuation, Document,
}
use nexusdock.Continuation.Document.{
  is_expired, settlement_overdue, attempt_for_wake, set_attempt, expire_wake, sweep,
  expire_continuation,
}
use nexusdock.Continuation.Attempts.{attempt_for_wake-wake_id, attempt_for_wake-set_attempt}

-- The times by which the latest attempt of a wake is judged: the end of its lease, and when it
-- was consumed.
abbrev times : Option Attempt → Option (Option ℕ × Option ℕ)
times none = none
times (some a) = some (a.lease_expires_at, a.consumed_at)

times_of : List Attempt → String → Option (Option ℕ × Option ℕ)
times_of l id = times (attempt_for_wake l id)

-- Whether a wake in the state is past its time.
due : WakeState → Option (Option ℕ × Option ℕ) → ℕ → Bool
due s none now = false
due claimed (some (lease, taken)) now = is_expired lease now
due prepared (some (lease, taken)) now = is_expired lease now
due dispatch_accepted (some (lease, taken)) now = is_expired lease now
due consumed (some (lease, taken)) now = settlement_overdue taken now
due _ (some (lease, taken)) now = false

attempt_for_wake-set_other :
    (l : List Attempt) (id j : String) (a b : Attempt)
    → attempt_for_wake l id ≡ some a
    → b.wake_id ≡ id
    → str_eq id j ≡ false
    → attempt_for_wake (set_attempt l id b) j ≡ attempt_for_wake l j
unfolding attempt_for_wake set_attempt
attempt_for_wake-set_other [] id j a b h i n = cc
attempt_for_wake-set_other (x ∷ l) id j a b h i n = elim (Option-cases (attempt_for_wake l id)) [
  | inl e ↦
      ground (arith, e, eq_iff x.wake_id id, eq_iff b.wake_id j, eq_iff x.wake_id j, eq_iff id j)
  | inr (c, e) ↦ ground (arith, e, attempt_for_wake-set_other l id j c b e i n)
]

times-set_attempt :
    (l : List Attempt) (id j : String) (a b : Attempt)
    → attempt_for_wake l id ≡ some a
    → b.wake_id ≡ a.wake_id
    → times (some b) ≡ times (some a)
    → times_of (set_attempt l id b) j ≡ times_of l j
unfolding times_of
times-set_attempt l id j a b h i t =
    let own = i ∙ attempt_for_wake-wake_id l id a h in
    elim (Bool-cases (str_eq id j)) [
      | inl e ↦
          rw (← (eq_iff id j).0 e)
            (ap times (attempt_for_wake-set_attempt l id a b h own) ∙ t ∙ ap times (sym h))
      | inr e ↦ ap times (attempt_for_wake-set_other l id j a b h own e)
    ]

-- One wake: it changes exactly when it is due, is left alone otherwise, is no longer due after,
-- and no times change.
record Expired (w : WorkWake) (l : List Attempt) (s : WorkContinuation) (now : ℕ) : Type 0 where
  changes : (expire_wake w l s now).changed ≡ due w.state (times_of l w.wake_id) now
  still :
      due w.state (times_of l w.wake_id) now ≡ false
      → expire_wake w l s now ≡ record { wake = w; attempts = l; state = s; changed = false }
  done : due (expire_wake w l s now).wake.state (times_of l w.wake_id) now ≡ false
  id : (expire_wake w l s now).wake.wake_id ≡ w.wake_id
  kept : (j : String) → times_of (expire_wake w l s now).attempts j ≡ times_of l j

expire_wake-Expired :
    (w : WorkWake) (l : List Attempt) (s : WorkContinuation) (now : ℕ) → Expired w l s now
unfolding expire_wake due times_of
expire_wake-Expired w l s now = elim (Option-cases (attempt_for_wake l w.wake_id)) [
  | inl e ↦ record {
    changes = ground (arith, e);
    still = λ h. ground (arith, e);
    done = ground (arith, e);
    id = ground (arith, e);
    kept = λ j. ground (arith, e);
  }
  | inr (a, e) ↦ record {
    changes = ground (arith, e);
    still = λ h. ground (arith, e);
    done = ground (arith, e);
    id = ground (arith, e);
    kept = λ j.
        let late : Attempt = record a {
          state = delivery_rejected;
          last_error = "claim expired before dispatch";
        } in
        ground (
          arith,
          e,
          times-set_attempt l w.wake_id j a late e refl refl,
          times-set_attempt l w.wake_id j a (record a { state = delivery_unknown }) e refl refl,
          times-set_attempt l w.wake_id j a (record a { state = WakeState.needs_attention }) e refl
              refl,
        );
  }
]

NotDue : ℕ → List Attempt → List WorkWake → Type 0
NotDue now l = All (λ w. due w.state (times_of l w.wake_id) now ≡ false)

NotDue-times :
    (now : ℕ) (l m : List Attempt) (ws : List WorkWake)
    → ((j : String) → times_of m j ≡ times_of l j)
    → NotDue now m ws
    → NotDue now l ws
unfolding NotDue
NotDue-times now l m [] t h = tt
NotDue-times now l m (w ∷ ws) t h = (rw (← t w.wake_id) h.0, NotDue-times now l m ws t h.1)

sweep-still :
    (ws : List WorkWake) (l : List Attempt) (s : WorkContinuation) (now : ℕ)
    → NotDue now l ws
    → sweep ws l s now ≡ record { wakes = ws; attempts = l; state = s; changed = false }
unfolding NotDue sweep
sweep-still [] l s now h = refl
sweep-still (w ∷ ws) l s now h =
    rw ((expire_wake-Expired w l s now).still h.0, sweep-still ws l s now h.1)

sweep-times :
    (ws : List WorkWake) (l : List Attempt) (s : WorkContinuation) (now : ℕ) (j : String)
    → times_of (sweep ws l s now).attempts j ≡ times_of l j
unfolding sweep
sweep-times [] l s now j = refl
sweep-times (w ∷ ws) l s now j =
    sweep-times ws _ (expire_wake w l s now).state now j ∙ (expire_wake-Expired w l s now).kept j

sweep-NotDue :
    (ws : List WorkWake) (l : List Attempt) (s : WorkContinuation) (now : ℕ)
    → NotDue now l (sweep ws l s now).wakes
unfolding sweep NotDue
sweep-NotDue [] l s now = tt
sweep-NotDue (w ∷ ws) l s now =
    let x = expire_wake-Expired w l s now in
    let e = expire_wake w l s now in
    (
      rw x.id x.done,
      NotDue-times now l e.attempts _ x.kept (sweep-NotDue ws e.attempts e.state now),
    )

sweep_idem :
    (ws : List WorkWake) (l : List Attempt) (s : WorkContinuation) (now : ℕ)
    → let r = sweep ws l s now in
      sweep r.wakes r.attempts r.state now
      ≡ record { wakes = r.wakes; attempts = r.attempts; state = r.state; changed = false }
sweep_idem ws l s now =
    let r = sweep ws l s now in
    sweep-still r.wakes r.attempts r.state now (
      NotDue-times now r.attempts l r.wakes (λ j. sym (sweep-times ws l s now j))
        (sweep-NotDue ws l s now))

-- Nothing is overdue after a sweep at the same time, whatever the state became since.
pub expire_again :
    (d : Document) (now : ℕ) (s : WorkContinuation)
    → (expire_continuation (record ((expire_continuation d now).0) { state = s }) now).1 ≡ false
unfolding expire_continuation
expire_again d now s =
    let r = sweep d.wakes d.attempts d.state now in
    let still = sweep-still r.wakes r.attempts s now (
      NotDue-times now r.attempts d.attempts r.wakes
        (λ j. sym (sweep-times d.wakes d.attempts d.state now j))
        (sweep-NotDue d.wakes d.attempts d.state now)) in
    ap (λ x. x.changed) still

-- A second sweep at the same time changes nothing and says so.
pub expire_idem :
    (d : Document) (now : ℕ)
    → expire_continuation (expire_continuation d now).0 now ≡ ((expire_continuation d now).0, false)
unfolding expire_continuation
expire_idem d now = rw (sweep_idem d.wakes d.attempts d.state now)

sweep-unchanged :
    (ws : List WorkWake) (l : List Attempt) (s : WorkContinuation) (now : ℕ)
    → (sweep ws l s now).changed ≡ false
    → NotDue now l ws
unfolding sweep NotDue
sweep-unchanged [] l s now h = tt
sweep-unchanged (w ∷ ws) l s now h =
    let x = expire_wake-Expired w l s now in
    let e = expire_wake w l s now in
    let rest = sweep-unchanged ws e.attempts e.state now (ground arith) in
    (ground (arith, x.changes), NotDue-times now l e.attempts ws x.kept rest)

-- When the sweep reports no change, it left the document as it was.
pub expire_unchanged :
    (d : Document) (now : ℕ)
    → (expire_continuation d now).1 ≡ false
    → (expire_continuation d now).0 ≡ d
unfolding expire_continuation
expire_unchanged d now h =
    rw (
      sweep-still d.wakes d.attempts d.state now (sweep-unchanged d.wakes d.attempts d.state now h))
