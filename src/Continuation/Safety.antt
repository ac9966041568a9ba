-- ===== src/Continuation/Safety.antt =====
-- The handlers of ControlContinuation, under the relation Sound.
use nexusdock.Shared.{
  All, ℕ, ◌≤◌, ◌≡◌, refl, ◌⊎◌, inl, inr, String, is_empty, List, some, ◌||◌, arith, ℤ, pos, negsuc,
  ◌==◌, ltb, Bool-cases,
}
use nexusdock.Continuation.Types.{settled, WorkWake, WorkContinuation, Document, Protocol}
use nexusdock.Continuation.Document.{find_wake, set_wake, is_settled, wake_state}
use nexusdock.Continuation.Store.{Database}
use nexusdock.Continuation.Control.{
  Action, status, enable, pause, recover, await, settle, unknown, ContinuationInput, set_limit,
  enable_continuation, pause_continuation, resolve_wake, recover_wake, recover_continuation,
  await_sources, settle_attempt, settle_wake, control_action, control,
}
use nexusdock.Continuation.Ensures.{
  Ensures, returns, returned, refuse, require, proceed, branch, chain,
}
use nexusdock.Continuation.Evolution.{
  Evolves-refl, Evolves-set_wake, flights-set_wake-le, weight, rank,
}
use nexusdock.Continuation.Attempts.{
  Spent, Spent-set_attempt, Spent-update_attempt, Spent-attempt_for_wake,
}
use nexusdock.Continuation.Sound.{Limits, Sound, Sound-refl, Sound-trans, merge_stored-SoundIds}

-- Only the state of the session changes.
pub Sound-state :
    {N : String → Type 0} (d : Document) (s : WorkContinuation)
    → (Limits d.state → Limits s)
    → s.work_session_id ≡ d.state.work_session_id
    → Sound N d (record d { state = s })
Sound-state d s l e = record {
  evolves = Evolves-refl d.wakes;
  valid = λ v. record { flight = v.flight; limits = l v.limits; spent = v.spent };
  session = e;
}

-- A wake that is found is written, and the attempts and the state change with it.
pub Sound-write :
    {N : String → Type 0} (d e : Document) (id : String) (w v : WorkWake)
    → find_wake d.wakes id ≡ some w
    → w.wake_id ≡ v.wake_id
    → rank w.state ≤ rank v.state
    → weight v.state ≤ weight w.state
    → e.wakes ≡ set_wake d.wakes w.wake_id v
    → (Spent d.attempts → Spent e.attempts)
    → (Limits d.state → Limits e.state)
    → e.state.work_session_id ≡ d.state.work_session_id
    → Sound N d e
Sound-write d e id w v h i r f k s l m = record {
  evolves = rw k (Evolves-set_wake d.wakes id w v h i r);
  valid = λ c. record {
    flight = rw k (omega (arith, flights-set_wake-le d.wakes id w v h f, c.flight));
    limits = l c.limits;
    spent = s c.spent;
  };
  session = m;
}

set_limit-range :
    (z : ℤ) (top old : ℕ) → Ensures (λ n. (n ≡ old) ⊎ ((1 ≤ n) × (n ≤ top))) (set_limit z top old)
unfolding set_limit
set_limit-range (negsuc n) top old = Ensures.raises
set_limit-range (pos n) top old =
    branch (n == 0) _ _ (λ e. returns (inl refl))
      (λ e.
        branch (ltb n 1 || ltb top n) _ _ (λ f. Ensures.raises)
          (λ f. returns (inr (ground arith, ground arith))))

enable-Sound :
    {N : String → Type 0} (d : Document) (i : ContinuationInput)
    → Ensures (Sound N d) (enable_continuation d i)
unfolding enable_continuation
enable-Sound d i = refuse _ _ _ λ confirmed. refuse _ _ _ λ budget. chain _ _ λ rounds hr.
    chain _ _ λ failures hf.
      let a = returned (set_limit-range i.max_rounds 100 d.state.max_rounds) hr in
      let b = returned (set_limit-range i.max_failures 10 d.state.max_failures) hf in
      returns (Sound-state d _ (λ l. ground arith) refl)

resolve-Sound :
    {N : String → Type 0} (d : Document) (id : String) (w : WorkWake) (checkpoint : String)
    (now : ℕ)
    → find_wake d.wakes id ≡ some w
    → Sound N d (resolve_wake d w checkpoint now)
unfolding resolve_wake
resolve-Sound d id w checkpoint now h = elim (Bool-cases (is_settled w.state)) [
  | inl e ↦ rw (e, resolve_wake) (Sound-refl d)
  | inr e ↦
      rw (e, resolve_wake)
        (Sound-write d _ id w (wake_state w settled now) h refl (ground arith) (ground arith) refl
          (λ s. Spent-update_attempt d.attempts w.wake_id _ s (λ a g. ground arith))
          (λ l. ground arith) refl)
]

recover_wake-Sound :
    {N : String → Type 0} (d : Document) (i : ContinuationInput) (now : ℕ)
    → Ensures (Sound N d) (recover_wake d i now)
unfolding recover_wake
recover_wake-Sound d i now =
    branch (is_empty i.wake_id) _ _ (λ e. returns (Sound-refl d))
      (λ e. require _ _ _ λ w h. refuse _ _ _ λ b. returns (resolve-Sound d i.wake_id w _ now h))

recover-Sound :
    {N : String → Type 0} (d : Document) (i : ContinuationInput) (now : ℕ)
    → Ensures (Sound N d) (recover_continuation d i now)
unfolding recover_continuation
recover-Sound d i now = refuse _ _ _ λ confirmed. chain _ _ λ e h. refuse _ _ _ λ free. returns (
    Sound-trans (returned (recover_wake-Sound d i now) h)
      (Sound-state e _ (λ l. ground arith) refl))

await-Sound :
    {N : String → Type 0} (p : Protocol) (ids : List String) (db : Database) (d : Document)
    (i : ContinuationInput) (now : ℕ)
    → All N ids
    → Ensures (Sound N d) (await_sources p ids db d i now)
unfolding await_sources
await-Sound {N} p ids db d i now a = refuse _ _ _ λ enabled. refuse _ _ _ λ count.
    proceed _ _ λ checked. chain _ _ λ r h. returns (
      Sound-trans (Sound-state d _ (λ l. ground arith) refl)
        (returned (merge_stored-SoundIds N p db _ now ids a) h).0)

settle-Sound :
    {N : String → Type 0} (d : Document) (i : ContinuationInput) (now : ℕ)
    → Ensures (Sound N d) (settle_wake d i now)
unfolding settle_wake settle_attempt
settle-Sound d i now = require _ _ _ λ w h.
    branch (is_settled w.state) _ _ (λ e. returns (Sound-refl d))
      (λ e. require _ _ _ λ a k. refuse _ _ _ λ consumed. refuse _ _ _ λ checkpoint. returns (
        Sound-write d _ i.wake_id w (wake_state w settled now) h refl (ground arith) (ground arith)
          refl
          (λ s.
            Spent-set_attempt d.attempts w.wake_id _ s
              (Spent-attempt_for_wake d.attempts w.wake_id a s k))
          (λ l. ground arith) refl))

-- The actions of ControlContinuation.
control-Sound :
    {N : String → Type 0} (p : Protocol) (ids : List String) (i : ContinuationInput)
    (action : Action) (db : Database) (d : Document) (now : ℕ)
    → All N ids
    → Ensures (Sound N d) (control_action p ids i action db d now)
unfolding control_action pause_continuation
control-Sound p ids i status db d now n = returns (Sound-refl d)
control-Sound p ids i enable db d now n = enable-Sound d i
control-Sound p ids i pause db d now n = returns (Sound-state d _ (λ l. ground arith) refl)
control-Sound p ids i recover db d now n = recover-Sound d i now
control-Sound p ids i await db d now n = await-Sound p ids db d i now n
control-Sound p ids i settle db d now n = settle-Sound d i now
control-Sound p ids i unknown db d now n = Ensures.raises

pub control_handler-Sound :
    {N : String → Type 0} (p : Protocol) (ids : List String) (i : ContinuationInput) (db : Database)
    (d : Document) (now : ℕ)
    → All N ids
    → Ensures (λ r. Sound N d r.0) (control p ids i db d now)
unfolding control
control_handler-Sound p ids i db d now n =
    chain _ _ λ d' e. returns (returned (control-Sound p ids i i.action db d now n) e)
