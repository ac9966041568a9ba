-- ===== src/Continuation/Attempts.antt =====
-- The attempts of a document: what the lookup of a wake's latest attempt gives after a write, and
-- that an attempt that was consumed keeps no consume credential.
use nexusdock.Shared.{
  ℕ, ◌≡◌, String, str_eq, is_empty, List, [], ◌∷◌, ◌++◌, some, Bool, true, ◌&&◌, ◌||◌, not, All,
  arith, eq_iff, Option-cases, Bool-cases, inl, inr,
}
use nexusdock.Continuation.Types.{
  WakeState, delivery_rejected, delivery_unknown, WorkWake, Attempt, WorkContinuation,
}
use nexusdock.Continuation.Document.{
  is_set, attempt_for_wake, set_attempt, update_attempt, expire_wake, sweep,
}
use nexusdock.Continuation.Store.{keep_attempts}

pub attempt_for_wake-wake_id :
    (l : List Attempt) (id : String) (a : Attempt) → attempt_for_wake l id ≡ some a → a.wake_id ≡ id
unfolding attempt_for_wake
attempt_for_wake-wake_id [] id a h = cc
attempt_for_wake-wake_id (x ∷ l) id a h =
    ground (arith, eq_iff x.wake_id id, attempt_for_wake-wake_id l id a)

-- What is written is read.
pub attempt_for_wake-set_attempt :
    (l : List Attempt) (id : String) (a b : Attempt)
    → attempt_for_wake l id ≡ some a
    → b.wake_id ≡ id
    → attempt_for_wake (set_attempt l id b) id ≡ some b
unfolding attempt_for_wake set_attempt
attempt_for_wake-set_attempt [] id a b h e = cc
attempt_for_wake-set_attempt (x ∷ l) id a b h e = elim (Option-cases (attempt_for_wake l id)) [
  | inl n ↦ ground (arith, n, eq_iff x.wake_id id, eq_iff b.wake_id id)
  | inr (c, s) ↦ ground (arith, s, attempt_for_wake-set_attempt l id c b s e)
]

-- An attempt that was consumed was prepared, and its credential is gone.
abbrev pub spent : Attempt → Bool
spent a = not (is_set a.consumed_at) || (is_empty a.consume_hash && is_set a.prepared_at)

abbrev pub Spent : List Attempt → Type 0
Spent = All (λ a. spent a ≡ true)

pub Spent-attempt_for_wake :
    (l : List Attempt) (id : String) (a : Attempt)
    → Spent l
    → attempt_for_wake l id ≡ some a
    → spent a ≡ true
unfolding attempt_for_wake
Spent-attempt_for_wake [] id a s h = cc
Spent-attempt_for_wake (x ∷ l) id a s h = elim (Option-cases (attempt_for_wake l id)) [
  | inl n ↦ ground (arith, n)
  | inr (c, e) ↦ Spent-attempt_for_wake l id a s.1 (ground arith)
]

pub Spent-set_attempt :
    (l : List Attempt) (id : String) (b : Attempt)
    → Spent l
    → spent b ≡ true
    → Spent (set_attempt l id b)
unfolding set_attempt
Spent-set_attempt [] id b s h = tt
Spent-set_attempt (x ∷ l) id b s h = elim (Option-cases (attempt_for_wake l id)) [
  | inl n ↦ elim (Bool-cases (str_eq x.wake_id id)) [
    | inl e ↦ rw (n, e, set_attempt) (h, s.1)
    | inr e ↦ rw (n, e, set_attempt) s
  ]
  | inr (c, e) ↦ rw (e, set_attempt) (s.0, Spent-set_attempt l id b s.1 h)
]

pub Spent-update_attempt :
    (l : List Attempt) (id : String) (f : Attempt → Attempt)
    → Spent l
    → ((a : Attempt) → spent a ≡ true → spent (f a) ≡ true)
    → Spent (update_attempt l id f)
unfolding update_attempt
Spent-update_attempt l id f s k = elim (Option-cases (attempt_for_wake l id)) [
  | inl n ↦ rw (n, update_attempt) s
  | inr (a, e) ↦
      rw (e, update_attempt)
        (Spent-set_attempt l id (f a) s (k a (Spent-attempt_for_wake l id a s e)))
]

pub Spent-append : (l : List Attempt) (b : Attempt) → Spent l → spent b ≡ true → Spent (l ++ b ∷ [])
Spent-append [] b s h = (h, tt)
Spent-append (x ∷ l) b s h = (s.0, Spent-append l b s.1 h)

pub Spent-keep_attempts :
    (ws : List WorkWake) (l : List Attempt) → Spent l → Spent (keep_attempts ws l)
unfolding keep_attempts
Spent-keep_attempts ws [] s = tt
Spent-keep_attempts ws (a ∷ l) s = ground (arith, Spent-keep_attempts ws l s.1)

-- The expiry writes neither `consumed_at` nor the credential.
Spent-expire_wake :
    (w : WorkWake) (l : List Attempt) (s : WorkContinuation) (now : ℕ)
    → Spent l
    → Spent (expire_wake w l s now).attempts
unfolding expire_wake
Spent-expire_wake w l s now h = elim (Option-cases (attempt_for_wake l w.wake_id)) [
  | inl n ↦ rw (n, expire_wake) h
  | inr (a, e) ↦
      let g = Spent-attempt_for_wake l w.wake_id a h e in
      let late : Attempt = record a {
        state = delivery_rejected;
        last_error = "claim expired before dispatch";
      } in
      ground (
        arith,
        e,
        h,
        Spent-set_attempt l w.wake_id late h g,
        Spent-set_attempt l w.wake_id (record a { state = delivery_unknown }) h g,
        Spent-set_attempt l w.wake_id (record a { state = WakeState.needs_attention }) h g,
      )
]

pub Spent-sweep :
    (ws : List WorkWake) (l : List Attempt) (s : WorkContinuation) (now : ℕ)
    → Spent l
    → Spent (sweep ws l s now).attempts
unfolding sweep
Spent-sweep [] l s now h = h
Spent-sweep (w ∷ ws) l s now h =
    Spent-sweep ws _ (expire_wake w l s now).state now (Spent-expire_wake w l s now h)
