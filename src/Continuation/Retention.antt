-- ===== src/Continuation/Retention.antt =====
-- continuation.go, expireUnawaitedReceipts: which outcomes are given up, and which are not.
use nexusdock.Shared.{
  ℕ, ◌+◌, ◌-◌, ◌*◌, ◌≤◌, ◌≡◌, ◌≢◌, ◌⊎◌, inl, inr, refl, String, str_eq, leb→le, List, [], ◌∷◌, none,
  Bool, true, false, not, ◌&&◌, any, count_if, text_before, arith, eq_iff, Bool-cases,
}
use nexusdock.Continuation.Types.{
  WakeState, settled, ContinuationSource, CommandOutcome, WorkWake, Document, second,
}
use nexusdock.Continuation.Document.{is_settled}
use nexusdock.Continuation.Store.{Database, Receipt, Eligibility, eligible, expired, is_eligible}
use nexusdock.Continuation.Receipts.{
  newer_count, awaited_by, held_by, is_unawaited, expire_rows, expire_unawaited_receipts,
}

-- Some element of the list has the property.
abbrev pub Exists {ℓ} : {A : Type ℓ} → (A → Type 0) → List A → Type 0
Exists P [] = ⊥
Exists P (x ∷ xs) = P x ⊎ Exists P xs

-- The session awaits the command of the receipt.
abbrev pub Awaits : Receipt → String × Document → Type 0
Awaits r (k, d) =
    (k ≡ r.work_session_id)
    × Exists
        (λ (s : ContinuationSource).
          (s.target_id ≡ r.target_id) × (s.command_session_id ≡ r.command_session_id))
        d.state.sources

-- A wake of the session that is not settled has the outcome of the receipt.
abbrev pub Holds : Receipt → String × Document → Type 0
Holds r (k, d) =
    (k ≡ r.work_session_id)
    × Exists
        (λ (w : WorkWake).
          (w.state ≢ settled)
          × Exists
              (λ (o : CommandOutcome).
                (o.event_id ≡ r.event_id) × (o.execution_context.target_id ≡ r.target_id))
              w.sources)
        d.wakes

-- The test decides the property.
abbrev Decides : Bool → Type 0 → Type 0
Decides b P = (b ≡ true → P) × (P → b ≡ true)

module _ {ℓ} {A : Type ℓ} where
  any-Exists :
      (p : A → Bool) (P : A → Type 0) (xs : List A)
      → ((x : A) → Decides (p x) (P x))
      → Decides (any p xs) (Exists P xs)
  any-Exists p P [] k = ((λ h. cc), λ h. absurd h)
  any-Exists p P (x ∷ xs) k =
      let rest = any-Exists p P xs k in
      (
        (λ h. elim (Bool-cases (p x)) [
          | inl e ↦ inl ((k x).0 e)
          | inr e ↦ inr (rest.0 (ground (arith, h, e)))
        ]),
        (λ h. elim h [ inl e ↦ ground (arith, (k x).1 e) | inr e ↦ ground (arith, rest.1 e) ]),
      )

both-Decides : (a b : Bool) (P Q : Type 0) → Decides a P → Decides b Q → Decides (a && b) (P × Q)
both-Decides true true P Q f g = ((λ h. (f.0 refl, g.0 refl)), λ h. refl)
both-Decides true false P Q f g = ((λ h. cc), λ h. g.1 h.1)
both-Decides false b P Q f g = ((λ h. cc), λ h. f.1 h.0)

str_eq-Decides : (s t : String) → Decides (str_eq s t) (s ≡ t)
str_eq-Decides s t = ((eq_iff s t).0, (eq_iff s t).1)

not-Decides : (b : Bool) (P : Type 0) → Decides b P → Decides (not b) (¬ P)
not-Decides true P f = ((λ h. cc), λ h. absurd (h (f.0 refl)))
not-Decides false P f = ((λ h p. cc (f.1 p)), λ h. refl)

is_settled-Decides : (s : WakeState) → Decides (is_settled s) (s ≡ settled)
is_settled-Decides settled = ((λ h. refl), λ h. refl)
is_settled-Decides WakeState.pending = ((λ h. cc), λ h. cc)
is_settled-Decides WakeState.claimed = ((λ h. cc), λ h. cc)
is_settled-Decides WakeState.prepared = ((λ h. cc), λ h. cc)
is_settled-Decides WakeState.dispatch_accepted = ((λ h. cc), λ h. cc)
is_settled-Decides WakeState.delivery_unknown = ((λ h. cc), λ h. cc)
is_settled-Decides WakeState.delivery_rejected = ((λ h. cc), λ h. cc)
is_settled-Decides WakeState.consumed = ((λ h. cc), λ h. cc)
is_settled-Decides WakeState.needs_attention = ((λ h. cc), λ h. cc)

is_eligible-Decides : (e : Eligibility) → Decides (is_eligible e) (e ≡ eligible)
is_eligible-Decides eligible = ((λ h. refl), λ h. refl)
is_eligible-Decides expired = ((λ h. cc), λ h. cc)
is_eligible-Decides Eligibility.retired = ((λ h. cc), λ h. cc)

awaited_by-Decides : (r : Receipt) (x : String × Document) → Decides (awaited_by r x) (Awaits r x)
unfolding awaited_by
awaited_by-Decides r (k, d) = both-Decides _ _ _ _ (str_eq-Decides k r.work_session_id) (
    any-Exists _ _ d.state.sources λ s.
      both-Decides _ _ _ _ (str_eq-Decides s.target_id r.target_id)
        (str_eq-Decides s.command_session_id r.command_session_id))

held_by-Decides : (r : Receipt) (x : String × Document) → Decides (held_by r x) (Holds r x)
unfolding held_by
held_by-Decides r (k, d) = both-Decides _ _ _ _ (str_eq-Decides k r.work_session_id) (
    any-Exists _ _ d.wakes λ w.
      both-Decides _ _ _ _ (not-Decides _ _ (is_settled-Decides w.state)) (
        any-Exists _ _ w.sources λ o.
          both-Decides _ _ _ _ (str_eq-Decides o.event_id r.event_id)
            (str_eq-Decides o.execution_context.target_id r.target_id)))

-- The eligible rows of the node that come before the row when the latest comes first; of rows of
-- one time the one that was stored last does.
abbrev pub rows_ahead : String → Receipt → List Receipt → List Receipt → ℕ
rows_ahead node r earlier later =
    count_if
      (λ x.
        str_eq x.node_id node && is_eligible x.eligible && text_before r.received_at x.received_at)
      earlier
    + count_if
        (λ x.
          str_eq x.node_id node
          && is_eligible x.eligible
          && not (text_before x.received_at r.received_at))
        later

-- Why a row is given up, between the rows stored before it and those after it: it is an eligible
-- row of the node, received more than 30 days ago or behind 1024 others, which no session awaits
-- and no wake holds that is not settled.
pub record GivenUp (db : Database) (node : String) (now : ℕ) (earlier : List Receipt) (r : Receipt)
    (later : List Receipt) : Type 0 where
  pub of_node : r.node_id ≡ node
  pub waiting : r.eligible ≡ eligible
  pub outside :
      (text_before r.received_at (now - 30 * 24 * 3600 * second) ≡ true)
      ⊎ (1024 ≤ rows_ahead node r earlier later)
  pub unawaited : ¬ Exists (Awaits r) db.work_continuations
  pub unheld : ¬ Exists (Holds r) db.work_continuations

is_unawaited-GivenUp :
    (db : Database) (node : String) (now : ℕ) (earlier : List Receipt) (r : Receipt)
    (later : List Receipt)
    → Decides (is_unawaited db node now earlier r later) (GivenUp db node now earlier r later)
unfolding is_unawaited newer_count
is_unawaited-GivenUp db node now earlier r later =
    let awaited =
      any-Exists (awaited_by r) (Awaits r) db.work_continuations (awaited_by-Decides r) in
    let held = any-Exists (held_by r) (Holds r) db.work_continuations (held_by-Decides r) in
    let old = text_before r.received_at (now - 30 * 24 * 3600 * second) in
    (
      (λ h. record {
        of_node = (eq_iff r.node_id node).0 (ground (arith, h));
        waiting = (is_eligible-Decides r.eligible).0 (ground (arith, h));
        outside = elim (Bool-cases old) [
          | inl e ↦ inl e
          | inr e ↦ inr (leb→le _ _ (ground (arith, h, e)))
        ];
        unawaited = (not-Decides _ _ awaited).0 (ground (arith, h));
        unheld = (not-Decides _ _ held).0 (ground (arith, h));
      }),
      (λ g.
          let a = (eq_iff r.node_id node).1 g.of_node in
          let b = (is_eligible-Decides r.eligible).1 g.waiting in
          let c = (not-Decides _ _ awaited).1 g.unawaited in
          let d = (not-Decides _ _ held).1 g.unheld in
          elim g.outside [
            | inl e ↦ ground (arith, a, b, c, d, e)
            | inr e ↦ ground (arith, a, b, c, d, e)
          ]),
    )

-- The rows before and after, behind the rows `earlier`: a row is given up, so that its outcome is
-- gone and a tombstone stays in its place, exactly when there is reason to.
pub data Retained (db : Database) (node : String) (now : ℕ)
    : List Receipt → List Receipt → List Receipt → Type 0 where
  ends : {earlier : List Receipt} → Retained db node now earlier [] []
  keeps :
      {earlier rs vs : List Receipt} {r : Receipt}
      → ¬ GivenUp db node now earlier r rs
      → Retained db node now (r ∷ earlier) rs vs
      → Retained db node now earlier (r ∷ rs) (r ∷ vs)
  expires :
      {earlier rs vs : List Receipt} {r : Receipt}
      → GivenUp db node now earlier r rs
      → Retained db node now (r ∷ earlier) rs vs
      → Retained db node now earlier (r ∷ rs) (record r { outcome = none; eligible = expired } ∷ vs)

expire_rows-Retained :
    (db : Database) (node : String) (now : ℕ) (earlier rs : List Receipt)
    → Retained db node now earlier rs (expire_rows db node now earlier rs)
unfolding expire_rows
expire_rows-Retained db node now earlier [] = ends
expire_rows-Retained db node now earlier (r ∷ rs) =
    let rest = expire_rows-Retained db node now (r ∷ earlier) rs in
    let test = is_unawaited-GivenUp db node now earlier r rs in
    elim (Bool-cases (is_unawaited db node now earlier r rs)) [
      | inl e ↦ rw (e, expire_rows) (expires (test.0 e) rest)
      | inr e ↦ rw (e, expire_rows) (keeps (λ g. cc (e, test.1 g)) rest)
    ]

-- The retention gives up exactly the outcomes that are those of the node whose batch it is, still
-- eligible, received more than 30 days ago (in the order of the stored texts) or behind 1024 newer
-- ones, awaited by no session and held by no wake that is not settled. Every other receipt is left
-- as it is, and a tombstone stays in the place of each that is given up.
pub expire-Retained :
    (db : Database) (node : String) (now : ℕ)
    → Retained db node now [] db.receipts (expire_unawaited_receipts db node now).receipts
unfolding expire_unawaited_receipts
expire-Retained db node now = expire_rows-Retained db node now [] db.receipts
