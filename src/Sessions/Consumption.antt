-- ===== src/Sessions/Consumption.antt =====
-- delivery.go: a delivery that the host acknowledged, returned and acknowledged again.
use nexusdock.Shared.{
  ℕ, ◌≡◌, refl, sym, subst, ap, ◌∙◌, String, str_eq, str_eq_refl, is_empty, trim_space,
  trim_space_idem, List, [], ◌∷◌, map, Option, none, some, Bool, true, false, ◌||◌, find_first,
  if◌then◌else◌, arith, Bool-cases, Option-cases, inl, inr, eq_iff,
}
use nexusdock.Continuation.Types.{Error, Result, ok, err, ◌>>◌, or_fail}
use nexusdock.Continuation.Ensures.{Ensures, returns, raises, returned as result_of, proceed}
use nexusdock.Sessions.Tables.{
  returned, host_consumed, ContextDelivery, Tables, get_work_session, get_work_target,
}
use nexusdock.Sessions.Delivery.{
  check_delivery_owner, is_delivery, find_delivery, get_context_delivery, returned_again,
  upsert_delivery, record_context_returned, acknowledge_row, acknowledged,
  acknowledge_context_consumed,
}

-- The row of a key after it was returned, and after it was acknowledged.
returned_row : Option ContextDelivery → String → String → String → ℕ → ContextDelivery
returned_row (some d) ws target revision now = returned_again d revision now
returned_row none ws target revision now = record {
  work_session_id = ws;
  target_id = target;
  context_revision = revision;
  status = returned;
  returned_at = now;
  host_consumed_at = none;
  updated_at = now;
}

find-upsert :
    (ds : List ContextDelivery) (ws target revision : String) (now : ℕ)
    → find_first (is_delivery ws target) (upsert_delivery ds ws target revision now)
      ≡ some (returned_row (find_first (is_delivery ws target) ds) ws target revision now)
unfolding upsert_delivery returned_row returned_again
find-upsert [] ws target revision now = ground (arith, str_eq_refl ws, str_eq_refl target)
find-upsert (d ∷ ds) ws target revision now = elim (Bool-cases (is_delivery ws target d)) [
  | inl e ↦ rw (e, e) refl
  | inr e ↦ rw (e, e) (find-upsert ds ws target revision now)
]

find-acknowledge :
    (ds : List ContextDelivery) (ws target revision : String) (now : ℕ) (d : ContextDelivery)
    → find_first (is_delivery ws target) ds ≡ some d
    → d.context_revision ≡ revision
    → find_first (is_delivery ws target) (map (acknowledge_row ws target revision now) ds)
      ≡ some (acknowledged d now)
unfolding acknowledged
find-acknowledge [] ws target revision now d h r = cc
find-acknowledge (x ∷ ds) ws target revision now d h r =
    elim (Bool-cases (is_delivery ws target x)) [
      | inl e ↦ ground (arith, e, h, r, str_eq_refl revision, eq_iff x.context_revision revision)
      | inr e ↦ ground (arith, e, h, r, find-acknowledge ds ws target revision now d)
    ]

check-cases :
    {A : Type 0} {B : Type 0} (P : Tables × Result A → Type 0) (db : Tables) (r : Result B)
    (k : B → Tables × Result A)
    → ((e : Error) → P (db, err e))
    → ((b : B) → r ≡ ok b → P (k b))
    → P (elim r as (λ _. Tables × Result A) [ err e ↦ (db, err e) | ok b ↦ k b ])
check-cases P db (ok b) k h g = g b refl
check-cases P db (err e) k h g = h e

-- What the owner check and the lookup of a delivery found, when both passed.
record Found (db : Tables) (o w t : String) (c : ContextDelivery) : Type 0 where
  owned : check_delivery_owner db o w t ≡ ok tt
  row : find_first (is_delivery w t) db.deliveries ≡ some c

some-or_fail :
    {A : Type 0} {P : A → Type 0} (o : Option A) (e : Error)
    → ((a : A) → o ≡ some a → P a)
    → Ensures P (or_fail o e)
unfolding or_fail
some-or_fail none e h = raises
some-or_fail (some a) e h = returns (h a refl)

find-Found :
    (db : Tables) (o w t : String) (c : ContextDelivery)
    → (check_delivery_owner db o w t >> find_delivery db w t) ≡ ok c
    → Found db o w t c
unfolding find_delivery
find-Found db o w t c h =
    result_of {P = Found db o w t}
      (proceed _ _ λ x. some-or_fail _ _ λ a y. record { owned = x; row = y }) h

get-Found :
    (db : Tables) (owner ws target : String) (c : ContextDelivery)
    → Found db (trim_space owner) (trim_space ws) (trim_space target) c
    → get_context_delivery db (trim_space owner) (trim_space ws) (trim_space target) ≡ ok c
unfolding get_context_delivery ◌>>◌ or_fail find_delivery
get-Found db owner ws target c f =
    rw (trim_space_idem owner, trim_space_idem ws, trim_space_idem target, f.owned, f.row) refl

check-other :
    (db : Tables) (ds : List ContextDelivery) (o w t : String)
    → check_delivery_owner (record db { deliveries = ds }) o w t ≡ check_delivery_owner db o w t
unfolding check_delivery_owner get_work_session get_work_target
check-other db ds o w t = refl

answered : ContextDelivery → Result ContextDelivery → ContextDelivery
answered d (ok c) = c
answered d (err e) = d

ok-delivery : {c d : ContextDelivery} → ok c ≡ ok d → c ≡ d
unfolding answered
ok-delivery {c} h = ap (answered c) h

if-cases :
    {A : Type 0} (P : A → Type 0) (b : Bool) (x y : A)
    → (b ≡ true → P x)
    → (b ≡ false → P y)
    → P (if b then x else y)
if-cases P true x y h k = h refl
if-cases P false x y h k = k refl

-- What an acknowledgment that succeeds found and left.
record Acknowledges (db db' : Tables) (now : ℕ) (o w t r : String) (d : ContextDelivery)
    : Type 0 where
  full : (is_empty o || is_empty w || is_empty r) ≡ false
  before : ContextDelivery
  found : Found db o w t before
  revision : before.context_revision ≡ r
  after : d ≡ acknowledged before now
  left : Found db' o w t d

acknowledge-Acknowledges :
    (db : Tables) (now : ℕ) (owner ws target revision : String) (db' : Tables) (d : ContextDelivery)
    → acknowledge_context_consumed db now owner ws target revision ≡ (db', ok d)
    → Acknowledges db db' now
        (trim_space owner)
        (trim_space ws)
        (trim_space target)
        (trim_space revision)
        d
unfolding acknowledge_context_consumed
acknowledge-Acknowledges db now owner ws target revision db' d =
    let o = trim_space owner in
    let w = trim_space ws in
    let t = trim_space target in
    let r = trim_space revision in
    let P : Tables × Result ContextDelivery → Type 0 =
      λ x. x ≡ (db', ok d) → Acknowledges db db' now o w t r d in
    if-cases P (is_empty o || is_empty w || is_empty r) _ _ (λ e h. absurd (cc))
      λ full.
        check-cases P db (check_delivery_owner db o w t >> find_delivery db w t) _
          (λ e h. absurd (cc))
          λ c e.
            if-cases P (str_eq c.context_revision r) _ _
              (λ same h.
                let f = find-Found db o w t c e in
                let row =
                  find-acknowledge db.deliveries w t r now c f.row
                    ((eq_iff c.context_revision r).0 same) in
                let db0 = record db {
                  deliveries = map (acknowledge_row w t r now) db.deliveries;
                } in
                let g : Found db0 o w t (acknowledged c now) = record {
                  owned = check-other db _ o w t ∙ f.owned;
                  row = row;
                } in
                let last =
                  ok-delivery (
                    sym (ap (λ x. x.1) h) ∙ get-Found db0 owner ws target (acknowledged c now) g) in
                record {
                  full = full;
                  before = c;
                  found = f;
                  revision = (eq_iff c.context_revision r).0 same;
                  after = last;
                  left =
                      subst (λ x. Found x o w t d) (ap (λ x. x.0) h)
                        (subst (Found db0 o w t) (sym last) g);
                })
              (λ other h. absurd (cc))

again_row :
    (ds : List ContextDelivery) (w t r : String) (now : ℕ) (d : ContextDelivery)
    → find_first (is_delivery w t) ds ≡ some d
    → d.context_revision ≡ r
    → d.status ≡ host_consumed
    → find_first (is_delivery w t) (upsert_delivery ds w t r now)
      ≡ some (record d { returned_at = now; updated_at = now })
unfolding returned_row returned_again
again_row ds w t r now d f e s = find-upsert ds w t r now ∙ rw (f, e, s, str_eq_refl r) refl

acknowledge_again :
    (c : ContextDelivery) (now later : ℕ)
    → acknowledged (acknowledged c now) later ≡ record (acknowledged c now) { updated_at = later }
unfolding acknowledged
acknowledge_again c now later = elim (Option-cases c.host_consumed_at) [
  | inl e ↦ rw e refl
  | inr (t, e) ↦ rw e refl
]

-- When the host acknowledged the context of a revision, the delivery is consumed; returning the
-- same revision again, at any time, and acknowledging it again succeed, and both keep it consumed
-- at the time of the first acknowledgment.
pub consumption_kept :
    (db db' : Tables) (now later : ℕ) (owner ws target revision : String) (d : ContextDelivery)
    → acknowledge_context_consumed db now owner ws target revision ≡ (db', ok d)
    → (d.status ≡ host_consumed)
      × (d.context_revision ≡ trim_space revision)
      × ((record_context_returned db' later owner ws target revision).1
          ≡ ok (record d { returned_at = later; updated_at = later }))
      × ((acknowledge_context_consumed db' later owner ws target revision).1
          ≡ ok (record d { updated_at = later }))
unfolding acknowledged record_context_returned acknowledge_context_consumed ◌>>◌ find_delivery
    or_fail
consumption_kept db db' now later owner ws target revision d h =
    let o = trim_space owner in
    let w = trim_space ws in
    let t = trim_space target in
    let r = trim_space revision in
    let a = acknowledge-Acknowledges db now owner ws target revision db' d h in
    let status : d.status ≡ host_consumed = rw a.after refl in
    let same : d.context_revision ≡ r = rw a.after a.revision in
    let again : acknowledged d later ≡ record d { updated_at = later } =
      rw a.after (acknowledge_again a.before now later) in
    let f = a.left in
    let returned_db = record db' { deliveries = upsert_delivery db'.deliveries w t r later } in
    let again_db = record db' { deliveries = map (acknowledge_row w t r later) db'.deliveries } in
    (
      status,
      same,
      rw (a.full, f.owned)
          (get-Found returned_db owner ws target _ (record {
            owned = check-other db' _ o w t ∙ f.owned;
            row = again_row db'.deliveries w t r later d f.row same status;
          })),
      rw (a.full, f.owned, f.row, same, str_eq_refl r)
          (get-Found again_db owner ws target _ (record {
            owned = check-other db' _ o w t ∙ f.owned;
            row =
                find-acknowledge db'.deliveries w t r later d f.row same
                ∙ ap some (again ∙ rw same refl);
          })),
    )
