-- ===== src/Sessions/Revoked.antt =====
-- session.go, revokeTargetsGuarded and workSessionStatusAfterRevocation: what is left.
use nexusdock.Shared.{
  length-map, filter, ℕ, suc, ◌≤◌, ◌<◌, ◌≡◌, ◌↔◌, ◌∙◌, refl, String, List, [], ◌∷◌, map, Bool, true,
  false, ◌&&◌, not, any, count_if, length, All, arith, Bool-cases, inl, inr,
}
use nexusdock.Continuation.Types.{Result, ok}
use nexusdock.Continuation.Store.{SessionStatus}
use nexusdock.Continuation.Ensures.{returns, returned, branch, proceed}
use nexusdock.Sessions.Tables.{WorkTarget, Tables}
use nexusdock.Sessions.Listing.{insert_by, sort_by}
use nexusdock.Sessions.Revocation.{
  is_usable, of_session, status_after_revocation, selects, revoke, revoke_where,
  revoke_targets_guarded,
}

length-insert_by :
    {A : Type 0} (before : A → A → Bool) (x : A) (xs : List A)
    → length (insert_by before x xs) ≡ suc (length xs)
length-insert_by before x [] = refl
length-insert_by before x (y ∷ ys) = ground (arith, length-insert_by before x ys)

length-sort_by :
    {A : Type 0} (before : A → A → Bool) (xs : List A) → length (sort_by before xs) ≡ length xs
length-sort_by before [] = refl
length-sort_by before (x ∷ xs) =
    omega (arith, length-insert_by before x (sort_by before xs), length-sort_by before xs)

length-filter : {A : Type 0} (p : A → Bool) (xs : List A) → length (filter p xs) ≡ count_if p xs
length-filter p [] = refl
length-filter p (x ∷ xs) = ground (arith, length-filter p xs)

none_selected :
    (p : WorkTarget → Bool) (now : ℕ) (ts : List WorkTarget)
    → All (λ t. selects p t ≡ false) (map (revoke_where p now) ts)
unfolding revoke
none_selected p now [] = tt
none_selected p now (t ∷ ts) = elim (Bool-cases (selects p t)) [
  | inl e ↦ rw e (ground (arith, p), none_selected p now ts)
  | inr e ↦ rw e (e, none_selected p now ts)
]

revoke_none :
    (p : WorkTarget → Bool) (now : ℕ) (ts : List WorkTarget)
    → any (selects p) ts ≡ false
    → map (revoke_where p now) ts ≡ ts
revoke_none p now [] h = refl
revoke_none p now (t ∷ ts) h = ground (arith, revoke_none p now ts)

-- The tables and the answer after a revocation with the selection `p`.
pub record Revokes (p : WorkTarget → Bool) (now : ℕ) (db db' : Tables) (items : List WorkTarget)
    : Type 0 where
  pub without_authority : All (λ t. selects p t ≡ false) db'.targets
  pub others : db'.targets ≡ map (revoke_where p now) db.targets
  pub counted : length items ≡ count_if (selects p) db.targets

count-none : {A : Type 0} (p : A → Bool) (xs : List A) → any p xs ≡ false → count_if p xs ≡ 0
count-none p [] h = refl
count-none p (x ∷ xs) h = ground (arith, count-none p xs)

-- After a revocation no target that the predicate selects is left unrevoked; exactly the selected
-- rows were changed, also when there was none; and the answer has as many items as they are.
pub revoke-Revokes :
    (db db' : Tables) (now : ℕ) (p : WorkTarget → Bool) (cancel : Bool) (guard : Result (Unit {0}))
    (items : List WorkTarget)
    → revoke_targets_guarded db now p cancel guard ≡ ok (db', items)
    → Revokes p now db db' items
unfolding revoke_targets_guarded
revoke-Revokes db db' now p cancel guard items h =
    returned {P = λ r. Revokes p now db r.0 r.1}
      (proceed _ _ λ g.
        branch (any (selects p) db.targets) _ _
          (λ e. returns (record {
            without_authority = none_selected p now db.targets;
            others = refl;
            counted =
                length-map _ (sort_by _ (filter (selects p) db.targets))
                ∙ length-sort_by _ (filter (selects p) db.targets)
                ∙ length-filter (selects p) db.targets;
          }))
          (λ e.
            let same = revoke_none p now db.targets e in
            returns (record {
              without_authority = rw same at (none_selected p now db.targets);
              others = rw same refl;
              counted = rw (count-none (selects p) db.targets e) refl;
            })))
      h

usable_count :
    (ws : String) (ts : List WorkTarget)
    → count_if (λ t. of_session ws t && is_usable t.status) ts ≤ count_if (of_session ws) ts
usable_count ws [] = omega arith
usable_count ws (t ∷ ts) = ground (arith, usable_count ws ts)

all_usable :
    (ws : String) (ts : List WorkTarget)
    → (count_if (λ t. of_session ws t && is_usable t.status) ts ≡ count_if (of_session ws) ts)
      ↔ (any (λ t. of_session ws t && not (is_usable t.status)) ts ≡ false)
all_usable ws [] = (λ h. refl, λ h. refl)
all_usable ws (t ∷ ts) = (
  λ h. ground (arith, usable_count ws ts, (all_usable ws ts).0),
  λ h. ground (arith, (all_usable ws ts).1),
)

count-any : {A : Type 0} (p : A → Bool) (xs : List A) → (0 < count_if p xs) ↔ (any p xs ≡ true)
count-any p [] = (λ h. absurd (omega arith), λ h. absurd (cc))
count-any p (x ∷ xs) =
    (λ h. ground (arith, (count-any p xs).0), λ h. ground (arith, (count-any p xs).1))

-- A session stays ready exactly when it has a target and each of its targets is ready, idle or
-- running; it has failed exactly when none of its targets is.
pub status_after_revocation_lem :
    (ts : List WorkTarget) (ws : String)
    → ((status_after_revocation ts ws ≡ SessionStatus.ready) ↔ (
        (any (of_session ws) ts ≡ true)
        × (any (λ t. of_session ws t && not (is_usable t.status)) ts ≡ false)))
      × ((status_after_revocation ts ws ≡ SessionStatus.failed)
          ↔ (any (λ t. of_session ws t && is_usable t.status) ts ≡ false))
unfolding status_after_revocation
status_after_revocation_lem ts ws =
    let c = count-any (of_session ws) ts in
    let u = count-any (λ t. of_session ws t && is_usable t.status) ts in
    let a = all_usable ws ts in
    let le = usable_count ws ts in
    (
      (λ h. ground (arith, c, a, h), λ h. ground (arith, c, a, h)),
      (λ h. ground (arith, u, c, le, h), λ h. ground (arith, u, c, le, h)),
    )
