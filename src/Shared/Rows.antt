-- ===== src/Shared/Rows.antt =====
-- Lists whose elements differ by a test, as the unique columns of a table do, and what a search
-- finds after a change of the rows.
use Prim.Native.Nat.{ℕ, zero, suc, ◌+◌, ◌≤◌}
use mathlib.Core.Path.{◌≡◌, refl, ap, subst, ◌∙◌}
use mathlib.Core.Bool.{Bool, true, false, ◌||◌}
use mathlib.Core.Option.{Option, none, some}
use mathlib.Core.List.{List, [], ◌∷◌, ◌++◌, map}
use mathlib.Core.Logic.{inl, inr}
use native.Mathlib.Omega.{arith}
use nexusdock.Shared.Tests.{if◌then◌else◌, Bool-cases}
use nexusdock.Shared.Lists.{any, find_first, All, length}

module _ {ℓ} {A : Type ℓ} where
  -- No two elements are the same by the test.
  abbrev pub Distinct : (A → A → Bool) → List A → Type ℓ
  Distinct same [] = Unit
  Distinct same (x ∷ xs) = (any (same x) xs ≡ false) × Distinct same xs

  pub any-map :
      (same : A → A → Bool) (f : A → A) (x : A) (xs : List A)
      → ((x y : A) → same (f x) (f y) ≡ same x y)
      → any (same (f x)) (map f xs) ≡ any (same x) xs
  any-map same f x [] k = refl
  any-map same f x (y ∷ ys) k = rw (k x y, any-map same f x ys k) refl

  pub Distinct-map :
      (same : A → A → Bool) (f : A → A) (xs : List A)
      → ((x y : A) → same (f x) (f y) ≡ same x y)
      → Distinct same xs
      → Distinct same (map f xs)
  Distinct-map same f [] k d = tt
  Distinct-map same f (x ∷ xs) k d = (rw (any-map same f x xs k) d.0, Distinct-map same f xs k d.1)

  pub any-append : (p : A → Bool) (xs : List A) (y : A) → any p (xs ++ y ∷ []) ≡ any p xs || p y
  any-append p [] y = ground arith
  any-append p (x ∷ xs) y = ground (arith, any-append p xs y)

  pub Distinct-append :
      (same : A → A → Bool) (xs : List A) (y : A)
      → any (λ x. same x y) xs ≡ false
      → Distinct same xs
      → Distinct same (xs ++ y ∷ [])
  Distinct-append same [] y n d = (refl, tt)
  Distinct-append same (x ∷ xs) y n d =
      (rw (any-append (same x) xs y) (ground arith), Distinct-append same xs y (ground arith) d.1)

  abbrev pub filter : (A → Bool) → List A → List A
  filter p [] = []
  filter p (x ∷ xs) = if p x then x ∷ filter p xs else filter p xs

  pub any-filter : (r p : A → Bool) (xs : List A) → any r xs ≡ false → any r (filter p xs) ≡ false
  any-filter r p [] h = refl
  any-filter r p (x ∷ xs) h = ground (arith, h, any-filter r p xs)

  pub Distinct-filter :
      (same : A → A → Bool) (p : A → Bool) (xs : List A)
      → Distinct same xs
      → Distinct same (filter p xs)
  Distinct-filter same p [] d = tt
  Distinct-filter same p (x ∷ xs) d = elim (Bool-cases (p x)) [
    | inl e ↦ rw e (any-filter (same x) p xs d.0, Distinct-filter same p xs d.1)
    | inr e ↦ rw e (Distinct-filter same p xs d.1)
  ]

  abbrev pub map_option : (A → A) → Option A → Option A
  map_option f none = none
  map_option f (some a) = some (f a)

  -- A change of the rows that the test does not see.
  pub find_first-map :
      (p : A → Bool) (f : A → A) (xs : List A)
      → ((x : A) → p (f x) ≡ p x)
      → find_first p (map f xs) ≡ map_option f (find_first p xs)
  find_first-map p f [] k = refl
  find_first-map p f (x ∷ xs) k = elim (Bool-cases (p x)) [
    | inl e ↦ rw (k x, e) refl
    | inr e ↦ rw (k x, e) (find_first-map p f xs k)
  ]

  pub find_first-none : (p : A → Bool) (xs : List A) → any p xs ≡ false → find_first p xs ≡ none
  find_first-none p [] h = refl
  find_first-none p (x ∷ xs) h = ground (arith, h, find_first-none p xs)

  pub none-find_first : (p : A → Bool) (xs : List A) → find_first p xs ≡ none → any p xs ≡ false
  none-find_first p [] h = refl
  none-find_first p (x ∷ xs) h = ground (arith, h, none-find_first p xs)

  pub some-injective : {a b : A} → some a ≡ some b → a ≡ b
  some-injective {a} h = ap (λ o. elim o [ some x ↦ x | none ↦ a ]) h

  -- What a search finds does not pass a test that no row passes.
  pub find_first-lacks :
      (p r : A → Bool) (xs : List A) (x : A)
      → find_first p xs ≡ some x
      → any r xs ≡ false
      → r x ≡ false
  find_first-lacks p r [] x h k = cc
  find_first-lacks p r (y ∷ ys) x h k = elim (Bool-cases (p y)) [
    | inl e ↦ let same : y ≡ x = some-injective (rw e at h) in rw (← same) (ground (arith, k))
    | inr e ↦ find_first-lacks p r ys x (rw e at h) (ground (arith, k))
  ]

module _ {ℓ κ} {A : Type ℓ} (P : A → Type κ) where
  pub All-append : (xs : List A) (y : A) → All P xs → P y → All P (xs ++ y ∷ [])
  All-append [] y a b = (b, tt)
  All-append (x ∷ xs) y a b = (a.0, All-append xs y a.1 b)

  pub All-filter : (p : A → Bool) (xs : List A) → All P xs → All P (filter p xs)
  All-filter p [] a = tt
  All-filter p (x ∷ xs) a = elim (Bool-cases (p x)) [
    | inl e ↦ rw e (a.0, All-filter p xs a.1)
    | inr e ↦ rw e (All-filter p xs a.1)
  ]

  -- A change of the rows that pass a test.
  pub All-where :
      (p : A → Bool) (f : A → A) (xs : List A)
      → ((x : A) → p x ≡ true → P x → P (f x))
      → All P xs
      → All P (map (λ x. if p x then f x else x) xs)
  All-where p f [] k a = tt
  All-where p f (x ∷ xs) k a = elim (Bool-cases (p x)) [
    | inl e ↦ rw e (k x e a.0, All-where p f xs k a.1)
    | inr e ↦ rw e (a.0, All-where p f xs k a.1)
  ]

module _ {ℓ} {A : Type ℓ} where
  -- A change of the rows that the test does not see.
  pub any-unseen :
      (p : A → Bool) (f : A → A) (xs : List A)
      → ((x : A) → p (f x) ≡ p x)
      → any p (map f xs) ≡ any p xs
  any-unseen p f [] k = refl
  any-unseen p f (x ∷ xs) k = rw (k x, any-unseen p f xs k) refl

  -- The rows that a filter keeps pass its test.
  pub filter-All : (p : A → Bool) (xs : List A) → All (λ x. p x ≡ true) (filter p xs)
  filter-All p [] = tt
  filter-All p (x ∷ xs) = elim (Bool-cases (p x)) [
    | inl e ↦ rw e (e, filter-All p xs)
    | inr e ↦ rw e (filter-All p xs)
  ]

  pub All-weaken {κ μ} :
      {P : A → Type κ} {Q : A → Type μ} (xs : List A) → ((x : A) → P x → Q x) → All P xs → All Q xs
  All-weaken [] k a = tt
  All-weaken (x ∷ xs) k a = (k x a.0, All-weaken xs k a.1)

  -- A change of every row.
  pub All-map {κ μ} :
      (P : A → Type κ) (Q : A → Type μ) (f : A → A) (xs : List A)
      → ((x : A) → P x → Q (f x))
      → All P xs
      → All Q (map f xs)
  All-map P Q f [] k a = tt
  All-map P Q f (x ∷ xs) k a = (k x a.0, All-map P Q f xs k a.1)

  pub All-find_first {κ} :
      (P : A → Type κ) (p : A → Bool) (xs : List A) (x : A)
      → All P xs
      → find_first p xs ≡ some x
      → P x
  All-find_first P p [] x a h = cc
  All-find_first P p (y ∷ ys) x a h = elim (Bool-cases (p y)) [
    | inl e ↦ subst P (some-injective (rw e at h)) a.0
    | inr e ↦ All-find_first P p ys x a.1 (rw e at h)
  ]

  pub length-map {κ} : {B : Type κ} (f : A → B) (xs : List A) → length (map f xs) ≡ length xs
  length-map f [] = refl
  length-map f (x ∷ xs) = omega (arith, length-map f xs)

  pub length-filter : (p : A → Bool) (xs : List A) → length (filter p xs) ≤ length xs
  length-filter p [] = omega arith
  length-filter p (x ∷ xs) = ground (arith, length-filter p xs)

-- The parts of a list by a length.
module _ {ℓ} {A : Type ℓ} where
  abbrev pub take : ℕ → List A → List A
  take zero xs = []
  take (suc n) [] = []
  take (suc n) (x ∷ xs) = x ∷ take n xs

  abbrev pub drop : ℕ → List A → List A
  drop zero xs = xs
  drop (suc n) [] = []
  drop (suc n) (x ∷ xs) = drop n xs

  pub take-drop : (n : ℕ) (xs : List A) → take n xs ++ drop n xs ≡ xs
  take-drop zero xs = refl
  take-drop (suc n) [] = refl
  take-drop (suc n) (x ∷ xs) = ap (λ l. x ∷ l) (take-drop n xs)

  pub length-drop : (n : ℕ) (xs : List A) → n ≤ length xs → length (drop n xs) + n ≡ length xs
  length-drop zero xs h = omega arith
  length-drop (suc n) [] h = absurd (omega (arith, h))
  length-drop (suc n) (x ∷ xs) h = omega (arith, length-drop n xs (omega (arith, h)))

  pub length-take : (n : ℕ) (xs : List A) → n ≤ length xs → length (take n xs) ≡ n
  length-take zero xs h = refl
  length-take (suc n) [] h = absurd (omega (arith, h))
  length-take (suc n) (x ∷ xs) h = omega (arith, length-take n xs (omega (arith, h)))

  -- The elements behind a list of known length.
  pub drop-append : (n : ℕ) (xs ys : List A) → drop (length xs + n) (xs ++ ys) ≡ drop n ys
  drop-append n [] ys = let e : 0 + n ≡ n = omega arith in ap (λ k. drop k ys) e
  drop-append n (x ∷ xs) ys =
      let e : suc (length xs) + n ≡ suc (length xs + n) = omega arith in
      ap (λ k. drop k (x ∷ (xs ++ ys))) e ∙ drop-append n xs ys

  pub take-append : (n : ℕ) (xs ys : List A) → take (length xs + n) (xs ++ ys) ≡ xs ++ take n ys
  take-append n [] ys = let e : 0 + n ≡ n = omega arith in ap (λ k. take k ys) e
  take-append n (x ∷ xs) ys =
      let e : suc (length xs) + n ≡ suc (length xs + n) = omega arith in
      ap (λ k. take k (x ∷ (xs ++ ys))) e ∙ ap (λ l. x ∷ l) (take-append n xs ys)
