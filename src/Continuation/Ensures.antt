-- ===== src/Continuation/Ensures.antt =====
-- What a computation of type Result returns, if it returns: a postcondition with a rule for each
-- form of statement in the handlers.
use nexusdock.Shared.{◌≡◌, refl, subst, Bool, true, false, Option, none, some, if◌then◌else◌}
use nexusdock.Continuation.Types.{Error, Result, ok, err, ◌>>=◌, ◌>>◌, refuse_if, or_fail}

pub data Ensures {ℓ κ} {A : Type ℓ} (P : A → Type κ) : Result A → Type (ℓ ⊔ κ) where
  returns : {a : A} → P a → Ensures P (ok a)
  raises : {e : Error} → Ensures P (err e)

module _ {ℓ κ} {A : Type ℓ} {P : A → Type κ} where
  -- The postcondition of a computation that is known to return `a`.
  pub returned : {r : Result A} {a : A} → Ensures P r → r ≡ ok a → P a
  returned (returns h) e = subst P (cc) h
  returned raises e = cc

  pub refuse :
      (b : Bool) (e : Error) (k : Result A)
      → (b ≡ false → Ensures P k)
      → Ensures P (refuse_if b e >> k)
  unfolding ◌>>◌ refuse_if
  refuse true e k h = raises
  refuse false e k h = h refl

  pub branch :
      (b : Bool) (x y : Result A)
      → (b ≡ true → Ensures P x)
      → (b ≡ false → Ensures P y)
      → Ensures P (if b then x else y)
  branch true x y h k = h refl
  branch false x y h k = k refl

  pub chain {μ} :
      {B : Type μ} (m : Result B) (f : B → Result A)
      → ((b : B) → m ≡ ok b → Ensures P (f b))
      → Ensures P (m >>= f)
  unfolding ◌>>=◌
  chain (ok b) f h = h b refl
  chain (err e) f h = raises

  pub require {μ} :
      {B : Type μ} (o : Option B) (e : Error) (f : B → Result A)
      → ((b : B) → o ≡ some b → Ensures P (f b))
      → Ensures P (or_fail o e >>= f)
  unfolding ◌>>=◌ or_fail
  require none e f h = raises
  require (some b) e f h = h b refl

  pub proceed :
      (m : Result (Unit {0})) (k : Result A) → (m ≡ ok tt → Ensures P k) → Ensures P (m >> k)
  unfolding ◌>>◌
  proceed (ok tt) k h = h refl
  proceed (err e) k h = raises

pub weaken {ℓ κ μ} :
    {A : Type ℓ} {P : A → Type κ} {Q : A → Type μ} {r : Result A}
    → ((a : A) → P a → Q a)
    → Ensures P r
    → Ensures Q r
weaken f (returns h) = returns (f _ h)
weaken f raises = raises

-- A computation that cannot return fails.
pub fails {ℓ} : {A : Type ℓ} {r : Result A} → Ensures (λ _. ⊥) r → (e : Error) × (r ≡ err e)
fails (returns h) = absurd h
fails (raises {e}) = (e, refl)
