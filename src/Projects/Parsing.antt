-- ===== src/Projects/Parsing.antt =====
-- project/store.go, parseRevision and revisionString: printing and parsing.
use text.Mathlib.TextLemmas.{nil-append, cons-append}
use nexusdock.Shared.{
  ℕ, zero, suc, ◌≤◌, ◌≡◌, refl, String, trim_space, is_space, decimal, digits_value,
  digits_value-decimal, digits_value-is_word, is_word, is_word-trim_space, text_append, Option,
  none, some, true, ℤ, pos, negsuc, arith, Option-cases, inl, inr,
}
use nexusdock.Continuation.Types.{ok}
use nexusdock.Sessions.Revocation.{revision_string}
use nexusdock.Projects.Revisions.{
  max_int, positive, negative, unsigned, atoi, after_prefix, at_least_one, parse_revision,
}

atoi-digits_value :
    (s : String) (n : ℕ) → digits_value 0 s ≡ some n → 1 ≤ n → n ≤ max_int → atoi s ≡ some (pos n)
unfolding atoi digits_value
atoi-digits_value String.[] n h a b = ground (arith, h)
atoi-digits_value (String.◌∷◌ c s) n h a b = ground (arith, h)

after_prefix-text_append :
    (p u s : String)
    → after_prefix p ≡ some u
    → after_prefix (text_append p s) ≡ some (text_append u s)
after_prefix-text_append String.[] u s h = cc
after_prefix-text_append (String.◌∷◌ a String.[]) u s h = cc
after_prefix-text_append (String.◌∷◌ a (String.◌∷◌ b String.[])) u s h = cc
after_prefix-text_append (String.◌∷◌ a (String.◌∷◌ b (String.◌∷◌ c String.[]))) u s h = cc
after_prefix-text_append (String.◌∷◌ a (String.◌∷◌ b (String.◌∷◌ c (String.◌∷◌ d p)))) u s h =
    rw (cons-append a _ s, cons-append b _ s, cons-append c _ s, cons-append d p s)
      (ground (arith, h))

is_word-text_append :
    (s t : String) → is_word s ≡ true → is_word t ≡ true → is_word (text_append s t) ≡ true
is_word-text_append String.[] t h k = rw (nil-append t) k
is_word-text_append (String.◌∷◌ c s) t h k =
    rw (cons-append c s t) (ground (arith, h, is_word-text_append s t))

rev_is_word : is_word "rev-" ≡ true
unfolding is_space
rev_is_word = refl

-- Parsing the text of a revision from 1 to 2^63 - 1 gives that revision.
pub parse_revision-revision_string :
    (n : ℕ) → 1 ≤ n → n ≤ max_int → parse_revision (revision_string n) ≡ ok n
unfolding parse_revision
parse_revision-revision_string zero a b = absurd (omega arith)
parse_revision-revision_string (suc n) a b =
    let v = digits_value-decimal (suc n) in
    let w = is_word-text_append "rev-" _ rev_is_word (digits_value-is_word 0 (suc n) _ v) in
    rw
      (
        parse_revision,
        is_word-trim_space _ w,
        after_prefix-text_append "rev-" "" (decimal (suc n)) refl,
        nil-append (decimal (suc n)),
        atoi-digits_value (decimal (suc n)) (suc n) v a b,
      )
      refl

positive-le : (o : Option ℕ) (n : ℕ) → positive o ≡ some (pos n) → n ≤ max_int
positive-le none n h = cc
positive-le (some m) n h = ground (arith, h)

negative-le : (o : Option ℕ) (n : ℕ) → negative o ≡ some (pos n) → n ≤ max_int
negative-le none n h = cc
negative-le (some zero) n h = ground (arith, h)
negative-le (some (suc m)) n h = ground (arith, h)

atoi-le : (s : String) (n : ℕ) → atoi s ≡ some (pos n) → n ≤ max_int
unfolding atoi digits_value
atoi-le String.[] n h = cc
atoi-le (String.◌∷◌ c s) n h = ground (
  arith,
  h,
  positive-le (unsigned s) n,
  negative-le (unsigned s) n,
  positive-le (unsigned (String.◌∷◌ c s)) n,
)

at_least_one-bounds :
    (r : Option ℤ) (n : ℕ)
    → ((m : ℕ) → r ≡ some (pos m) → m ≤ max_int)
    → at_least_one r ≡ ok n
    → (1 ≤ n) × (n ≤ max_int)
at_least_one-bounds none n b h = cc
at_least_one-bounds (some (pos zero)) n b h = cc
at_least_one-bounds (some (negsuc m)) n b h = cc
at_least_one-bounds (some (pos (suc m))) n b h = ground (arith, h, b (suc m) refl)

-- A revision that was parsed is at least 1 and at most 2^63 - 1, so that it did not wrap around.
pub parse_revision-bounds : (s : String) (n : ℕ) → parse_revision s ≡ ok n → (1 ≤ n) × (n ≤ max_int)
unfolding parse_revision
parse_revision-bounds s n h = elim (Option-cases (after_prefix (trim_space s))) [
  | inl e ↦ cc (e, h)
  | inr (u, e) ↦ at_least_one-bounds (atoi u) n (atoi-le u) (rw (parse_revision, e) at h)
]
