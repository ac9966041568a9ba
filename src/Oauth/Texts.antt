-- ===== src/Oauth/Texts.antt =====
-- internal/auth/oauth.go: the tests and normal forms of texts.
use Prim.Native.Nat.{ℕ, ◌+◌}
use Prim.Native.Char.{code}
use nexusdock.Shared.{
  String, is_blank, is_space, leb, ◌==◌, Bool, true, false, ◌&&◌, ◌||◌, if◌then◌else◌, ◌≡◌, refl,
  ap, Bool-cases, inl, inr,
}

-- [A-Za-z0-9._~-]
is_pkce_char : ℕ → Bool
is_pkce_char c =
    (leb b'A' c && leb c b'Z')
    || (leb b'a' c && leb c b'z')
    || (leb b'0' c && leb c b'9')
    || c == b'.'
    || c == b'_'
    || c == b'~'
    || c == b'-'

-- `n` characters came before, all of them of the set.
pkce_from : ℕ → String → Bool
pkce_from n String.[] = leb 43 n && leb n 128
pkce_from n (String.◌∷◌ c s) = is_pkce_char (code c) && pkce_from (n + 1) s

-- ValidPKCEValue.
unfoldable pub valid_pkce_value : String → Bool
unfolding is_pkce_char pkce_from
valid_pkce_value s = pkce_from 0 s

-- strings.Join(strings.Fields(s), " "): `started` when a word came before, `gap` when a space did
-- since.
join_fields : Bool → Bool → String → String
join_fields started gap String.[] = String.[]
join_fields started gap (String.◌∷◌ c s) =
    let space = join_fields started true s in
    let rest = join_fields true false s in
    if is_space (code c)
    then space
    else if started && gap
    then String.◌∷◌ " " (String.◌∷◌ c rest)
    else String.◌∷◌ c rest

-- normalizeOAuthScope.
unfoldable pub normalize_scope : String → String
unfolding join_fields
normalize_scope s = if is_blank s then "mcp" else join_fields false false s

-- A text that is joined already stays; behind a word, and at the start.
join_started :
    (gap : Bool) (s : String)
    → join_fields true false (join_fields true gap s) ≡ join_fields true gap s
unfolding join_fields is_space
join_started gap String.[] = refl
join_started gap (String.◌∷◌ c s) = elim (Bool-cases (is_space (code c))) [
  | inl e ↦ rw e (join_started true s)
  | inr e ↦ elim (Bool-cases gap) [
    | inl g ↦ rw (e, g, e) (ap (λ t. String.◌∷◌ " " (String.◌∷◌ c t)) (join_started false s))
    | inr g ↦ rw (e, g, e) (ap (λ t. String.◌∷◌ c t) (join_started false s))
  ]
]

join_start :
    (gap : Bool) (s : String)
    → join_fields false false (join_fields false gap s) ≡ join_fields false gap s
unfolding join_fields is_space
join_start gap String.[] = refl
join_start gap (String.◌∷◌ c s) = elim (Bool-cases (is_space (code c))) [
  | inl e ↦ rw e (join_start true s)
  | inr e ↦ rw (e, e) (ap (λ t. String.◌∷◌ c t) (join_started false s))
]

is_blank-join_fields : (gap : Bool) (s : String) → is_blank (join_fields false gap s) ≡ is_blank s
unfolding join_fields is_blank
is_blank-join_fields gap String.[] = refl
is_blank-join_fields gap (String.◌∷◌ c s) = elim (Bool-cases (is_space (code c))) [
  | inl e ↦ rw e (is_blank-join_fields true s)
  | inr e ↦ rw (e, e) refl
]

-- The normal form of a scope is its own normal form.
pub normalize_scope_idem : (s : String) → normalize_scope (normalize_scope s) ≡ normalize_scope s
unfolding normalize_scope is_blank is_space
normalize_scope_idem s = elim (Bool-cases (is_blank s)) [
  | inl e ↦ rw e refl
  | inr e ↦ rw (e, is_blank-join_fields false s, e) (join_start false s)
]

normalize_scope_runs : normalize_scope "  a   b " ≡ "a b"
unfolding normalize_scope is_blank is_space
normalize_scope_runs = refl
