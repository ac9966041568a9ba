-- ===== src/Shared/Text.antt =====
-- Texts as the source compares and trims them (Go's `==` on strings and `strings.TrimSpace`).
use mathlib.Core.List.{List, [], ◌∷◌}
use Prim.Native.Nat.{ℕ, ◌+◌}
use Prim.Native.Char.{code}
use Prim.Native.String.{String, ◌++◌ as append}
use mathlib.Core.Path.{◌≡◌, refl, ap, ◌∙◌}
use mathlib.Core.Bool.{Bool, true, false, not, ◌&&◌, ◌||◌}
use text.Mathlib.Text.{◌==◌ as text_eq}
use text.Mathlib.TextPositions.{eq_refl}
use mathlib.Core.Logic.{inl, inr}
use native.Mathlib.Omega.{arith}
use nexusdock.Shared.Tests.{leb, ◌==◌, if◌then◌else◌, Bool-cases}

abbrev pub str_eq : String → String → Bool
str_eq s t = text_eq s t

pub str_eq_refl : (s : String) → str_eq s s ≡ true
str_eq_refl s = eq_refl s

abbrev pub is_empty : String → Bool
is_empty s = str_eq s ""

-- unicode.IsSpace, which is the Unicode property White_Space.
unfoldable pub is_space : ℕ → Bool
is_space c =
    (leb 9 c && leb c 13)
    || c == 0x20
    || c == 0x85
    || c == 0xA0
    || c == 0x1680
    || (leb 0x2000 c && leb c 0x200A)
    || c == 0x2028
    || c == 0x2029
    || c == 0x202F
    || c == 0x205F
    || c == 0x3000

-- `strings.TrimSpace(s) == ""`.
unfoldable pub is_blank : String → Bool
is_blank String.[] = true
is_blank (String.◌∷◌ c s) = is_space (code c) && is_blank s

trim_left : String → String
trim_left String.[] = String.[]
trim_left (String.◌∷◌ c s) = if is_space (code c) then trim_left s else String.◌∷◌ c s

trim_right : String → String
unfolding is_blank
trim_right String.[] = String.[]
trim_right (String.◌∷◌ c s) =
    if is_space (code c) && is_blank s then String.[] else String.◌∷◌ c (trim_right s)

-- strings.TrimSpace.
unfoldable pub trim_space : String → String
unfolding trim_left trim_right
trim_space s = trim_right (trim_left s)

is_blank-trim_right : (s : String) → is_blank (trim_right s) ≡ is_blank s
unfolding is_blank trim_right
is_blank-trim_right String.[] = refl
is_blank-trim_right (String.◌∷◌ c s) = elim (Bool-cases (is_space (code c) && is_blank s)) [
  | inl e ↦ rw e refl
  | inr e ↦ rw (e, is_blank-trim_right s) e
]

trim_right_idem : (s : String) → trim_right (trim_right s) ≡ trim_right s
unfolding trim_right
trim_right_idem String.[] = refl
trim_right_idem (String.◌∷◌ c s) = elim (Bool-cases (is_space (code c) && is_blank s)) [
  | inl e ↦ rw e refl
  | inr e ↦ rw (e, is_blank-trim_right s, e, trim_right_idem s) refl
]

trim_left-trim_right :
    (s : String) → trim_left (trim_right (trim_left s)) ≡ trim_right (trim_left s)
unfolding trim_left trim_right
trim_left-trim_right String.[] = refl
trim_left-trim_right (String.◌∷◌ c s) = ground (arith, trim_left-trim_right s)

-- Trimming twice is trimming once.
pub trim_space_idem : (s : String) → trim_space (trim_space s) ≡ trim_space s
unfolding trim_space
trim_space_idem s = ap trim_right (trim_left-trim_right s) ∙ trim_right_idem (trim_left s)

trim_space_runs : trim_space "  a b \n" ≡ "a b"
unfolding trim_space is_space
trim_space_runs = refl

-- The concatenation of two texts.
abbrev pub text_append : String → String → String
text_append s t = append s t

-- No character is white space.
abbrev pub is_word : String → Bool
is_word String.[] = true
is_word (String.◌∷◌ c s) = not (is_space (code c)) && is_word s

is_word-trim_right : (s : String) → is_word s ≡ true → trim_right s ≡ s
unfolding trim_right
is_word-trim_right String.[] h = refl
is_word-trim_right (String.◌∷◌ c s) h = ground (arith, h, is_word-trim_right s)

is_word-trim_left : (s : String) → is_word s ≡ true → trim_left s ≡ s
unfolding trim_left
is_word-trim_left String.[] h = refl
is_word-trim_left (String.◌∷◌ c s) h = ground (arith, h)

-- A text without white space is trimmed already.
pub is_word-trim_space : (s : String) → is_word s ≡ true → trim_space s ≡ s
unfolding trim_space
is_word-trim_space s h = rw (is_word-trim_left s h, is_word-trim_right s h) refl

-- The code points of a text.
abbrev pub codes : String → List ℕ
codes String.[] = []
codes (String.◌∷◌ c s) = code c ∷ codes s

-- unicode.ToLower as far as a test against lower case ASCII sees it: the other characters that it
-- maps do not become ASCII.
abbrev pub lower : ℕ → ℕ
lower c =
    if leb b'A' c && leb c b'Z'
    then c + 32
    else if c == 0x130
    then b'i'
    else if c == 0x212A
    then b'k'
    else c

-- strings.ToLower(s) == t.
unfoldable pub lowers_to : String → String → Bool
lowers_to String.[] String.[] = true
lowers_to (String.◌∷◌ c s) (String.◌∷◌ d t) = lower (code c) == code d && lowers_to s t
lowers_to _ _ = false
