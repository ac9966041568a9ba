-- ===== src/Projects/Revisions.antt =====
-- internal/project/store.go: revisions as texts (parseRevision, revisionString). An int has 64
-- bits.
use Prim.Native.Nat.{◌^◌}
use Prim.Native.Char.{code}
use nexusdock.Shared.{
  ℕ, zero, suc, ◌-◌, ◌&&◌, String, trim_space, digits_value, leb, ◌==◌, Option, none, some,
  if◌then◌else◌, ℤ, pos, negsuc,
}
use nexusdock.Continuation.Types.{invalid, Result, ok, err}

abbrev pub max_int : ℕ
max_int = 2 ^ 63 - 1

-- What follows the sign is one digit or more.
abbrev pub unsigned : String → Option ℕ
unsigned String.[] = none
unsigned (String.◌∷◌ c s) = digits_value 0 (String.◌∷◌ c s)

abbrev pub negate : ℕ → ℤ
negate zero = pos 0
negate (suc n) = negsuc n

abbrev pub positive : Option ℕ → Option ℤ
positive none = none
positive (some n) = if leb n max_int then some (pos n) else none

abbrev pub negative : Option ℕ → Option ℤ
negative none = none
negative (some n) = if leb n (suc max_int) then some (negate n) else none

-- strconv.Atoi: an optional sign and decimal digits, in the range of an int.
unfoldable pub atoi : String → Option ℤ
unfolding digits_value
atoi String.[] = none
atoi (String.◌∷◌ c s) =
    if code c == b'+'
    then positive (unsigned s)
    else if code c == b'-'
    then negative (unsigned s)
    else positive (unsigned (String.◌∷◌ c s))

-- strings.CutPrefix(value, "rev-"): what follows the prefix.
abbrev pub after_prefix : String → Option String
after_prefix (String.◌∷◌ a (String.◌∷◌ b (String.◌∷◌ c (String.◌∷◌ d s)))) =
    if code a == b'r' && code b == b'e' && code c == b'v' && code d == b'-' then some s else none
after_prefix _ = none

abbrev pub at_least_one : Option ℤ → Result ℕ
at_least_one (some (pos (suc n))) = ok (suc n)
at_least_one _ = err invalid

unfoldable pub parse_revision : String → Result ℕ
parse_revision value = elim (after_prefix (trim_space value)) [
  | none ↦ err invalid
  | some s ↦ at_least_one (atoi s)
]
