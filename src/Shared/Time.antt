-- ===== src/Shared/Time.antt =====
-- Times as the store keeps them (internal/project/store.go, formatTime): RFC 3339 text with
-- nanoseconds, trailing zeros of the fraction left out. Times are nanoseconds of one clock, in
-- the years whose text has four digits for the year.
use Prim.Native.Nat.{ℕ, zero, suc, ◌+◌, ◌/◌, ◌%◌}
use mathlib.Core.Bool.{Bool, true, false, ◌||◌, ◌&&◌}
use mathlib.Core.List.{List, [], ◌∷◌, ◌++◌}
use nexusdock.Shared.Tests.{ltb, ◌==◌, if◌then◌else◌}

abbrev nanos : ℕ
nanos = 1000000000

-- The digits of `f` before the last `k` zeros, the last first, as byte codes.
fraction_digits : ℕ → ℕ → List ℕ
fraction_digits zero f = []
fraction_digits (suc k) f = fraction_digits k (f / 10) ++ (b'0' + f % 10) ∷ []

abbrev drop_zero : ℕ → List ℕ → List ℕ
drop_zero c [] = if c == b'0' then [] else c ∷ []
drop_zero c (d ∷ l) = c ∷ d ∷ l

trim_zeros : List ℕ → List ℕ
trim_zeros [] = []
trim_zeros (c ∷ l) = drop_zero c (trim_zeros l)

-- What follows the seconds in the text: nothing or a fraction, and the letter Z.
fraction_text : ℕ → List ℕ
unfolding fraction_digits trim_zeros
fraction_text f =
    if f == 0 then b'Z' ∷ [] else b'.' ∷ (trim_zeros (fraction_digits 9 f) ++ b'Z' ∷ [])

bytes_before : List ℕ → List ℕ → Bool
bytes_before [] [] = false
bytes_before [] (d ∷ m) = true
bytes_before (c ∷ l) [] = false
bytes_before (c ∷ l) (d ∷ m) = ltb c d || (c == d && bytes_before l m)

-- The order in which SQLite sorts the formatted texts of two times.
unfoldable pub text_before : ℕ → ℕ → Bool
unfolding fraction_text bytes_before
text_before a b =
    ltb (a / nanos) (b / nanos)
    || (a / nanos == b / nanos
        && bytes_before (fraction_text (a % nanos)) (fraction_text (b % nanos)))
