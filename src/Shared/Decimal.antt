-- ===== src/Shared/Decimal.antt =====
-- Numbers in decimal: what `%d` prints, and what strconv.Atoi reads.
use Prim.Native.Nat.{ℕ, zero, suc, ◌+◌, ◌*◌, ◌-◌, ◌/◌, ◌%◌, ◌<◌}
use Prim.Native.Char.{code}
use Prim.Native.String.{String, ◌++◌ as append}
use mathlib.Core.Path.{◌≡◌, refl}
use mathlib.Core.Bool.{Bool, true, ◌&&◌}
use mathlib.Core.Option.{Option, none, some}
use mathlib.Core.Logic.{inl, inr}
use text.Mathlib.TextLemmas.{nil-append, cons-append}
use native.Mathlib.Omega.{arith}
use nexusdock.Shared.Tests.{leb, ltb, if◌then◌else◌, Bool-cases}
use nexusdock.Shared.Text.{is_space, is_word}

digit : ℕ → String
digit zero = "0"
digit (suc zero) = "1"
digit (suc (suc zero)) = "2"
digit (suc (suc (suc zero))) = "3"
digit (suc (suc (suc (suc zero)))) = "4"
digit (suc (suc (suc (suc (suc zero))))) = "5"
digit (suc (suc (suc (suc (suc (suc zero)))))) = "6"
digit (suc (suc (suc (suc (suc (suc (suc zero))))))) = "7"
digit (suc (suc (suc (suc (suc (suc (suc (suc zero)))))))) = "8"
digit _ = "9"

digits_from : ℕ → ℕ → String
unfolding digit
digits_from zero n = ""
digits_from (suc fuel) n =
    let rest = digits_from fuel (n / 10) in
    if ltb n 10 then digit n else append rest (digit (n % 10))

-- A number in decimal, as `%d` prints it; the fuel `n + 1` is more than its digits.
unfoldable pub decimal : ℕ → String
unfolding digits_from
decimal n = digits_from (n + 1) n

decimal_runs : decimal 4070 ≡ "4070"
unfolding decimal
decimal_runs = refl

abbrev pub is_digit : ℕ → Bool
is_digit c = leb b'0' c && leb c b'9'

-- The number that digits spell behind `a`; `none` when a character is no digit.
unfoldable pub digits_value : ℕ → String → Option ℕ
digits_value a String.[] = some a
digits_value a (String.◌∷◌ c s) =
    let rest = digits_value (a * 10 + (code c - b'0')) s in if is_digit (code c) then rest else none

digits_value-digit : (a n : ℕ) → n < 10 → digits_value a (digit n) ≡ some (a * 10 + n)
unfolding digits_value digit
digits_value-digit a zero h = ground arith
digits_value-digit a (suc zero) h = ground arith
digits_value-digit a (suc (suc zero)) h = ground arith
digits_value-digit a (suc (suc (suc zero))) h = ground arith
digits_value-digit a (suc (suc (suc (suc zero)))) h = ground arith
digits_value-digit a (suc (suc (suc (suc (suc zero))))) h = ground arith
digits_value-digit a (suc (suc (suc (suc (suc (suc zero)))))) h = ground arith
digits_value-digit a (suc (suc (suc (suc (suc (suc (suc zero))))))) h = ground arith
digits_value-digit a (suc (suc (suc (suc (suc (suc (suc (suc zero)))))))) h = ground arith
digits_value-digit a (suc (suc (suc (suc (suc (suc (suc (suc (suc n))))))))) h =
    let e : n ≡ 0 = omega (arith, h) in rw e refl

digits_value-append :
    (a b : ℕ) (s t : String)
    → digits_value a s ≡ some b
    → digits_value a (append s t) ≡ digits_value b t
unfolding digits_value
digits_value-append a b String.[] t h =
    let e : a ≡ b = ground (arith, h) in rw (e, nil-append t) refl
digits_value-append a b (String.◌∷◌ c s) t h =
    ground (arith, h, cons-append c s t, digits_value-append (a * 10 + (code c - b'0')) b s t)

digits_value-digits_from : (fuel n : ℕ) → n < fuel → digits_value 0 (digits_from fuel n) ≡ some n
unfolding digits_from
digits_value-digits_from zero n h = absurd (omega arith)
digits_value-digits_from (suc fuel) n h = elim (Bool-cases (ltb n 10)) [
  | inl e ↦ rw (e, digits_value-digit 0 n (ground (arith, e))) (ground arith)
  | inr e ↦
      rw
        (
          e,
          digits_value-append 0 (n / 10) (digits_from fuel (n / 10)) (digit (n % 10))
              (digits_value-digits_from fuel (n / 10) (ground (arith, e))),
          digits_value-digit (n / 10) (n % 10) (omega arith),
        )
        (ground arith)
]

-- Reading the decimal print of a number gives the number.
pub digits_value-decimal : (n : ℕ) → digits_value 0 (decimal n) ≡ some n
unfolding decimal
digits_value-decimal n = digits_value-digits_from (n + 1) n (omega arith)

-- What reads as a number has no white space.
pub digits_value-is_word : (a b : ℕ) (s : String) → digits_value a s ≡ some b → is_word s ≡ true
unfolding digits_value is_space
digits_value-is_word a b String.[] h = refl
digits_value-is_word a b (String.◌∷◌ c s) h =
    ground (arith, h, digits_value-is_word (a * 10 + (code c - b'0')) b s)
