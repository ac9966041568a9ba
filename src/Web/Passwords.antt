-- ===== src/Web/Passwords.antt =====
-- internal/auth/web.go: VerifyPassword. Argon2, base64 and fmt.Sscanf are parameters.
use nexusdock.Shared.{
  ℕ, ◌*◌, ltb, ◌==◌, String, codes, List, [], ◌∷◌, Option, none, some, Bool, true, false, ◌&&◌,
  ◌||◌, not, length, if◌then◌else◌,
}

-- What the code takes from the libraries: SHA-256 as hexadecimal text; strings.ToLower; Sscanf with
-- "m=%d,t=%d,p=%d"; base64 without padding; argon2.IDKey of a secret, a salt, the iterations, the
-- memory, the parallelism and the length; the text that deriveCSRF makes of HMAC.
pub record WebLibrary : Type 0 where
  pub digest : String → String
  pub to_lower : String → String
  pub scan_costs : List ℕ → Option (ℕ × ℕ × ℕ)
  pub decode_base64 : List ℕ → Option (List ℕ)
  pub id_key : String → List ℕ → ℕ → ℕ → ℕ → ℕ → List ℕ
  pub derive_csrf : String → String → String

abbrev pub same_codes : List ℕ → List ℕ → Bool
same_codes [] [] = true
same_codes (c ∷ s) (d ∷ t) = c == d && same_codes s t
same_codes _ _ = false

abbrev prepend_char : ℕ → List (List ℕ) → List (List ℕ)
prepend_char c [] = (c ∷ []) ∷ []
prepend_char c (l ∷ ls) = (c ∷ l) ∷ ls

-- strings.Split(s, "$").
abbrev split_dollars : List ℕ → List (List ℕ)
split_dollars [] = [] ∷ []
split_dollars (c ∷ s) =
    let rest = split_dollars s in if c == b'$' then [] ∷ rest else prepend_char c rest

abbrev costs_allowed : ℕ × ℕ × ℕ → Bool
costs_allowed (memory, iterations, parallelism) = not (
    ltb memory (8 * 1024)
    || ltb (1024 * 1024) memory
    || ltb iterations 1
    || ltb 20 iterations
    || ltb parallelism 1
    || ltb 32 parallelism)

-- What DecodeString gave, within the bounds of its length.
abbrev within : ℕ → ℕ → Option (List ℕ) → Option (List ℕ)
within low high none = none
within low high (some b) = if ltb (length b) low || ltb high (length b) then none else some b

abbrev key_matches : WebLibrary → String → ℕ × ℕ × ℕ → Option (List ℕ) → Option (List ℕ) → Bool
key_matches p secret (memory, iterations, parallelism) (some salt) (some want) =
    same_codes (p.id_key secret salt iterations memory parallelism (length want)) want
key_matches p secret costs _ _ = false

abbrev costs_match : WebLibrary → String → Option (ℕ × ℕ × ℕ) → List ℕ → List ℕ → Bool
costs_match p secret none salt want = false
costs_match p secret (some costs) salt want =
    costs_allowed costs
    && key_matches p secret costs (within 8 64 (p.decode_base64 salt))
        (within 16 64 (p.decode_base64 want))

-- The six parts of an encoded password.
abbrev parts_match : WebLibrary → String → List (List ℕ) → Bool
parts_match p secret (before ∷ name ∷ version ∷ costs ∷ salt ∷ want ∷ []) =
    same_codes name (codes "argon2id")
    && same_codes version (codes "v=19")
    && costs_match p secret (p.scan_costs costs) salt want
parts_match p secret _ = false

-- verifyArgon2.
abbrev verify_argon2 : WebLibrary → String → String → Bool
verify_argon2 p secret encoded = parts_match p secret (split_dollars (codes encoded))

abbrev has_prefix : List ℕ → List ℕ → Bool
has_prefix [] s = true
has_prefix (d ∷ q) [] = false
has_prefix (d ∷ q) (c ∷ s) = c == d && has_prefix q s

-- VerifyPassword.
unfoldable pub verify_password : WebLibrary → String → String → Bool
verify_password p secret encoded =
    has_prefix (codes "$argon2id$") (codes encoded) && verify_argon2 p secret encoded
