-- ===== src/Oauth/Packing.antt =====
-- A coding of lists of texts for the examples, in place of the JSON of internal/auth/oauth.go: each
-- character comes behind a "c", and "nn" ends a text.
use Prim.Native.Char.{Char, code}
use nexusdock.Shared.{◌≡◌, refl, ap, ◌∙◌, String, List, [], ◌∷◌, Option, some, ◌==◌, if◌then◌else◌}

pack_text : String → String → String
pack_text String.[] k = String.◌∷◌ "n" (String.◌∷◌ "n" k)
pack_text (String.◌∷◌ c s) k = String.◌∷◌ "c" (String.◌∷◌ c (pack_text s k))

unfoldable pub pack : List String → String
unfolding pack_text
pack [] = ""
pack (x ∷ xs) = pack_text x (pack xs)

push : Char → List String → List String
push c [] = []
push c (x ∷ xs) = String.◌∷◌ c x ∷ xs

unfoldable pub unpack : String → List String
unfolding push
unpack String.[] = []
unpack (String.◌∷◌ t String.[]) = []
unpack (String.◌∷◌ t (String.◌∷◌ c k)) =
    let rest = unpack k in if code t == b'n' then "" ∷ rest else push c rest

unpack-pack_text : (s k : String) → unpack (pack_text s k) ≡ s ∷ unpack k
unfolding unpack pack_text push
unpack-pack_text String.[] k = refl
unpack-pack_text (String.◌∷◌ c s) k = ap (push c) (unpack-pack_text s k)

pub unpack-pack : (xs : List String) → some (unpack (pack xs)) ≡ some xs
unfolding unpack pack
unpack-pack [] = refl
unpack-pack (x ∷ xs) =
    ap some (unpack-pack_text x (pack xs))
    ∙ ap (λ o. elim o [ some ys ↦ some (x ∷ ys) | Option.none ↦ Option.none ]) (unpack-pack xs)
