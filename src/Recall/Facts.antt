-- ===== src/Recall/Facts.antt =====
-- internal/recall/edit.go: UpdateMarkdownFacts.
use nexusdock.Shared.{
  ℕ, suc, ltb, leb, ◌==◌, List, [], ◌∷◌, ◌++◌, Option, none, some, Bool, true, false, ◌&&◌, ◌||◌,
  not, any, take, drop, if◌then◌else◌,
}
use nexusdock.Continuation.Types.{invalid, Result, ok, err}
use nexusdock.Sessions.Listing.{sort_by}
use nexusdock.Recall.Lines.{
  newline, chars_eq, is_null, trim, split_lines, join_lines, cut_prefix, starts_with,
}
use nexusdock.Recall.Sections.{heading_of, ensure_trailing_newline}

-- The full-width colon.
abbrev pub wide_colon : ℕ
wide_colon = 0xFF1A

-- strings.TrimPrefix(s, "- ").
abbrev pub without_bullet : List ℕ → List ℕ
without_bullet s = elim (cut_prefix (b'-' ∷ b' ' ∷ []) s) [ none ↦ s | some r ↦ r ]

-- lineLooksLikeFact.
unfoldable pub line_looks_like_fact : List ℕ → List ℕ → Bool
line_looks_like_fact line key =
    let trimmed = without_bullet (trim line) in
    starts_with (key ++ wide_colon ∷ []) trimmed
    || starts_with (key ++ b':' ∷ []) trimmed
    || starts_with (key ++ b' ' ∷ b'=' ∷ []) trimmed
    || starts_with (key ++ b'=' ∷ []) trimmed

abbrev pub shift : ℕ → Option (List ℕ × List ℕ) → Option (List ℕ × List ℕ)
shift c none = none
shift c (some (a, b)) = some (c ∷ a, b)

-- strings.Index: what stands before the first place of the key, and behind it.
unfoldable pub find_key : List ℕ → List ℕ → Option (List ℕ × List ℕ)
find_key key [] = elim (cut_prefix key []) [ some r ↦ some ([], r) | none ↦ none ]
find_key key (c ∷ s) = elim (cut_prefix key (c ∷ s)) [
  | some r ↦ some ([], r)
  | none ↦ shift c (find_key key s)
]

-- The separator that is written again, by what stands behind the key.
abbrev pub separator_of : List ℕ → List ℕ
separator_of rest =
    if starts_with (b':' ∷ []) rest
    then b':' ∷ []
    else if starts_with (b' ' ∷ b'=' ∷ []) rest || starts_with (b'=' ∷ []) rest
    then b' ' ∷ b'=' ∷ b' ' ∷ []
    else wide_colon ∷ []

-- replaceFactValue.
unfoldable pub replace_fact_value : List ℕ → List ℕ → List ℕ → List ℕ
replace_fact_value line key value = elim (find_key key line) [
  | none ↦ line
  | some p ↦ p.0 ++ (key ++ (separator_of p.1 ++ value))
]

-- The state of the loop: whether the line is in the section, the level of that section, and the
-- number of lines up to its last heading; `none` before one was found.
pub record FactScan : Type 0 where
  pub inside : Bool
  pub level : ℕ
  pub after : Option ℕ

-- A heading opens the section, or it ends it, or it leaves it; and whether it opened it.
unfoldable pub see_heading : List ℕ → ℕ → Option (ℕ × List ℕ) → FactScan → FactScan × Bool
see_heading section count none s = (s, false)
see_heading section count (some (level, name)) s =
    if is_null section
    then (s, false)
    else if chars_eq name section
    then (record { inside = true; level = level; after = some (suc count) }, true)
    else if s.inside && leb level s.level
    then (record s { inside = false }, false)
    else (s, false)

pub data FactOutcome : Type 0 where
  replaced : List (List ℕ) → Bool → FactOutcome
  missing : Option ℕ → FactOutcome

abbrev pub keep_line : List ℕ → FactOutcome → FactOutcome
keep_line l (replaced ls changed) = replaced (l ∷ ls) changed
keep_line l (missing after) = missing after

-- The loop over the lines; `count` of them are behind it.
unfoldable pub scan_facts : List ℕ → List ℕ → List ℕ → ℕ → FactScan → List (List ℕ) → FactOutcome
scan_facts section key value count s [] = missing s.after
scan_facts section key value count s (l ∷ ls) =
    let seen = see_heading section count (heading_of l) s in
    let rest = keep_line l (scan_facts section key value (suc count) seen.0 ls) in
    let updated = replace_fact_value l key value in
    if not seen.1 && seen.0.inside && line_looks_like_fact l key
    then replaced (updated ∷ ls) (not (chars_eq updated l))
    else rest

-- A fact that no line has is added behind the heading of the section, or at the end.
unfoldable pub add_fact : List ℕ → List ℕ → List ℕ → Option ℕ → List ℕ
add_fact content key value none =
    ensure_trailing_newline content ++ (key ++ wide_colon ∷ value ++ newline ∷ [])
add_fact content key value (some n) =
    join_lines
      (take n (split_lines content) ++ (key ++ wide_colon ∷ value) ∷ drop n (split_lines content))

-- The new content, whether the fact is there, and whether the content changed.
unfoldable pub settle_fact : List ℕ → List ℕ → List ℕ → Bool → FactOutcome → List ℕ × Bool × Bool
settle_fact content key value append (replaced ls changed) = (join_lines ls, true, changed)
settle_fact content key value append (missing after) =
    if append then (add_fact content key value after, true, true) else (content, false, false)

unfoldable pub update_markdown_fact_line :
    List ℕ → List ℕ → List ℕ → List ℕ → Bool → List ℕ × Bool × Bool
update_markdown_fact_line content section key value append =
    let start : FactScan = record { inside = is_null (trim section); level = 0; after = none } in
    settle_fact content (trim key) value append
      (scan_facts (trim section) (trim key) value 0 start (split_lines content))

pub record FactUpdate : Type 0 where
  pub key : List ℕ
  pub value : List ℕ
  pub found : Bool
  pub changed : Bool

unfoldable pub chars_less : List ℕ → List ℕ → Bool
chars_less s [] = false
chars_less [] (d ∷ t) = true
chars_less (c ∷ s) (d ∷ t) = ltb c d || (c == d && chars_less s t)

abbrev pub by_key : List ℕ × List ℕ → List ℕ × List ℕ → Bool
by_key a b = chars_less a.0 b.0

unfoldable pub update_each :
    List ℕ → List ℕ → Bool → List (List ℕ × List ℕ) → List ℕ × List FactUpdate
update_each content section append [] = (content, [])
update_each content section append ((key, value) ∷ facts) =
    let r = update_markdown_fact_line content section key value append in
    let rest = update_each r.0 section append facts in
    (rest.0, record { key = key; value = value; found = r.1; changed = r.2 } ∷ rest.1)

-- The facts are those of a map: each key is there once.
unfoldable pub update_markdown_facts :
    List ℕ → List ℕ → List (List ℕ × List ℕ) → Bool → Result (List ℕ × List FactUpdate)
update_markdown_facts content section facts append =
    let r = update_each content section append (sort_by by_key facts) in
    if is_null facts
    then err invalid
    else if any (λ u. not u.found) r.1 && not append
    then err invalid
    else ok r
