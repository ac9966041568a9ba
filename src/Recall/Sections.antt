-- ===== src/Recall/Sections.antt =====
-- internal/recall/edit.go: replaceMarkdownSection and ApplyMarkdownPatch.
use nexusdock.Shared.{
  ℕ, suc, ◌+◌, leb, ltb, ◌==◌, List, [], ◌∷◌, ◌++◌, Option, none, some, Bool, false, ◌&&◌, ◌||◌,
  not, if◌then◌else◌,
}
use nexusdock.Continuation.Types.{invalid, Result, ok, err, ◌>>=◌}
use nexusdock.Recall.Lines.{
  newline, chars_eq, is_null, all_space, trim, split_lines, join_lines, replace_from, count_from,
  trim_newlines,
}

-- `\s` of the expression for a heading.
abbrev pub is_blank_char : ℕ → Bool
is_blank_char c = c == 9 || c == 10 || c == 12 || c == 13 || c == 32

abbrev pub hashes : List ℕ → ℕ
hashes [] = 0
hashes (c ∷ s) = if c == b'#' then suc (hashes s) else 0

abbrev pub after_hashes : List ℕ → List ℕ
after_hashes [] = []
after_hashes (c ∷ s) = if c == b'#' then after_hashes s else c ∷ s

abbrev pub blanks : List ℕ → ℕ
blanks [] = 0
blanks (c ∷ s) = if is_blank_char c then suc (blanks s) else 0

abbrev pub after_blanks : List ℕ → List ℕ
after_blanks [] = []
after_blanks (c ∷ s) = if is_blank_char c then after_blanks s else c ∷ s

-- ^(#{1,6})\s+(.+?)\s*$ on a line: the level and the trimmed name. When all that follows the
-- hashes is blank, the expression gives the last blank character to the name.
unfoldable pub heading_of : List ℕ → Option (ℕ × List ℕ)
heading_of line =
    let level = hashes line in
    let rest = after_hashes line in
    let name = after_blanks rest in
    if not (leb 1 level && leb level 6)
    then none
    else if is_null name
    then (if ltb 1 (blanks rest) then some (level, []) else none)
    else if leb 1 (blanks rest)
    then some (level, trim name)
    else none

abbrev pub named : List ℕ → Option (ℕ × List ℕ) → Option ℕ
named name none = none
named name (some h) = if chars_eq h.1 name then some h.0 else none

-- The lines before the heading, the heading with its level, and the lines behind it.
pub record Found : Type 0 where
  pub before : List (List ℕ)
  pub title : List ℕ
  pub level : ℕ
  pub behind : List (List ℕ)

abbrev pub put_before : List ℕ → Option Found → Option Found
put_before l none = none
put_before l (some f) = some (record f { before = l ∷ f.before })

-- The first loop: the first heading with the name.
unfoldable pub find_section : List ℕ → List (List ℕ) → Option Found
find_section name [] = none
find_section name (l ∷ ls) = elim (named name (heading_of l)) [
  | some n ↦ some (record { before = []; title = l; level = n; behind = ls })
  | none ↦ put_before l (find_section name ls)
]

abbrev pub ends_section : ℕ → List ℕ → Bool
ends_section level l = elim (heading_of l) [ none ↦ false | some h ↦ leb h.0 level ]

-- The second loop: the lines from the first heading of the same level or a higher one.
unfoldable pub after_section : ℕ → List (List ℕ) → List (List ℕ)
after_section level [] = []
after_section level (l ∷ ls) = if ends_section level l then l ∷ ls else after_section level ls

abbrev pub section_lines : List ℕ → List (List ℕ)
section_lines content = if all_space content then [] else split_lines (trim_newlines content)

unfoldable pub replace_markdown_section : List ℕ → List ℕ → List ℕ → Result (List ℕ)
replace_markdown_section content heading section =
    elim (find_section (trim heading) (split_lines content)) [
      | none ↦ err invalid
      | some f ↦ ok (
          join_lines
            (f.before ++ f.title ∷ (section_lines section ++ after_section f.level f.behind)))
    ]

abbrev pub ends_with_newline : List ℕ → Bool
ends_with_newline [] = false
ends_with_newline (c ∷ []) = c == newline
ends_with_newline (c ∷ d ∷ s) = ends_with_newline (d ∷ s)

-- ensureTrailingNewline.
unfoldable pub ensure_trailing_newline : List ℕ → List ℕ
ensure_trailing_newline s = if is_null s || ends_with_newline s then s else s ++ newline ∷ []

pub record MarkdownPatch : Type 0 where
  pub old : List ℕ
  pub replacement : List ℕ
  pub section : List ℕ
  pub section_content : List ℕ
  pub append_text : List ℕ

-- The literal replacement, with the number of places.
unfoldable pub replace_literal : MarkdownPatch → List ℕ → Result (List ℕ × ℕ)
replace_literal p content =
    if is_null p.old
    then ok (content, 0)
    else if count_from p.old 0 content == 0
    then err invalid
    else ok (replace_from p.old p.replacement 0 content, count_from p.old 0 content)

unfoldable pub replace_named : MarkdownPatch → List ℕ × ℕ → Result (List ℕ × ℕ)
replace_named p (current, changes) =
    if all_space p.section
    then ok (current, changes)
    else replace_markdown_section current p.section p.section_content >>= λ updated.
        ok (updated, changes + 1)

unfoldable pub append_to : MarkdownPatch → List ℕ × ℕ → List ℕ × ℕ
append_to p (current, changes) =
    if is_null p.append_text
    then (current, changes)
    else (ensure_trailing_newline current ++ p.append_text, changes + 1)

-- An empty patch is refused.
unfoldable pub apply_markdown_patch : List ℕ → MarkdownPatch → Result (List ℕ × ℕ)
apply_markdown_patch content p = replace_literal p content >>= λ a. replace_named p a >>= λ b.
    if is_null p.old && all_space p.section && is_null p.append_text
    then err invalid
    else ok (append_to p b)
