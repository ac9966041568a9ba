-- ===== src/Recall/Diffs.antt =====
-- internal/recall/edit.go: UnifiedDiff. The loop that counts equal lines from the end is the one
-- from the start on what is left of the two texts, read backwards.
use mathlib.Core.List.{reverse}
use nexusdock.Shared.{
  ℕ, suc, ◌+◌, ◌-◌, codes, decimal, ltb, leb, List, [], ◌∷◌, ◌++◌, map, Bool, true, false, ◌&&◌,
  take, drop, length, if◌then◌else◌,
}
use nexusdock.Recall.Records.{char_bytes, bytes_of}
use nexusdock.Recall.Lines.{newline, chars_eq, split_lines}

abbrev pub Lines : Type 0
Lines = List (List ℕ)

-- The number of equal lines that two texts start with.
unfoldable pub common : Lines → Lines → ℕ
common (x ∷ xs) (y ∷ ys) = let rest = common xs ys in if chars_eq x y then suc rest else 0
common _ _ = 0

pub data DiffLine : Type 0 where
  context removed added : List ℕ → DiffLine

-- The hunk: its first line, counted from 0, and the lines that its header counts on either side.
pub record Hunk : Type 0 where
  pub start : ℕ
  pub old_count : ℕ
  pub new_count : ℕ
  pub leading : List DiffLine
  pub removals : List DiffLine
  pub additions : List DiffLine
  pub trailing : List DiffLine

-- Lines a, …, b - 1.
abbrev pub slice : ℕ → ℕ → Lines → Lines
slice a b ls = take (b - a) (drop a ls)

abbrev pub min : ℕ → ℕ → ℕ
min a b = if ltb b a then b else a

abbrev pub context_lines : ℕ
context_lines = 3

abbrev pub suffix_of : ℕ → Lines → Lines → ℕ
suffix_of prefix old new = common (reverse (drop prefix old)) (reverse (drop prefix new))

abbrev pub end_of : ℕ → Lines → ℕ
end_of suffix ls = min (length ls) (length ls - suffix + context_lines)

unfoldable pub hunk_at : ℕ → ℕ → Lines → Lines → Hunk
hunk_at prefix suffix old new = record {
  start = prefix - context_lines;
  old_count = end_of suffix old - (prefix - context_lines);
  new_count = end_of suffix new - (prefix - context_lines);
  leading = map context (slice (prefix - context_lines) prefix old);
  removals = map removed (slice prefix (length old - suffix) old);
  additions = map added (slice prefix (length new - suffix) new);
  trailing = map context (slice (length old - suffix) (end_of suffix old) old);
}

unfoldable pub unified_hunk : Lines → Lines → Hunk
unified_hunk old new = hunk_at (common old new) (suffix_of (common old new) old new) old new

-- A line of the hunk, with its mark.
abbrev pub mark : DiffLine → List ℕ
mark (context l) = b' ' ∷ (l ++ newline ∷ [])
mark (removed l) = b'-' ∷ (l ++ newline ∷ [])
mark (added l) = b'+' ∷ (l ++ newline ∷ [])

unfoldable pub write_lines : List ℕ → List DiffLine → List ℕ
write_lines out [] = out
write_lines out (l ∷ ls) = write_lines (out ++ mark l) ls

-- The lines of a change, until the limit is reached; and whether it was. No limit is 0.
unfoldable pub write_changes : ℕ → List ℕ → List DiffLine → List ℕ × Bool
write_changes limit out [] = (out, false)
write_changes limit out (l ∷ ls) =
    let rest = write_changes limit (out ++ mark l) ls in
    if ltb 0 limit && leb limit (bytes_of (out ++ mark l)) then (out ++ mark l, true) else rest

-- truncateUTF8: the characters whose bytes fit.
unfoldable pub truncate_utf8 : ℕ → List ℕ → List ℕ
truncate_utf8 limit [] = []
truncate_utf8 limit (c ∷ s) =
    let rest = truncate_utf8 (limit - char_bytes c) s in
    if leb (char_bytes c) limit then c ∷ rest else []

unfoldable pub hunk_header : List ℕ → Hunk → List ℕ
hunk_header path h =
    codes "--- "
    ++ path
    ++ newline ∷ codes "+++ "
    ++ path
    ++ newline ∷ codes "@@ -"
    ++ codes (decimal (h.start + 1))
    ++ codes ","
    ++ codes (decimal h.old_count)
    ++ codes " +"
    ++ codes (decimal (h.start + 1))
    ++ codes ","
    ++ codes (decimal h.new_count)
    ++ codes " @@"
    ++ newline ∷ []

abbrev pub fits : ℕ → List ℕ → List ℕ
fits limit out = if ltb 0 limit && ltb limit (bytes_of out) then truncate_utf8 limit out else out

-- What is written of a hunk; the loops over the changes stop at the limit.
unfoldable pub write_hunk : ℕ → List ℕ → Hunk → List ℕ
write_hunk limit path h =
    let a = write_changes limit (write_lines (hunk_header path h) h.leading) h.removals in
    let b = write_changes limit a.0 h.additions in
    if a.1
    then truncate_utf8 limit a.0
    else if b.1
    then truncate_utf8 limit b.0
    else fits limit (write_lines b.0 h.trailing)

unfoldable pub unified_diff : List ℕ → List ℕ → List ℕ → ℕ → List ℕ
unified_diff path old new limit =
    if chars_eq old new
    then []
    else write_hunk limit path (unified_hunk (split_lines old) (split_lines new))
