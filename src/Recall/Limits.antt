-- ===== src/Recall/Limits.antt =====
-- edit.go, UnifiedDiff: the limit on the length of a diff.
use nexusdock.Shared.{ℕ, ◌-◌, ◌≤◌, ltb, leb, List, [], ◌∷◌, arith, Bool-cases, inl, inr}
use nexusdock.Recall.Records.{char_bytes, bytes_of}
use nexusdock.Recall.Lines.{chars_eq, split_lines}
use nexusdock.Recall.Diffs.{
  Hunk, write_lines, write_changes, truncate_utf8, hunk_header, fits, write_hunk, unified_hunk,
  unified_diff,
}

truncate_utf8-le : (limit : ℕ) (s : List ℕ) → bytes_of (truncate_utf8 limit s) ≤ limit
unfolding truncate_utf8
truncate_utf8-le limit [] = omega arith
truncate_utf8-le limit (c ∷ s) = elim (Bool-cases (leb (char_bytes c) limit)) [
  | inl e ↦ rw e (ground (arith, e, truncate_utf8-le (limit - char_bytes c) s))
  | inr e ↦ rw e (omega arith)
]

fits-le : (limit : ℕ) (s : List ℕ) → 1 ≤ limit → bytes_of (fits limit s) ≤ limit
fits-le limit s h = elim (Bool-cases (ltb limit (bytes_of s))) [
  | inl e ↦ ground (arith, e, h, truncate_utf8-le limit s)
  | inr e ↦ ground (arith, e, h)
]

write_hunk-le :
    (limit : ℕ) (path : List ℕ) (h : Hunk) → 1 ≤ limit → bytes_of (write_hunk limit path h) ≤ limit
unfolding write_hunk
write_hunk-le limit path h p =
    let a = write_changes limit (write_lines (hunk_header path h) h.leading) h.removals in
    let b = write_changes limit a.0 h.additions in
    elim (Bool-cases a.1) [
      | inl e ↦ rw e (truncate_utf8-le limit a.0)
      | inr e ↦ elim (Bool-cases b.1) [
        | inl f ↦ rw (e, f) (truncate_utf8-le limit b.0)
        | inr f ↦ rw (e, f) (fits-le limit (write_lines b.0 h.trailing) p)
      ]
    ]

-- With a limit of one byte or more, a diff has at most that many bytes.
pub unified_diff-le :
    (path old new : List ℕ) (limit : ℕ)
    → 1 ≤ limit
    → bytes_of (unified_diff path old new limit) ≤ limit
unfolding unified_diff
unified_diff-le path old new limit h = elim (Bool-cases (chars_eq old new)) [
  | inl e ↦ rw e (omega arith)
  | inr e ↦ rw e (write_hunk-le limit path (unified_hunk (split_lines old) (split_lines new)) h)
]
