-- ===== src/Recall/Kept.antt =====
-- edit.go, updateMarkdownFactLine: the lines that an update keeps.
use nexusdock.Shared.{
  ℕ, suc, ◌≡◌, refl, sym, ap, subst, List, [], ◌∷◌, ◌++◌, none, Bool, true, false, ◌&&◌, not, arith,
  Bool-cases, inl, inr,
}
use nexusdock.Recall.Lines.{chars_eq, is_null, trim, split_lines, join_lines}
use nexusdock.Recall.Sections.{heading_of}
use nexusdock.Recall.Facts.{
  line_looks_like_fact, replace_fact_value, FactScan, see_heading, FactOutcome, replaced, missing,
  keep_line, scan_facts, settle_fact, update_markdown_fact_line,
}

-- One line is another one with the new value, and all others are the same.
pub record OneLine (key value : List ℕ) (old new : List (List ℕ)) (changed : Bool) : Type 0 where
  pub before : List (List ℕ)
  pub line : List ℕ
  pub after : List (List ℕ)
  pub old_lines : old ≡ before ++ line ∷ after
  pub new_lines : new ≡ before ++ replace_fact_value line key value ∷ after
  pub fact : line_looks_like_fact line key ≡ true
  pub reported : changed ≡ not (chars_eq (replace_fact_value line key value) line)

Replaced : List ℕ → List ℕ → List (List ℕ) → FactOutcome → Type 0
Replaced key value old (replaced new changed) = OneLine key value old new changed
Replaced key value old (missing after) = Unit

keep_line-Replaced :
    (key value l : List ℕ) (old : List (List ℕ)) (r : FactOutcome)
    → Replaced key value old r
    → Replaced key value (l ∷ old) (keep_line l r)
unfolding Replaced
keep_line-Replaced key value l old (replaced new changed) o = record {
  before = l ∷ o.before;
  line = o.line;
  after = o.after;
  old_lines = ap (λ m. l ∷ m) o.old_lines;
  new_lines = ap (λ m. l ∷ m) o.new_lines;
  fact = o.fact;
  reported = o.reported;
}
keep_line-Replaced key value l old (missing after) o = tt

scan_facts-Replaced :
    (section key value : List ℕ) (count : ℕ) (s : FactScan) (lines : List (List ℕ))
    → Replaced key value lines (scan_facts section key value count s lines)
unfolding scan_facts Replaced
scan_facts-Replaced section key value count s [] = tt
scan_facts-Replaced section key value count s (l ∷ ls) =
    let seen = see_heading section count (heading_of l) s in
    elim (Bool-cases (not seen.1 && seen.0.inside && line_looks_like_fact l key)) [
      | inl e ↦ rw e (record {
        before = [];
        line = l;
        after = ls;
        old_lines = refl;
        new_lines = refl;
        fact = ground (arith, e);
        reported = refl;
      })
      | inr e ↦ rw e (
          keep_line-Replaced key value l ls _
            (scan_facts-Replaced section key value (suc count) seen.0 ls))
    ]

settle_fact-OneLine :
    (content key value : List ℕ) (out : List ℕ) (changed : Bool) (r : FactOutcome)
    → Replaced key value (split_lines content) r
    → settle_fact content key value false r ≡ (out, true, changed)
    → (lines : List (List ℕ)) × (out ≡ join_lines lines)
      × OneLine key value (split_lines content) lines changed
unfolding Replaced settle_fact
settle_fact-OneLine content key value out changed (replaced ls c) o h = (
  ls,
  ap (λ x. x.0) (sym h),
  subst (OneLine key value (split_lines content) ls) (ap (λ x. x.2) h) o,
)
settle_fact-OneLine content key value out changed (missing after) o h =
    let no : false ≡ true = ap (λ x. x.1) h in cc (no)

-- When an update that does not append finds its fact, then one line, which looks like the fact,
-- gets the new value, all other lines stay, and it is reported as changed just when the new line
-- differs from the old one.
pub update-OneLine :
    (content section key value out : List ℕ) (changed : Bool)
    → update_markdown_fact_line content section key value false ≡ (out, true, changed)
    → (lines : List (List ℕ)) × (out ≡ join_lines lines)
      × OneLine (trim key) value (split_lines content) lines changed
unfolding update_markdown_fact_line
update-OneLine content section key value out changed h =
    settle_fact-OneLine content (trim key) value out changed _
      (scan_facts-Replaced (trim section) (trim key) value 0
        (record { inside = is_null (trim section); level = 0; after = none }) (split_lines content))
      h
