-- ===== src/Recall/Lines.antt =====
-- internal/recall/edit.go: texts as lists of characters, their lines (strings.Split and
-- strings.Join at a newline), and the Go library calls of the edits. The source works on bytes;
-- on valid UTF-8 the searches find the same places.
use nexusdock.Shared.{
  ℕ, zero, suc, ◌-◌, ◌≡◌, refl, sym, ap, subst, ◌∙◌, is_space, ◌==◌, List, [], ◌∷◌, ◌++◌, Option,
  none, some, Bool, true, false, ◌&&◌, length, All, if◌then◌else◌, arith, Bool-cases, inl, inr,
}

abbrev pub newline : ℕ
newline = 10

unfoldable pub chars_eq : List ℕ → List ℕ → Bool
chars_eq [] [] = true
chars_eq (c ∷ s) (d ∷ t) = c == d && chars_eq s t
chars_eq _ _ = false

abbrev pub is_null {ℓ} : {A : Type ℓ} → List A → Bool
is_null [] = true
is_null (x ∷ l) = false

-- strings.TrimSpace(s) == "".
unfoldable pub all_space : List ℕ → Bool
all_space [] = true
all_space (c ∷ s) = is_space c && all_space s

unfoldable pub trim_start : List ℕ → List ℕ
trim_start [] = []
trim_start (c ∷ s) = if is_space c then trim_start s else c ∷ s

unfoldable pub trim_end : List ℕ → List ℕ
trim_end [] = []
trim_end (c ∷ s) = if is_space c && all_space s then [] else c ∷ trim_end s

-- strings.TrimSpace.
unfoldable pub trim : List ℕ → List ℕ
trim s = trim_end (trim_start s)

-- A character in front of the first line.
abbrev pub extend : ℕ → List (List ℕ) → List (List ℕ)
extend c [] = (c ∷ []) ∷ []
extend c (l ∷ ls) = (c ∷ l) ∷ ls

-- strings.Split(s, "\n"); the result has one line at least.
unfoldable pub split_lines : List ℕ → List (List ℕ)
split_lines [] = [] ∷ []
split_lines (c ∷ s) = let rest = split_lines s in if c == newline then [] ∷ rest else extend c rest

-- strings.Join(lines, "\n").
unfoldable pub join_lines : List (List ℕ) → List ℕ
join_lines [] = []
join_lines (l ∷ []) = l
join_lines (l ∷ m ∷ ls) = l ++ newline ∷ join_lines (m ∷ ls)

-- What a text starts with, and the rest behind it.
unfoldable pub cut_prefix : List ℕ → List ℕ → Option (List ℕ)
cut_prefix [] s = some s
cut_prefix (d ∷ p) [] = none
cut_prefix (d ∷ p) (c ∷ s) = if c == d then cut_prefix p s else none

abbrev pub starts_with : List ℕ → List ℕ → Bool
starts_with p s = elim (cut_prefix p s) [ none ↦ false | some r ↦ true ]

-- strings.ReplaceAll; the number counts the characters of a match that are still to be skipped.
unfoldable pub replace_from : List ℕ → List ℕ → ℕ → List ℕ → List ℕ
replace_from old new n [] = []
replace_from old new (suc n) (c ∷ s) = replace_from old new n s
replace_from old new zero (c ∷ s) = elim (starts_with old (c ∷ s)) [
  | true ↦ new ++ replace_from old new (length old - 1) s
  | false ↦ c ∷ replace_from old new zero s
]

-- strings.Count.
unfoldable pub count_from : List ℕ → ℕ → List ℕ → ℕ
count_from old n [] = 0
count_from old (suc n) (c ∷ s) = count_from old n s
count_from old zero (c ∷ s) = elim (starts_with old (c ∷ s)) [
  | true ↦ suc (count_from old (length old - 1) s)
  | false ↦ count_from old zero s
]

-- strings.Trim(s, "\n").
unfoldable pub drop_newlines : List ℕ → List ℕ
drop_newlines [] = []
drop_newlines (c ∷ s) = if c == newline then drop_newlines s else c ∷ s

abbrev pub keep_unless_empty : ℕ → List ℕ → List ℕ
keep_unless_empty c [] = if c == newline then [] else c ∷ []
keep_unless_empty c (d ∷ s) = c ∷ d ∷ s

unfoldable pub drop_last_newlines : List ℕ → List ℕ
drop_last_newlines [] = []
drop_last_newlines (c ∷ s) = keep_unless_empty c (drop_last_newlines s)

abbrev pub trim_newlines : List ℕ → List ℕ
trim_newlines s = drop_last_newlines (drop_newlines s)

-- A text has a first line.
pub split_lines-some : (s : List ℕ) → (l : List ℕ) × (ls : List (List ℕ)) × (split_lines s ≡ l ∷ ls)
unfolding split_lines
split_lines-some [] = ([], [], refl)
split_lines-some (c ∷ s) = elim (Bool-cases (c == newline)) [
  | inl e ↦ ([], split_lines s, rw e refl)
  | inr e ↦ let (l, ls, h) = split_lines-some s in (c ∷ l, ls, rw (e, h) refl)
]

join_lines-extend :
    (c : ℕ) (l : List ℕ) (ls : List (List ℕ))
    → join_lines (extend c (l ∷ ls)) ≡ c ∷ join_lines (l ∷ ls)
unfolding join_lines
join_lines-extend c l [] = refl
join_lines-extend c l (m ∷ ls) = refl

join_lines-nil :
    (l : List ℕ) (ls : List (List ℕ)) → join_lines ([] ∷ l ∷ ls) ≡ newline ∷ join_lines (l ∷ ls)
unfolding join_lines
join_lines-nil l ls = refl

-- Joining the lines of a text gives the text.
pub join_lines-split_lines : (s : List ℕ) → join_lines (split_lines s) ≡ s
unfolding split_lines join_lines
join_lines-split_lines [] = refl
join_lines-split_lines (c ∷ s) =
    let (l, ls, h) = split_lines-some s in
    let ih : join_lines (l ∷ ls) ≡ s = ap join_lines (sym h) ∙ join_lines-split_lines s in
    elim (Bool-cases (c == newline)) [
      | inl e ↦
          let same : c ≡ newline = ground (arith, e) in
          rw (e, h, join_lines-nil l ls, ih, same) refl
      | inr e ↦ rw (e, h, join_lines-extend c l ls, ih) refl
    ]

abbrev pub HasNoNewline : List ℕ → Type 0
HasNoNewline l = All (λ c. (c == newline) ≡ false) l

split_lines-word : (l : List ℕ) → HasNoNewline l → split_lines l ≡ l ∷ []
unfolding split_lines
split_lines-word [] a = refl
split_lines-word (c ∷ l) a = rw (a.0, split_lines-word l a.1) refl

split_lines-append :
    (l s : List ℕ) → HasNoNewline l → split_lines (l ++ newline ∷ s) ≡ l ∷ split_lines s
unfolding split_lines
split_lines-append [] s a = refl
split_lines-append (c ∷ l) s a = rw (a.0, split_lines-append l s a.1) refl

-- Lines that have no newline are those of the text that they join to.
pub split_lines-join_lines :
    (l : List ℕ) (ls : List (List ℕ))
    → HasNoNewline l
    → All HasNoNewline ls
    → split_lines (join_lines (l ∷ ls)) ≡ l ∷ ls
unfolding join_lines
split_lines-join_lines l [] a b = split_lines-word l a
split_lines-join_lines l (m ∷ ls) a b =
    split_lines-append l (join_lines (m ∷ ls)) a
    ∙ ap (λ r. l ∷ r) (split_lines-join_lines m ls b.0 b.1)

-- The lines of a text have no newline.
pub split_lines-HasNoNewline : (s : List ℕ) → All HasNoNewline (split_lines s)
unfolding split_lines
split_lines-HasNoNewline [] = (tt, tt)
split_lines-HasNoNewline (c ∷ s) = elim (Bool-cases (c == newline)) [
  | inl e ↦ rw e (tt, split_lines-HasNoNewline s)
  | inr e ↦
      let (l, ls, h) = split_lines-some s in
      let a : All HasNoNewline (l ∷ ls) = subst (All HasNoNewline) h (split_lines-HasNoNewline s) in
      rw (e, h) ((e, a.0), a.1)
]
