-- ===== src/Recall/Replacement.antt =====
-- edit.go, replaceMarkdownSection: what it keeps and what it replaces.
use nexusdock.Shared.{
  ℕ, ◌≡◌, refl, sym, ap, subst, ◌∙◌, List, [], ◌∷◌, ◌++◌, All, none, some, Bool, true, false,
  Bool-cases, Option-cases, some-injective, inl, inr,
}
use nexusdock.Continuation.Types.{ok, err}
use nexusdock.Recall.Lines.{
  all_space, trim, split_lines, join_lines, trim_newlines, HasNoNewline, split_lines-join_lines,
  split_lines-HasNoNewline,
}
use nexusdock.Recall.Sections.{
  heading_of, named, Found, find_section, ends_section, after_section, section_lines,
  replace_markdown_section,
}

-- The lines of the text are those before the heading, the heading, and those behind it, and no
-- line before the heading has the name.
record Finds (name : List ℕ) (lines : List (List ℕ)) (f : Found) : Type 0 where
  split : lines ≡ f.before ++ f.title ∷ f.behind
  title : named name (heading_of f.title) ≡ some f.level
  first : All (λ l. named name (heading_of l) ≡ none) f.before

find_section-Finds :
    (name : List ℕ) (lines : List (List ℕ)) (f : Found)
    → find_section name lines ≡ some f
    → Finds name lines f
unfolding find_section
find_section-Finds name [] f h = cc
find_section-Finds name (l ∷ ls) f h = elim (Option-cases (named name (heading_of l))) [
  | inr (n, e) ↦
      subst (Finds name (l ∷ ls)) (some-injective (rw (e, find_section) at h))
        (record { split = refl; title = e; first = tt })
  | inl e ↦ elim (Option-cases (find_section name ls)) [
    | inl k ↦ cc ((rw (e, find_section, k) at h))
    | inr (g, k) ↦
        let r = find_section-Finds name ls g k in
        subst (Finds name (l ∷ ls)) (some-injective (rw (e, find_section, k) at h))
          (record { split = ap (λ m. l ∷ m) r.split; title = r.title; first = (e, r.first) })
  ]
]

-- The heading is found again before whatever lines.
find_section-again :
    (name : List ℕ) (before : List (List ℕ)) (title : List ℕ) (level : ℕ) (lines : List (List ℕ))
    → named name (heading_of title) ≡ some level
    → All (λ l. named name (heading_of l) ≡ none) before
    → find_section name (before ++ title ∷ lines)
      ≡ some (record { before = before; title = title; level = level; behind = lines })
unfolding find_section
find_section-again name [] title level lines h a = rw (h, find_section) refl
find_section-again name (l ∷ before) title level lines h a =
    rw (find_section, a.0, find_section-again name before title level lines h a.1) refl

-- The lines of a section, and that what follows them starts with a heading that ends it.
abbrev pub starts_outside : ℕ → List (List ℕ) → Bool
starts_outside level [] = true
starts_outside level (l ∷ ls) = ends_section level l

abbrev pub Inside : ℕ → List (List ℕ) → Type 0
Inside level lines = All (λ l. ends_section level l ≡ false) lines

after_section-split :
    (level : ℕ) (lines : List (List ℕ))
    → (body : List (List ℕ)) × (lines ≡ body ++ after_section level lines)
      × Inside level body
      × (starts_outside level (after_section level lines) ≡ true)
unfolding after_section
after_section-split level [] = ([], refl, tt, refl)
after_section-split level (l ∷ ls) = elim (Bool-cases (ends_section level l)) [
  | inl e ↦ rw e ([], refl, tt, e)
  | inr e ↦
      let (body, same, inside, outside) = after_section-split level ls in
      rw e (l ∷ body, ap (λ m. l ∷ m) same, (e, inside), outside)
]

after_section-append :
    (level : ℕ) (body rest : List (List ℕ))
    → Inside level body
    → starts_outside level rest ≡ true
    → after_section level (body ++ rest) ≡ rest
unfolding after_section
after_section-append level [] [] a h = refl
after_section-append level [] (l ∷ rest) a h = rw h refl
after_section-append level (l ∷ body) rest a h =
    rw (a.0) (after_section-append level body rest a.1 h)

module _ {A : Type 0} (P : A → Type 0) where
  All-join : (xs ys : List A) → All P xs → All P ys → All P (xs ++ ys)
  All-join [] ys a b = b
  All-join (x ∷ xs) ys a b = (a.0, All-join xs ys a.1 b)

  All-front : (xs ys : List A) → All P (xs ++ ys) → All P xs
  All-front [] ys a = tt
  All-front (x ∷ xs) ys a = (a.0, All-front xs ys a.1)

  All-back : (xs ys : List A) → All P (xs ++ ys) → All P ys
  All-back [] ys a = a
  All-back (x ∷ xs) ys a = All-back xs ys a.1

split-joined :
    (before : List (List ℕ)) (title : List ℕ) (lines : List (List ℕ))
    → All HasNoNewline (before ++ title ∷ lines)
    → split_lines (join_lines (before ++ title ∷ lines)) ≡ before ++ title ∷ lines
split-joined [] title lines a = split_lines-join_lines title lines a.0 a.1
split-joined (l ∷ before) title lines a = split_lines-join_lines l (before ++ title ∷ lines) a.0 a.1

section_lines-HasNoNewline : (s : List ℕ) → All HasNoNewline (section_lines s)
section_lines-HasNoNewline s = elim (Bool-cases (all_space s)) [
  | inl e ↦ rw e tt
  | inr e ↦ rw e (split_lines-HasNoNewline (trim_newlines s))
]

-- A replacement of the section under a heading: its lines before and after, and what is kept.
pub record Replaces (content heading section out : List ℕ) : Type 0 where
  pub before : List (List ℕ)
  pub title : List ℕ
  pub level : ℕ
  pub body : List (List ℕ)
  pub rest : List (List ℕ)
  pub old : split_lines content ≡ before ++ title ∷ (body ++ rest)
  pub new : split_lines out ≡ before ++ title ∷ (section_lines section ++ rest)
  pub found : named (trim heading) (heading_of title) ≡ some level
  pub first : All (λ l. named (trim heading) (heading_of l) ≡ none) before
  pub inside : Inside level body
  pub outside : starts_outside level rest ≡ true

found-Replaces :
    (content heading section : List ℕ) (f : Found)
    → find_section (trim heading) (split_lines content) ≡ some f
    → Replaces content heading section (
        join_lines
          (f.before ++ f.title ∷ (section_lines section ++ after_section f.level f.behind)))
found-Replaces content heading section f h =
    let r = find_section-Finds (trim heading) (split_lines content) f h in
    let (body, same, inside, outside) = after_section-split f.level f.behind in
    let rest = after_section f.level f.behind in
    let old = r.split ∙ ap (λ m. f.before ++ f.title ∷ m) same in
    let a : All HasNoNewline (f.before ++ f.title ∷ (body ++ rest)) =
      subst (All HasNoNewline) old (split_lines-HasNoNewline content) in
    let b = All-back HasNoNewline f.before (f.title ∷ (body ++ rest)) a in
    record {
      before = f.before;
      title = f.title;
      level = f.level;
      body = body;
      rest = rest;
      old = old;
      new = split-joined f.before f.title (section_lines section ++ rest) (
          All-join HasNoNewline f.before _ (All-front HasNoNewline f.before _ a) (
            b.0,
            All-join HasNoNewline (section_lines section) rest (section_lines-HasNoNewline section)
                (All-back HasNoNewline body rest b.1),
          ));
      found = r.title;
      first = r.first;
      inside = inside;
      outside = outside;
    }

-- When the replacement of a section succeeds, the lines before and including the first heading
-- with the name stay, and so do the lines from the next heading of its level or a higher one; the
-- lines between, none of which is such a heading, become the lines of the new content.
pub replace-Replaces :
    (content heading section out : List ℕ)
    → replace_markdown_section content heading section ≡ ok out
    → Replaces content heading section out
unfolding replace_markdown_section
replace-Replaces content heading section out h =
    elim (Option-cases (find_section (trim heading) (split_lines content))) [
      | inl e ↦ cc ((rw (e, replace_markdown_section) at h))
      | inr (f, e) ↦
          let same =
            ap (λ r. elim r [ ok x ↦ x | err k ↦ out ]) (rw (e, replace_markdown_section) at h) in
          subst (Replaces content heading section) same (found-Replaces content heading section f e)
    ]

-- The replacement in a text whose lines are known.
replace-found :
    (content heading section : List ℕ) (before : List (List ℕ)) (title : List ℕ) (level : ℕ)
    (body rest : List (List ℕ))
    → split_lines content ≡ before ++ title ∷ (body ++ rest)
    → named (trim heading) (heading_of title) ≡ some level
    → All (λ l. named (trim heading) (heading_of l) ≡ none) before
    → Inside level body
    → starts_outside level rest ≡ true
    → replace_markdown_section content heading section
      ≡ ok (join_lines (before ++ title ∷ (section_lines section ++ rest)))
unfolding replace_markdown_section
replace-found content heading section before title level body rest old found first inside outside =
    rw
      (
        old,
        find_section-again (trim heading) before title level (body ++ rest) found first,
        replace_markdown_section,
        after_section-append level body rest inside outside,
      )
      refl

headless-Inside :
    (level : ℕ) (lines : List (List ℕ)) → All (λ l. heading_of l ≡ none) lines → Inside level lines
headless-Inside level [] a = tt
headless-Inside level (l ∷ ls) a = (rw (ends_section, a.0) refl, headless-Inside level ls a.1)

-- When a section was replaced by a text without headings, then replacing it once more gives what
-- the second replacement alone would have given.
pub last_replacement_wins :
    (content heading first second out : List ℕ)
    → replace_markdown_section content heading first ≡ ok out
    → All (λ l. heading_of l ≡ none) (section_lines first)
    → replace_markdown_section out heading second ≡ replace_markdown_section content heading second
last_replacement_wins content heading first second out h a =
    let r = replace-Replaces content heading first out h in
    replace-found out heading second r.before r.title r.level (section_lines first) r.rest r.new
      r.found r.first (headless-Inside r.level (section_lines first) a) r.outside
    ∙ sym (
        replace-found content heading second r.before r.title r.level r.body r.rest r.old r.found
          r.first r.inside r.outside)
