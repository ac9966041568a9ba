-- ===== src/Recall/Patching.antt =====
-- edit.go, UnifiedDiff: the hunk as a patch.
use mathlib.Core.List.{reverse, reverse-append, reverse-cons, reverse-reverse, append_assoc}
use nexusdock.Shared.{
  ℕ, zero, suc, ◌+◌, ◌-◌, ◌≤◌, ◌≡◌, refl, sym, ap, subst, ◌∙◌, List, [], ◌∷◌, ◌++◌, map, true, take,
  drop, take-drop, length-drop, length-take, length-append, drop-append, length, arith, Bool-cases,
  inl, inr,
}
use nexusdock.Recall.Lines.{chars_eq}
use nexusdock.Recall.Diffs.{
  Lines, common, DiffLine, context, removed, added, Hunk, slice, min, context_lines, suffix_of,
  end_of, hunk_at, unified_hunk,
}

chars_eq-eq : (s t : List ℕ) → chars_eq s t ≡ true → s ≡ t
unfolding chars_eq
chars_eq-eq [] [] h = refl
chars_eq-eq [] (d ∷ t) h = cc
chars_eq-eq (c ∷ s) [] h = cc
chars_eq-eq (c ∷ s) (d ∷ t) h =
    let e : c ≡ d = ground (arith, h) in rw (e, chars_eq-eq s t (ground (arith, h))) refl

-- The equal lines are those of both texts.
take-common : (xs ys : Lines) → take (common xs ys) xs ≡ take (common xs ys) ys
unfolding common
take-common [] ys = refl
take-common (x ∷ xs) [] = refl
take-common (x ∷ xs) (y ∷ ys) = elim (Bool-cases (chars_eq x y)) [
  | inl e ↦ rw (e, chars_eq-eq x y e, take-common xs ys) refl
  | inr e ↦ rw e refl
]

common-le : (xs ys : Lines) → (common xs ys ≤ length xs) × (common xs ys ≤ length ys)
unfolding common
common-le [] ys = (omega arith, omega arith)
common-le (x ∷ xs) [] = (omega arith, omega arith)
common-le (x ∷ xs) (y ∷ ys) =
    let (a, b) = common-le xs ys in
    elim (Bool-cases (chars_eq x y)) [
      | inl e ↦ rw e (omega (arith, a), omega (arith, b))
      | inr e ↦ rw e (omega arith, omega arith)
    ]

length-reverse : (xs : Lines) → length (reverse xs) ≡ length xs
length-reverse [] = refl
length-reverse (x ∷ xs) =
    rw (reverse-cons x xs, length-append (reverse xs) (x ∷ []), length-reverse xs) (omega arith)

take-exact : (n : ℕ) (xs ys : Lines) → n ≡ length xs → take n (xs ++ ys) ≡ xs
take-exact n [] ys h = rw h refl
take-exact n (x ∷ xs) ys h = rw h (ap (λ l. x ∷ l) (take-exact (length xs) xs ys refl))

drop-exact : (n : ℕ) (xs ys : Lines) → n ≡ length xs → drop n (xs ++ ys) ≡ ys
drop-exact n [] ys h = rw h refl
drop-exact n (x ∷ xs) ys h = rw h (drop-exact (length xs) xs ys refl)

drop-front : (n : ℕ) (xs ys : Lines) → n ≤ length xs → drop n (xs ++ ys) ≡ drop n xs ++ ys
drop-front zero xs ys h = refl
drop-front (suc n) [] ys h = absurd (omega (arith, h))
drop-front (suc n) (x ∷ xs) ys h = drop-front n xs ys (omega (arith, h))

take-front : (n : ℕ) (xs ys : Lines) → n ≤ length xs → take n (xs ++ ys) ≡ take n xs
take-front zero xs ys h = refl
take-front (suc n) [] ys h = absurd (omega (arith, h))
take-front (suc n) (x ∷ xs) ys h = ap (λ l. x ∷ l) (take-front n xs ys (omega (arith, h)))

-- A text read backwards in two parts.
backwards :
    (k : ℕ) (xs : Lines) → xs ≡ reverse (drop k (reverse xs)) ++ reverse (take k (reverse xs))
backwards k xs =
    sym (reverse-reverse xs)
    ∙ ap reverse (sym (take-drop k (reverse xs)))
    ∙ reverse-append (take k (reverse xs)) (drop k (reverse xs))

-- Two texts with the lines that they start with and end with in common.
record Overlap (old new : Lines) : Type 0 where
  front : Lines
  gone : Lines
  come : Lines
  back : Lines
  old_parts : old ≡ front ++ (gone ++ back)
  new_parts : new ≡ front ++ (come ++ back)
  prefix : common old new ≡ length front
  suffix : suffix_of (common old new) old new ≡ length back

overlap : (old new : Lines) → Overlap old new
overlap old new =
    let n = common old new in
    let a = reverse (drop n old) in
    let b = reverse (drop n new) in
    let s = common a b in
    let back = reverse (take s a) in
    let tail_old : drop n old ≡ reverse (drop s a) ++ back = backwards s (drop n old) in
    let tail_new : drop n new ≡ reverse (drop s b) ++ back =
      backwards s (drop n new)
      ∙ ap (λ l. reverse (drop s b) ++ reverse l) (sym (take-common a b)) in
    record {
      front = take n old;
      gone = reverse (drop s a);
      come = reverse (drop s b);
      back = back;
      old_parts = sym (take-drop n old) ∙ ap (λ l. take n old ++ l) tail_old;
      new_parts =
          sym (take-drop n new)
          ∙ rw (sym (take-common old new)) (ap (λ l. take n old ++ l) tail_new);
      prefix = sym (length-take n old (common-le old new).0);
      suffix = sym (length-reverse (take s a) ∙ length-take s a (common-le a b).0);
    }

-- The lines of a hunk on either side.
abbrev pub plain : DiffLine → List ℕ
plain (context l) = l
plain (removed l) = l
plain (added l) = l

abbrev pub old_side : Hunk → Lines
old_side h = map plain h.leading ++ (map plain h.removals ++ map plain h.trailing)

abbrev pub new_side : Hunk → Lines
new_side h = map plain h.leading ++ (map plain h.additions ++ map plain h.trailing)

-- What a patch tool makes of a text: the lines that the header counts are replaced.
abbrev pub apply_hunk : Hunk → Lines → Lines
apply_hunk h old = take h.start old ++ (new_side h ++ drop (h.start + h.old_count) old)

plain-context : (ls : Lines) → map plain (map context ls) ≡ ls
plain-context [] = refl
plain-context (l ∷ ls) = ap (λ m. l ∷ m) (plain-context ls)

plain-removed : (ls : Lines) → map plain (map removed ls) ≡ ls
plain-removed [] = refl
plain-removed (l ∷ ls) = ap (λ m. l ∷ m) (plain-removed ls)

plain-added : (ls : Lines) → map plain (map added ls) ≡ ls
plain-added [] = refl
plain-added (l ∷ ls) = ap (λ m. l ∷ m) (plain-added ls)

-- The counts of the header, and what the hunk does as a patch.
pub record Patches (h : Hunk) (old new : Lines) : Type 0 where
  pub matches : take h.old_count (drop h.start old) ≡ old_side h
  pub applies : apply_hunk h old ≡ new
  pub old_length : length (old_side h) ≡ h.old_count
  pub new_length : length (new_side h) ≡ h.new_count

module _ (front back : Lines) where
  leading_lines :
      (rest : Lines)
      → slice (length front - context_lines) (length front) (front ++ rest)
        ≡ drop (length front - context_lines) front
  leading_lines rest = rw (drop-front (length front - context_lines) front rest (omega arith)) (
      take-exact _ (drop (length front - context_lines) front) rest
        (omega (arith, length-drop (length front - context_lines) front (omega arith))))

  changed_lines :
      (mid : Lines)
      → slice
          (length front)
          (length (front ++ (mid ++ back)) - length back)
          (front ++ (mid ++ back))
        ≡ mid
  changed_lines mid = rw (drop-exact (length front) front (mid ++ back) refl) (
      take-exact _ mid back
        (omega (arith, length-append front (mid ++ back), length-append mid back)))

  -- How many lines of the back the hunk shows.
  abbrev shown : ℕ
  shown = min (length back) context_lines

  end_of-parts :
      (mid : Lines)
      → end_of (length back) (front ++ (mid ++ back)) ≡ length front + (length mid + shown)
  end_of-parts mid = ground (arith, length-append front (mid ++ back), length-append mid back)

  drop-parts :
      (k : ℕ) (mid : Lines)
      → drop (length front + (length mid + k)) (front ++ (mid ++ back)) ≡ drop k back
  drop-parts k mid = drop-append (length mid + k) front (mid ++ back) ∙ drop-append k mid back

  trailing_lines :
      (mid : Lines)
      → slice
          (length (front ++ (mid ++ back)) - length back)
          (end_of (length back) (front ++ (mid ++ back)))
          (front ++ (mid ++ back))
        ≡ take shown back
  trailing_lines mid =
      let text = front ++ (mid ++ back) in
      let from : length text - length back ≡ length front + (length mid + 0) =
        omega (arith, length-append front (mid ++ back), length-append mid back) in
      let width : length front + (length mid + shown) - (length front + (length mid + 0)) ≡ shown =
        omega arith in
      ap (λ b. slice (length text - length back) b text) (end_of-parts mid)
      ∙ ap (λ a. slice a (length front + (length mid + shown)) text) from
      ∙ ap (λ l. take (length front + (length mid + shown) - (length front + (length mid + 0))) l)
          (drop-parts 0 mid)
      ∙ ap (λ k. take k back) width

length-shown : (front back : Lines) → length (take (shown front back) back) ≡ shown front back
length-shown front back = length-take (shown front back) back (ground arith)

-- The parts put together again.
glue : (a b mid t d : Lines) → a ++ ((b ++ (mid ++ t)) ++ d) ≡ (a ++ b) ++ (mid ++ (t ++ d))
glue a b mid t d = simp append_assoc

-- The hunk of two texts by their parts.
parts_hunk : Lines → Lines → Lines → Lines → Hunk
parts_hunk front gone come back =
    let start = length front - context_lines in
    let k = shown front back in
    record {
      start = start;
      old_count = length front + (length gone + k) - start;
      new_count = length front + (length come + k) - start;
      leading = map context (drop start front);
      removals = map removed gone;
      additions = map added come;
      trailing = map context (take k back);
    }

hunk_at-parts :
    (front gone come back : Lines)
    → hunk_at (length front) (length back) (front ++ (gone ++ back)) (front ++ (come ++ back))
      ≡ parts_hunk front gone come back
unfolding hunk_at parts_hunk
hunk_at-parts front gone come back = λ i.
    let start = length front - context_lines in
    record {
      start = start;
      old_count = end_of-parts front back gone i - start;
      new_count = end_of-parts front back come i - start;
      leading = map context (leading_lines front back (gone ++ back) i);
      removals = map removed (changed_lines front back gone i);
      additions = map added (changed_lines front back come i);
      trailing = map context (trailing_lines front back gone i);
    }

module _ (front gone come back : Lines) where
  old_lines :
      old_side (parts_hunk front gone come back)
      ≡ drop (length front - context_lines) front ++ (gone ++ take (shown front back) back)
  unfolding parts_hunk
  old_lines =
      rw
        (
          plain-context (drop (length front - context_lines) front),
          plain-removed gone,
          plain-context (take (shown front back) back),
        )
        refl

  new_lines :
      new_side (parts_hunk front gone come back)
      ≡ drop (length front - context_lines) front ++ (come ++ take (shown front back) back)
  unfolding parts_hunk
  new_lines =
      rw
        (
          plain-context (drop (length front - context_lines) front),
          plain-added come,
          plain-context (take (shown front back) back),
        )
        refl

side_length :
    (front mid back : Lines)
    → length (drop (length front - context_lines) front ++ (mid ++ take (shown front back) back))
      ≡ length front + (length mid + shown front back) - (length front - context_lines)
side_length front mid back =
    let start = length front - context_lines in
    omega (
      arith,
      length-append (drop start front) (mid ++ take (shown front back) back),
      length-append mid (take (shown front back) back),
      length-shown front back,
      length-drop start front (omega arith),
    )

regroup : (b mid t d : Lines) → (b ++ (mid ++ t)) ++ d ≡ b ++ (mid ++ (t ++ d))
regroup b mid t d = simp append_assoc

parts-Patches :
    (front gone come back : Lines)
    → Patches (parts_hunk front gone come back) (front ++ (gone ++ back)) (front ++ (come ++ back))
unfolding parts_hunk
parts-Patches front gone come back =
    let start = length front - context_lines in
    let k = shown front back in
    let count = length front + (length gone + k) - start in
    let lead = drop start front in
    let whole : back ≡ take k back ++ drop k back = sym (take-drop k back) in
    let split : drop start (front ++ (gone ++ back))
        ≡ (lead ++ (gone ++ take k back)) ++ drop k back =
      drop-front start front (gone ++ back) (omega arith)
      ∙ ap (λ b. lead ++ (gone ++ b)) whole
      ∙ sym (regroup lead gone (take k back) (drop k back)) in
    let end : start + count ≡ length front + (length gone + k) = omega arith in
    let behind : drop (start + count) (front ++ (gone ++ back)) ≡ drop k back =
      ap (λ n. drop n (front ++ (gone ++ back))) end ∙ drop-parts front back k gone in
    record {
      matches =
          ap (take count) split
          ∙ take-exact count (lead ++ (gone ++ take k back)) (drop k back)
              (sym (side_length front gone back))
          ∙ sym (old_lines front gone come back);
      applies =
          ap
            (λ l.
              l
              ++ (new_side (parts_hunk front gone come back)
                  ++ drop (start + count) (front ++ (gone ++ back))))
            (take-front start front (gone ++ back) (omega arith))
          ∙ ap (λ l. take start front ++ (l ++ drop (start + count) (front ++ (gone ++ back))))
              (new_lines front gone come back)
          ∙ ap (λ l. take start front ++ ((lead ++ (come ++ take k back)) ++ l)) behind
          ∙ glue (take start front) lead come (take k back) (drop k back)
          ∙ ap (λ l. l ++ (come ++ (take k back ++ drop k back))) (take-drop start front)
          ∙ ap (λ l. front ++ (come ++ l)) (take-drop k back);
      old_length = ap length (old_lines front gone come back) ∙ side_length front gone back;
      new_length = ap length (new_lines front gone come back) ∙ side_length front come back;
    }

-- The hunk of two texts is a patch from the old one to the new one: its context and removed lines
-- are the lines that its header names, replacing these by its context and added lines gives the
-- new text, and the header counts the lines of either side.
pub unified_hunk-Patches : (old new : Lines) → Patches (unified_hunk old new) old new
unfolding unified_hunk
unified_hunk-Patches old new =
    let o = overlap old new in
    let f = length o.front in
    let b = length o.back in
    let by_parts =
      subst (λ h. Patches h (o.front ++ (o.gone ++ o.back)) (o.front ++ (o.come ++ o.back)))
        (sym (hunk_at-parts o.front o.gone o.come o.back))
        (parts-Patches o.front o.gone o.come o.back) in
    let of_old =
      subst
        (λ l.
          Patches (hunk_at f b l (o.front ++ (o.come ++ o.back))) l (o.front ++ (o.come ++ o.back)))
        (sym o.old_parts) by_parts in
    let of_both = subst (λ l. Patches (hunk_at f b old l) old l) (sym o.new_parts) of_old in
    let by_suffix = subst (λ n. Patches (hunk_at f n old new) old new) (sym o.suffix) of_both in
    subst (λ n. Patches (hunk_at n (suffix_of (common old new) old new) old new) old new)
      (sym o.prefix) by_suffix
