-- ===== src/Recall/Examples.antt =====
-- The records and the edits on concrete inputs, and their theorems at them.
use nexusdock.Shared.{
  ℕ, ◌≤◌, ◌≡◌, ◌≢◌, refl, String, codes, trim_space, is_blank, is_space, lowers_to, decimal, List,
  [], some, Bool, true, false, pos, arith,
}
use nexusdock.Continuation.Types.{Result, ok, err, ◌>>=◌, ◌>>◌, refuse_if, or_fail}
use nexusdock.Recall.Records.{
  LifecycleRecord, LifecycleTransition, LifecycleTransitionResult, bytes_of, valid_lifecycle_status,
  valid_lifecycle_relation, validate_record_identity, validate_lifecycle_transition,
  validate_lifecycle_record,
}
use nexusdock.Recall.Lifecycle.{
  LifecycleFile, LifecycleCodec, read_lifecycle, write_lifecycle, append_applied_operation,
  find_lifecycle_operation, next_record, commit_record, apply_to_existing, apply_to_none,
  transition_lifecycle,
}
use nexusdock.Recall.Retries.{transition_again}
use nexusdock.Recall.Advance.{second_transition_refused}
use nexusdock.Recall.Lines.{
  trim_start, trim_end, all_space, trim, chars_eq, split_lines, join_lines, cut_prefix,
  replace_from, count_from, drop_newlines, drop_last_newlines,
}
use nexusdock.Recall.Sections.{
  heading_of, find_section, after_section, replace_markdown_section, ensure_trailing_newline,
  replace_literal, replace_named, append_to, apply_markdown_patch,
}
use nexusdock.Recall.Replacement.{Replaces, replace-Replaces, last_replacement_wins}
use nexusdock.Recall.Facts.{
  line_looks_like_fact, find_key, replace_fact_value, see_heading, scan_facts, settle_fact,
  update_markdown_fact_line,
}
use nexusdock.Recall.Kept.{OneLine, update-OneLine}
use nexusdock.Recall.Diffs.{
  common, hunk_at, unified_hunk, write_lines, write_changes, truncate_utf8, hunk_header, write_hunk,
  unified_diff,
}
use nexusdock.Recall.Patching.{Patches, unified_hunk-Patches}
use nexusdock.Recall.Limits.{unified_diff-le}

-- A digest of 64 hexadecimal characters for every transition.
abbrev codec : LifecycleCodec
codec = record {
  digest = λ q. some "0123456789abcdef0123456789abcdef0123456789abcdef0123456789abcdef";
  encoded_size = λ r. some 400;
}

abbrev draft : LifecycleRecord
draft = record {
  evolution_id = "evo_0123456789abcdef";
  title = "Retry";
  statement = "Retry with the same id.";
  kind = "rule";
  scope = "project";
  project = "dock";
  device = "";
  canonical_key = "";
  status = "";
  policy_version = "";
  revision = pos 0;
  support_count = pos 1;
  contradict_count = pos 0;
  source = "";
  tags = [];
  evidence = [];
  superseded_by = "";
  applied_operations = [];
  created_at = "";
  updated_at = "";
}

abbrev transition : String → ℕ → LifecycleTransition
transition id revision = record {
  operation_id = id;
  expected_revision = pos revision;
  policy_version = "v1";
  next_state = "Active";
  evidence_refs = [];
  target = draft;
}

abbrev first : Result (List LifecycleFile × LifecycleTransitionResult)
first = transition_lifecycle codec [] "t1" (transition "op_00000001" 0)

abbrev files_of : Result (List LifecycleFile × LifecycleTransitionResult) → List LifecycleFile
files_of (ok x) = x.0
files_of (err e) = []

abbrev record_of : Result (List LifecycleFile × LifecycleTransitionResult) → LifecycleRecord
record_of (ok x) = x.1.updated
record_of (err e) = draft

abbrev second : Result (List LifecycleFile × LifecycleTransitionResult)
second = transition_lifecycle codec (files_of first) "t2" (transition "op_00000002" 1)

-- The names that a run has to unfold.
is_ok : {A : Type 0} → Result A → Bool
unfolding is_space is_blank trim_space lowers_to decimal valid_lifecycle_status
    valid_lifecycle_relation validate_record_identity validate_lifecycle_transition
    validate_lifecycle_record read_lifecycle write_lifecycle append_applied_operation
    find_lifecycle_operation next_record commit_record apply_to_existing apply_to_none
    transition_lifecycle trim_start trim_end all_space trim chars_eq split_lines join_lines
    cut_prefix replace_from count_from drop_newlines drop_last_newlines heading_of find_section
    after_section replace_markdown_section ensure_trailing_newline replace_literal replace_named
    append_to apply_markdown_patch line_looks_like_fact find_key replace_fact_value see_heading
    scan_facts settle_fact update_markdown_fact_line common hunk_at unified_hunk write_lines
    write_changes truncate_utf8 hunk_header write_hunk unified_diff ◌>>=◌ ◌>>◌ refuse_if or_fail
is_ok (ok r) = true
is_ok (err e) = false

run_transitions : (is_ok first ≡ true) × (is_ok second ≡ true)
unfolding is_ok
run_transitions = (refl, refl)

transition_again_example :
    transition_lifecycle codec (files_of second) "t9" (transition "op_00000002" 1)
    ≡ ok (files_of second, record { updated = record_of second; idempotent = true })
unfolding is_ok
transition_again_example =
    transition_again codec (files_of first) (files_of second) "t2" "t9" (transition "op_00000002" 1)
      (record { updated = record_of second; idempotent = false }) refl

second_transition_refused_example :
    transition_lifecycle codec (files_of second) "t3" (transition "op_00000003" 1)
    ≢ ok (files_of second, record { updated = record_of second; idempotent = false })
unfolding is_ok
second_transition_refused_example =
    second_transition_refused codec (files_of first) (files_of second) "t2" "t3"
      (transition "op_00000002" 1) (transition "op_00000003" 1) (record_of first)
      (record { updated = record_of second; idempotent = false })
      (files_of second, record { updated = record_of second; idempotent = false }) refl refl refl
      refl refl refl

abbrev note : List ℕ
note = codes "# A\none\n## B\ntwo\n# C\nthree\n"

abbrev replaced : List ℕ
replaced = codes "# A\nnew\n# C\nthree\n"

replace-Replaces_example : Replaces note (codes "A") (codes "new\n") replaced
unfolding is_ok
replace-Replaces_example = replace-Replaces note (codes "A") (codes "new\n") replaced refl

last_replacement_wins_example :
    replace_markdown_section replaced (codes "A") (codes "last")
    ≡ replace_markdown_section note (codes "A") (codes "last")
unfolding is_ok
last_replacement_wins_example =
    last_replacement_wins note (codes "A") (codes "new\n") (codes "last") replaced refl (refl, tt)

unified_hunk-Patches_example :
    Patches
      (unified_hunk (split_lines note) (split_lines replaced))
      (split_lines note)
      (split_lines replaced)
unified_hunk-Patches_example = unified_hunk-Patches (split_lines note) (split_lines replaced)

run_diffs :
    unified_diff (codes "a.md") (codes "x\ny\n") (codes "x\nz\n") 0
    ≡ codes "--- a.md\n+++ a.md\n@@ -1,3 +1,3 @@\n x\n-y\n+z\n \n"
unfolding is_ok
run_diffs = refl

unified_diff-le_example : bytes_of (unified_diff (codes "a.md") note replaced 40) ≤ 40
unified_diff-le_example = unified_diff-le (codes "a.md") note replaced 40 (omega arith)

abbrev facts : List ℕ
facts = codes "# A\n- port: 80\n# B\n- port: 90"

abbrev moved : List ℕ
moved = codes "# A\n- port: 80\n# B\n- port:8090"

update-OneLine_example :
    (lines : List (List ℕ)) × (moved ≡ join_lines lines)
    × OneLine (trim (codes "port")) (codes "8090") (split_lines facts) lines true
unfolding is_ok
update-OneLine_example =
    update-OneLine facts (codes "B") (codes "port") (codes "8090") moved true refl
