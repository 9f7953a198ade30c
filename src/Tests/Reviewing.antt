-- ===== src/Tests/Reviewing.antt =====
-- A review of two sections that cite the same paper under different numbers.
use indic_rag.Markers.{
  blanks, line_end, leading, split_commas, closes, piece_of, skip_of, next, read_group, open_at,
  match_at, pieces, remapped, join_numbers, shown, repl, replace_all,
}
use indic_rag.Citation.{digits}
use indic_rag.Report.{
  Cite, until_last, array_text, titles_in, distinct_titles, parse_sections, fallback_sections,
  plan_sections, register, sort_refs, ref_line, join_with, render_global_refs, ReviewReport,
  section_part, assemble, remap_markers, synthesize, write_sections, write_report, run_report,
}
use indic_rag.Report.Global.{global_review, run_report-global_review}
use indic_rag.Report.Plan.{plan_sections-IsOutline}
use indic_rag.Base.{
  List, Option, Text, Unique, [], arith, codes, if◌then◌else◌, insert, is_space, leb, left_strip,
  length, lookup, map, none, refl, some, starts_with, strip, true, ℕ, ◌&&◌, ◌-◌, ◌∷◌, ◌≡◌, ◌≢◌, ◌≤◌,
  nat_eq, string_eq, pair_eq, list_eq,
}

program : Unit {0}
unfolding blanks line_end leading split_commas closes next read_group open_at match_at piece_of
    skip_of pieces remapped join_numbers shown repl replace_all digits until_last array_text
    titles_in distinct_titles parse_sections fallback_sections plan_sections register sort_refs
    ref_line join_with render_global_refs section_part assemble remap_markers synthesize
    write_sections write_report run_report lookup insert strip left_strip is_space
program = tt

abbrev ascii : ℕ → Option ℕ
ascii c = if leb 48 c && leb c 57 then some (c - 48) else none

-- one reply holds an array
abbrev loads : Text → Option (List (Option Text))
loads t =
    some
      (some (codes "Background") ∷ none ∷ some (codes "Methods") ∷ some (codes "Background") ∷ [])

abbrev lower : Text → Text
lower t = t

abbrev cite : Text → Text → Cite
cite number title = record { number = number; title = title }

abbrev answers : Text → Option (Text × List Cite)
answers query =
    if starts_with (codes "B") query
    then some (codes "alpha [1]", cite (codes "1") (codes "P") ∷ [])
    else some (
      codes "beta [1] gamma [2] delta [5]",
      cite (codes "1") (codes "Q") ∷ cite (codes "2") (codes "P") ∷ [],
    )

abbrev review : ReviewReport
review = run_report loads lower ascii answers (codes "T") true (some (codes "[]")) none 5

review_runs : review ≡ record {
  sections = codes "Background" ∷ codes "Methods" ∷ [];
  markdown =
      codes
        "# Literature Review: T\n\n\n## Background\n\nalpha [1]\n\n## Methods\n\nbeta [2] gamma [1] delta\n\n## References\n\n- [1] P\n- [2] Q\n";
  citation_count = 2;
}
unfolding program starts_with
review_runs = refl

run_report-global_review_example :
    review
    ≡ global_review ascii answers
        (codes "T")
        (plan_sections loads lower true (some (codes "[]")) none 5)
run_report-global_review_example =
    run_report-global_review loads lower ascii answers (codes "T") true (some (codes "[]")) none 5

plan_sections-IsOutline_example :
    (let outline = plan_sections loads lower true (some (codes "[]")) none 5 in
      (outline ≢ []) × (length outline ≤ 5) × Unique (map lower outline))
plan_sections-IsOutline_example =
    plan_sections-IsOutline loads lower true (some (codes "[]")) none 5 (omega arith)
