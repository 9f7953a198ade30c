-- ===== src/Report/Global.antt =====
-- report_runner.py: the markers of all sections are one numbering of the document's papers.

use indic_rag.Markers.{pieces, replace_all}
use indic_rag.Citation.Numbering.{
  add_new, distinct_from, enumerate, length-enumerate, mem-distinct_from,
}
use indic_rag.Report.{
  Cite, plan_sections, register, by_number, sort_refs, ref_line, join_with, render_global_refs,
  ReviewReport, section_part, assemble, remap_markers, synthesize, write_sections, write_report,
  run_report,
}
use indic_rag.Report.Registry.{
  titles, title_at, place_in, register_registry, register_local, place_later, table_none,
  title_at-mem,
}
use indic_rag.Base.{
  Bool, Dict, List, Option, Text, [], ap, arith, codes, if◌then◌else◌, is_empty, length, lookup,
  map, refl, subst, suc, sym, true, ℕ, ◌++◌, ◌∙◌, ◌∷◌, ◌≡◌, ◌≤◌, nat_eq, string_eq, pair_eq,
  list_eq,
}

distinct_from-append :
    (known xs ys : List Text)
    → distinct_from known (xs ++ ys) ≡ distinct_from (distinct_from known xs) ys
distinct_from-append known [] ys = refl
distinct_from-append known (x ∷ xs) ys = distinct_from-append (add_new x known) xs ys

by_number-enumerate :
    (t : Text) (k n : ℕ) (ts : List Text)
    → k ≤ suc n
    → by_number (t, k) (enumerate n ts) ≡ (t, k) ∷ enumerate n ts
by_number-enumerate t k n [] h = refl
by_number-enumerate t k n (u ∷ ts) h = ground arith

-- the references are in their order already
sort_refs-enumerate : (n : ℕ) (ts : List Text) → sort_refs (enumerate n ts) ≡ enumerate n ts
unfolding sort_refs
sort_refs-enumerate n [] = refl
sort_refs-enumerate n (t ∷ ts) =
    ap (by_number (t, suc n)) (sort_refs-enumerate (suc n) ts)
    ∙ by_number-enumerate t (suc n) (suc n) ts (omega arith)

-- the references of a document with these papers
abbrev pub references : List Text → List Text
references [] = []
references (t ∷ ts) =
    (codes "## References\n\n" ++ join_with (codes "\n") (map ref_line (enumerate 0 (t ∷ ts)))) ∷ []

references_lem :
    (all : List Text)
    → (let refs = render_global_refs (enumerate 0 all) in if is_empty refs then [] else refs ∷ [])
      ≡ references all
unfolding render_global_refs
references_lem [] = refl
references_lem (t ∷ ts) =
    ap (λ refs. (codes "## References\n\n" ++ join_with (codes "\n") (map ref_line refs)) ∷ [])
      (sort_refs-enumerate 0 (t ∷ ts))

module _ (digit : ℕ → Option ℕ) (answer_question : Text → Option (Text × List Cite))
    (topic : Text) where
  -- the titles that the sections cite, in order
  abbrev pub cited : List Text → List Text
  cited [] = []
  cited (sec ∷ secs) = titles (synthesize digit answer_question topic sec).1 ++ cited secs

  -- a section whose markers show its papers' places among the document's
  abbrev pub written : List Text → Text → Text × Text
  written all sec =
      let (body, cites) = synthesize digit answer_question topic sec in
      (sec, replace_all (λ part. place_in all (title_at part cites)) (pieces digit true 0 body))

  body_global :
      (body : Text) (cites : List Cite) (known : List Text) (registry : Dict Text ℕ)
      (later : List Text)
      → registry ≡ enumerate 0 known
      → (remap_markers digit answer_question body cites registry).0
        ≡ replace_all
            (λ part.
              place_in
                (distinct_from (distinct_from known (titles cites)) later)
                (title_at part cites))
            (pieces digit true 0 body)
  unfolding remap_markers lookup
  body_global body cites known registry later e =
      λ i. replace_all (λ part. number part i) (pieces digit true 0 body)
    where
      number :
          (part : Text)
          → lookup part (register cites registry []).1
            ≡ place_in
                (distinct_from (distinct_from known (titles cites)) later)
                (title_at part cites)
      number part =
          register_local part cites known registry [] e
          ∙ table_none (distinct_from known (titles cites)) (title_at part cites)
          ∙ place_later (distinct_from known (titles cites)) later (title_at part cites) (λ t h.
            ground (arith, mem-distinct_from t known (titles cites), title_at-mem part t cites h))

  write_sections-written :
      (secs : List Text) (known : List Text) (registry : Dict Text ℕ)
      → registry ≡ enumerate 0 known
      → (let all = distinct_from known (cited secs) in
          write_sections digit answer_question topic secs registry
          ≡ (map (written all) secs, enumerate 0 all))
  unfolding write_sections
  write_sections-written [] known registry e = ap (λ r. ([], r)) e
  write_sections-written (sec ∷ secs) known registry e =
      let (body, cites) = synthesize digit answer_question topic sec in
      let next_known = distinct_from known (titles cites) in
      let rest =
        write_sections-written secs next_known
          (remap_markers digit answer_question body cites registry).1
          (unfold remap_markers in register_registry cites known registry [] e) in
      subst
        (λ all.
          write_sections digit answer_question topic (sec ∷ secs) registry
          ≡ (map (written all) (sec ∷ secs), enumerate 0 all))
        (sym (distinct_from-append known (titles cites) (cited secs)))
        (λ i.
          ((sec, body_global body cites known registry (cited secs) e i) ∷ (rest i).0, (rest i).1))

  -- the review with one numbering of all the papers that its sections cite
  abbrev pub global_review : List Text → ReviewReport
  global_review sections =
      let all = distinct_from [] (cited sections) in
      record {
        sections = sections;
        markdown =
            join_with (codes "\n\n") (
              (codes "# Literature Review: " ++ (topic ++ codes "\n"))
              ∷ (map section_part (map (written all) sections) ++ references all))
            ++ codes "\n";
        citation_count = length all;
      }

  write_report-global_review :
      (sections : List Text)
      → write_report digit answer_question topic sections ≡ global_review sections
  unfolding write_report assemble
  write_report-global_review sections =
      let all = distinct_from [] (cited sections) in
      ap (assemble topic sections) (write_sections-written sections [] [] refl) ∙ λ i. record {
        sections = sections;
        markdown =
            join_with (codes "\n\n") (
              (codes "# Literature Review: " ++ (topic ++ codes "\n"))
              ∷ (map section_part (map (written all) sections) ++ references_lem all i))
            ++ codes "\n";
        citation_count = length-enumerate 0 all i;
      }

module _ (loads : Text → Option (List (Option Text))) (lower : Text → Text) (digit : ℕ → Option ℕ)
    (answer_question : Text → Option (Text × List Cite)) where
  -- A review is the one that numbers the distinct papers of all sections once, in the order of their
  -- first citation: every marker of a section shows its papers' places in that numbering, numbers
  -- that stand for no citation are dropped, and the references list each paper at its place.
  pub run_report-global_review :
      (topic : Text) (english : Bool) (reply translation : Option Text) (max_sections : ℕ)
      → run_report loads lower digit answer_question topic english reply translation max_sections
        ≡ global_review digit answer_question topic
            (plan_sections loads lower english reply translation max_sections)
  unfolding run_report
  run_report-global_review topic english reply translation max_sections =
      write_report-global_review digit answer_question topic
        (plan_sections loads lower english reply translation max_sections)
