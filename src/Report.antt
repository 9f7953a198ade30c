-- ===== src/Report.antt =====
-- report_runner.py: the outline of a literature review, its sections and their citation numbers,
-- which are one numbering of the whole document.
pub mod Registry
pub mod Global
pub mod Plan
use indic_rag.Markers.{pieces, replace_all}
use indic_rag.Citation.{decimal}
use indic_rag.Base.{
  Bool, Dict, List, Option, Text, [], ap, codes, if◌then◌else◌, insert, is_empty, is_some, leb,
  length, lookup, map, max, mem, none, not, or_else, or_text, some, strip, take, true, ℕ, ◌&&◌, ◌*◌,
  ◌++◌, ◌+◌, ◌-◌, ◌==◌, ◌∷◌, nat_eq, string_eq, pair_eq, list_eq,
}

-- a citation of a section: its number in the section, as text, and the paper's title
pub record Cite : Type 0 where
  pub number : Text
  pub title : Text

abbrev pub default_sections : List Text
default_sections =
    codes "Background"
    ∷ codes "Methods"
    ∷ codes "Key Findings"
    ∷ codes "Gaps and Open Questions"
    ∷ []

-- up to the last `]`
unfoldable pub until_last : Text → Option Text
until_last [] = none
until_last (c ∷ s) = elim (until_last s) [
  | none ↦ if c == b']' then some (c ∷ []) else none
  | some t ↦ some (c ∷ t)
]

-- `re.search(r"\[.*\]", raw, re.DOTALL)`
unfoldable pub array_text : Text → Option Text
unfolding until_last
array_text [] = none
array_text (c ∷ s) = let later = array_text s in if c == b'[' then until_last (c ∷ s) else later

-- the items of an array that are texts or numbers, stripped, and not empty
unfoldable pub titles_in : List (Option Text) → List Text
titles_in [] = []
titles_in (none ∷ items) = titles_in items
titles_in (some t ∷ items) =
    let later = titles_in items in if is_empty (strip t) then later else strip t ∷ later

-- the loop that keeps the first title of each spelling
unfoldable pub distinct_titles : (Text → Text) → List Text → List Text → List Text
distinct_titles lower seen [] = []
distinct_titles lower seen (s ∷ ss) =
    let skipped = distinct_titles lower seen ss in
    let kept = s ∷ distinct_titles lower (lower s ∷ seen) ss in
    if mem (lower s) seen then skipped else kept

-- `loads` is `json.loads` of an array, whose other items than texts and numbers are `none`; `lower`
-- is `str.lower`
module _ (loads : Text → Option (List (Option Text))) (lower : Text → Text) where
  unfoldable pub parse_sections : Text → List Text
  unfolding array_text titles_in
  parse_sections raw = elim (array_text raw) [
    | none ↦ []
    | some t ↦ titles_in (or_else (loads t) [])
  ]

  -- the reply to the translation request, `none` when the call fails
  unfoldable pub fallback_sections : Bool → Option Text → List Text
  unfolding parse_sections
  fallback_sections english none = default_sections
  fallback_sections english (some raw) =
      let translated = parse_sections raw in
      if not english && length translated == length default_sections
      then translated
      else default_sections

  -- the replies of the planner and of the translator
  unfoldable pub plan_sections : Bool → Option Text → Option Text → ℕ → List Text
  unfolding fallback_sections distinct_titles
  plan_sections english reply translation max_sections =
      let planned : List Text = elim reply [ none ↦ [] | some raw ↦ parse_sections raw ] in
      take max_sections
        (distinct_titles lower [] (or_text planned (fallback_sections english translation)))

-- the loop over `cites`: the registry, and `local_to_global`
unfoldable pub register : List Cite → Dict Text ℕ → Dict Text ℕ → Dict Text ℕ × Dict Text ℕ
register [] registry local_to_global = (registry, local_to_global)
register (c ∷ cs) registry local_to_global =
    let grown =
      if is_some (lookup c.title registry)
      then registry
      else insert c.title (length registry + 1) registry in
    register cs grown (insert c.number (or_else (lookup c.title grown) 0) local_to_global)

abbrev pub by_number : (Text × ℕ) → List (Text × ℕ) → List (Text × ℕ)
by_number r [] = r ∷ []
by_number (t, n) ((u, k) ∷ refs) =
    let later = by_number (t, n) refs in if leb n k then (t, n) ∷ (u, k) ∷ refs else (u, k) ∷ later

-- `sorted(registry.items(), key=lambda kv: kv[1])`
unfoldable pub sort_refs : Dict Text ℕ → List (Text × ℕ)
sort_refs [] = []
sort_refs (r ∷ refs) = by_number r (sort_refs refs)

-- `f"- [{n}] {title}"`
unfoldable pub ref_line : Text × ℕ → Text
ref_line (title, n) = codes "- [" ++ (decimal n ++ (codes "] " ++ title))

-- `sep.join(parts)`
unfoldable pub join_with : Text → List Text → Text
join_with sep [] = []
join_with sep (p ∷ []) = p
join_with sep (p ∷ q ∷ ps) = p ++ (sep ++ join_with sep (q ∷ ps))

unfoldable pub render_global_refs : Dict Text ℕ → Text
unfolding sort_refs ref_line join_with
render_global_refs [] = []
render_global_refs (r ∷ registry) =
    codes "## References\n\n" ++ join_with (codes "\n") (map ref_line (sort_refs (r ∷ registry)))

pub record ReviewReport : Type 0 where
  pub sections : List Text
  pub markdown : Text
  pub citation_count : ℕ

-- `f"## {sec}\n\n{body}"`
unfoldable pub section_part : Text × Text → Text
section_part (sec, body) = codes "## " ++ (sec ++ (codes "\n\n" ++ body))

unfoldable pub assemble : Text → List Text → List (Text × Text) × Dict Text ℕ → ReviewReport
unfolding section_part render_global_refs join_with
assemble topic sections (written, registry) =
    let refs = render_global_refs registry in
    record {
      sections = sections;
      markdown =
          join_with (codes "\n\n") (
            (codes "# Literature Review: " ++ (topic ++ codes "\n"))
            ∷ (map section_part written ++ (if is_empty refs then [] else refs ∷ [])))
          ++ codes "\n";
      citation_count = length registry;
    }

-- `digit` is the Unicode database's value of a decimal digit, `answer_question` is the pipeline of
-- rag.py, `none` when it raises
module _ (digit : ℕ → Option ℕ) (answer_question : Text → Option (Text × List Cite)) where
  unfoldable pub remap_markers : Text → List Cite → Dict Text ℕ → Text × Dict Text ℕ
  unfolding register replace_all pieces
  remap_markers body cites registry =
      let (grown, local_to_global) = register cites registry [] in
      (replace_all (λ part. lookup part local_to_global) (pieces digit true 0 body), grown)

  -- `f"{sec} — in the context of {topic}"`
  abbrev query : Text → Text → Text
  query topic sec = sec ++ (codes " — in the context of " ++ topic)

  -- the answer of a section, stripped, and its citations
  unfoldable pub synthesize : Text → Text → Text × List Cite
  synthesize topic sec = elim (answer_question (query topic sec)) [
    | none ↦ (codes "_(section synthesis failed)_", [])
    | some res ↦ (strip res.0, res.1)
  ]

  -- the loop over the sections: each with its body, and the registry
  unfoldable pub write_sections : Text → List Text → Dict Text ℕ → List (Text × Text) × Dict Text ℕ
  unfolding remap_markers synthesize
  write_sections topic [] registry = ([], registry)
  write_sections topic (sec ∷ secs) registry =
      let (body, cites) = synthesize topic sec in
      let (remapped_body, grown) = remap_markers body cites registry in
      let (later, final) = write_sections topic secs grown in ((sec, remapped_body) ∷ later, final)

  -- `run_report` behind the plan
  unfoldable pub write_report : Text → List Text → ReviewReport
  unfolding write_sections assemble
  write_report topic sections = assemble topic sections (write_sections topic sections [])

module _ (loads : Text → Option (List (Option Text))) (lower : Text → Text) (digit : ℕ → Option ℕ)
    (answer_question : Text → Option (Text × List Cite)) where
  unfoldable pub run_report : Text → Bool → Option Text → Option Text → ℕ → ReviewReport
  unfolding plan_sections write_report
  run_report topic english reply translation max_sections =
      write_report digit answer_question topic
        (plan_sections loads lower english reply translation max_sections)
