-- ===== src/Tests/Citing.antt =====
-- Contexts of three chunks of two papers.
use indic_rag.Citation.{
  Meta, title_of, number_for, set_default, number_metas, citation_number_map, paper_chunks,
  paper_chunk_map, digits, context_part, context_parts, join_lines, format_context,
}
use indic_rag.Citation.Context.{
  numbered, lines, number_in, titles_of, format_context-numbers, format_context_bounds,
}
use indic_rag.Citation.Agree.{
  citation_number_map-resolves, chunks_with, paper_chunk_map-chunks_with,
}
use indic_rag.Base.{
  List, Option, Text, [], codes, insert, length, lookup, map, mem, none, or_else, refl, some, strip,
  take, true, ◌+◌, ◌-◌, ◌∷◌, ◌≡◌, ◌≤◌, nat_eq, string_eq, pair_eq, list_eq,
}

program : Unit {0}
unfolding title_of number_for set_default number_metas citation_number_map paper_chunks
    paper_chunk_map digits context_part context_parts join_lines format_context lookup insert strip
program = tt

abbrev paper : Text → Option Text → Meta
paper title section = record {
  title = some title;
  section = section;
  paper_id = none;
  page = none;
  chunk_type = none;
  crop_path = none;
}

abbrev maths : Meta
maths = paper (codes " Maths ") (some (codes "intro"))

abbrev astro : Meta
astro = paper (codes "Astro") none

abbrev chunks : List (Text × Meta)
chunks = (codes "a", maths) ∷ (codes "b", astro) ∷ (codes "c", maths) ∷ []

context_of_two :
    format_context 2 1000 chunks ≡ (codes "[1] Maths - intro:\na\n\n[2] Astro - body:\nb\n", 2)
unfolding program
context_of_two = refl

format_context-numbers_example :
    let (context, used) = format_context 2 1000 chunks in
    let kept = take used chunks in
    context ≡ lines (map (λ c. numbered (number_in (titles_of kept) (title_of c.1)) c) kept)
format_context-numbers_example = format_context-numbers 2 1000 chunks

format_context_bounds_example :
    (let (context, used) = format_context 2 1000 chunks in
      (used ≤ 2) × (used ≤ length chunks) × (length context ≤ 1000 + (used - 1)))
format_context_bounds_example = format_context_bounds 2 1000 chunks

abbrev metas : List Meta
metas = maths ∷ astro ∷ maths ∷ []

astro_listed : mem (title_of astro) (map title_of metas) ≡ true
unfolding program
astro_listed = refl

citation_number_map-resolves_example :
    (m : Meta) × (lookup
        (number_in (map title_of metas) (title_of astro))
        (citation_number_map metas)
      ≡ some m)
    × (title_of m ≡ title_of astro)
citation_number_map-resolves_example = citation_number_map-resolves metas astro astro_listed

paper_chunk_map-chunks_with_example :
    or_else (lookup 1 (paper_chunk_map chunks)) []
    ≡ chunks_with 1 (number_in (titles_of chunks)) 0 chunks
paper_chunk_map-chunks_with_example = paper_chunk_map-chunks_with 1 chunks
