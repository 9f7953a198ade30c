-- ===== src/Tests/Marking.antt =====
-- An answer that cites two of three papers, and one that is not there.
use indic_rag.Markers.{
  Piece, blanks, line_end, leading, split_commas, parts_of, closes, piece_of, skip_of, next,
  read_group, open_at, match_at, pieces, value, int_of, remapped, join_numbers, shown, repl,
  replace_all, groups_of, plain, marker,
}
use indic_rag.Markers.RoundTrip.{KnowsAscii, match_at-shown}
use indic_rag.Citation.{Meta, title_of, number_metas, citation_number_map, digits}
use indic_rag.Citation.Extract.{
  CitationEntry, add_seen, seen_parts, seen_groups, seen_nums, title_sections, figures_by_paper,
  join_sections, entry_of, entries, number_from, old_to_new, new_number, extract_citations,
  compact_citations,
}
use indic_rag.Markers.Rewritten.{marker_text}
use indic_rag.Citation.Compact.{
  PointsTo, shown_numbers, written, compact_citations-keeps, Resolved, compact_citations-PointsTo,
}
use indic_rag.Base.{
  All, List, Option, Text, [], arith, codes, false, if◌then◌else◌, insert, is_space, leb,
  left_strip, lookup, map, mem, none, refl, some, strip, true, ℕ, ◌&&◌, ◌++◌, ◌-◌, ◌∷◌, ◌≡◌, nat_eq,
  string_eq, pair_eq, list_eq,
}

program : Unit {0}
unfolding blanks line_end leading split_commas closes next read_group open_at match_at piece_of
    skip_of pieces value int_of remapped join_numbers shown repl replace_all groups_of title_of
    number_metas citation_number_map digits add_seen seen_parts seen_groups seen_nums title_sections
    figures_by_paper join_sections entry_of entries number_from old_to_new extract_citations
    new_number compact_citations lookup insert strip left_strip is_space
program = tt

abbrev ascii : ℕ → Option ℕ
ascii c = if leb 48 c && leb c 57 then some (c - 48) else none

ascii-KnowsAscii : KnowsAscii ascii
ascii-KnowsAscii = record { digit_is = λ k h. ground (arith, h); comma_none = refl }

abbrev no_crops : Text → Option Text
no_crops path = none

abbrev paper : Text → Meta
paper title = record {
  title = some title;
  section = none;
  paper_id = none;
  page = none;
  chunk_type = none;
  crop_path = none;
}

abbrev papers3 : List Meta
papers3 = paper (codes "A") ∷ paper (codes "B") ∷ paper (codes "C") ∷ []

abbrev answer : Text
answer = codes "x [3, 9] y [1,3] z [7]"

abbrev entry : ℕ → Text → CitationEntry
entry n title = record { number = n; title = title; section = codes "body"; figures = [] }

compacted :
    compact_citations ascii no_crops answer papers3 none
    ≡ (codes "x [2] y [1, 2] z", entry 1 (codes "A") ∷ entry 2 (codes "C") ∷ [])
unfolding program
compacted = refl

-- the paper past the visible chunks is not cited
compacted_visible :
    compact_citations ascii no_crops answer papers3 (some 2)
    ≡ (codes "x y [1] z", entry 1 (codes "A") ∷ [])
unfolding program
compacted_visible = refl

-- a marker inside brackets that is dropped leaves its neighbours beside each other
spliced : (compact_citations ascii no_crops (codes "[[5]7]") papers3 none).0 ≡ codes "[7]"
unfolding program
spliced = refl

-- what stands in front of the first marker and behind it
abbrev first_text : List Piece
first_text = plain b'x' ∷ []

abbrev last_text : List Piece
last_text = pieces ascii true 0 (codes " y [1,3] z [7]")

answer_split :
    pieces ascii true 0 answer ≡ first_text ++ marker (codes " ") (codes "3, 9") false ∷ last_text
unfolding program
answer_split = refl

part_listed : mem (codes "3") (parts_of (codes "3, 9")) ≡ true
unfolding program
part_listed = refl

part_value : int_of ascii (strip (codes "3")) ≡ some 3
unfolding program
part_value = refl

third : lookup 3 (citation_number_map papers3) ≡ some (paper (codes "C"))
unfolding program
third = refl

compact_citations-keeps_example :
    let (text, panel) = compact_citations ascii no_crops answer papers3 none in
    let written_text = written ascii no_crops answer papers3 none in
    (n : ℕ) × (ns : List ℕ) × (mem n ns ≡ true)
    × (text
        ≡ written_text first_text
          ++ ((codes " " ++ (codes "[" ++ (join_numbers ns ++ codes "]")))
              ++ written_text last_text))
    × PointsTo panel n (paper (codes "C"))
compact_citations-keeps_example =
    compact_citations-keeps ascii no_crops answer papers3 none first_text last_text (codes " ")
      (codes "3, 9") false (codes "3") 3 (paper (codes "C")) answer_split part_listed part_value
      third

compact_citations-PointsTo_example :
    ((compact_citations ascii no_crops answer papers3 none).0
      ≡ written ascii no_crops answer papers3 none first_text
        ++ (marker_text
              (codes " ")
              false
              (shown_numbers ascii no_crops answer papers3 none (codes "3, 9"))
            ++ written ascii no_crops answer papers3 none last_text))
    × All
        (Resolved ascii no_crops answer papers3 none (codes "3, 9"))
        (shown_numbers ascii no_crops answer papers3 none (codes "3, 9"))
compact_citations-PointsTo_example =
    compact_citations-PointsTo ascii no_crops answer papers3 none first_text last_text (codes " ")
      (codes "3, 9") false answer_split

match_at-shown_example :
    (group : Text) × (match_at ascii true (shown [] false (1 ∷ 12 ∷ []) ++ codes "]")
      ≡ some (record { lead = []; group = group; rest = codes "]" }))
    × (map (λ part. int_of ascii (strip part)) (parts_of group) ≡ some 1 ∷ some 12 ∷ [])
unfolding program
match_at-shown_example =
    match_at-shown ascii ascii-KnowsAscii 1 (12 ∷ []) (codes "]") (omega arith, (omega arith, tt))
