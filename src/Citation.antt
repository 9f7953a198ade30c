-- ===== src/Citation.antt =====
-- rag.py and verify.py: how the papers of a context are numbered, in the prompt, in the citation
-- panel and in the faithfulness check.
pub mod Numbering
pub mod Context
pub mod Agree
pub mod Extract
pub mod Seen
pub mod Entries
pub mod Compact
use indic_rag.Base.{
  Dict, List, Option, Text, [], ap, codes, false, if◌then◌else◌, insert, is_some, keys, leb, length,
  lookup, ltb, map, max, none, or_else, or_text, some, strip, suc, true, zero, ℕ, ◌%◌, ◌++◌, ◌+◌,
  ◌-◌, ◌/◌, ◌||◌, ◌∷◌, nat_eq, string_eq, pair_eq, list_eq,
}

-- the keys that are read of a chunk's metadata, an absent one as `none`
pub record Meta : Type 0 where
  pub title : Option Text
  pub section : Option Text
  pub paper_id : Option Text
  pub page : Option ℕ
  pub chunk_type : Option Text
  pub crop_path : Option Text

-- `(meta.get('title') or 'Unknown').strip() or 'Unknown'`
unfoldable pub title_of : Meta → Text
title_of m = or_text (strip (or_text (or_else m.title []) (codes "Unknown"))) (codes "Unknown")

-- `meta.get('section', 'body')`
abbrev pub section_of : Meta → Text
section_of m = or_else m.section (codes "body")

-- `title_to_num.get(title, len(title_to_num) + 1)`
unfoldable pub number_for : Text → Dict Text ℕ → ℕ
number_for title nums = or_else (lookup title nums) (length nums + 1)

-- `title_to_num.setdefault(title, num)`
unfoldable pub set_default : Text → ℕ → Dict Text ℕ → Dict Text ℕ
set_default title num nums = if is_some (lookup title nums) then nums else insert title num nums

-- the loop of `citation_number_map`: `nums` is `title_to_num`, `metas` is `num_to_meta`
unfoldable pub number_metas : List Meta → Dict Text ℕ → Dict ℕ Meta → Dict ℕ Meta
number_metas [] nums metas = metas
number_metas (m ∷ ms) nums metas =
    number_metas ms
      (if is_some (lookup (title_of m) nums)
        then nums
        else insert (title_of m) (length nums + 1) nums)
      (if is_some (lookup (title_of m) nums) then metas else insert (length nums + 1) m metas)

unfoldable pub citation_number_map : List Meta → Dict ℕ Meta
unfolding number_metas
citation_number_map metadatas = number_metas metadatas [] []

-- verify.py, `_paper_chunk_map` with metadata: each number's chunks with their indexes
unfoldable pub paper_chunks :
    ℕ → List (Text × Meta) → Dict Text ℕ → Dict ℕ (List (ℕ × Text)) → Dict ℕ (List (ℕ × Text))
paper_chunks idx [] nums found = found
paper_chunks idx ((chunk, m) ∷ rest) nums found =
    let num = number_for (title_of m) nums in
    paper_chunks (suc idx) rest (set_default (title_of m) num nums)
      (insert num (or_else (lookup num found) [] ++ (idx, chunk) ∷ []) found)

unfoldable pub paper_chunk_map : List (Text × Meta) → Dict ℕ (List (ℕ × Text))
unfolding paper_chunks number_for set_default
paper_chunk_map chunks = paper_chunks 0 chunks [] []

-- `str(n)`, on fuel: `n + 1` digits are more than enough
unfoldable pub digits : ℕ → ℕ → Text → Text
digits zero n acc = acc
digits (suc fuel) n acc =
    let rest = digits fuel (n / 10) ((n % 10 + 48) ∷ acc) in
    if ltb n 10 then (n + 48) ∷ acc else rest

abbrev pub decimal : ℕ → Text
decimal n = digits (suc n) n []

-- `f"[{num}] {title} - {section}:\n{chunk}\n"`
unfoldable pub context_part : ℕ → Text → Text → Text → Text
unfolding digits
context_part num title section chunk =
    codes "["
    ++ (decimal num
        ++ (codes "] "
            ++ (title ++ (codes " - " ++ (section ++ (codes ":\n" ++ (chunk ++ codes "\n")))))))

-- what the loop of `format_context` has gathered: the numbered parts that are kept
unfoldable pub context_parts : ℕ → ℕ → List (Text × Meta) → ℕ → ℕ → Dict Text ℕ → List (ℕ × Text)
context_parts max_chunks max_length [] total used nums = []
context_parts max_chunks max_length ((chunk, m) ∷ rest) total used nums =
    let num = number_for (title_of m) nums in
    let part = context_part num (title_of m) (section_of m) chunk in
    elim (leb max_chunks used || ltb max_length (total + length part)) [
      | true ↦ []
      | false ↦
          (num, part)
          ∷ context_parts max_chunks max_length rest (total + length part) (used + 1)
              (set_default (title_of m) num nums)
    ]

-- "\n".join(parts)
unfoldable pub join_lines : List (ℕ × Text) → Text
join_lines [] = []
join_lines ((n, p) ∷ []) = p
join_lines ((n, p) ∷ q ∷ ps) = p ++ (codes "\n" ++ join_lines (q ∷ ps))

-- `format_context`, for chunks zipped with their metadata
unfoldable pub format_context : ℕ → ℕ → List (Text × Meta) → Text × ℕ
unfolding join_lines
format_context max_chunks max_length chunks =
    let parts = context_parts max_chunks max_length chunks 0 0 [] in
    (join_lines parts, length parts)
