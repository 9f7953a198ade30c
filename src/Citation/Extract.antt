-- ===== src/Citation/Extract.antt =====
-- rag.py: the citation panel of an answer, and its dense renumbering. `digit` is the Unicode
-- database's value of a decimal digit, `crop_url` is `_crop_url`, which resolves a path on the disk.
use indic_rag.Markers.{parts_of, pieces, int_of, replace_all, groups_of}
use indic_rag.Citation.{Meta, title_of, section_of, citation_number_map}
use indic_rag.Base.{
  Bool, Dict, List, Option, Text, [], codes, false, if◌then◌else◌, insert, is_empty, lookup, ltb,
  mem, none, not, or_else, or_text, some, strip, suc, take, true, ℕ, ◌&&◌, ◌++◌, ◌==◌, ◌>>=◌, ◌||◌,
  ◌∷◌, nat_eq, string_eq, pair_eq, list_eq, option_eq,
}

pub record Figure : Type 0 where
  pub page : Option ℕ
  pub chunk_type : Option Text
  pub url : Text

-- an entry of the panel; `number` is the number that its decimal text shows
pub record CitationEntry : Type 0 where
  pub number : ℕ
  pub title : Text
  pub section : Text
  pub figures : List Figure

-- `sorted(seen_nums)` after `seen_nums.add(n)`
unfoldable pub add_seen : ℕ → List ℕ → List ℕ
add_seen n [] = n ∷ []
add_seen n (k ∷ seen) =
    let later = add_seen n seen in
    if ltb n k then n ∷ k ∷ seen else if n == k then k ∷ seen else k ∷ later

module _ (digit : ℕ → Option ℕ) where
  -- `for part in m.group(1).split(",")`
  unfoldable pub seen_parts : List Text → List ℕ → List ℕ
  unfolding add_seen
  seen_parts [] seen = seen
  seen_parts (part ∷ parts) seen =
      seen_parts parts (elim (int_of digit (strip part)) [ none ↦ seen | some n ↦ add_seen n seen ])

  unfoldable pub seen_groups : List Text → List ℕ → List ℕ
  unfolding seen_parts
  seen_groups [] seen = seen
  seen_groups (group ∷ groups) seen = seen_groups groups (seen_parts (parts_of group) seen)

  -- `sorted(seen_nums)` after the loop over `re.finditer`
  unfoldable pub seen_nums : Text → List ℕ
  unfolding seen_groups groups_of pieces
  seen_nums answer = seen_groups (groups_of (pieces digit false 0 answer)) []

-- the sections that each title contributed, in order
unfoldable pub title_sections : List Meta → Dict Text (List Text) → Dict Text (List Text)
title_sections [] sections = sections
title_sections (m ∷ ms) sections =
    let known = or_else (lookup (title_of m) sections) [] in
    title_sections ms (
      insert (title_of m) (if mem (section_of m) known then known else known ++ section_of m ∷ [])
        sections)

abbrev pub is_crop : Option Text → Bool
is_crop none = false
is_crop (some kind) = kind == codes "figure" || kind == codes "table"

-- the figures and tables of each paper that have a URL
unfoldable pub figures_by_paper :
    (Text → Option Text)
    → List Meta
    → Dict (Option Text) (List Figure)
    → Dict (Option Text) (List Figure)
figures_by_paper crop_url [] figures = figures
figures_by_paper crop_url (m ∷ ms) figures =
    let path = or_else m.crop_path [] in
    let url =
      if is_crop m.chunk_type && not (is_empty path) then or_else (crop_url path) [] else [] in
    figures_by_paper crop_url ms (
      if is_empty url
      then figures
      else insert m.paper_id
          (or_else (lookup m.paper_id figures) []
            ++ record { page = m.page; chunk_type = m.chunk_type; url = url } ∷ [])
          figures)

-- `', '.join(sections)`
unfoldable pub join_sections : List Text → Text
join_sections [] = []
join_sections (s ∷ []) = s
join_sections (s ∷ t ∷ ts) = s ++ b',' ∷ b' ' ∷ join_sections (t ∷ ts)

module _ (sections : Dict Text (List Text)) (figures : Dict (Option Text) (List Figure)) where
  unfoldable pub entry_of : ℕ → Meta → CitationEntry
  unfolding join_sections
  entry_of num m = record {
    number = num;
    title = or_else m.title (codes "Unknown");
    section =
        join_sections (or_text (or_else (lookup (title_of m) sections) []) (section_of m ∷ []));
    figures = or_else (lookup m.paper_id figures) [];
  }

  -- `for num in sorted(seen_nums)`
  unfoldable pub entries : Dict ℕ Meta → List ℕ → List CitationEntry
  unfolding entry_of
  entries num_to_meta [] = []
  entries num_to_meta (num ∷ nums) =
      let later = entries num_to_meta nums in
      elim (lookup num num_to_meta) [ none ↦ later | some m ↦ entry_of num m ∷ later ]

-- `metadatas[:visible_chunks]`
abbrev pub visible : Option ℕ → List Meta → List Meta
visible none metadatas = metadatas
visible (some n) metadatas = take n metadatas

-- `c['number'] = str(i)`
unfoldable pub number_from : ℕ → List CitationEntry → List CitationEntry
number_from i [] = []
number_from i (c ∷ cs) = record c { number = i } ∷ number_from (suc i) cs

-- `{int(c['number']): i for i, c in enumerate(citations, 1)}`
unfoldable pub old_to_new : ℕ → List CitationEntry → Dict ℕ ℕ → Dict ℕ ℕ
old_to_new i [] nums = nums
old_to_new i (c ∷ cs) nums = old_to_new (suc i) cs (insert c.number i nums)

module _ (digit : ℕ → Option ℕ) where
  -- `old_to_new.get(int(part.strip()))`, `None` on a ValueError
  unfoldable pub new_number : List CitationEntry → Text → Option ℕ
  unfolding old_to_new int_of
  new_number citations part = do k ← int_of digit part; lookup k (old_to_new 1 citations [])

module _ (digit : ℕ → Option ℕ) (crop_url : Text → Option Text) where
  unfoldable pub extract_citations : Text → List Meta → Option ℕ → List CitationEntry
  unfolding entries title_sections figures_by_paper seen_nums
  extract_citations answer metadatas visible_chunks =
      let shown_metas = visible visible_chunks metadatas in
      entries (title_sections shown_metas []) (figures_by_paper crop_url shown_metas [])
        (citation_number_map shown_metas) (seen_nums digit answer)

  unfoldable pub compact_citations : Text → List Meta → Option ℕ → Text × List CitationEntry
  unfolding extract_citations new_number number_from replace_all pieces
  compact_citations answer metadatas visible_chunks =
      let citations = extract_citations answer metadatas visible_chunks in
      (
        replace_all (new_number digit citations) (pieces digit true 0 answer),
        number_from 1 citations,
      )
