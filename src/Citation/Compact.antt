-- ===== src/Citation/Compact.antt =====
-- rag.py: what the renumbered markers and the panel of `compact_citations` agree on.
use indic_rag.Markers.{Piece, parts_of, pieces, int_of, remapped, join_numbers, groups_of, marker}
use indic_rag.Markers.Rewritten.{
  marker_text, marker_text-bracket, groups_of-between, rewritten, replace_all-rewritten,
  rewritten-between,
}
use indic_rag.Markers.Remapped.{mem-remapped, remapped-part}
use indic_rag.Citation.{Meta, citation_number_map}
use indic_rag.Citation.Numbering.{index_of}
use indic_rag.Citation.Extract.{
  CitationEntry, seen_nums, entry_of, visible, number_from, old_to_new, new_number,
  extract_citations, compact_citations,
}
use indic_rag.Citation.Entries.{
  numbers, old_to_new_lem, get_elem?-number_from, mem-entries, entries-Unique, StandsAt,
  get_elem?-entries,
}
use indic_rag.Citation.Seen.{seen_nums-Unique, seen_nums-pieces}
use indic_rag.Base.{
  ==_refl, All, Bool, Bool-cases, Dict, List, Option, Option-cases, Text, Unique, [], ap, arith,
  codes, get_elem?, inl, inr, is_some, lookup, mem, or_else, refl, some, strip, subst, suc, sym,
  true, ℕ, ◌&&◌, ◌++◌, ◌>>=◌, ◌∙◌, ◌∷◌, ◌≡◌, nat_eq, string_eq, pair_eq, list_eq,
}

-- the panel's entry of that number is of the paper of that metadata
abbrev pub PointsTo : List CitationEntry → ℕ → Meta → Type 0
PointsTo panel n m =
    (j : ℕ) × (n ≡ suc j)
    × (c : CitationEntry) × (get_elem? panel j ≡ some c)
    × (c.number ≡ n)
    × (c.title ≡ or_else m.title (codes "Unknown"))

All-mem : (P : ℕ → Type 0) (ns : List ℕ) → ((n : ℕ) → mem n ns ≡ true → P n) → All P ns
All-mem P [] p = tt
All-mem P (n ∷ ns) p =
    (p n (ground (arith, ==_refl n)), All-mem P ns (λ k h. p k (ground (arith, h))))

module _ (digit : ℕ → Option ℕ) (crop_url : Text → Option Text) where
  module _ (answer : Text) (metadatas : List Meta) (visible_chunks : Option ℕ) where
    abbrev found : List CitationEntry
    found = extract_citations digit crop_url answer metadatas visible_chunks

    abbrev papers : Dict ℕ Meta
    papers = citation_number_map (visible visible_chunks metadatas)

    found-Unique : Unique (numbers found)
    unfolding extract_citations
    found-Unique = entries-Unique _ _ papers _ (seen_nums-Unique digit answer)

    found-numbers :
        (k : ℕ)
        → mem k (numbers found) ≡ (mem k (seen_nums digit answer) && is_some (lookup k papers))
    unfolding extract_citations
    found-numbers k = mem-entries _ _ k papers (seen_nums digit answer)

    found-PointsTo :
        (k : ℕ) (m : Meta)
        → mem k (seen_nums digit answer) ≡ true
        → lookup k papers ≡ some m
        → PointsTo (number_from 1 found) (suc (index_of k (numbers found))) m
    unfolding extract_citations entry_of StandsAt
    found-PointsTo k m seen e = (
      index_of k (numbers found),
      refl,
      _,
      get_elem?-number_from 1 (index_of k (numbers found)) found _
          (get_elem?-entries _ _ k m papers (seen_nums digit answer) seen e),
      omega arith,
      refl,
    )

    new_number-PointsTo :
        (k : ℕ) (m : Meta) (part : Text)
        → int_of digit part ≡ some k
        → mem k (seen_nums digit answer) ≡ true
        → lookup k papers ≡ some m
        → (n : ℕ) × (new_number digit found part ≡ some n) × PointsTo (number_from 1 found) n m
    unfolding new_number
    new_number-PointsTo k m part e seen there = (
      suc (index_of k (numbers found)),
      ap (λ o. o >>= λ j. lookup j (old_to_new 1 found [])) e
          ∙ old_to_new_lem k 1 found [] found-Unique
          ∙ ground (arith, found-numbers k),
      found-PointsTo k m seen there,
    )

    listed :
        (k n : ℕ)
        → lookup k (old_to_new 1 found []) ≡ some n
        → (mem k (numbers found) ≡ true) × (n ≡ suc (index_of k (numbers found)))
    unfolding lookup
    listed k n e = elim (Bool-cases (mem k (numbers found))) [
      | inl here ↦ (here, ground (arith, old_to_new_lem k 1 found [] found-Unique, e, here))
      | inr gone ↦ absurd (ground (arith, old_to_new_lem k 1 found [] found-Unique, e, gone))
    ]

    number-PointsTo :
        (k n : ℕ)
        → lookup k (old_to_new 1 found []) ≡ some n
        → (m : Meta) × (lookup k papers ≡ some m) × PointsTo (number_from 1 found) n m
    number-PointsTo k n e = elim (Option-cases (lookup k papers)) [
      | inl e0 ↦ absurd (ground (arith, found-numbers k, (listed k n e).0, e0))
      | inr (m, e1) ↦ (
        m,
        e1,
        subst (λ j. PointsTo (number_from 1 found) j m) (sym (listed k n e).1)
            (found-PointsTo k m (ground (arith, found-numbers k, (listed k n e).0)) e1),
      )
    ]

    -- the numbers that the marker of a group shows in the rewritten answer
    abbrev pub shown_numbers : Text → List ℕ
    shown_numbers group = remapped (new_number digit found) (parts_of group) []

    -- the rewritten text of a part of the answer
    abbrev pub written : List Piece → Text
    written = rewritten (new_number digit found)

    -- the text of the answer around a marker
    compact_citations-written :
        (before after : List Piece) (lead group : Text) (ends : Bool)
        → pieces digit true 0 answer ≡ before ++ marker lead group ends ∷ after
        → (compact_citations digit crop_url answer metadatas visible_chunks).0
          ≡ written before ++ (marker_text lead ends (shown_numbers group) ++ written after)
    unfolding compact_citations
    compact_citations-written before after lead group ends e =
        replace_all-rewritten (new_number digit found) (pieces digit true 0 answer)
        ∙ ap written e
        ∙ rewritten-between (new_number digit found) before after lead group ends

    -- Take a marker of the answer and one of its numbers that is the number of a paper of the context.
    -- In the rewritten answer, behind the rewritten text in front of the marker, stand the blanks of
    -- the marker and numbers in brackets, among them one at which the panel lists that paper; then
    -- comes the rewritten text behind the marker. The rewritten text of a part of the answer is its
    -- characters outside the markers, and for each marker its numbers in the panel.
    pub compact_citations-keeps :
        (before after : List Piece) (lead group : Text) (ends : Bool) (part : Text) (k : ℕ)
        (m : Meta)
        → pieces digit true 0 answer ≡ before ++ marker lead group ends ∷ after
        → mem part (parts_of group) ≡ true
        → int_of digit (strip part) ≡ some k
        → lookup k papers ≡ some m
        → (let (text, panel) = compact_citations digit crop_url answer metadatas visible_chunks in
            (n : ℕ) × (ns : List ℕ) × (mem n ns ≡ true)
            × (text
                ≡ written before
                  ++ ((lead ++ (codes "[" ++ (join_numbers ns ++ codes "]"))) ++ written after))
            × PointsTo panel n m)
    unfolding compact_citations
    compact_citations-keeps before after lead group ends part k m split hp e there =
        let hg : mem group (groups_of (pieces digit true 0 answer)) ≡ true =
          ap (λ ps. mem group (groups_of ps)) split
          ∙ groups_of-between before after lead group ends in
        let (n, rewritten, points) =
          new_number-PointsTo k m (strip part) e
            (seen_nums-pieces digit k part group answer hg hp e) there in
        let listed_number =
          mem-remapped (new_number digit found) n part (parts_of group) [] hp rewritten in
        (
          n,
          shown_numbers group,
          listed_number,
          compact_citations-written before after lead group ends split
              ∙ ap (λ s. written before ++ (s ++ written after))
                  (marker_text-bracket lead ends n (shown_numbers group) listed_number),
          points,
        )

    -- A number of the panel that a marker shows: a number of the marker is of the paper there.
    abbrev pub Resolved : Text → ℕ → Type 0
    Resolved group n =
        (part : Text) × (k : ℕ) × (m : Meta) × (mem part (parts_of group) ≡ true)
        × (int_of digit (strip part) ≡ some k)
        × (lookup k papers ≡ some m)
        × PointsTo (compact_citations digit crop_url answer metadatas visible_chunks).1 n m

    shown_number-Resolved :
        (group : Text) (n : ℕ) → mem n (shown_numbers group) ≡ true → Resolved group n
    unfolding compact_citations
    shown_number-Resolved group n h =
        elim (remapped-part (new_number digit found) n (parts_of group) [] h) [
          | inl never ↦ absurd (ground arith)
          | inr (part, listed_part, e) ↦ resolved part listed_part e
        ]
      where
        resolved :
            (part : Text)
            → mem part (parts_of group) ≡ true
            → new_number digit found (strip part) ≡ some n
            → Resolved group n
        resolved part hp e = elim (Option-cases (int_of digit (strip part))) [
          | inl e0 ↦ absurd (unfold new_number in ground (arith, e0, e))
          | inr (k, e1) ↦
              let (m, there, points) =
                number-PointsTo k n (unfold new_number in ground (arith, e1, e)) in
              (part, k, m, hp, e1, there, points)
        ]

    -- The answer is rewritten marker by marker: in the rewritten answer, between the rewritten text in
    -- front of a marker and that behind it, stands the text of the numbers that are left of the marker
    -- (in brackets, or nothing but a line break at most where none is left), and each of those is a
    -- place of the panel, whose entry is of the paper that a number of the original marker stands for
    -- in the context. What stands outside the markers is not changed, so that brackets around a marker
    -- that is dropped may read as a marker afterwards.
    pub compact_citations-PointsTo :
        (before after : List Piece) (lead group : Text) (ends : Bool)
        → pieces digit true 0 answer ≡ before ++ marker lead group ends ∷ after
        → ((compact_citations digit crop_url answer metadatas visible_chunks).0
            ≡ written before ++ (marker_text lead ends (shown_numbers group) ++ written after))
          × All (Resolved group) (shown_numbers group)
    compact_citations-PointsTo before after lead group ends split = (
      compact_citations-written before after lead group ends split,
      All-mem (Resolved group) (shown_numbers group) (shown_number-Resolved group),
    )
