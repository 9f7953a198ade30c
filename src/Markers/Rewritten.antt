-- ===== src/Markers/Rewritten.antt =====
-- rag.py: the text that `replace_all` writes, piece by piece.
use indic_rag.Markers.{
  Piece, plain, marker, parts_of, remapped, join_numbers, shown, repl, replace_all, groups_of,
}
use indic_rag.Base.{
  ==_refl, Bool, List, Option, Text, [], ap, append_assoc, arith, codes, false, if◌then◌else◌, mem,
  not, refl, sym, true, ℕ, ◌&&◌, ◌++◌, ◌∙◌, ◌∷◌, ◌≡◌, nat_eq, string_eq, pair_eq, list_eq,
}

-- What stands in the rewritten answer for a marker, by the numbers that are left of it: they stand in
-- brackets behind the blanks of the marker. Without a number nothing is left, but for a line break
-- where the marker opened a line that goes on.
abbrev pub marker_text : Text → Bool → List ℕ → Text
marker_text lead ends [] = if mem b'\n' lead && not ends then codes "\n" else []
marker_text lead ends (n ∷ ns) = lead ++ (codes "[" ++ (join_numbers (n ∷ ns) ++ codes "]"))

shown-marker_text :
    (lead : Text) (ends : Bool) (ns : List ℕ) → shown lead ends ns ≡ marker_text lead ends ns
unfolding shown
shown-marker_text lead true [] = ground arith
shown-marker_text lead false [] = ground arith
shown-marker_text lead ends (n ∷ ns) = refl

pub marker_text-bracket :
    (lead : Text) (ends : Bool) (n : ℕ) (ns : List ℕ)
    → mem n ns ≡ true
    → marker_text lead ends ns ≡ lead ++ (codes "[" ++ (join_numbers ns ++ codes "]"))
marker_text-bracket lead ends n [] h = cc
marker_text-bracket lead ends n (k ∷ ns) h = refl

pub groups_of-between :
    (before after : List Piece) (lead group : Text) (ends : Bool)
    → mem group (groups_of (before ++ marker lead group ends ∷ after)) ≡ true
unfolding groups_of
groups_of-between [] after lead group ends = ground (arith, ==_refl group)
groups_of-between (plain c ∷ before) after lead group ends =
    groups_of-between before after lead group ends
groups_of-between (marker l g e ∷ before) after lead group ends =
    ground (arith, groups_of-between before after lead group ends)

module _ (number : Text → Option ℕ) where
  -- The rewritten text of some pieces.
  abbrev pub rewritten : List Piece → Text
  rewritten [] = []
  rewritten (plain c ∷ ps) = c ∷ rewritten ps
  rewritten (marker lead group ends ∷ ps) =
      marker_text lead ends (remapped number (parts_of group) []) ++ rewritten ps

  pub replace_all-rewritten : (ps : List Piece) → replace_all number ps ≡ rewritten ps
  unfolding replace_all repl
  replace_all-rewritten [] = refl
  replace_all-rewritten (plain c ∷ ps) = ap (λ s. c ∷ s) (replace_all-rewritten ps)
  replace_all-rewritten (marker lead group ends ∷ ps) = λ i.
      shown-marker_text lead ends (remapped number (parts_of group) []) i
      ++ replace_all-rewritten ps i

  pub rewritten-between :
      (before after : List Piece) (lead group : Text) (ends : Bool)
      → rewritten (before ++ marker lead group ends ∷ after)
        ≡ rewritten before
          ++ (marker_text lead ends (remapped number (parts_of group) []) ++ rewritten after)
  rewritten-between [] after lead group ends = refl
  rewritten-between (plain c ∷ before) after lead group ends =
      ap (λ s. c ∷ s) (rewritten-between before after lead group ends)
  rewritten-between (marker l g e ∷ before) after lead group ends =
      ap (λ s. marker_text l e (remapped number (parts_of g) []) ++ s)
        (rewritten-between before after lead group ends)
      ∙ sym (append_assoc (marker_text l e (remapped number (parts_of g) [])) (rewritten before) _)
