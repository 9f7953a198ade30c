-- ===== src/Markers/Agree.antt =====
-- rag.py: `extract_citations` and `_CITE_MARKER_RE` find the same markers.
use indic_rag.Markers.{
  Found, blanks, line_end, leading, read_group, open_at, match_at, pieces, groups_of, at_number,
}
use indic_rag.Markers.{
  Found, blanks, line_end, leading, read_group, open_at, match_at, pieces, groups_of, at_number,
}
use indic_rag.Markers.Pieces.{
  leading-append, leading-lacks, length_rest, match_at-whole, pieces_found, pieces_plain,
}
use indic_rag.Base.{
  Bool, Bool-cases, List, Option, Option-cases, Text, [], ap, arith, false, inl, inr, length, mem,
  none, refl, some, suc, sym, true, zero, ℕ, ◌++◌, ◌==◌, ◌∙◌, ◌∷◌, ◌≡◌, ◌≤◌, nat_eq, string_eq,
  pair_eq, list_eq,
}

module _ (digit : ℕ → Option ℕ) where
  open_at_other :
      (a b s : Text) (f : Found)
      → open_at digit a s ≡ some f
      → open_at digit b s ≡ some (record f { lead = b })
  unfolding open_at
  open_at_other a b [] f e = cc
  open_at_other a b (c ∷ s) f e = elim (Option-cases (read_group digit at_number s)) [
    | inl e0 ↦ ground (arith, e0)
    | inr ((h, t), e1) ↦ ground (arith, e1)
  ]

  -- the groups that a scan of the whole text finds
  groups : Bool → Text → List Text
  groups b s = groups_of (pieces digit b 0 s)

  groups-plain :
      (b : Bool) (c : ℕ) (s : Text)
      → match_at digit b (c ∷ s) ≡ none
      → groups b (c ∷ s) ≡ groups b s
  unfolding groups groups_of
  groups-plain b c s e = ap groups_of (pieces_plain digit b c s e)

  groups-found :
      (b : Bool) (s : Text) (f : Found)
      → match_at digit b s ≡ some f
      → groups b s ≡ f.group ∷ groups b f.rest
  unfolding groups groups_of
  groups-found true [] f e = unfold match_at leading blanks line_end open_at in cc
  groups-found false [] f e = unfold match_at open_at in cc
  groups-found b (c ∷ s) f e = ap groups_of (pieces_found digit b c s f e)

  groups-append : (a r : Text) → mem b'[' a ≡ false → groups false (a ++ r) ≡ groups false r
  groups-append [] r h = refl
  groups-append (c ∷ a) r h =
      groups-plain false c (a ++ r) (unfold match_at open_at in ground arith)
      ∙ groups-append a r (ground arith)

  bare_none :
      (c : ℕ) (s : Text) → match_at digit true (c ∷ s) ≡ none → match_at digit false (c ∷ s) ≡ none
  unfolding match_at leading blanks line_end open_at
  bare_none c s e = elim (Bool-cases (c == b'[')) [
    | inl here ↦ ground arith
    | inr not_here ↦ ground arith
  ]

  groups_within : (n : ℕ) (s : Text) → length s ≤ n → groups true s ≡ groups false s
  groups_within n [] h = unfold groups groups_of pieces in refl
  groups_within zero (c ∷ s) h = absurd (omega arith)
  groups_within (suc n) (c ∷ s) h = elim (Option-cases (match_at digit true (c ∷ s))) [
    | inl e0 ↦
        groups-plain true c s e0
        ∙ groups_within n s (omega arith)
        ∙ sym (groups-plain false c s (bare_none c s e0))
    | inr (f, e1) ↦
        groups-found true (c ∷ s) f e1
        ∙ ap (λ gs. f.group ∷ gs) (groups_within n f.rest (shorter f e1))
        ∙ sym (bare f e1)
  ]
    where
      shorter : (f : Found) → match_at digit true (c ∷ s) ≡ some f → length f.rest ≤ n
      shorter f e1 = length_rest (c ∷ s) f n (match_at-whole digit true (c ∷ s) f e1) h

      bare :
          (f : Found)
          → match_at digit true (c ∷ s) ≡ some f
          → groups false (c ∷ s) ≡ f.group ∷ groups false f.rest
      bare f e1 =
          ap (groups false) (sym (leading-append (c ∷ s)))
          ∙ groups-append (leading (c ∷ s)).0 (leading (c ∷ s)).1 (leading-lacks (c ∷ s))
          ∙ groups-found false (leading (c ∷ s)).1 (record f { lead = [] })
              (unfold match_at in open_at_other (leading (c ∷ s)).0 [] (leading (c ∷ s)).1 f e1)

  -- The scan with leading blanks and the one without find the same groups of numbers.
  pub groups_of-pieces_lead :
      (s : Text) → groups_of (pieces digit true 0 s) ≡ groups_of (pieces digit false 0 s)
  groups_of-pieces_lead s = unfold groups in groups_within (length s) s (omega arith)
