-- ===== src/Markers/Pieces.antt =====
-- rag.py: what the scan of the markers passes over, and that the two patterns find the same ones.
use mathlib.Core.List.{append_assoc}
use indic_rag.Markers.{
  Mode, Found, Piece, blanks, line_end, leading, ends_line, closes, piece_of, skip_of, next,
  read_group, open_at, match_at, pieces, at_number, plain, marker,
}
use indic_rag.Markers.{
  Mode, Found, Piece, blanks, line_end, leading, ends_line, closes, piece_of, skip_of, next,
  read_group, open_at, match_at, pieces, at_number, plain, marker,
}
use indic_rag.Base.{
  Bool, List, Option, Option-cases, Text, [], ap, arith, drop, false, inl, inr, length,
  length-append, mem, mem-append, none, refl, some, suc, sym, true, zero, ℕ, ◌++◌, ◌+◌, ◌∙◌, ◌∷◌,
  ◌≡◌, ◌≤◌, nat_eq, string_eq, pair_eq, list_eq,
}

spell : Piece → Text
spell (plain c) = c ∷ []
spell (marker lead group ends) = lead ++ b'[' ∷ (group ++ b']' ∷ [])

-- the text that the pieces stand for
unfoldable pub spell_all : List Piece → Text
unfolding spell
spell_all [] = []
spell_all (p ∷ ps) = spell p ++ spell_all ps

drop-append : (a t : Text) → drop (length a) (a ++ t) ≡ t
drop-append [] t = refl
drop-append (c ∷ a) t = drop-append a t

blanks-append : (s : Text) → (blanks s).0 ++ (blanks s).1 ≡ s
unfolding blanks
blanks-append [] = refl
blanks-append (c ∷ s) = ground (arith, blanks-append s)

blanks-lacks : (s : Text) → mem b'[' (blanks s).0 ≡ false
unfolding blanks
blanks-lacks [] = refl
blanks-lacks (c ∷ s) = ground (arith, blanks-lacks s)

line_end-append : (a s : Text) → (line_end a s).0 ++ (line_end a s).1 ≡ a ++ s
unfolding line_end
line_end-append a [] = refl
line_end-append a (c ∷ s) =
    ground (arith, blanks-append s, append_assoc a (c ∷ (blanks s).0) (blanks s).1)

line_end-lacks : (a s : Text) → mem b'[' a ≡ false → mem b'[' (line_end a s).0 ≡ false
unfolding line_end
line_end-lacks a [] h = h
line_end-lacks a (c ∷ s) h = ground (arith, blanks-lacks s, mem-append b'[' a (c ∷ (blanks s).0))

pub leading-append : (s : Text) → (leading s).0 ++ (leading s).1 ≡ s
unfolding leading
leading-append s = ground (arith, line_end-append (blanks s).0 (blanks s).1, blanks-append s)

pub leading-lacks : (s : Text) → mem b'[' (leading s).0 ≡ false
unfolding leading
leading-lacks s = line_end-lacks (blanks s).0 (blanks s).1 (blanks-lacks s)

unfoldable pub whole : Found → Text
whole f = f.lead ++ b'[' ∷ (f.group ++ b']' ∷ f.rest)

spelled_marker : (a g r : Text) → (a ++ b'[' ∷ (g ++ b']' ∷ [])) ++ r ≡ a ++ b'[' ∷ (g ++ b']' ∷ r)
spelled_marker a g r = simp append_assoc

pub length_rest :
    (s : Text) (f : Found) (n : ℕ) → s ≡ whole f → length s ≤ suc n → length f.rest ≤ n
unfolding whole
length_rest s f n e h = omega (
  arith,
  ap length e,
  length-append f.lead (b'[' ∷ (f.group ++ b']' ∷ f.rest)),
  length-append f.group (b']' ∷ f.rest),
)

skip_whole :
    (f : Found) (c : ℕ) (s : Text)
    → c ∷ s ≡ whole f
    → drop (length f.lead + length f.group + 1) s ≡ f.rest
unfolding whole
skip_whole f c s e =
    ap (drop (suc (length f.lead + length f.group + 1))) e
    ∙ ap (λ n. drop n (f.lead ++ b'[' ∷ (f.group ++ b']' ∷ f.rest))) (length_lead f.lead f.group)
    ∙ ap (drop (length (f.lead ++ b'[' ∷ (f.group ++ b']' ∷ []))))
        (append_marker f.lead f.group f.rest)
    ∙ drop-append (f.lead ++ b'[' ∷ (f.group ++ b']' ∷ [])) f.rest
  where
    length_lead :
        (a g : Text) → suc (length a + length g + 1) ≡ length (a ++ b'[' ∷ (g ++ b']' ∷ []))
    length_lead a g =
        grind (arith, length-append a (b'[' ∷ (g ++ b']' ∷ [])), length-append g (b']' ∷ []))

    append_marker :
        (a g r : Text) → a ++ b'[' ∷ (g ++ b']' ∷ r) ≡ (a ++ b'[' ∷ (g ++ b']' ∷ [])) ++ r
    append_marker a g r = simp append_assoc

module _ (digit : ℕ → Option ℕ) where
  pub read_group-append :
      (m : Mode) (s group rest : Text)
      → read_group digit m s ≡ some (group, rest)
      → s ≡ group ++ b']' ∷ rest
  unfolding read_group closes
  read_group-append m [] group rest e = cc
  read_group-append m (c ∷ s) group rest e = elim (Option-cases (next digit m c)) [
    | inl e0 ↦ ground (arith, e0)
    | inr (n, e1) ↦ elim (Option-cases (read_group digit n s)) [
      | inl e0 ↦ ground (arith, e0, e1)
      | inr ((g, r), e2) ↦ ground (arith, e1, e2, read_group-append n s g r e2)
    ]
  ]

  open_at-whole : (lead s : Text) (f : Found) → open_at digit lead s ≡ some f → lead ++ s ≡ whole f
  unfolding open_at whole
  open_at-whole lead [] f e = cc
  open_at-whole lead (c ∷ s) f e = elim (Option-cases (read_group digit at_number s)) [
    | inl e0 ↦ ground (arith, e0)
    | inr ((g, r), e1) ↦ ground (arith, e1, read_group-append at_number s g r e1)
  ]

  pub match_at-whole : (b : Bool) (s : Text) (f : Found) → match_at digit b s ≡ some f → s ≡ whole f
  unfolding match_at
  match_at-whole false s f e = open_at-whole [] s f e
  match_at-whole true s f e = sym (leading-append s) ∙ open_at-whole (leading s).0 (leading s).1 f e

  pieces-drop : (b : Bool) (k : ℕ) (s : Text) → pieces digit b k s ≡ pieces digit b 0 (drop k s)
  unfolding pieces
  pieces-drop b zero s = refl
  pieces-drop b (suc k) [] = refl
  pieces-drop b (suc k) (c ∷ s) = pieces-drop b k s

  pub pieces_found :
      (b : Bool) (c : ℕ) (s : Text) (f : Found)
      → match_at digit b (c ∷ s) ≡ some f
      → pieces digit b 0 (c ∷ s)
        ≡ marker f.lead f.group (ends_line f.rest) ∷ pieces digit b 0 f.rest
  unfolding pieces piece_of skip_of
  pieces_found b c s f e = rw e (
      ap (λ ps. marker f.lead f.group (ends_line f.rest) ∷ ps)
        (pieces-drop b (length f.lead + length f.group + 1) s
          ∙ ap (pieces digit b 0) (skip_whole f c s (match_at-whole b (c ∷ s) f e))))

  pub pieces_plain :
      (b : Bool) (c : ℕ) (s : Text)
      → match_at digit b (c ∷ s) ≡ none
      → pieces digit b 0 (c ∷ s) ≡ plain c ∷ pieces digit b 0 s
  unfolding pieces piece_of skip_of
  pieces_plain b c s e = rw e refl

  -- Every text is what its pieces spell: the scan loses and invents nothing.
  pub spell_all-pieces : (b : Bool) (k : ℕ) (s : Text) → spell_all (pieces digit b k s) ≡ drop k s
  unfolding spell_all spell pieces piece_of skip_of whole
  spell_all-pieces b zero [] = refl
  spell_all-pieces b (suc k) [] = refl
  spell_all-pieces b (suc k) (c ∷ s) = spell_all-pieces b k s
  spell_all-pieces b zero (c ∷ s) = elim (Option-cases (match_at digit b (c ∷ s))) [
    | inl e0 ↦ ap spell_all (pieces_plain b c s e0) ∙ ap (λ t. c ∷ t) (spell_all-pieces b 0 s)
    | inr (f, e1) ↦
        ap (λ o. spell_all (piece_of c o ∷ pieces digit b (skip_of o) s)) e1
        ∙ spelled f (match_at-whole b (c ∷ s) f e1)
            (spell_all-pieces b (length f.lead + length f.group + 1) s)
  ]
    where
      spelled :
          (f : Found)
          → c ∷ s ≡ whole f
          → spell_all (pieces digit b (length f.lead + length f.group + 1) s)
            ≡ drop (length f.lead + length f.group + 1) s
          → spell_all (piece_of c (some f) ∷ pieces digit b (length f.lead + length f.group + 1) s)
            ≡ c ∷ s
      spelled f e ih =
          ap (λ t. spell (marker f.lead f.group (ends_line f.rest)) ++ t) (ih ∙ skip_whole f c s e)
          ∙ spelled_marker f.lead f.group f.rest
          ∙ sym e
