-- ===== src/Citation/Entries.antt =====
-- rag.py: the entries of the citation panel, their numbers and their places.
use indic_rag.Citation.{Meta}
use indic_rag.Citation.Numbering.{index_of}
use indic_rag.Citation.Extract.{Figure, CitationEntry, entry_of, entries, number_from, old_to_new}
use indic_rag.Base.{
  ==_iff, Bool-cases, Dict, List, Option, Option-cases, Text, Unique, [], ap, arith, get_elem?,
  if◌then◌else◌, inl, inr, insert, is_some, lookup, lookup-insert, map, mem, none, refl, some,
  subst, suc, sym, true, zero, ℕ, ◌&&◌, ◌+◌, ◌==◌, ◌∙◌, ◌∷◌, ◌≡◌, nat_eq, string_eq, pair_eq,
  list_eq, option_eq,
}

abbrev pub numbers : List CitationEntry → List ℕ
numbers cs = map (λ c. c.number) cs

pub old_to_new_lem :
    (k i : ℕ) (cs : List CitationEntry) (d : Dict ℕ ℕ)
    → Unique (numbers cs)
    → lookup k (old_to_new i cs d)
      ≡ (if mem k (numbers cs) then some (i + index_of k (numbers cs)) else lookup k d)
unfolding old_to_new
old_to_new_lem k i [] d u = refl
old_to_new_lem k i (c ∷ cs) d u = ground (
  arith,
  old_to_new_lem k (suc i) cs (insert c.number i d) u.1,
  lookup-insert c.number k i d,
  u.0,
)

pub get_elem?-number_from :
    (i j : ℕ) (cs : List CitationEntry) (c : CitationEntry)
    → get_elem? cs j ≡ some c
    → get_elem? (number_from i cs) j ≡ some (record c { number = i + j })
unfolding number_from
get_elem?-number_from i j [] c e = cc
get_elem?-number_from i zero (b ∷ cs) c e = ground (arith)
get_elem?-number_from i (suc j) (b ∷ cs) c e =
    get_elem?-number_from (suc i) j cs c e ∙ ap (λ n. some (record c { number = n })) (omega arith)

module _ (sections : Dict Text (List Text)) (figures : Dict (Option Text) (List Figure)) where
  pub mem-entries :
      (k : ℕ) (metas : Dict ℕ Meta) (nums : List ℕ)
      → mem k (numbers (entries sections figures metas nums))
        ≡ (mem k nums && is_some (lookup k metas))
  unfolding entries entry_of
  mem-entries k metas [] = refl
  mem-entries k metas (n ∷ nums) = elim (Option-cases (lookup n metas)) [
    | inl e0 ↦ ground (arith, e0, mem-entries k metas nums)
    | inr (m, e1) ↦ ground (arith, e1, mem-entries k metas nums)
  ]

  entries-none :
      (n : ℕ) (metas : Dict ℕ Meta) (nums : List ℕ)
      → lookup n metas ≡ none
      → entries sections figures metas (n ∷ nums) ≡ entries sections figures metas nums
  unfolding entries
  entries-none n metas nums e = rw (e, entries) refl

  entries-some :
      (n : ℕ) (m : Meta) (metas : Dict ℕ Meta) (nums : List ℕ)
      → lookup n metas ≡ some m
      → entries sections figures metas (n ∷ nums)
        ≡ entry_of sections figures n m ∷ entries sections figures metas nums
  unfolding entries
  entries-some n m metas nums e = rw (e, entries) refl

  pub entries-Unique :
      (metas : Dict ℕ Meta) (nums : List ℕ)
      → Unique nums
      → Unique (numbers (entries sections figures metas nums))
  unfolding entry_of
  entries-Unique metas [] u = unfold entries in tt
  entries-Unique metas (n ∷ nums) u = elim (Option-cases (lookup n metas)) [
    | inl e0 ↦
        subst (λ cs. Unique (numbers cs)) (sym (entries-none n metas nums e0))
          (entries-Unique metas nums u.1)
    | inr (m, e1) ↦
        subst (λ cs. Unique (numbers cs)) (sym (entries-some n m metas nums e1))
          (ground (arith, mem-entries n metas nums, u.0), entries-Unique metas nums u.1)
  ]

  -- the entry stands at the place of its number
  unfoldable pub StandsAt : ℕ → Meta → List CitationEntry → Type 0
  StandsAt k m cs = get_elem? cs (index_of k (numbers cs)) ≡ some (entry_of sections figures k m)

  pub get_elem?-entries :
      (k : ℕ) (m : Meta) (metas : Dict ℕ Meta) (nums : List ℕ)
      → mem k nums ≡ true
      → lookup k metas ≡ some m
      → StandsAt k m (entries sections figures metas nums)
  unfolding StandsAt entry_of
  get_elem?-entries k m metas [] h e = cc
  get_elem?-entries k m metas (n ∷ nums) h e = elim (Bool-cases (n == k)) [
    | inl same ↦
        let here : n ≡ k = (==_iff n k).0 same in
        subst (StandsAt k m) (sym (entries-some n m metas nums (ap (λ j. lookup j metas) here ∙ e)))
          (ground (arith, here))
    | inr other ↦
        let later = get_elem?-entries k m metas nums (ground arith) e in
        elim (Option-cases (lookup n metas)) [
          | inl e0 ↦ subst (StandsAt k m) (sym (entries-none n metas nums e0)) later
          | inr (m', e1) ↦
              subst (StandsAt k m) (sym (entries-some n m' metas nums e1)) (ground (arith, later))
        ]
  ]
