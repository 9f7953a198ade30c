-- ===== src/Report/Registry.antt =====
-- report_runner.py: the registry of a review and the numbers of a section's markers.

use indic_rag.Citation.Numbering.{
  index_of, add_new, distinct_from, index_of-distinct_from, enumerate, lookup-enumerate,
  mem-add_new,
}
use indic_rag.Citation.Agree.{next_nums}
use indic_rag.Report.{Cite, register}
use indic_rag.Base.{
  ==_refl, Dict, List, Option, Option-cases, Text, [], ap, arith, if◌then◌else◌, inl, inr, lookup,
  lookup-insert, map, mem, none, or_else, refl, some, suc, sym, true, ℕ, ◌==◌, ◌∙◌, ◌∷◌, ◌≡◌,
  nat_eq, string_eq, pair_eq, list_eq,
}

abbrev pub titles : List Cite → List Text
titles cs = map (λ c. c.title) cs

-- the paper that a number stands for in a section: the last citation that bears it
abbrev pub title_at : Text → List Cite → Option Text
title_at p [] = none
title_at p (c ∷ cs) = elim (title_at p cs) [
  | none ↦ if c.number == p then some c.title else none
  | some t ↦ some t
]

-- the place of a paper's title among the document's, from 1
abbrev pub place_in : List Text → Option Text → Option ℕ
place_in all none = none
place_in all (some t) = some (suc (index_of t all))

-- the local table, when the papers from `known` on are numbered in `all`
abbrev pub table : List Text → Option Text → Option ℕ → Option ℕ
table all none old = old
table all (some t) old = place_in all (some t)

number_of :
    (t : Text) (known : List Text)
    → or_else (lookup t (enumerate 0 (add_new t known))) 0 ≡ suc (index_of t (add_new t known))
number_of t known =
    ground (arith, lookup-enumerate t 0 (add_new t known), mem-add_new t t known, ==_refl t)

register_table :
    (p t : Text) (number : Text) (o : Option Text) (all : List Text) (d : Option ℕ)
    → table all o (if number == p then some (suc (index_of t all)) else d)
      ≡ table all (elim o [ none ↦ if number == p then some t else none | some u ↦ some u ]) d
register_table p t number none all d = ground arith
register_table p t number (some u) all d = refl

-- the number of a title that is known now, among the papers of the whole document
final_number :
    (t : Text) (known later : List Text) (grown : Dict Text ℕ)
    → grown ≡ enumerate 0 (add_new t known)
    → or_else (lookup t grown) 0 ≡ suc (index_of t (distinct_from (add_new t known) later))
final_number t known later grown e =
    ap (λ d. or_else (lookup t d) 0) e
    ∙ number_of t known
    ∙ ap suc (
        sym (
          index_of-distinct_from t (add_new t known) later
            (ground (arith, mem-add_new t t known, ==_refl t))))

pub register_registry :
    (cs : List Cite) (known : List Text) (registry local : Dict Text ℕ)
    → registry ≡ enumerate 0 known
    → (register cs registry local).0 ≡ enumerate 0 (distinct_from known (titles cs))
unfolding register
register_registry [] known registry local e = e
register_registry (c ∷ cs) known registry local e =
    register_registry cs (add_new c.title known) _ _ (next_nums c.title known registry e)

pub register_local :
    (p : Text) (cs : List Cite) (known : List Text) (registry local : Dict Text ℕ)
    → registry ≡ enumerate 0 known
    → lookup p (register cs registry local).1
      ≡ table (distinct_from known (titles cs)) (title_at p cs) (lookup p local)
unfolding register
register_local p [] known registry local e = refl
register_local p (c ∷ cs) known registry local e =
    let grown = next_nums c.title known registry e in
    let all = distinct_from (add_new c.title known) (titles cs) in
    register_local p cs (add_new c.title known) _ _ grown
    ∙ ap (table all (title_at p cs)) (
        lookup-insert c.number p _ local
        ∙ ap (λ n. if c.number == p then some n else lookup p local)
            (final_number c.title known (titles cs) _ grown))
    ∙ register_table p c.title c.number (title_at p cs) all (lookup p local)

-- the places do not move when more papers join
pub place_later :
    (known later : List Text) (o : Option Text)
    → ((t : Text) → o ≡ some t → mem t known ≡ true)
    → place_in known o ≡ place_in (distinct_from known later) o
place_later known later none h = refl
place_later known later (some t) h =
    ap (λ n. some (suc n)) (sym (index_of-distinct_from t known later (h t refl)))

pub table_none : (all : List Text) (o : Option Text) → table all o none ≡ place_in all o
table_none all none = refl
table_none all (some t) = refl

pub title_at-mem : (p t : Text) (cs : List Cite) → title_at p cs ≡ some t → mem t (titles cs) ≡ true
title_at-mem p t [] e = cc
title_at-mem p t (c ∷ cs) e = elim (Option-cases (title_at p cs)) [
  | inl e0 ↦ ground (arith, e0, e, ==_refl t)
  | inr (u, e1) ↦ ground (arith, e1, e, title_at-mem p u cs e1)
]
