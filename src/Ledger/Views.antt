-- ===== src/Ledger/Views.antt =====
-- check_db.py: `reconcile` on the rows of the log and of the collection.
use indic_rag.Ledger.{Database, get_ingest_events}
use indic_rag.Ledger.Reconcile.{
  add_id, add_ids, ids_by_paper, log_rows, chroma_rows, compare_views, reconcile,
}
use indic_rag.Ledger.Consistent.{ServesExactly, holding, mem-add_ids, compare_views-Agree}
use indic_rag.Base.{
  ==_iff, All, Bool, Bool-cases, Dict, List, Option, Text, Unique, [], ap, arith, false,
  if◌then◌else◌, inl, inr, insert, insert-Unique, is_empty, keys, lookup, lookup-insert, mem, none,
  not, or_else, refl, some, subst, sym, true, ◌&&◌, ◌==◌, ◌||◌, ◌↔◌, ◌∙◌, ◌∷◌, ◌≡◌, nat_eq,
  string_eq, pair_eq, list_eq,
}

-- whether some row gives the id to the paper; rows without a paper do not count
abbrev pub holds : List (Text × List Text) → Text → Text → Bool
holds [] pid i = false
holds ((p, ids) ∷ rows) pid i = (not (is_empty p) && (p == pid && mem i ids)) || holds rows pid i

ids_by_paper-Unique :
    (rows : List (Text × List Text)) (papers : Dict Text (List Text))
    → Unique (keys papers)
    → Unique (keys (ids_by_paper rows papers))
unfolding ids_by_paper
ids_by_paper-Unique [] papers u = u
ids_by_paper-Unique (([], ids) ∷ rows) papers u = ids_by_paper-Unique rows papers u
ids_by_paper-Unique ((c ∷ p, ids) ∷ rows) papers u =
    ids_by_paper-Unique rows
      (insert (c ∷ p) (add_ids ids (or_else (lookup (c ∷ p) papers) [])) papers)
      (insert-Unique (c ∷ p) _ papers u)

ids_by_paper-holding :
    (rows : List (Text × List Text)) (papers : Dict Text (List Text)) (pid i : Text)
    → holding (ids_by_paper rows papers) pid i ≡ (holds rows pid i || holding papers pid i)
unfolding ids_by_paper
ids_by_paper-holding [] papers pid i = refl
ids_by_paper-holding (([], ids) ∷ rows) papers pid i = ids_by_paper-holding rows papers pid i
ids_by_paper-holding ((c ∷ p, ids) ∷ rows) papers pid i =
    let old = or_else (lookup (c ∷ p) papers) [] in
    ids_by_paper-holding rows (insert (c ∷ p) (add_ids ids old) papers) pid i
    ∙ ap (λ b. holds rows pid i || b)
        (inserted (lookup-insert (c ∷ p) pid (add_ids ids old) papers))
    ∙ ground arith
  where
    inserted :
        (lookup pid (insert (c ∷ p) (add_ids ids (or_else (lookup (c ∷ p) papers) [])) papers) ≡ (
          if (c ∷ p) == pid
          then some (add_ids ids (or_else (lookup (c ∷ p) papers) []))
          else lookup pid papers))
        → holding (insert (c ∷ p) (add_ids ids (or_else (lookup (c ∷ p) papers) [])) papers) pid i
          ≡ (((c ∷ p) == pid && mem i ids) || holding papers pid i)
    inserted e = ap (λ o. mem i (or_else o [])) e ∙ elim (Bool-cases ((c ∷ p) == pid)) [
      | inl same ↦
          ap
            (λ b. mem i (
              or_else
                (if b
                  then some (add_ids ids (or_else (lookup (c ∷ p) papers) []))
                  else lookup pid papers)
                []))
            same
          ∙ mem-add_ids i ids (or_else (lookup (c ∷ p) papers) [])
          ∙ ap (λ t. mem i ids || holding papers t i) ((==_iff (c ∷ p) pid).0 same)
          ∙ ap (λ b. (b && mem i ids) || holding papers pid i) (sym same)
      | inr other ↦
          ap
            (λ b. mem i (
              or_else
                (if b
                  then some (add_ids ids (or_else (lookup (c ∷ p) papers) []))
                  else lookup pid papers)
                []))
            other
          ∙ ap (λ b. (b && mem i ids) || holding papers pid i) (sym other)
    ]

-- every paper of the collection has an id
abbrev Filled : Dict Text (List Text) → Type 0
Filled d = All (λ r. is_empty r.1 ≡ false) d

insert-Filled :
    (k : Text) (v : List Text) (d : Dict Text (List Text))
    → is_empty v ≡ false
    → Filled d
    → Filled (insert k v d)
unfolding insert
insert-Filled k v [] h f = (h, tt)
insert-Filled k v ((j, w) ∷ d) h f = go (j == k) (insert-Filled k v d h f.1)
  where
    go :
        (b : Bool)
        → Filled (insert k v d)
        → Filled (if b then (j, v) ∷ d else (j, w) ∷ insert k v d)
    go true rest = (h, f.1)
    go false rest = (f.0, rest)

add_id-filled : (i : Text) (ids : List Text) → is_empty (add_id i ids) ≡ false
add_id-filled i [] = refl
add_id-filled i (j ∷ ids) = ground arith

chroma_rows-Filled :
    (found : List (Text × Option Text)) (papers : Dict Text (List Text))
    → Filled papers
    → Filled (ids_by_paper (chroma_rows found) papers)
unfolding ids_by_paper add_ids
chroma_rows-Filled [] papers f = f
chroma_rows-Filled ((i, none) ∷ found) papers f = chroma_rows-Filled found papers f
chroma_rows-Filled ((i, some []) ∷ found) papers f = chroma_rows-Filled found papers f
chroma_rows-Filled ((i, some (c ∷ p)) ∷ found) papers f =
    chroma_rows-Filled found _
      (insert-Filled (c ∷ p) _ papers (add_id-filled i (or_else (lookup (c ∷ p) papers) [])) f)

view_lem : (rows : List (Text × List Text)) → holding (ids_by_paper rows []) ≡ holds rows
view_lem rows = λ k pid i. (ids_by_paper-holding rows [] pid i ∙ nothing pid i) k
  where
    nothing : (pid i : Text) → (holds rows pid i || holding [] pid i) ≡ holds rows pid i
    nothing pid i = unfold lookup in ground arith

-- The check reports consistency exactly if every paper has the same chunk ids in the committed log as
-- in the collection, and the lexical index, if there is one, serves the ids of the collection's
-- papers and no other.
pub reconcile-consistent :
    (db : Database) (found : List (Text × Option Text)) (bm25 : Option (List Text))
    → (let logged = holds (log_rows (get_ingest_events db)) in
        let in_chroma = holds (chroma_rows found) in
        ((reconcile db found bm25).consistent ≡ true)
        ↔ (((pid i : Text) → logged pid i ≡ in_chroma pid i) × ServesExactly bm25 in_chroma))
unfolding reconcile
reconcile-consistent db found bm25 =
    let log = ids_by_paper (log_rows (get_ingest_events db)) [] in
    let chroma = ids_by_paper (chroma_rows found) [] in
    subst
      (λ logged. ((compare_views log chroma bm25).consistent ≡ true) ↔ (
        ((pid i : Text) → logged pid i ≡ holds (chroma_rows found) pid i)
        × ServesExactly bm25 (holds (chroma_rows found))))
      (view_lem (log_rows (get_ingest_events db)))
      (subst
        (λ in_chroma.
          ((compare_views log chroma bm25).consistent ≡ true)
          ↔ (((pid i : Text) → holding log pid i ≡ in_chroma pid i) × ServesExactly bm25 in_chroma))
        (view_lem (chroma_rows found))
        (compare_views-Agree log chroma bm25
          (ids_by_paper-Unique (log_rows (get_ingest_events db)) [] tt)
          (ids_by_paper-Unique (chroma_rows found) [] tt) (chroma_rows-Filled found [] tt)))
