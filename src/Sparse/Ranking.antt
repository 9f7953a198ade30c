-- ===== src/Sparse/Ranking.antt =====
-- bm25_search.py: what a search returns, and what the fusion of two rankings keeps.

use indic_rag.Sparse.Search.{Score, place_score, by_score, add_ranks, rrf}
use indic_rag.Base.{
  Bool, Dict, Eq, List, Unique, [], arith, false, insert, insert-Unique, keys, lookup, mem,
  mem-keys-insert, or_else, refl, suc, ℕ, ◌==◌, ◌||◌, ◌∙◌, ◌∷◌, ◌≡◌, nat_eq, string_eq, pair_eq,
  list_eq,
}

module _ {ℓ κ} {K : Type ℓ} {V : Type κ} ⦃e : Eq K⦄ where
  pub keys-place_score :
      (at_least : V → V → Bool) (j : K) (x : K × V) (l : Dict K V)
      → mem j (keys (place_score at_least x l)) ≡ (x.0 == j || mem j (keys l))
  keys-place_score at_least j x [] = refl
  keys-place_score at_least j x (y ∷ l) = ground (arith, keys-place_score at_least j x l)

  pub place_score-Unique :
      (at_least : V → V → Bool) (x : K × V) (l : Dict K V)
      → mem x.0 (keys l) ≡ false
      → Unique (keys l)
      → Unique (keys (place_score at_least x l))
  place_score-Unique at_least x [] h u = (refl, tt)
  place_score-Unique at_least x (y ∷ l) h u = ground (
    arith,
    place_score-Unique at_least x l,
    keys-place_score at_least y.0 x l,
    e.beq_iff x.0 y.0,
    e.beq_iff y.0 x.0,
  )

  pub keys-by_score :
      (at_least : V → V → Bool) (j : K) (l : Dict K V)
      → mem j (keys (by_score at_least l)) ≡ mem j (keys l)
  keys-by_score at_least j [] = refl
  keys-by_score at_least j (x ∷ l) =
      ground
        (arith, keys-place_score at_least j x (by_score at_least l), keys-by_score at_least j l)

  pub by_score-Unique :
      (at_least : V → V → Bool) (l : Dict K V)
      → Unique (keys l)
      → Unique (keys (by_score at_least l))
  by_score-Unique at_least [] u = tt
  by_score-Unique at_least (x ∷ l) u =
      place_score-Unique at_least x (by_score at_least l) (keys-by_score at_least x.0 l ∙ u.0)
        (by_score-Unique at_least l u.1)

module _ (fl : Score) {Doc : Type 0} ⦃d : Eq Doc⦄ where
  pub keys-add_ranks :
      (k rank : ℕ) (j : Doc) (ids : List Doc) (scores : Dict Doc fl.F)
      → mem j (keys (add_ranks fl k rank ids scores)) ≡ (mem j ids || mem j (keys scores))
  unfolding add_ranks
  keys-add_ranks k rank j [] scores = refl
  keys-add_ranks k rank j (id ∷ ids) scores =
      let score = fl.add (or_else (lookup id scores) fl.zero_score) (fl.reciprocal k rank) in
      ground (
        arith,
        keys-add_ranks k (suc rank) j ids (insert id score scores),
        mem-keys-insert id j score scores,
      )

  pub add_ranks-Unique :
      (k rank : ℕ) (ids : List Doc) (scores : Dict Doc fl.F)
      → Unique (keys scores)
      → Unique (keys (add_ranks fl k rank ids scores))
  unfolding add_ranks
  add_ranks-Unique k rank [] scores u = u
  add_ranks-Unique k rank (id ∷ ids) scores u =
      add_ranks-Unique k (suc rank) ids _ (insert-Unique id _ scores u)

  -- The fusion of a dense and a sparse ranking has exactly the ids of the two, and each of them once,
  -- whatever the scores.
  pub rrf-Merges :
      (k : ℕ) (dense_ids sparse_ids : List Doc) (j : Doc)
      → Unique (rrf fl k dense_ids sparse_ids)
        × (mem j (rrf fl k dense_ids sparse_ids) ≡ (mem j dense_ids || mem j sparse_ids))
  unfolding rrf
  rrf-Merges k dense_ids sparse_ids j =
      let dense = add_ranks fl k 1 dense_ids [] in
      let both = add_ranks fl k 1 sparse_ids dense in
      (
        by_score-Unique fl.at_least both
            (add_ranks-Unique k 1 sparse_ids dense (add_ranks-Unique k 1 dense_ids [] tt)),
        ground (
          arith,
          keys-by_score fl.at_least j both,
          keys-add_ranks k 1 j sparse_ids dense,
          keys-add_ranks k 1 j dense_ids [],
        ),
      )
