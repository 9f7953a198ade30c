-- ===== src/Sparse/Search.antt =====
-- bm25_search.py: the query side of the index, and the fusion of two rankings.
use indic_rag.Sparse.{Index, n_docs}
use indic_rag.Base.{
  Bool, Dict, Eq, List, Option, [], get_elem?, if◌then◌else◌, insert, is_empty, keys, lookup, mem,
  none, or_else, some, suc, take, ℕ, ◌==◌, ◌||◌, ◌∷◌, nat_eq, string_eq, pair_eq, list_eq,
}

-- Floats with the operations that the scores use; `at_least` is `>=`.
pub record Score : Type 1 where
  pub F : Type 0
  pub zero_score : F
  pub add : F → F → F
  pub at_least : F → F → Bool
  -- `idf * (tf * (k1 + 1)) / denom`, by n_docs, the total length, df, tf and dl
  pub weight : ℕ → ℕ → ℕ → ℕ → ℕ → F
  -- `1 / (k + rank)`
  pub reciprocal : ℕ → ℕ → F

module _ {ℓ κ} {K : Type ℓ} {V : Type κ} where
  -- `sorted(..., key=..., reverse=True)`, which keeps the order of equals
  abbrev pub place_score : (V → V → Bool) → K × V → List (K × V) → List (K × V)
  place_score at_least x [] = x ∷ []
  place_score at_least x (y ∷ l) =
      if at_least x.1 y.1 then x ∷ y ∷ l else y ∷ place_score at_least x l

  abbrev pub by_score : (V → V → Bool) → List (K × V) → List (K × V)
  by_score at_least [] = []
  by_score at_least (x ∷ l) = place_score at_least x (by_score at_least l)

module _ (fl : Score) {Doc Term : Type 0} ⦃t : Eq Term⦄ where
  open fl use {F, zero_score, add, at_least, weight}

  -- the loop over the postings of a term
  unfoldable pub score_postings : Index Doc Term → ℕ → List (ℕ × ℕ) → Dict ℕ F → Option (Dict ℕ F)
  score_postings ix df [] scores = some scores
  score_postings ix df ((idx, tf) ∷ plist) scores =
      if mem idx ix.deleted
      then score_postings ix df plist scores
      else elim (get_elem? ix.slots idx) [
        | none ↦ none
        | some slot ↦ score_postings ix df plist (
            insert idx
              (add (or_else (lookup idx scores) zero_score)
                (weight (n_docs ix) ix.total_len df tf slot.doc_len))
              scores)
      ]

  -- the loop over the terms of the query
  unfoldable pub score_terms : Index Doc Term → List Term → Dict ℕ F → Option (Dict ℕ F)
  score_terms ix [] scores = some scores
  score_terms ix (term ∷ terms) scores =
      let df = or_else (lookup term ix.df) 0 in
      if is_empty (or_else (lookup term ix.postings) []) || df == 0
      then score_terms ix terms scores
      else elim (score_postings ix df (or_else (lookup term ix.postings) []) scores) [
        | none ↦ none
        | some after ↦ score_terms ix terms after
      ]

  -- `[self.doc_ids[i] for i, _ in ranked]`, with the scores
  unfoldable pub named : Index Doc Term → List (ℕ × F) → Option (List (Doc × F))
  named ix [] = some []
  named ix ((idx, score) ∷ ranked) = elim (get_elem? ix.slots idx) [
    | none ↦ none
    | some slot ↦ elim (named ix ranked) [
      | none ↦ none
      | some rest ↦ some ((slot.doc_id, score) ∷ rest)
    ]
  ]

  -- `search`: the two lists as one of pairs. `query_terms` is `_tokenize(query)`, and `as_set` the
  -- order in which the set of them is run through; no result stands for an IndexError.
  unfoldable pub search :
      (List Term → List Term) → List Term → ℕ → Index Doc Term → Option (List (Doc × F))
  search as_set query_terms top_k ix =
      if n_docs ix == 0 || is_empty query_terms
      then some []
      else elim (score_terms ix (as_set query_terms) []) [
        | none ↦ none
        | some scores ↦ named ix (take top_k (by_score at_least scores))
      ]

module _ (fl : Score) {Doc : Type 0} ⦃d : Eq Doc⦄ where
  open fl use {F, zero_score, add, at_least, reciprocal}

  -- one loop of `rrf`, from a rank on
  unfoldable pub add_ranks : ℕ → ℕ → List Doc → Dict Doc F → Dict Doc F
  add_ranks k rank [] scores = scores
  add_ranks k rank (id ∷ ids) scores =
      add_ranks k (suc rank) ids
        (insert id (add (or_else (lookup id scores) zero_score) (reciprocal k rank)) scores)

  unfoldable pub rrf : ℕ → List Doc → List Doc → List Doc
  unfolding add_ranks
  rrf k dense_ids sparse_ids =
      keys (by_score at_least (add_ranks k 1 sparse_ids (add_ranks k 1 dense_ids [])))
