-- ===== src/Sparse/Found.antt =====
-- bm25_search.py: what a search returns.
use indic_rag.Sparse.{Index, Slot, n_docs}
use indic_rag.Sparse.Search.{
  Score, place_score, by_score, score_postings, score_terms, named, search,
}
use indic_rag.Base.{
  Bool, Bool-cases, Dict, Eq, List, Option, Option-cases, [], ap, arith, false, get_elem?, inl, inr,
  insert, is_empty, is_some, length, length-take-le, lookup, mem, none, not, or_else, refl, some,
  suc, take, true, zero, ℕ, ◌&&◌, ◌==◌, ◌||◌, ◌∷◌, ◌≡◌, ◌≤◌, nat_eq, string_eq, pair_eq, list_eq,
}

module _ {ℓ} {V : Type ℓ} where
  -- the indexes of a ranking pass a test
  abbrev pub IndexesPass : (ℕ → Bool) → List (ℕ × V) → Type 0
  IndexesPass p [] = Unit
  IndexesPass p ((i, v) ∷ l) = (p i ≡ true) × IndexesPass p l

  insert-IndexesPass :
      (p : ℕ → Bool) (i : ℕ) (v : V) (d : Dict ℕ V)
      → p i ≡ true
      → IndexesPass p d
      → IndexesPass p (insert i v d)
  unfolding insert
  insert-IndexesPass p i v [] h a = (h, tt)
  insert-IndexesPass p i v ((j, w) ∷ d) h a = elim (Bool-cases (j == i)) [
    | inl e ↦ rw (e) a
    | inr e ↦ rw (e) (a.0, insert-IndexesPass p i v d h a.1)
  ]

  place_score-IndexesPass :
      (p : ℕ → Bool) (at_least : V → V → Bool) (i : ℕ) (v : V) (l : List (ℕ × V))
      → p i ≡ true
      → IndexesPass p l
      → IndexesPass p (place_score at_least (i, v) l)
  place_score-IndexesPass p at_least i v [] h a = (h, tt)
  place_score-IndexesPass p at_least i v ((j, w) ∷ l) h a = elim (Bool-cases (at_least v w)) [
    | inl e ↦ rw (e) (h, a)
    | inr e ↦ rw (e) (a.0, place_score-IndexesPass p at_least i v l h a.1)
  ]

  by_score-IndexesPass :
      (p : ℕ → Bool) (at_least : V → V → Bool) (l : List (ℕ × V))
      → IndexesPass p l
      → IndexesPass p (by_score at_least l)
  by_score-IndexesPass p at_least [] a = tt
  by_score-IndexesPass p at_least ((i, v) ∷ l) a =
      place_score-IndexesPass p at_least i v (by_score at_least l) a.0
        (by_score-IndexesPass p at_least l a.1)

  take-IndexesPass :
      (p : ℕ → Bool) (n : ℕ) (l : List (ℕ × V)) → IndexesPass p l → IndexesPass p (take n l)
  take-IndexesPass p zero l a = tt
  take-IndexesPass p (suc n) [] a = tt
  take-IndexesPass p (suc n) ((i, v) ∷ l) a = (a.0, take-IndexesPass p n l a.1)

module _ (fl : Score) {Doc Term : Type 0} ⦃t : Eq Term⦄ where
  -- an index of a slot that is not a tombstone
  abbrev pub is_live : Index Doc Term → ℕ → Bool
  is_live ix i = not (mem i ix.deleted) && is_some (get_elem? ix.slots i)

  -- The postings of a list stand for slots that are there.
  abbrev pub IsInRange : Index Doc Term → List (ℕ × ℕ) → Type 0
  IsInRange ix [] = Unit
  IsInRange ix ((idx, tf) ∷ plist) = (is_some (get_elem? ix.slots idx) ≡ true) × IsInRange ix plist

  -- The postings of every term do.
  unfoldable pub IsPosted : Index Doc Term → Type 0
  IsPosted ix = (term : Term) → IsInRange ix (or_else (lookup term ix.postings) [])

  -- A document of the answer stands in a slot that is not a tombstone.
  unfoldable pub IsLive : Index Doc Term → Doc → Type 0
  IsLive ix id =
      (i : ℕ) × (slot : Slot Doc Term) × (get_elem? ix.slots i ≡ some slot)
      × (slot.doc_id ≡ id)
      × (mem i ix.deleted ≡ false)

  abbrev pub AllLive : Index Doc Term → List (Doc × fl.F) → Type 0
  AllLive ix [] = Unit
  AllLive ix ((id, score) ∷ found) = IsLive ix id × AllLive ix found

  abbrev Passes : Index Doc Term → Option (Dict ℕ fl.F) → Type 0
  Passes ix none = ⊥
  Passes ix (some scores) = IndexesPass (is_live ix) scores

  score_postings-Passes :
      (ix : Index Doc Term) (df : ℕ) (plist : List (ℕ × ℕ)) (scores : Dict ℕ fl.F)
      → IsInRange ix plist
      → IndexesPass (is_live ix) scores
      → Passes ix (score_postings fl ix df plist scores)
  unfolding score_postings
  score_postings-Passes ix df [] scores r a = a
  score_postings-Passes ix df ((idx, tf) ∷ plist) scores r a =
      elim (Bool-cases (mem idx ix.deleted)) [
        | inl e ↦ rw (e) (score_postings-Passes ix df plist scores r.1 a)
        | inr e ↦ elim (Option-cases (get_elem? ix.slots idx)) [
          | inl g ↦ absurd (ground (arith, g, r.0))
          | inr (slot, g) ↦
              rw (e, g)
                (score_postings-Passes ix df plist _ r.1
                  (insert-IndexesPass (is_live ix) idx _ scores (rw (e, g) refl) a))
        ]
      ]

  score_terms-Passes :
      (ix : Index Doc Term) (terms : List Term) (scores : Dict ℕ fl.F)
      → IsPosted ix
      → IndexesPass (is_live ix) scores
      → Passes ix (score_terms fl ix terms scores)
  unfolding score_terms IsPosted
  score_terms-Passes ix [] scores r a = a
  score_terms-Passes ix (term ∷ terms) scores r a =
      let df = or_else (lookup term ix.df) 0 in
      let plist = or_else (lookup term ix.postings) [] in
      elim (Bool-cases (is_empty plist || df == 0)) [
        | inl e ↦ rw (e) (score_terms-Passes ix terms scores r a)
        | inr e ↦ rw (e) (
            after (score_postings fl ix df plist scores) (λ x b. score_terms-Passes ix terms x r b)
              (score_postings-Passes ix df plist scores (r term) a))
      ]
    where
      after :
          (o : Option (Dict ℕ fl.F))
          → ((x : Dict ℕ fl.F) → IndexesPass (is_live ix) x → Passes ix (score_terms fl ix terms x))
          → Passes ix o
          → Passes ix (elim o [ none ↦ none | some x ↦ score_terms fl ix terms x ])
      after none next b = b
      after (some x) next b = next x b

  -- what `named` gives, if it gives something
  abbrev Named : Index Doc Term → ℕ → Option (List (Doc × fl.F)) → Type 0
  Named ix n none = ⊥
  Named ix n (some found) = (length found ≡ n) × AllLive ix found

  named-Named :
      (ix : Index Doc Term) (ranked : List (ℕ × fl.F))
      → IndexesPass (is_live ix) ranked
      → Named ix (length ranked) (named fl ix ranked)
  unfolding named IsLive
  named-Named ix [] a = (refl, tt)
  named-Named ix ((idx, score) ∷ ranked) a =
      at_slot (get_elem? ix.slots idx) refl (named fl ix ranked) (named-Named ix ranked a.1)
    where
      at_slot :
          (o : Option (Slot Doc Term))
          → get_elem? ix.slots idx ≡ o
          → (rest : Option (List (Doc × fl.F))) → Named ix (length ranked) rest
          → Named ix (suc (length ranked)) (elim o [
            | none ↦ none
            | some slot ↦ elim rest [ none ↦ none | some l ↦ some ((slot.doc_id, score) ∷ l) ]
          ])
      at_slot none e rest b = absurd (ground (arith, e, a.0))
      at_slot (some slot) e none b = b
      at_slot (some slot) e (some l) b =
          (ap suc b.0, ((idx, slot, e, refl, ground (arith, a.0)), b.1))

  -- what a search is to give
  unfoldable pub IsFound : Index Doc Term → ℕ → Option (List (Doc × fl.F)) → Type 0
  IsFound ix top_k none = ⊥
  IsFound ix top_k (some found) = (length found ≤ top_k) × AllLive ix found

  -- A search returns, gives `top_k` documents at most, and each of them stands in a slot of the index
  -- that is not a tombstone: a document that has been removed or replaced is never found. The postings
  -- of the index stand for slots that are there.
  pub search-IsFound :
      (as_set : List Term → List Term) (query_terms : List Term) (top_k : ℕ) (ix : Index Doc Term)
      → IsPosted ix
      → IsFound ix top_k (search fl as_set query_terms top_k ix)
  unfolding search IsFound
  search-IsFound as_set query_terms top_k ix r =
      elim (Bool-cases (n_docs ix == 0 || is_empty query_terms)) [
        | inl e ↦ rw (e) (omega arith, tt)
        | inr e ↦ rw (e) (
            ranked (score_terms fl ix (as_set query_terms) [])
              (score_terms-Passes ix (as_set query_terms) [] r tt))
      ]
    where
      answer :
          (o : Option (List (Doc × fl.F))) (n : ℕ) → n ≤ top_k → Named ix n o → IsFound ix top_k o
      answer none n h b = b
      answer (some found) n h b = (omega (arith, b.0, h), b.1)

      ranked :
          (o : Option (Dict ℕ fl.F))
          → Passes ix o
          → IsFound ix top_k (elim o [
            | none ↦ none
            | some scores ↦ named fl ix (take top_k (by_score fl.at_least scores))
          ])
      ranked none b = b
      ranked (some scores) b =
          let best = take top_k (by_score fl.at_least scores) in
          answer (named fl ix best) (length best)
            (length-take-le top_k (by_score fl.at_least scores))
            (named-Named ix best (
              take-IndexesPass (is_live ix) top_k (by_score fl.at_least scores)
                (by_score-IndexesPass (is_live ix) fl.at_least scores b)))
