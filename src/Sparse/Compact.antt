-- ===== src/Sparse/Compact.antt =====
-- bm25_search.py: the documents of an index, under `compact`.
use indic_rag.Sparse.{Slot, Index, survivors, sum_lens, compacted, compact}
use indic_rag.Sparse.Live.{live_sum}
use indic_rag.Sparse.Sound.{live, IsSound}
use indic_rag.Base.{
  Bool-cases, Eq, List, [], arith, inl, inr, is_empty, length, mem, refl, suc, true, ℕ, ◌+◌, ◌∷◌,
  ◌≡◌, nat_eq, string_eq, pair_eq, list_eq,
}

module _ {Doc Term : Type 0} ⦃d : Eq Doc⦄ ⦃e : Eq Term⦄ where
  live_sum-survivors :
      (f : Slot Doc Term → ℕ) (i idx : ℕ) (deleted : List ℕ) (slots : List (Slot Doc Term))
      → live_sum f i [] (survivors idx deleted slots) ≡ live_sum f idx deleted slots
  unfolding live_sum survivors
  live_sum-survivors f i idx deleted [] = refl
  live_sum-survivors f i idx deleted (s ∷ slots) = elim (Bool-cases (mem idx deleted)) [
    | inl dead ↦ rw dead (ground (arith, live_sum-survivors f i (suc idx) deleted slots))
    | inr alive ↦ rw alive (ground (arith, live_sum-survivors f (suc i) (suc idx) deleted slots))
  ]

  sum_lens_lem :
      (i : ℕ) (slots : List (Slot Doc Term)) → sum_lens slots ≡ live_sum (λ s. s.doc_len) i [] slots
  unfolding sum_lens live_sum
  sum_lens_lem i [] = refl
  sum_lens_lem i (s ∷ slots) = ground (arith, sum_lens_lem (suc i) slots)

  length-live_sum :
      (i : ℕ) (slots : List (Slot Doc Term)) → length slots ≡ live_sum (λ s. 1) i [] slots
  unfolding live_sum
  length-live_sum i [] = refl
  length-live_sum i (s ∷ slots) = ground (arith, length-live_sum (suc i) slots)

  -- the same documents without tombstones, and a count of the slots
  abbrev pub Compacts : Index Doc Term → Index Doc Term × ℕ → Type 0
  Compacts ix (ix', freed) =
      (ix'.deleted ≡ [])
      × ((f : Slot Doc Term → ℕ) → live f ix' ≡ live f ix)
      × (ix'.total_len ≡ live (λ s. s.doc_len) ix')
      × (length ix'.slots + freed ≡ length ix.slots)

  compacted-Compacts :
      (ix : Index Doc Term) → IsSound ix → Compacts ix (compacted ix, length ix.deleted)
  unfolding compacted
  compacted-Compacts ix h =
      let staying = survivors 0 ix.deleted ix.slots in
      (
        refl,
        λ f. live_sum-survivors f 0 0 ix.deleted ix.slots,
        sum_lens_lem 0 staying,
        omega (
          arith,
          h.sized,
          length-live_sum 0 staying,
          live_sum-survivors (λ s. 1) 0 0 ix.deleted ix.slots,
        ),
      )

  -- Compacting a sound index leaves no tombstone and the same live documents, by every sum over
  -- them; the total length stays right, and the result is the number of slots that were freed.
  pub compact-Compacts : (ix : Index Doc Term) → IsSound ix → Compacts ix (compact ix)
  unfolding compact
  compact-Compacts ix h = elim (Bool-cases (is_empty ix.deleted)) [
    | inl none_dead ↦
        rw (none_dead, compact) (empty_list ix.deleted none_dead, λ f. refl, h.total, omega arith)
    | inr some_dead ↦ rw (some_dead, compact) (compacted-Compacts ix h)
  ]
    where
      empty_list : (l : List ℕ) → is_empty l ≡ true → l ≡ []
      empty_list [] e = refl
      empty_list (k ∷ ks) e = cc
