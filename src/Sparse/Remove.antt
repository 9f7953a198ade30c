-- ===== src/Sparse/Remove.antt =====
-- bm25_search.py: `remove_documents`.
use indic_rag.Sparse.{Slot, Index, remove_slots, remove_documents}
use indic_rag.Sparse.Live.{live_sum, live_sum_before, live_sum_ext}
use indic_rag.Sparse.Sound.{named, live, IsSound, tombstone_total}
use indic_rag.Base.{
  ==_iff, Bool-cases, Eq, List, [], ap, arith, false, get_elem?, if◌then◌else◌, inl, inr, mem, not,
  refl, some, suc, ℕ, ◌&&◌, ◌+◌, ◌∙◌, ◌∷◌, ◌≡◌, nat_eq, string_eq, pair_eq, list_eq,
}

module _ {Doc Term : Type 0} ⦃d : Eq Doc⦄ ⦃e : Eq Term⦄ where
  -- a quantity of the documents that are to go
  abbrev pub only : List Doc → (Slot Doc Term → ℕ) → Slot Doc Term → ℕ
  only wanted f s = if mem s.doc_id wanted then f s else 0

  -- what the loop has done when it has gone through the slots from `idx` on
  record Removed (wanted : List Doc) (idx : ℕ) (slots : List (Slot Doc Term)) (ix : Index Doc Term)
      (removed : ℕ) : Type 0 where
    after : Index Doc Term
    count : ℕ
    done : remove_slots wanted idx slots ix removed ≡ some (after, count)
    sound : IsSound after
    less :
        (f : Slot Doc Term → ℕ)
        → live f after + live_sum (only wanted f) idx ix.deleted slots ≡ live f ix
    counted : count ≡ removed + live_sum (only wanted (λ s. 1)) idx ix.deleted slots

  remove_slots_total :
      (wanted : List Doc) (idx : ℕ) (slots : List (Slot Doc Term)) (ix : Index Doc Term)
      (removed : ℕ)
      → IsSound ix
      → ((j k : ℕ) (s : Slot Doc Term)
          → j ≡ idx + k
          → get_elem? slots k ≡ some s
          → get_elem? ix.slots j ≡ some s)
      → Removed wanted idx slots ix removed
  unfolding remove_slots live_sum
  remove_slots_total wanted idx [] ix removed h part = record {
    after = ix;
    count = removed;
    done = refl;
    sound = h;
    less = λ f. omega arith;
    counted = omega arith;
  }
  remove_slots_total wanted idx (slot ∷ slots) ix removed h part =
      elim (Bool-cases (mem slot.doc_id wanted && not (mem idx ix.deleted))) [
        | inr stays ↦
            let r =
              remove_slots_total wanted (suc idx) slots ix removed h
                (λ j k s at g. part j (suc k) s (omega (arith, at)) g) in
            record {
              after = r.after;
              count = r.count;
              done = rw (stays, remove_slots) r.done;
              sound = r.sound;
              less = λ f. ground (arith, r.less f);
              counted = ground (arith, r.counted);
            }
        | inl goes ↦
            let alive : mem idx ix.deleted ≡ false = ground arith in
            let (ix1, b) =
              tombstone_total idx slot ix h (part idx 0 slot (omega arith) refl) alive in
            let r =
              remove_slots_total wanted (suc idx) slots ix1 (removed + 1) b.sound (λ j k s at g.
                ap (λ l. get_elem? l j) b.same_slots ∙ part j (suc k) s (omega (arith, at)) g) in
            let same : (f : Slot Doc Term → ℕ)
                → live_sum f (suc idx) ix1.deleted slots ≡ live_sum f (suc idx) ix.deleted slots =
              λ f.
                ap (λ l. live_sum f (suc idx) l slots) b.one_more
                ∙ live_sum_before f (suc idx) idx ix.deleted slots (omega arith) in
            record {
              after = r.after;
              count = r.count;
              done = rw (goes, b.done, remove_slots) r.done;
              sound = r.sound;
              less = λ f. ground (arith, r.less f, same (only wanted f), b.less f);
              counted = ground (arith, r.counted, same (only wanted (λ s. 1)));
            }
      ]

  live_sum_zero :
      (idx : ℕ) (deleted : List ℕ) (slots : List (Slot Doc Term))
      → live_sum (λ s. 0) idx deleted slots ≡ 0
  unfolding live_sum
  live_sum_zero idx deleted [] = refl
  live_sum_zero idx deleted (s ∷ slots) = ground (arith, live_sum_zero (suc idx) deleted slots)

  only-named :
      (wanted : List Doc) (x : Doc) (idx : ℕ) (deleted : List ℕ) (slots : List (Slot Doc Term))
      → live_sum (only wanted (named x)) idx deleted slots
        ≡ (if mem x wanted then live_sum (named x) idx deleted slots else 0)
  only-named wanted x idx deleted slots = elim (Bool-cases (mem x wanted)) [
    | inl goes ↦ rw goes (
        live_sum_ext (only wanted (named x)) (named x) idx deleted slots
          (λ s. ground (arith, ==_iff s.doc_id x, goes)))
    | inr stays ↦ rw stays (
        live_sum_ext (only wanted (named x)) (λ s. 0) idx deleted slots
          (λ s. ground (arith, ==_iff s.doc_id x, stays))
        ∙ live_sum_zero idx deleted slots)
  ]

  -- Removing names from a sound index succeeds and leaves a sound one: the names have no live
  -- document, every other name has as many as before, and the result counts those that went.
  pub remove_documents_total :
      (wanted : List Doc) (ix : Index Doc Term)
      → IsSound ix
      → (ix' : Index Doc Term) × (count : ℕ) × (remove_documents wanted ix ≡ some (ix', count))
        × IsSound ix'
        × ((x : Doc) → live (named x) ix' ≡ (if mem x wanted then 0 else live (named x) ix))
        × (live (λ s. 1) ix' + count ≡ live (λ s. 1) ix)
  unfolding remove_documents
  remove_documents_total wanted ix h =
      let r = remove_slots_total wanted 0 ix.slots ix 0 h (λ j k s at g.
        (let same : j ≡ k = omega (arith, at) in ap (get_elem? ix.slots) same ∙ g)) in
      (
        r.after,
        r.count,
        r.done,
        r.sound,
        λ x. ground (arith, r.less (named x), only-named wanted x 0 ix.deleted ix.slots),
        omega (arith, r.less (λ s. 1), r.counted),
      )
