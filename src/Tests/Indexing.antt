-- ===== src/Tests/Indexing.antt =====
-- Updates of a sparse index, with numbers for names and terms.
use indic_rag.Sparse.{
  survivors, remap, kept, kept_postings, counts_of, sum_lens, compacted, compact, Slot, Index,
  empty_index, counter, lower_df, raise_df, post, tombstone, live_ids, append_slot, bury, add_all,
  add_documents, build, remove_slots, remove_documents,
}
use indic_rag.Sparse.Live.{live_sum}
use indic_rag.Sparse.Compact.{Compacts, compact-Compacts}
use indic_rag.Sparse.Sound.{named, live, IsSound}
use indic_rag.Sparse.Update.{Added, add_documents_total}
use indic_rag.Sparse.Remove.{remove_documents_total}
use indic_rag.Base.{
  ==_iff, List, Option, Unique, [], arith, get_elem?, if◌then◌else◌, insert, lookup, mem, none,
  refl, some, subst, suc, zero, ℕ, ◌+◌, ◌∷◌, ◌≡◌, nat_eq, string_eq, pair_eq, list_eq,
}

program : Unit {0}
unfolding survivors remap kept kept_postings counts_of sum_lens compacted compact counter lower_df
    raise_df post tombstone live_ids append_slot bury add_all add_documents build remove_slots
    remove_documents live_sum lookup insert
program = tt

abbrev docs : List (ℕ × List ℕ)
docs = (1, 7 ∷ 8 ∷ 7 ∷ []) ∷ (2, 8 ∷ []) ∷ []

abbrev slot_1 : Slot ℕ ℕ
slot_1 = record { doc_id = 1; doc_len = 3; doc_terms = 7 ∷ 8 ∷ [] }

abbrev slot_2 : Slot ℕ ℕ
slot_2 = record { doc_id = 2; doc_len = 1; doc_terms = 8 ∷ [] }

abbrev two_docs : Index ℕ ℕ
two_docs = record {
  slots = slot_1 ∷ slot_2 ∷ [];
  postings = (7, (0, 2) ∷ []) ∷ (8, (0, 1) ∷ (1, 1) ∷ []) ∷ [];
  deleted = [];
  df = (7, 1) ∷ (8, 2) ∷ [];
  total_len = 4;
}

built : build (λ tokens. tokens) docs ≡ some two_docs
unfolding program
built = refl

-- the first document again, with another text
updated :
    add_documents (λ tokens. tokens) ((1, 9 ∷ []) ∷ []) two_docs
    ≡ some (record {
      slots = slot_1 ∷ slot_2 ∷ record { doc_id = 1; doc_len = 1; doc_terms = 9 ∷ [] } ∷ [];
      postings = (7, (0, 2) ∷ []) ∷ (8, (0, 1) ∷ (1, 1) ∷ []) ∷ (9, (2, 1) ∷ []) ∷ [];
      deleted = 0 ∷ [];
      df = (7, 0) ∷ (8, 1) ∷ (9, 1) ∷ [];
      total_len = 2;
    })
unfolding program
updated = refl

empty-IsSound : IsSound (empty_index {Doc = ℕ} {Term = ℕ})
unfolding live_sum lookup
empty-IsSound = record {
  placed = λ k h. cc;
  sized = refl;
  total = refl;
  frequent = λ t. refl;
  single = λ x. omega arith;
  distinct = λ k slot h. cc;
}

add_documents_total_example :
    (ix : Index ℕ ℕ) × (add_documents (λ tokens. tokens) docs empty_index ≡ some ix)
    × Added (λ tokens. tokens) docs empty_index ix
add_documents_total_example = add_documents_total (λ tokens. tokens) docs empty_index empty-IsSound

two-IsSound : IsSound two_docs
unfolding live_sum lookup
two-IsSound = record {
  placed = λ k h. cc;
  sized = refl;
  total = refl;
  frequent = λ t. ground arith;
  single = λ x. ground (arith, ==_iff 1 x, ==_iff 2 x);
  distinct = λ k slot h. two-Unique k slot h;
}
  where
    two-Unique :
        (k : ℕ) (slot : Slot ℕ ℕ) → get_elem? two_docs.slots k ≡ some slot → Unique slot.doc_terms
    two-Unique zero slot h =
        subst (λ (o : Option (Slot ℕ ℕ)). Unique (elim o [ none ↦ [] | some s ↦ s.doc_terms ])) h
          (refl, (refl, tt))
    two-Unique (suc zero) slot h =
        subst (λ (o : Option (Slot ℕ ℕ)). Unique (elim o [ none ↦ [] | some s ↦ s.doc_terms ])) h
          (refl, tt)
    two-Unique (suc (suc k)) slot h = cc

remove_documents_total_example :
    (ix : Index ℕ ℕ) × (count : ℕ) × (remove_documents (1 ∷ []) two_docs ≡ some (ix, count))
    × IsSound ix
    × ((x : ℕ) → live (named x) ix ≡ (if mem x (1 ∷ []) then 0 else live (named x) two_docs))
    × (live (λ s. 1) ix + count ≡ live (λ s. 1) two_docs)
remove_documents_total_example = remove_documents_total (1 ∷ []) two_docs two-IsSound

-- the first of the two documents is a tombstone
abbrev one_dead : Index ℕ ℕ
one_dead = record two_docs { deleted = 0 ∷ []; df = (7, 0) ∷ (8, 1) ∷ []; total_len = 1 }

one_left : compact one_dead ≡ (
  record {
    slots = slot_2 ∷ [];
    postings = (8, (0, 1) ∷ []) ∷ [];
    deleted = [];
    df = (8, 1) ∷ [];
    total_len = 1;
  },
  1,
)
unfolding program
one_left = refl

one_dead-IsSound : IsSound one_dead
unfolding live_sum lookup
one_dead-IsSound = record {
  placed = λ k h. ground (arith, ==_iff 0 k);
  sized = refl;
  total = refl;
  frequent = λ t. ground arith;
  single = λ x. ground (arith, ==_iff 2 x);
  distinct = two-IsSound.distinct;
}

compact-Compacts_example : Compacts one_dead (compact one_dead)
compact-Compacts_example = compact-Compacts one_dead one_dead-IsSound
