-- ===== src/Sparse.antt =====
-- bm25_search.py: the inverted index behind the sparse retrieval, with tombstones. Documents' names
-- and terms are types with a test of equality; `tokenize` is `_tokenize`, a regular expression over
-- the character database. The lists doc_ids, doc_lens and doc_terms, which grow together, are one
-- list of slots.
pub mod Live
pub mod Sound
pub mod Update
pub mod Remove
pub mod Compact
pub mod Search
pub mod Ranking
pub mod Found
use indic_rag.Base.{
  Dict, Eq, List, Option, [], ap, false, get_elem?, if◌then◌else◌, insert, is_empty, keys, length,
  lookup, map, mem, none, not, or_else, remove, some, suc, true, ℕ, ◌&&◌, ◌++◌, ◌+◌, ◌-◌, ◌==◌, ◌∷◌,
  nat_eq, string_eq, pair_eq, list_eq,
}

pub record Slot (Doc Term : Type 0) : Type 0 where
  pub doc_id : Doc
  pub doc_len : ℕ
  pub doc_terms : List Term

pub record Index (Doc Term : Type 0) : Type 0 where
  pub slots : List (Slot Doc Term)
  pub postings : Dict Term (List (ℕ × ℕ))
  pub deleted : List ℕ
  pub df : Dict Term ℕ
  pub total_len : ℕ

-- set.add
abbrev pub add_index : ℕ → List ℕ → List ℕ
add_index idx deleted = if mem idx deleted then deleted else idx ∷ deleted

module _ {Doc Term : Type 0} where
  abbrev pub empty_index : Index Doc Term
  empty_index = record { slots = []; postings = []; deleted = []; df = []; total_len = 0 }

  abbrev pub n_docs : Index Doc Term → ℕ
  n_docs ix = length ix.slots - length ix.deleted

module _ {Term : Type 0} ⦃t : Eq Term⦄ where
  -- Counter(tokens)
  unfoldable pub counter : List Term → Dict Term ℕ → Dict Term ℕ
  counter [] counts = counts
  counter (term ∷ tokens) counts =
      counter tokens (insert term (or_else (lookup term counts) 0 + 1) counts)

  -- `if self.df.get(term): self.df[term] -= 1`, for each term
  unfoldable pub lower_df : List Term → Dict Term ℕ → Dict Term ℕ
  lower_df [] df = df
  lower_df (term ∷ terms) df = lower_df terms (
      if or_else (lookup term df) 0 == 0
      then df
      else insert term (or_else (lookup term df) 0 - 1) df)

  unfoldable pub raise_df : List Term → Dict Term ℕ → Dict Term ℕ
  raise_df [] df = df
  raise_df (term ∷ terms) df = raise_df terms (insert term (or_else (lookup term df) 0 + 1) df)

  -- `self.postings[term].append((idx, tf))`, for each item of the counter
  unfoldable pub post : ℕ → Dict Term ℕ → Dict Term (List (ℕ × ℕ)) → Dict Term (List (ℕ × ℕ))
  post idx [] postings = postings
  post idx ((term, tf) ∷ counts) postings =
      post idx counts (insert term (or_else (lookup term postings) [] ++ (idx, tf) ∷ []) postings)

module _ {Doc Term : Type 0} ⦃d : Eq Doc⦄ ⦃t : Eq Term⦄ where
  -- `_tombstone`; `none` is the IndexError of a slot that is not there
  unfoldable pub tombstone : ℕ → Index Doc Term → Option (Index Doc Term)
  tombstone idx ix = elim (get_elem? ix.slots idx) [
    | none ↦ none
    | some slot ↦ some (record ix {
      deleted = add_index idx ix.deleted;
      total_len = ix.total_len - slot.doc_len;
      df = lower_df slot.doc_terms ix.df;
    })
  ]

  -- `{d: i for i, d in enumerate(self.doc_ids) if i not in self._deleted}`
  unfoldable pub live_ids : ℕ → List ℕ → List (Slot Doc Term) → Dict Doc ℕ → Dict Doc ℕ
  live_ids idx deleted [] found = found
  live_ids idx deleted (slot ∷ slots) found =
      live_ids (suc idx) deleted slots
        (if mem idx deleted then found else insert slot.doc_id idx found)

  -- the new slot behind the others
  unfoldable pub append_slot : Doc → List Term → Index Doc Term → Index Doc Term
  append_slot doc_id tokens ix =
      let counts = counter tokens [] in
      record ix {
        slots =
            ix.slots
            ++ record { doc_id = doc_id; doc_len = length tokens; doc_terms = keys counts } ∷ [];
        postings = post (length ix.slots) counts ix.postings;
        df = raise_df (keys counts) ix.df;
        total_len = ix.total_len + length tokens;
      }

  -- the earlier copy of a document is put out of use
  unfoldable pub bury : Option ℕ → Index Doc Term → Option (Index Doc Term)
  bury none ix = some ix
  bury (some prior) ix = tombstone prior ix

  module _ {X : Type 0} (tokenize : X → List Term) where
    -- the loop of `_add_unlocked`
    unfoldable pub add_all : List (Doc × X) → Dict Doc ℕ → Index Doc Term → Option (Index Doc Term)
    add_all [] existing ix = some ix
    add_all ((doc_id, text) ∷ docs) existing ix = elim (bury (lookup doc_id existing) ix) [
      | none ↦ none
      | some ix1 ↦
          add_all docs (insert doc_id (length ix1.slots) existing)
            (append_slot doc_id (tokenize text) ix1)
    ]

    -- `add_documents`, and `build` on the empty index
    unfoldable pub add_documents : List (Doc × X) → Index Doc Term → Option (Index Doc Term)
    unfolding add_all live_ids
    add_documents docs ix = add_all docs (live_ids 0 ix.deleted ix.slots []) ix

    unfoldable pub build : List (Doc × X) → Option (Index Doc Term)
    unfolding add_documents
    build docs = add_documents docs empty_index

  -- the loop of `remove_documents`; `removed` counts
  unfoldable pub remove_slots :
      List Doc → ℕ → List (Slot Doc Term) → Index Doc Term → ℕ → Option (Index Doc Term × ℕ)
  remove_slots wanted idx [] ix removed = some (ix, removed)
  remove_slots wanted idx (slot ∷ slots) ix removed =
      elim (mem slot.doc_id wanted && not (mem idx ix.deleted)) [
        | false ↦ remove_slots wanted (suc idx) slots ix removed
        | true ↦ elim (tombstone idx ix) [
          | none ↦ none
          | some ix1 ↦ remove_slots wanted (suc idx) slots ix1 (removed + 1)
        ]
      ]

  unfoldable pub remove_documents : List Doc → Index Doc Term → Option (Index Doc Term × ℕ)
  unfolding remove_slots
  remove_documents wanted ix = remove_slots wanted 0 ix.slots ix 0

-- `[(remap[i], tf) for i, tf in plist if i in remap]`
unfoldable pub kept : Dict ℕ ℕ → List (ℕ × ℕ) → List (ℕ × ℕ)
kept moved [] = []
kept moved ((i, tf) ∷ plist) = elim (lookup i moved) [
  | none ↦ kept moved plist
  | some j ↦ (j, tf) ∷ kept moved plist
]

module _ {Term : Type 0} where
  -- the terms that keep a posting
  unfoldable pub kept_postings : Dict ℕ ℕ → Dict Term (List (ℕ × ℕ)) → Dict Term (List (ℕ × ℕ))
  kept_postings moved [] = []
  kept_postings moved ((term, plist) ∷ postings) = elim (kept moved plist) [
    | [] ↦ kept_postings moved postings
    | p ∷ ps ↦ (term, p ∷ ps) ∷ kept_postings moved postings
  ]

  unfoldable pub counts_of : Dict Term (List (ℕ × ℕ)) → Dict Term ℕ
  counts_of [] = []
  counts_of ((term, plist) ∷ postings) = (term, length plist) ∷ counts_of postings

module _ {Doc Term : Type 0} where
  -- the loop of `compact` over the slots: those that stay
  unfoldable pub survivors : ℕ → List ℕ → List (Slot Doc Term) → List (Slot Doc Term)
  survivors idx deleted [] = []
  survivors idx deleted (slot ∷ slots) =
      if mem idx deleted
      then survivors (suc idx) deleted slots
      else slot ∷ survivors (suc idx) deleted slots

  -- and their new indexes
  unfoldable pub remap : ℕ → ℕ → List ℕ → List (Slot Doc Term) → Dict ℕ ℕ
  remap idx next deleted [] = []
  remap idx next deleted (slot ∷ slots) =
      if mem idx deleted
      then remap (suc idx) next deleted slots
      else (idx, next) ∷ remap (suc idx) (suc next) deleted slots

  unfoldable pub sum_lens : List (Slot Doc Term) → ℕ
  sum_lens [] = 0
  sum_lens (slot ∷ slots) = slot.doc_len + sum_lens slots

  unfoldable pub compacted : Index Doc Term → Index Doc Term
  unfolding survivors remap kept kept_postings counts_of sum_lens
  compacted ix =
      let staying = survivors 0 ix.deleted ix.slots in
      let postings = kept_postings (remap 0 0 ix.deleted ix.slots) ix.postings in
      record {
        slots = staying;
        postings = postings;
        deleted = [];
        df = counts_of postings;
        total_len = sum_lens staying;
      }

  -- `compact`, with the number of slots that it frees
  unfoldable pub compact : Index Doc Term → Index Doc Term × ℕ
  unfolding compacted
  compact ix = if is_empty ix.deleted then (ix, 0) else (compacted ix, length ix.deleted)
