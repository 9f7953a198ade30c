-- ===== src/Sparse/Sound.antt =====
-- bm25_search.py: the counters of the index, under `_tombstone` and a new slot.
use indic_rag.Sparse.{Slot, Index, counter, lower_df, raise_df, tombstone, append_slot}
use indic_rag.Sparse.Live.{live_sum, live_sum-bury, live_sum-append_new}
use indic_rag.Base.{
  ==_iff, Bool-cases, Dict, Eq, List, Unique, [], arith, false, get_elem?, if◌then◌else◌, inl, inr,
  insert, insert-Unique, keys, length, length-append, lookup, lookup-insert, mem, or_else, refl,
  some, subst, suc, sym, true, zero, ℕ, ◌++◌, ◌+◌, ◌-◌, ◌<◌, ◌==◌, ◌∷◌, ◌≡◌, ◌≤◌, ◌⊎◌, nat_eq,
  string_eq, pair_eq, list_eq,
}

module _ {Term : Type 0} ⦃e : Eq Term⦄ where
  pub lookup-lower_df :
      (t : Term) (terms : List Term) (df : Dict Term ℕ)
      → Unique terms
      → or_else (lookup t (lower_df terms df)) 0
        ≡ or_else (lookup t df) 0 - (if mem t terms then 1 else 0)
  unfolding lower_df
  lookup-lower_df t [] df u = omega arith
  lookup-lower_df t (s ∷ terms) df u = ground (
    arith,
    lookup-lower_df t terms
        (if or_else (lookup s df) 0 == 0 then df else insert s (or_else (lookup s df) 0 - 1) df)
        u.1,
    ==_iff s t,
    lookup-insert s t (or_else (lookup s df) 0 - 1) df,
  )

  pub lookup-raise_df :
      (t : Term) (terms : List Term) (df : Dict Term ℕ)
      → Unique terms
      → or_else (lookup t (raise_df terms df)) 0
        ≡ or_else (lookup t df) 0 + (if mem t terms then 1 else 0)
  unfolding raise_df
  lookup-raise_df t [] df u = omega arith
  lookup-raise_df t (s ∷ terms) df u = ground (
    arith,
    lookup-raise_df t terms (insert s (or_else (lookup s df) 0 + 1) df) u.1,
    ==_iff s t,
    lookup-insert s t (or_else (lookup s df) 0 + 1) df,
  )

  pub counter-Unique :
      (tokens : List Term) (counts : Dict Term ℕ)
      → Unique (keys counts)
      → Unique (keys (counter tokens counts))
  unfolding counter
  counter-Unique [] counts u = u
  counter-Unique (t ∷ tokens) counts u =
      counter-Unique tokens (insert t (or_else (lookup t counts) 0 + 1) counts)
        (insert-Unique t (or_else (lookup t counts) 0 + 1) counts u)

module _ {Doc Term : Type 0} ⦃d : Eq Doc⦄ ⦃e : Eq Term⦄ where
  -- a document of this name, and one that holds this term
  abbrev pub named : Doc → Slot Doc Term → ℕ
  named x slot = if slot.doc_id == x then 1 else 0

  abbrev pub holds : Term → Slot Doc Term → ℕ
  holds t slot = if mem t slot.doc_terms then 1 else 0

  -- a sum over the live documents of an index
  abbrev pub live : (Slot Doc Term → ℕ) → Index Doc Term → ℕ
  live f ix = live_sum f 0 ix.deleted ix.slots

  -- Tombstones stand for slots, the counters count the live documents, and no two of these have one
  -- name.
  pub record IsSound (ix : Index Doc Term) : Type 0 where
    pub placed : (k : ℕ) → mem k ix.deleted ≡ true → k < length ix.slots
    pub sized : live (λ s. 1) ix + length ix.deleted ≡ length ix.slots
    pub total : ix.total_len ≡ live (λ s. s.doc_len) ix
    pub frequent : (t : Term) → or_else (lookup t ix.df) 0 ≡ live (holds t) ix
    pub single : (x : Doc) → live (named x) ix ≤ 1
    pub distinct :
        (k : ℕ) (slot : Slot Doc Term) → get_elem? ix.slots k ≡ some slot → Unique slot.doc_terms

  get_elem-lt :
      (slots : List (Slot Doc Term)) (k : ℕ) (slot : Slot Doc Term)
      → get_elem? slots k ≡ some slot
      → k < length slots
  get_elem-lt [] k slot h = cc
  get_elem-lt (s ∷ slots) zero slot h = omega arith
  get_elem-lt (s ∷ slots) (suc k) slot h = omega (arith, get_elem-lt slots k slot h)

  -- what a tombstone leaves
  pub record Buried (k : ℕ) (slot : Slot Doc Term) (ix ix' : Index Doc Term) : Type 0 where
    pub done : tombstone k ix ≡ some ix'
    pub sound : IsSound ix'
    pub same_slots : ix'.slots ≡ ix.slots
    pub one_more : ix'.deleted ≡ k ∷ ix.deleted
    pub less : (f : Slot Doc Term → ℕ) → live f ix' + f slot ≡ live f ix

  pub tombstone_total :
      (k : ℕ) (slot : Slot Doc Term) (ix : Index Doc Term)
      → IsSound ix
      → get_elem? ix.slots k ≡ some slot
      → mem k ix.deleted ≡ false
      → (ix' : Index Doc Term) × Buried k slot ix ix'
  unfolding tombstone
  tombstone_total k slot ix h found alive = (
    buried,
    record {
      done = rw (found, alive, tombstone) refl;
      sound = record {
        placed = λ j m. ground (arith, h.placed j, ==_iff k j, get_elem-lt ix.slots k slot found);
        sized = omega (arith, h.sized, less (λ s. 1));
        total = omega (arith, h.total, less (λ s. s.doc_len));
        frequent = λ t. omega (
          arith,
          h.frequent t,
          less (holds t),
          lookup-lower_df t slot.doc_terms ix.df (h.distinct k slot found),
        );
        single = λ x. omega (arith, h.single x, less (named x));
        distinct = h.distinct;
      };
      same_slots = refl;
      one_more = refl;
      less = less;
    },
  )
    where
      buried : Index Doc Term
      buried = record ix {
        deleted = k ∷ ix.deleted;
        total_len = ix.total_len - slot.doc_len;
        df = lower_df slot.doc_terms ix.df;
      }

      less : (f : Slot Doc Term → ℕ) → live f buried + f slot ≡ live f ix
      less f = live_sum-bury f k ix.deleted ix.slots slot found alive

  get_elem-append :
      (slots : List (Slot Doc Term)) (new : Slot Doc Term) (k : ℕ) (slot : Slot Doc Term)
      → get_elem? (slots ++ new ∷ []) k ≡ some slot
      → (get_elem? slots k ≡ some slot) ⊎ ((k ≡ length slots) × (slot ≡ new))
  get_elem-append [] new zero slot h = inr (ground arith)
  get_elem-append [] new (suc k) slot h = cc
  get_elem-append (s ∷ slots) new zero slot h = inl h
  get_elem-append (s ∷ slots) new (suc k) slot h = elim (get_elem-append slots new k slot h) [
    | inl old ↦ inl old
    | inr (e, this) ↦ inr (omega (arith, e), this)
  ]

  pub get_elem-old :
      (slots : List (Slot Doc Term)) (new : Slot Doc Term) (k : ℕ) (slot : Slot Doc Term)
      → get_elem? slots k ≡ some slot
      → get_elem? (slots ++ new ∷ []) k ≡ some slot
  get_elem-old [] new k slot h = cc
  get_elem-old (s ∷ slots) new zero slot h = h
  get_elem-old (s ∷ slots) new (suc k) slot h = get_elem-old slots new k slot h

  pub get_elem-new :
      (slots : List (Slot Doc Term)) (new : Slot Doc Term)
      → get_elem? (slots ++ new ∷ []) (length slots) ≡ some new
  get_elem-new [] new = refl
  get_elem-new (s ∷ slots) new = get_elem-new slots new

  pub fresh_index : (ix : Index Doc Term) → IsSound ix → mem (length ix.slots) ix.deleted ≡ false
  fresh_index ix h = elim (Bool-cases (mem (length ix.slots) ix.deleted)) [
    | inl old ↦ absurd (omega (arith, h.placed (length ix.slots) old))
    | inr new ↦ new
  ]

  abbrev pub new_slot : Doc → List Term → Slot Doc Term
  new_slot doc_id tokens = record {
    doc_id = doc_id;
    doc_len = length tokens;
    doc_terms = keys (counter tokens []);
  }

  -- a new slot adds itself to every sum
  pub live-append_slot :
      (f : Slot Doc Term → ℕ) (doc_id : Doc) (tokens : List Term) (ix : Index Doc Term)
      → IsSound ix
      → live f (append_slot doc_id tokens ix) ≡ live f ix + f (new_slot doc_id tokens)
  unfolding append_slot
  live-append_slot f doc_id tokens ix h =
      live_sum-append_new f ix.deleted ix.slots (new_slot doc_id tokens) (fresh_index ix h)

  pub append_slot-IsSound :
      (doc_id : Doc) (tokens : List Term) (ix : Index Doc Term)
      → IsSound ix
      → live (named doc_id) ix ≡ 0
      → IsSound (append_slot doc_id tokens ix)
  unfolding append_slot
  append_slot-IsSound doc_id tokens ix h absent =
      let new = new_slot doc_id tokens in
      let more : (f : Slot Doc Term → ℕ)
          → live f (append_slot doc_id tokens ix) ≡ live f ix + f new =
        λ f. live-append_slot f doc_id tokens ix h in
      let longer = length-append ix.slots (new ∷ []) in
      record {
        placed = λ k m. omega (arith, h.placed k m, longer);
        sized = omega (arith, h.sized, more (λ s. 1), longer);
        total = omega (arith, h.total, more (λ s. s.doc_len));
        frequent = λ t. omega (
          arith,
          h.frequent t,
          more (holds t),
          lookup-raise_df t (keys (counter tokens [])) ix.df (counter-Unique tokens [] tt),
        );
        single = λ x. ground (arith, h.single x, more (named x), ==_iff doc_id x, absent);
        distinct = λ k slot found. elim (get_elem-append ix.slots new k slot found) [
          | inl old ↦ h.distinct k slot old
          | inr (e, this) ↦
              subst (λ (s : Slot Doc Term). Unique s.doc_terms) (sym this)
                (counter-Unique tokens [] tt)
        ];
      }
