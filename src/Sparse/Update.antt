-- ===== src/Sparse/Update.antt =====
-- bm25_search.py: `add_documents`.
use indic_rag.Sparse.{Slot, Index, live_ids, append_slot, bury, add_all, add_documents}
use indic_rag.Sparse.Live.{live_sum}
use indic_rag.Sparse.Sound.{
  named, live, IsSound, Buried, tombstone_total, get_elem-old, get_elem-new, fresh_index, new_slot,
  live-append_slot, append_slot-IsSound,
}
use indic_rag.Base.{
  ==_iff, Bool-cases, Dict, Eq, List, Option, [], ap, arith, false, get_elem?, if◌then◌else◌, inl,
  inr, insert, length, lookup, lookup-insert, map, mem, none, refl, some, suc, ℕ, ◌+◌, ◌==◌, ◌∙◌,
  ◌∷◌, ◌≡◌, ◌≢◌, ◌⊎◌, nat_eq, string_eq, pair_eq, list_eq,
}

module _ {Doc Term : Type 0} ⦃d : Eq Doc⦄ ⦃e : Eq Term⦄ where
  -- the slot `k` is a live document of the name
  abbrev Stands : Doc → Index Doc Term → ℕ → Type 0
  Stands x ix k =
      (slot : Slot Doc Term) × (get_elem? ix.slots k ≡ some slot)
      × (slot.doc_id ≡ x)
      × (mem k ix.deleted ≡ false)

  -- what `existing` says of a name is right
  abbrev Knows : Doc → Index Doc Term → Option ℕ → Type 0
  Knows x ix none = live (named x) ix ≡ 0
  Knows x ix (some k) = Stands x ix k

  -- what `existing` says of the part of the slots that begins at `idx`
  live_ids_lem :
      (x : Doc) (idx : ℕ) (deleted : List ℕ) (slots : List (Slot Doc Term)) (found : Dict Doc ℕ)
      → ((live_sum (named x) idx deleted slots ≡ 0)
          × (lookup x (live_ids idx deleted slots found) ≡ lookup x found))
        ⊎ ((k : ℕ) × (j : ℕ) × (slot : Slot Doc Term) × (j ≡ idx + k)
            × (lookup x (live_ids idx deleted slots found) ≡ some j)
            × (get_elem? slots k ≡ some slot)
            × (slot.doc_id ≡ x)
            × (mem j deleted ≡ false))
  unfolding live_ids live_sum
  live_ids_lem x idx deleted [] found = inl (refl, refl)
  live_ids_lem x idx deleted (s ∷ slots) found =
      elim (live_ids_lem x (suc idx) deleted slots
        (if mem idx deleted then found else insert s.doc_id idx found)) [
          | inr (k, j, slot, at, l, g, n, a) ↦ inr (suc k, j, slot, omega (arith, at), l, g, n, a)
          | inl (none_left, l) ↦ elim (Bool-cases (mem idx deleted)) [
            | inl dead ↦ inl (ground arith)
            | inr alive ↦ elim (Bool-cases (s.doc_id == x)) [
              | inl this ↦ inr (
                0,
                idx,
                s,
                omega arith,
                ground (arith, lookup-insert s.doc_id x idx found),
                refl,
                (==_iff s.doc_id x).0 this,
                alive,
              )
              | inr other ↦ inl (ground (arith, lookup-insert s.doc_id x idx found))
            ]
          ]
        ]

  live_ids-Knows :
      (x : Doc) (ix : Index Doc Term) → Knows x ix (lookup x (live_ids 0 ix.deleted ix.slots []))
  unfolding lookup
  live_ids-Knows x ix = elim (live_ids_lem x 0 ix.deleted ix.slots []) [
    | inl (none_left, l) ↦ rw l none_left
    | inr (k, j, slot, at, l, g, n, a) ↦
        let same : j ≡ k = omega (arith, at) in rw l (slot, ap (get_elem? ix.slots) same ∙ g, n, a)
  ]

  -- a sound index in which one name has no live document, and all the others have as before
  record Cleared (x : Doc) (ix ix1 : Index Doc Term) : Type 0 where
    sound : IsSound ix1
    same_slots : ix1.slots ≡ ix.slots
    absent : live (named x) ix1 ≡ 0
    others : (y : Doc) → x ≢ y → live (named y) ix1 ≡ live (named y) ix
    known : (y : Doc) (o : Option ℕ) → x ≢ y → Knows y ix o → Knows y ix1 o

  Buried-Cleared :
      (x : Doc) (k : ℕ) (slot : Slot Doc Term) (ix ix1 : Index Doc Term)
      → IsSound ix
      → get_elem? ix.slots k ≡ some slot
      → slot.doc_id ≡ x
      → Buried k slot ix ix1
      → Cleared x ix ix1
  Buried-Cleared x k slot ix ix1 h found name b = record {
    sound = b.sound;
    same_slots = b.same_slots;
    absent = ground (arith, b.less (named x), h.single x, ==_iff slot.doc_id x);
    others = others;
    known = known;
  }
    where
      others : (y : Doc) → x ≢ y → live (named y) ix1 ≡ live (named y) ix
      others y ne = ground (arith, b.less (named y), ==_iff slot.doc_id y)

      elsewhere :
          (y : Doc) (j : ℕ) (s : Slot Doc Term)
          → x ≢ y
          → get_elem? ix.slots j ≡ some s
          → s.doc_id ≡ y
          → (k == j) ≡ false
      elsewhere y j s ne f n = elim (Bool-cases (k == j)) [
        | inr apart ↦ apart
        | inl here ↦
            let at : get_elem? ix.slots k ≡ some s =
              ap (get_elem? ix.slots) ((==_iff k j).0 here) ∙ f in
            absurd (ne (cc (found, at, name, n)))
      ]

      known : (y : Doc) (o : Option ℕ) → x ≢ y → Knows y ix o → Knows y ix1 o
      known y none ne gone = others y ne ∙ gone
      known y (some j) ne (s, f, n, a) = (
        s,
        ap (λ l. get_elem? l j) b.same_slots ∙ f,
        n,
        ground (arith, ap (mem j) b.one_more, elsewhere y j s ne f n),
      )

  bury_total :
      (x : Doc) (o : Option ℕ) (ix : Index Doc Term)
      → IsSound ix
      → Knows x ix o
      → (ix1 : Index Doc Term) × (bury o ix ≡ some ix1) × Cleared x ix ix1
  unfolding bury
  bury_total x none ix h absent = (
    ix,
    refl,
    record {
      sound = h;
      same_slots = refl;
      absent = absent;
      others = λ y ne. refl;
      known = λ y o ne k. k;
    },
  )
  bury_total x (some k) ix h (slot, found, name, alive) =
      let (ix1, b) = tombstone_total k slot ix h found alive in
      (ix1, b.done, Buried-Cleared x k slot ix ix1 h found name b)

  append-Knows :
      (x : Doc) (tokens : List Term) (ix ix1 : Index Doc Term) (existing : Dict Doc ℕ)
      → Cleared x ix ix1
      → ((y : Doc) → Knows y ix (lookup y existing))
      → (y : Doc)
      → Knows y (append_slot x tokens ix1) (lookup y (insert x (length ix1.slots) existing))
  unfolding append_slot
  append-Knows x tokens ix ix1 existing c knows y =
      rw (lookup-insert x y (length ix1.slots) existing) (elim (Bool-cases (x == y)) [
        | inl this ↦ rw this (
          new_slot x tokens,
          get_elem-new ix1.slots (new_slot x tokens),
          (==_iff x y).0 this,
          fresh_index ix1 c.sound,
        )
        | inr other ↦ rw other (
            older other (lookup y existing)
              (c.known y (lookup y existing) (λ same. cc (other, (==_iff x y).1 same)) (knows y)))
      ])
    where
      older :
          (x == y) ≡ false → (o : Option ℕ) → Knows y ix1 o → Knows y (append_slot x tokens ix1) o
      older other none gone = ground (arith, live-append_slot (named y) x tokens ix1 c.sound)
      older other (some k) (s, f, n, a) =
          (s, get_elem-old ix1.slots (new_slot x tokens) k s f, n, a)

  module _ {X : Type 0} (tokenize : X → List Term) where
    abbrev pub names : List (Doc × X) → List Doc
    names docs = map (λ (doc : Doc × X). doc.0) docs

    -- what an addition makes of an index
    abbrev pub Added : List (Doc × X) → Index Doc Term → Index Doc Term → Type 0
    Added docs ix ix' =
        IsSound ix'
        × ((y : Doc) → live (named y) ix' ≡ (if mem y (names docs) then 1 else live (named y) ix))

    add_all_total :
        (docs : List (Doc × X)) (existing : Dict Doc ℕ) (ix : Index Doc Term)
        → IsSound ix
        → ((y : Doc) → Knows y ix (lookup y existing))
        → (ix' : Index Doc Term) × (add_all tokenize docs existing ix ≡ some ix')
          × Added docs ix ix'
    unfolding add_all
    add_all_total [] existing ix h knows = (ix, refl, (h, λ y. refl))
    add_all_total ((x, text) ∷ docs) existing ix h knows =
        let (ix1, done, c) = bury_total x (lookup x existing) ix h (knows x) in
        let tokens = tokenize text in
        let h2 = append_slot-IsSound x tokens ix1 c.sound c.absent in
        let (ix', done', (sound', named')) =
          add_all_total docs (insert x (length ix1.slots) existing) (append_slot x tokens ix1) h2
            (append-Knows x tokens ix ix1 existing c knows) in
        (
          ix',
          rw (done, add_all) done',
          (
            sound',
            λ y. ground (
              arith,
              named' y,
              live-append_slot (named y) x tokens ix1 c.sound,
              c.absent,
              c.others y,
              ==_iff x y,
            ),
          ),
        )

    -- Adding documents to a sound index succeeds and leaves a sound one, in which each name that was
    -- added has exactly one live document, and every other name as many as before.
    pub add_documents_total :
        (docs : List (Doc × X)) (ix : Index Doc Term)
        → IsSound ix
        → (ix' : Index Doc Term) × (add_documents tokenize docs ix ≡ some ix') × Added docs ix ix'
    unfolding add_documents
    add_documents_total docs ix h =
        add_all_total docs (live_ids 0 ix.deleted ix.slots []) ix h (λ y. live_ids-Knows y ix)
