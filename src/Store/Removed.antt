-- ===== src/Store/Removed.antt =====
-- vector_store.py: a deletion that reports success has left nothing of the paper, and one that
-- reports an incomplete cascade names the steps that did not run.
use indic_rag.Store.{Reply, World, chroma_call}
use indic_rag.Store.Documents.{Chroma}
use indic_rag.Store.Added.{chroma_call-returned, chroma_call-cases}
use indic_rag.Store.Deletion.{
  ByPaper, Corpus, CascadeStep, Deletion, compensate, Attempts, clean_index, clean_log, failed_step,
  end_cascade, cascade, delete_by_paper_id, bm25, ingest_log, counted, incomplete, refused,
}
use indic_rag.Store.Steps.{
  LogLacks, ServesNone, LexicalSound, Tried, compensate-Tried, Dropped, clean_log-Dropped,
  clean_index-ServesNone,
}
use indic_rag.Ledger.{Database}
use indic_rag.Sparse.{Index}
use indic_rag.Base.{
  Bool, List, Option, Text, [], ap, arith, false, if◌then◌else◌, inl, inr, is_empty, length, mem,
  none, not, refl, subst, suc, true, zero, ℕ, ◌++◌, ◌∙◌, ◌∷◌, ◌≡◌, ◌≢◌, nat_eq, string_eq, pair_eq,
  list_eq,
}

-- what the cascade has cleaned, by the steps that it could not run
abbrev pub Cleaned : {C : Type 0} → Text → List Text → List CascadeStep → Corpus C → Type 0
Cleaned paper_id ids [] c = ServesNone ids c.lexical × LogLacks paper_id c.ledger.working.ingest_log
Cleaned paper_id ids (bm25 ∷ []) c = LogLacks paper_id c.ledger.working.ingest_log
Cleaned paper_id ids (ingest_log ∷ []) c = ServesNone ids c.lexical
Cleaned paper_id ids (bm25 ∷ ingest_log ∷ []) c = Unit
Cleaned paper_id ids _ c = ⊥

cons_ne : {s : CascadeStep} {ss : List CascadeStep} → s ∷ ss ≢ []
cons_ne = ground arith

-- how a deletion of these chunks ends, and what it leaves
module _ {V C : Type 0} (chroma : Chroma V C) where
  abbrev pub AllGone : List Text → C → Type 0
  AllGone ids c = (i : Text) → mem i ids ≡ true → chroma.stored i c ≡ none

  abbrev pub Ends : Text → List Text → Corpus C → Deletion → Corpus C → Type 0
  Ends paper_id ids before (counted zero) after =
      (ids ≡ []) × (after.lexical ≡ before.lexical) × (after.ledger ≡ before.ledger)
  Ends paper_id ids before (counted (suc n)) after =
      (length ids ≡ suc n) × AllGone ids after.world.collection × Cleaned paper_id ids [] after
  Ends paper_id ids before (incomplete n steps) after =
      (length ids ≡ n)
      × (steps ≢ [])
      × AllGone ids after.world.collection
      × Cleaned paper_id ids steps after
  Ends paper_id ids before refused after =
      (after.lexical ≡ before.lexical) × (after.ledger ≡ before.ledger)

  cascade-Ends :
      (a : Attempts) (paper_id j : Text) (js : List Text) (before corpus : Corpus C)
      → LexicalSound corpus.lexical
      → AllGone (j ∷ js) corpus.world.collection
      → (let r = cascade a paper_id (j ∷ js) corpus in Ends paper_id (j ∷ js) before r.0 r.1)
  unfolding cascade
  cascade-Ends a paper_id j js before corpus sound gone =
      go (compensate (clean_index a.bm25_first ids) (clean_index a.bm25_again ids) corpus.lexical)
        (compensate-Tried LexicalSound (ServesNone ids) (clean_index a.bm25_first ids)
          (clean_index a.bm25_again ids) (clean_index-ServesNone a.bm25_first ids)
          (clean_index-ServesNone a.bm25_again ids) corpus.lexical sound)
        (compensate (clean_log a.log_first paper_id) (clean_log a.log_again paper_id) corpus.ledger)
        (compensate-Tried (λ b. Unit {0}) (Dropped paper_id) (clean_log a.log_first paper_id)
          (clean_log a.log_again paper_id) (λ db h. clean_log-Dropped a.log_first paper_id db)
          (λ db h. clean_log-Dropped a.log_again paper_id db) corpus.ledger tt)
    where
      ids : List Text
      ids = j ∷ js

      go :
          (i : Bool × Option (Index Text Text))
          → Tried LexicalSound (ServesNone ids) i
          → (l : Bool × Database) → Tried (λ b. Unit {0}) (Dropped paper_id) l
          → Ends paper_id ids before
              (end_cascade (length ids) (failed_step bm25 i.0 ++ failed_step ingest_log l.0))
              (record corpus { lexical = i.1; ledger = l.1 })
      go (true, index) s (true, db) t = (refl, gone, (s, t))
      go (true, index) s (false, db) t = (refl, cons_ne, gone, s)
      go (false, index) s (true, db) t = (refl, cons_ne, gone, t)
      go (false, index) s (false, db) t = (refl, cons_ne, gone, tt)

module _ {V C : Type 0} (chroma : Chroma V C) (papers : ByPaper chroma) (replies : ℕ → Reply) where
  looked_up : (w : World C) → (chroma_call (replies 0) (λ c. c) w).1.collection ≡ w.collection
  looked_up w = elim (chroma_call-cases (replies 0) (λ c. c) w) [ inl e ↦ e | inr e ↦ e ]

  -- With a sound lexical index, or none, and however the calls and the steps of the cascade end: a
  -- deletion that returns a number found that many chunks, and if it is positive, the collection holds none of them, the lexical index serves
  -- none and the log has no row of the paper; one that raises DeleteIncomplete has emptied the
  -- collection of them, names at least one step, and has done what the steps it does not name do;
  -- and where ChromaDB fails, the index and the log are as they were.
  pub delete_by_paper_id-Ends :
      (a : Attempts) (paper_id : Text) (corpus : Corpus C)
      → LexicalSound corpus.lexical
      → (let (ending, after) = delete_by_paper_id chroma papers replies a paper_id corpus in
          Ends chroma paper_id
            (papers.ids_where paper_id corpus.world.collection)
            corpus
            ending
            after)
  unfolding delete_by_paper_id
  delete_by_paper_id-Ends a paper_id corpus sound =
      let looked = chroma_call (replies 0) (λ c. c) corpus.world in
      let left = chroma_call (replies 1) (papers.delete_where paper_id) looked.1 in
      go (papers.ids_where paper_id corpus.world.collection) refl looked.0 left.0 refl
    where
      looked_world : World C
      looked_world = (chroma_call (replies 0) (λ c. c) corpus.world).1

      left_world : World C
      left_world = (chroma_call (replies 1) (papers.delete_where paper_id) looked_world).1

      after : Corpus C
      after = record corpus { world = left_world }

      gone_after :
          (chroma_call (replies 1) (papers.delete_where paper_id) looked_world).0 ≡ true
          → AllGone chroma (papers.ids_where paper_id corpus.world.collection) left_world.collection
      gone_after ok i m =
          ap (chroma.stored i) (
            chroma_call-returned (replies 1) (papers.delete_where paper_id) looked_world ok
            ∙ ap (papers.delete_where paper_id) (looked_up corpus.world))
          ∙ papers.deleted_where i paper_id corpus.world.collection
          ∙ ap (λ b. if b then none else chroma.stored i corpus.world.collection) m

      go :
          (ids : List Text)
          → papers.ids_where paper_id corpus.world.collection ≡ ids
          → (found gone : Bool)
          → (chroma_call (replies 1) (papers.delete_where paper_id) looked_world).0 ≡ gone
          → (let r : Deletion × Corpus C =
                (if not found
                  then (refused, record corpus { world = looked_world })
                  else if not gone
                  then (refused, after)
                  else if is_empty ids
                  then (counted 0, after)
                  else cascade a paper_id ids after) in
              Ends chroma paper_id ids corpus r.0 r.1)
      go ids e false gone g = (refl, refl)
      go ids e true false g = (refl, refl)
      go [] e true true g = (refl, refl, refl)
      go (j ∷ js) e true true g =
          cascade-Ends chroma a paper_id j js corpus after sound
            (subst (λ is. AllGone chroma is left_world.collection) e (gone_after g))
