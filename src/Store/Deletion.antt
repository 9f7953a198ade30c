-- ===== src/Store/Deletion.antt =====
-- vector_store.py and bm25_search.py: a paper's deletion from the collection, with its cascade over
-- the lexical index and the ingest log. The file of a saved index is left out: writing it never raises.
use indic_rag.Store.{Reply, World, chroma_call}
use indic_rag.Store.Documents.{Chroma}
use indic_rag.Ledger.{Fault, Database, delete_ingest_events}
use indic_rag.Sparse.{Index, remove_documents, compact}
use indic_rag.Base.{
  Bool, List, Option, Text, [], false, if◌then◌else◌, is_empty, is_some, length, ltb, mem, none,
  not, some, true, ℕ, ◌*◌, ◌++◌, ◌>>=◌, ◌∷◌, ◌≡◌, nat_eq, string_eq, pair_eq, list_eq,
}

-- the documented behaviour of reads and deletions by the paper of the metadata
pub record ByPaper {V C : Type 0} (chroma : Chroma V C) : Type 0 where
  pub ids_where : Text → C → List Text
  pub delete_where : Text → C → C
  pub deleted_where :
      (i pid : Text) (c : C)
      → chroma.stored i (delete_where pid c)
        ≡ (if mem i (ids_where pid c) then none else chroma.stored i c)

-- the three places that know a paper's chunks
pub record Corpus (C : Type 0) : Type 0 where
  pub world : World C
  pub lexical : Option (Index Text Text)
  pub ledger : Database

pub data CascadeStep : Type 0 where
  bm25 ingest_log : CascadeStep

-- how `delete_by_paper_id` ends: with the count, with DeleteIncomplete, or as a call of ChromaDB fails
pub data Deletion : Type 0 where
  counted : ℕ → Deletion
  incomplete : ℕ → List CascadeStep → Deletion
  refused : Deletion

-- `idx.deleted_ratio > _COMPACT_RATIO`, a fifth
abbrev pub worth_compacting : Index Text Text → Bool
worth_compacting ix = ltb (length ix.slots) (5 * length ix.deleted)

-- `remove_from_index`, of the collection's index; `none` is a KeyError
unfoldable pub remove_from_index :
    List Text → Option (Index Text Text) → Option (Option (Index Text Text))
unfolding remove_documents compact
remove_from_index ids none = some none
remove_from_index ids (some ix) = do
  (left, removed) ← remove_documents ids ix
  some (some (if worth_compacting left then (compact left).0 else left))

abbrev pub retried : {S : Type 0} → (S → Bool × S) → Bool × S → Bool × S
retried again (true, s) = (true, s)
retried again (false, s) = again s

-- `_compensate`: the step is run, and run again when it raises, on what the first attempt has left
abbrev pub compensate : {S : Type 0} → (S → Bool × S) → (S → Bool × S) → S → Bool × S
compensate first again s = retried again (first s)

-- how each attempt at a step of the cascade goes: whether an error from outside keeps the index from
-- being changed, and which statement of the log fails
pub record Attempts : Type 0 where
  pub bm25_first : Bool
  pub bm25_again : Bool
  pub log_first : Fault
  pub log_again : Fault

abbrev pub tried_index :
    Option (Index Text Text) → Option (Option (Index Text Text)) → Bool × Option (Index Text Text)
tried_index lexical none = (false, lexical)
tried_index lexical (some after) = (true, after)

-- an attempt at the step `bm25`
abbrev pub clean_index :
    Bool → List Text → Option (Index Text Text) → Bool × Option (Index Text Text)
clean_index made ids lexical =
    tried_index lexical (if made then remove_from_index ids lexical else none)

-- an attempt at the step `ingest_log`
abbrev pub clean_log : Fault → Text → Database → Bool × Database
clean_log fault paper_id db =
    let (count, after) = delete_ingest_events fault paper_id db in (is_some count, after)

abbrev pub failed_step : CascadeStep → Bool → List CascadeStep
failed_step step done = if done then [] else step ∷ []

-- `if failed: raise DeleteIncomplete`
abbrev pub end_cascade : ℕ → List CascadeStep → Deletion
end_cascade n [] = counted n
end_cascade n (s ∷ steps) = incomplete n (s ∷ steps)

unfoldable pub cascade : {C : Type 0} → Attempts → Text → List Text → Corpus C → Deletion × Corpus C
unfolding remove_from_index delete_ingest_events
cascade a paper_id ids corpus =
    let (indexed, lexical) =
      compensate (clean_index a.bm25_first ids) (clean_index a.bm25_again ids) corpus.lexical in
    let (logged, ledger) =
      compensate (clean_log a.log_first paper_id) (clean_log a.log_again paper_id) corpus.ledger in
    (
      end_cascade (length ids) (failed_step bm25 indexed ++ failed_step ingest_log logged),
      record corpus { lexical = lexical; ledger = ledger },
    )

module _ {V C : Type 0} (chroma : Chroma V C) (papers : ByPaper chroma) (replies : ℕ → Reply) where
  unfoldable pub delete_by_paper_id : Attempts → Text → Corpus C → Deletion × Corpus C
  unfolding chroma_call cascade
  delete_by_paper_id a paper_id corpus =
      let (found, looked) = chroma_call (replies 0) (λ c. c) corpus.world in
      let ids = papers.ids_where paper_id corpus.world.collection in
      let (gone, left) = chroma_call (replies 1) (papers.delete_where paper_id) looked in
      let after = record corpus { world = left } in
      if not found
      then (refused, record corpus { world = looked })
      else if not gone
      then (refused, after)
      else if is_empty ids
      then (counted 0, after)
      else cascade a paper_id ids after
