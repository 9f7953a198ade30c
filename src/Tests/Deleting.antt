-- ===== src/Tests/Deleting.antt =====
-- A paper of one chunk in the collection, the lexical index and the log, and its deletion.
use indic_rag.Store.{
  record_failure, record_success, Reply, breaker_after, chroma_call, returned, landed,
}
use indic_rag.Store.Documents.{number, text}
use indic_rag.Store.Deletion.{
  ByPaper, Corpus, Deletion, remove_from_index, Attempts, cascade, delete_by_paper_id, bm25,
  counted, incomplete, refused,
}
use indic_rag.Store.Removed.{Ends, delete_by_paper_id-Ends}
use indic_rag.Ledger.{
  Event, Tables, Database, maybe_commit, delete_paper, end_write, delete_ingest_events, unharmed,
}
use indic_rag.Sparse.{
  Slot, Index, counter, lower_df, tombstone, remove_slots, remove_documents, survivors, remap, kept,
  kept_postings, counts_of, sum_lens, compacted, compact,
}
use indic_rag.Sparse.Live.{live_sum}
use indic_rag.Sparse.Sound.{IsSound}
use indic_rag.Tests.Storing.{
  Rows, delete_rows, deleted_rows, rows_chroma, plain_chunk, world_of, answers, all_return,
}
use indic_rag.Base.{
  ==_iff, List, Option, Text, Unique, [], arith, codes, false, get_elem?, if◌then◌else◌, insert,
  lookup, none, refl, remove, some, subst, suc, true, zero, ℕ, ◌+◌, ◌==◌, ◌∷◌, ◌≡◌, nat_eq,
  string_eq, pair_eq, list_eq,
}

-- the rows of a paper
unfoldable rows_of : Text → Rows → List Text
rows_of pid [] = []
rows_of pid ((i, row) ∷ rows) =
    let later = rows_of pid rows in
    elim (lookup (codes "paper_id") row.metadata) [
      | some (text p) ↦ if p == pid then i ∷ later else later
      | some (number n) ↦ later
      | none ↦ later
    ]

by_paper : ByPaper rows_chroma
by_paper = record {
  ids_where = rows_of;
  delete_where = λ pid c. delete_rows (rows_of pid c) c;
  deleted_where = λ i pid c. deleted_rows i (rows_of pid c) c;
}

abbrev one_slot : Index Text Text
one_slot = record {
  slots = record { doc_id = codes "a"; doc_len = 1; doc_terms = codes "x" ∷ [] } ∷ [];
  postings = (codes "x", (0, 1) ∷ []) ∷ [];
  deleted = [];
  df = (codes "x", 1) ∷ [];
  total_len = 1;
}

one-IsSound : IsSound one_slot
unfolding live_sum lookup
one-IsSound = record {
  placed = λ k h. cc;
  sized = refl;
  total = refl;
  frequent = λ t. ground arith;
  single = λ x. ground (arith, ==_iff (codes "a") x);
  distinct = λ k slot h. one-Unique k slot h;
}
  where
    one-Unique :
        (k : ℕ) (slot : Slot Text Text)
        → get_elem? one_slot.slots k ≡ some slot
        → Unique slot.doc_terms
    one-Unique zero slot h =
        subst
          (λ (o : Option (Slot Text Text)). Unique (elim o [ none ↦ [] | some s ↦ s.doc_terms ])) h
          (refl, tt)
    one-Unique (suc k) slot h = cc

abbrev pub event : Event
event = record {
  paper_id = codes "p";
  content_hash = codes "h";
  title = codes "T";
  source_path = [];
  chunks = codes "x" ∷ [];
  metadatas = ((codes "year", codes "2020") ∷ []) ∷ [];
  ids = codes "a" ∷ [];
  embed_model = codes "m";
  chunker_version = 1;
  created_at = 5;
  embed_backend = none;
}

abbrev pub logged : Tables
logged = record {
  ingest_log = (codes "p", event) ∷ [];
  paper_index =
      (
        codes "p",
        record { title = codes "T"; year = codes "2020"; chunk_count = 1; updated_at = 5 },
      )
      ∷ [];
}

abbrev pub recorded : Database
recorded = record { working = logged; committed = logged; depth = 0 }

abbrev pub no_papers : Database
no_papers =
    let tables : Tables = record { ingest_log = []; paper_index = [] } in
    record { working = tables; committed = tables; depth = 0 }

abbrev corpus : Corpus Rows
corpus = record {
  world = world_of ((codes "a", plain_chunk (codes "x")) ∷ []);
  lexical = some one_slot;
  ledger = recorded;
}

abbrev no_errors : Attempts
no_errors = record {
  bm25_first = true;
  bm25_again = true;
  log_first = unharmed;
  log_again = unharmed;
}

abbrev index_fails : Attempts
index_fails = record no_errors { bm25_first = false; bm25_again = false }

program : Unit {0}
unfolding record_failure record_success breaker_after chroma_call lookup insert remove delete_rows
    rows_of by_paper remove_from_index cascade delete_by_paper_id delete_paper maybe_commit
    delete_ingest_events end_write counter lower_df tombstone remove_slots remove_documents
    survivors remap kept kept_postings counts_of sum_lens compacted compact
program = tt

removed : delete_by_paper_id rows_chroma by_paper all_return no_errors (codes "p") corpus ≡ (
  counted 1,
  record {
    world = world_of [];
    lexical = some (record { slots = []; postings = []; deleted = []; df = []; total_len = 0 });
    ledger = no_papers;
  },
)
unfolding program
removed = refl

index_left :
    delete_by_paper_id rows_chroma by_paper all_return index_fails (codes "p") corpus
    ≡ (incomplete 1 (bm25 ∷ []), record corpus { world = world_of []; ledger = no_papers })
unfolding program
index_left = refl

-- the deletion in the collection has its effect, but the call is given up; the second request finds
-- no chunk and does not run the cascade
abbrev given_up : ℕ → Reply
given_up n = answers n (if n == 1 then landed else returned)

abbrev first_request : Deletion × Corpus Rows
first_request = delete_by_paper_id rows_chroma by_paper given_up no_errors (codes "p") corpus

left_behind :
    (let second =
        delete_by_paper_id rows_chroma by_paper
          (λ n. all_return (n + 9))
          no_errors
          (codes "p")
          first_request.1 in
      (first_request.0 ≡ refused)
      × (second.0 ≡ counted 0)
      × (second.1.lexical ≡ some one_slot)
      × (second.1.ledger ≡ recorded))
unfolding program
left_behind = (refl, refl, refl, refl)

delete_by_paper_id-Ends_example :
    (let (ending, after) =
        delete_by_paper_id rows_chroma by_paper all_return no_errors (codes "p") corpus in
      Ends rows_chroma
        (codes "p")
        (by_paper.ids_where (codes "p") corpus.world.collection)
        corpus
        ending
        after)
delete_by_paper_id-Ends_example =
    delete_by_paper_id-Ends rows_chroma by_paper all_return no_errors (codes "p") corpus one-IsSound
