-- ===== src/Tests/Recording.antt =====
-- A log of one paper beside a collection that has lost its chunk.
use indic_rag.Ledger.{
  year_of, maybe_commit, insert_event, paper_row, record_ingest, delete_paper, end_write,
  delete_ingest_events, clear_ingest_log, enter_batch, end_batch, abort_batch, get_ingest_events,
  get_paper_events, list_papers, ingest_event_count, Step, do_step, do_steps, unharmed,
  second_fails, ingested, deleted, entered, ended, aborted,
}
use indic_rag.Ledger.Mirror.{AlwaysMirrored, do_steps-Mirrored}
use indic_rag.Ledger.Batches.{Block, do_steps_aborted, empty, write, nested}
use indic_rag.Ledger.Reconcile.{
  add_ids, ids_by_paper, log_rows, chroma_rows, paper_divergences, log_divergences,
  unlogged_divergences, all_ids, compare_views, reconcile, missing_from_chroma, not_in_log,
  stale_in_bm25,
}
use indic_rag.Ledger.Consistent.{ServesExactly}
use indic_rag.Ledger.Views.{holds, reconcile-consistent}
use indic_rag.Tests.Deleting.{event, recorded, no_papers}
use indic_rag.Base.{
  List, Option, Text, [], codes, insert, keys, lookup, none, refl, remove, some, true, ◌++◌, ◌↔◌,
  ◌∷◌, ◌≡◌, nat_eq, string_eq, pair_eq, list_eq,
}

program : Unit {0}
unfolding year_of maybe_commit insert_event paper_row record_ingest delete_paper
    delete_ingest_events end_write clear_ingest_log enter_batch end_batch abort_batch
    get_ingest_events do_step do_steps add_ids ids_by_paper paper_divergences log_divergences
    unlogged_divergences all_ids compare_views reconcile lookup insert remove
program = tt

abbrev writes : List Step
writes = ingested unharmed event ∷ entered ∷ ingested second_fails event ∷ ended ∷ []

recorded_runs : do_steps writes no_papers ≡ recorded
unfolding program
recorded_runs = refl

writes-Block : Block writes
writes-Block = write tt (nested ended (write tt empty) tt empty)

do_steps_aborted_example : do_steps (entered ∷ (writes ++ aborted ∷ [])) no_papers ≡ no_papers
do_steps_aborted_example = do_steps_aborted writes no_papers writes-Block refl refl

do_steps-Mirrored_example : AlwaysMirrored (do_steps writes no_papers)
do_steps-Mirrored_example =
    do_steps-Mirrored writes no_papers (tt, (tt, (tt, (tt, tt)))) ((tt, refl), (tt, refl))

-- A deletion that fails between its two statements, in front of a write that commits: the paper is gone
-- from the log and stays in the mirror.
half_deleted :
    (let steps = deleted second_fails (codes "p") ∷ entered ∷ ended ∷ [] in
      let db = do_steps steps recorded in
      (ingest_event_count db ≡ 0) × (keys (list_papers db) ≡ codes "p" ∷ []))
unfolding program
half_deleted = (refl, refl)

-- the log lists a chunk that the collection does not hold, and the index serves one of a paper that
-- is gone
diverged :
    (reconcile recorded
      ((codes "b", some (codes "q")) ∷ [])
      (some (codes "b" ∷ codes "z" ∷ []))).divergences
    ≡ record { kind = missing_from_chroma; paper_id = some (codes "p"); ids = codes "a" ∷ [] }
      ∷ record { kind = not_in_log; paper_id = some (codes "q"); ids = codes "b" ∷ [] }
      ∷ record { kind = stale_in_bm25; paper_id = none; ids = codes "z" ∷ [] }
      ∷ []
unfolding program
diverged = refl

listed_papers :
    (keys (list_papers recorded) ≡ codes "p" ∷ [])
    × (get_paper_events (codes "q") recorded ≡ [])
    × (ingest_event_count recorded ≡ 1)
unfolding program
listed_papers = (refl, refl, refl)

abbrev found : List (Text × Option Text)
found = (codes "a", some (codes "p")) ∷ []

reconcile-consistent_example :
    (let listed = holds (log_rows (get_ingest_events recorded)) in
      let in_chroma = holds (chroma_rows found) in
      ((reconcile recorded found (some (codes "a" ∷ []))).consistent ≡ true) ↔ (
        ((pid i : Text) → listed pid i ≡ in_chroma pid i)
        × ServesExactly (some (codes "a" ∷ [])) in_chroma))
reconcile-consistent_example = reconcile-consistent recorded found (some (codes "a" ∷ []))
