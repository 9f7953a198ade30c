-- ===== src/Ledger.antt =====
-- persistence.py: the ingest log, the system of record of the search indexes, its mirror
-- `paper_index`, and the transactions that they are written in.
pub mod Mirror
pub mod Batches
pub mod Reconcile
pub mod Agreement
pub mod Consistent
pub mod Views
use indic_rag.Base.{
  Bool, Dict, List, Option, Text, [], ap, codes, drop, false, if◌then◌else◌, insert, is_empty,
  keep_if, leb, length, lookup, map, none, or_else, remove, some, true, ℕ, ◌+◌, ◌-◌, ◌==◌, ◌∷◌,
  nat_eq, string_eq, pair_eq, list_eq,
}

-- a row of `ingest_log`, behind its `event_id`
pub record Event : Type 0 where
  pub paper_id : Text
  pub content_hash : Text
  pub title : Text
  pub source_path : Text
  pub chunks : List Text
  pub metadatas : List (Dict Text Text)
  pub ids : List Text
  pub embed_model : Text
  pub chunker_version : ℕ
  pub created_at : ℕ
  pub embed_backend : Option Text

-- a row of `paper_index`, behind its `paper_id`
pub record PaperRow : Type 0 where
  pub title : Text
  pub year : Text
  pub chunk_count : ℕ
  pub updated_at : ℕ

pub record Tables : Type 0 where
  pub ingest_log : Dict Text Event
  pub paper_index : Dict Text PaperRow

-- the tables as the connection sees them, as the last commit left them, and `_batch_depth`
pub record Database : Type 0 where
  pub working : Tables
  pub committed : Tables
  pub depth : ℕ

-- `_year_of`
unfoldable pub year_of : List (Dict Text Text) → Text
year_of [] = []
year_of (m ∷ ms) =
    let later = year_of ms in
    let year = or_else (lookup (codes "year") m) [] in if is_empty year then later else year

unfoldable pub maybe_commit : Database → Database
maybe_commit db = if db.depth == 0 then record db { committed = db.working } else db

-- `INSERT INTO ingest_log ... ON CONFLICT(event_id) DO UPDATE`, which leaves the `paper_id`
unfoldable pub insert_event : Text → Event → Dict Text Event → Dict Text Event
insert_event event_id e log = elim (lookup event_id log) [
  | none ↦ insert event_id e log
  | some old ↦ insert event_id (record e { paper_id = old.paper_id }) log
]

-- the row of `paper_index` that `record_ingest` writes
unfoldable pub paper_row : Event → PaperRow
unfolding year_of
paper_row e = record {
  title = e.title;
  year = year_of e.metadatas;
  chunk_count = length e.ids;
  updated_at = e.created_at;
}

-- Which of two statements of a write raises: it has no effect then.
pub data Fault : Type 0 where
  unharmed first_fails second_fails : Fault

-- two statements, one behind the other: whether both have run, and the tables
abbrev pub two_statements : Fault → (Tables → Tables) → (Tables → Tables) → Tables → Bool × Tables
two_statements unharmed one two t = (true, two (one t))
two_statements first_fails one two t = (false, t)
two_statements second_fails one two t = (false, one t)

-- the tables inside of a savepoint, and as they were when it was set
pub record Savepoint : Type 0 where
  pub saved : Tables
  pub inside : Tables

abbrev pub set_savepoint : Tables → Savepoint
set_savepoint t = record { saved = t; inside = t }

-- ROLLBACK TO, which keeps the savepoint, and RELEASE, which keeps what was done in it
abbrev pub rollback_to : Savepoint → Savepoint
rollback_to s = record s { inside = s.saved }

abbrev pub release : Savepoint → Tables
release s = s.inside

abbrev pub log_row : Text → Event → Tables → Tables
log_row event_id e t = record t { ingest_log = insert_event event_id e t.ingest_log }

abbrev pub mirror_row : Event → Tables → Tables
mirror_row e t = record t { paper_index = insert e.paper_id (paper_row e) t.paper_index }

-- `record_ingest`: whether it returns
unfoldable pub record_ingest : Fault → Text → Event → Database → Bool × Database
unfolding insert_event paper_row maybe_commit
record_ingest fault event_id e db =
    let opened = set_savepoint db.working in
    let (done, tables) = two_statements fault (log_row event_id e) (mirror_row e) opened.inside in
    let written : Savepoint = record opened { inside = tables } in
    if done
    then (true, maybe_commit (record db { working = release written }))
    else (false, record db { working = release (rollback_to written) })

-- `_record_ingest` of ingest.py: one row per paper
abbrev pub record_paper : Fault → Event → Database → Bool × Database
record_paper fault e = record_ingest fault e.paper_id e

-- `DELETE FROM ingest_log WHERE paper_id = ?`
unfoldable pub delete_paper : Text → Dict Text Event → Dict Text Event
delete_paper paper_id [] = []
delete_paper paper_id ((event_id, e) ∷ log) =
    let rest = delete_paper paper_id log in
    if e.paper_id == paper_id then rest else (event_id, e) ∷ rest

abbrev pub drop_events : Text → Tables → Tables
drop_events paper_id t = record t { ingest_log = delete_paper paper_id t.ingest_log }

abbrev pub drop_paper : Text → Tables → Tables
drop_paper paper_id t = record t { paper_index = remove paper_id t.paper_index }

-- what two statements without a savepoint leave: those that have run stay in the open transaction
unfoldable pub end_write : ℕ → Bool × Tables → Database → Option ℕ × Database
unfolding maybe_commit
end_write count (done, tables) db =
    let left = record db { working = tables } in
    if done then (some count, maybe_commit left) else (none, left)

-- `delete_ingest_events`: the count, or `none` when it raises
unfoldable pub delete_ingest_events : Fault → Text → Database → Option ℕ × Database
unfolding delete_paper end_write
delete_ingest_events fault paper_id db =
    end_write (length db.working.ingest_log - length (delete_paper paper_id db.working.ingest_log))
      (two_statements fault (drop_events paper_id) (drop_paper paper_id) db.working) db

unfoldable pub clear_ingest_log : Fault → Database → Option ℕ × Database
unfolding end_write
clear_ingest_log fault db =
    end_write (length db.working.ingest_log)
      (two_statements fault (λ t. record t { ingest_log = [] }) (λ t. record t { paper_index = [] })
        db.working)
      db

-- the ways in and out of `batch_writes`: its entry, its end, and an exception in its block
unfoldable pub enter_batch : Database → Database
enter_batch db = record db { depth = db.depth + 1 }

unfoldable pub end_batch : Database → Database
unfolding maybe_commit
end_batch db = maybe_commit (record db { depth = db.depth - 1 })

unfoldable pub abort_batch : Database → Database
abort_batch db =
    let left = record db { depth = db.depth - 1 } in
    if left.depth == 0 then record left { working = left.committed } else left

-- `ORDER BY created_at ASC`, of rows in the order of their insertion
unfoldable pub by_created : Text × Event → List (Text × Event) → List (Text × Event)
by_created r [] = r ∷ []
by_created (i, e) ((j, f) ∷ rows) =
    let later = by_created (i, e) rows in
    if leb e.created_at f.created_at then (i, e) ∷ (j, f) ∷ rows else (j, f) ∷ later

-- the readers use connections of their own, which see what is committed
unfoldable pub get_ingest_events : Database → List Event
unfolding by_created
get_ingest_events db = map (λ r. r.1) (sorted db.committed.ingest_log)
  where
    sorted : Dict Text Event → List (Text × Event)
    sorted [] = []
    sorted (r ∷ rows) = by_created r (sorted rows)

-- with a `paper_id`
abbrev pub get_paper_events : Text → Database → List Event
get_paper_events paper_id db = keep_if (λ e. e.paper_id == paper_id) (get_ingest_events db)

abbrev pub list_papers : Database → Dict Text PaperRow
list_papers db = db.committed.paper_index

abbrev pub ingest_event_count : Database → ℕ
ingest_event_count db = length db.committed.ingest_log

-- a write, or a way in or out of a batch
pub data Step : Type 0 where
  ingested : Fault → Event → Step
  deleted : Fault → Text → Step
  cleared : Fault → Step
  entered ended aborted : Step

unfoldable pub do_step : Step → Database → Database
unfolding record_ingest delete_ingest_events clear_ingest_log enter_batch end_batch abort_batch
do_step (ingested fault e) db = (record_paper fault e db).1
do_step (deleted fault paper_id) db = (delete_ingest_events fault paper_id db).1
do_step (cleared fault) db = (clear_ingest_log fault db).1
do_step entered db = enter_batch db
do_step ended db = end_batch db
do_step aborted db = abort_batch db

unfoldable pub do_steps : List Step → Database → Database
unfolding do_step
do_steps [] db = db
do_steps (s ∷ steps) db = do_steps steps (do_step s db)
