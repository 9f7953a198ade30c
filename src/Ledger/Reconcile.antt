-- ===== src/Ledger/Reconcile.antt =====
-- check_db.py: the comparison of the ingest log with ChromaDB and the BM25 index. A set of ids is a
-- list in which each stands once; the samples, the counts of chunks and the time of the check are
-- left out.
use indic_rag.Ledger.{Event, Database, get_ingest_events}
use indic_rag.Base.{
  Bool, Dict, List, Option, Text, [], if◌then◌else◌, insert, is_empty, is_some, keep_if, length,
  lookup, map, mem, none, not, or_else, some, ℕ, ◌++◌, ◌∷◌, nat_eq, string_eq, pair_eq, list_eq,
}

pub data Kind : Type 0 where
  missing_from_chroma extra_in_chroma not_in_log missing_from_bm25 stale_in_bm25 : Kind

-- the kind, the paper, if it is of one, and the ids
pub record Divergence : Type 0 where
  pub kind : Kind
  pub paper_id : Option Text
  pub ids : List Text

abbrev pub add_id : Text → List Text → List Text
add_id i ids = if mem i ids then ids else ids ++ i ∷ []

-- `set.update`
unfoldable pub add_ids : List Text → List Text → List Text
add_ids [] ids = ids
add_ids (i ∷ more) ids = add_ids more (add_id i ids)

-- `log_ids_by_paper`
unfoldable pub ids_by_paper :
    List (Text × List Text) → Dict Text (List Text) → Dict Text (List Text)
unfolding add_ids
ids_by_paper [] papers = papers
ids_by_paper ((paper_id, ids) ∷ rows) papers = ids_by_paper rows (
    if is_empty paper_id
    then papers
    else insert paper_id (add_ids ids (or_else (lookup paper_id papers) [])) papers)

abbrev pub log_rows : List Event → List (Text × List Text)
log_rows events = map (λ e. (e.paper_id, e.ids)) events

-- `_chroma_ids_by_paper`, of the ids with the papers of their metadata
abbrev pub chroma_rows : List (Text × Option Text) → List (Text × List Text)
chroma_rows found = map (λ r. (or_else r.1 [], r.0 ∷ [])) found

-- `a - b`
abbrev pub without : List Text → List Text → List Text
without a b = keep_if (λ i. not (mem i b)) a

-- `_add`, if there is a difference
abbrev pub diverging : Kind → Option Text → List Text → List Divergence
diverging kind paper_id ids =
    if is_empty ids then [] else record { kind = kind; paper_id = paper_id; ids = ids } ∷ []

-- the divergences of one paper of the log
unfoldable pub paper_divergences :
    Dict Text (List Text) → Option (List Text) → Text → List Text → List Divergence
paper_divergences chroma bm25 pid logged =
    let in_chroma = or_else (lookup pid chroma) [] in
    diverging missing_from_chroma (some pid) (without logged in_chroma)
    ++ (diverging extra_in_chroma (some pid) (without in_chroma logged) ++ elim bm25 [
      | none ↦ []
      | some ids ↦ diverging missing_from_bm25 (some pid) (without in_chroma ids)
    ])

unfoldable pub log_divergences :
    Dict Text (List Text) → Option (List Text) → Dict Text (List Text) → List Divergence
unfolding paper_divergences
log_divergences chroma bm25 [] = []
log_divergences chroma bm25 ((pid, logged) ∷ log) =
    paper_divergences chroma bm25 pid logged ++ log_divergences chroma bm25 log

unfoldable pub unlogged_divergences :
    Dict Text (List Text) → Dict Text (List Text) → List Divergence
unlogged_divergences log [] = []
unlogged_divergences log ((pid, in_chroma) ∷ chroma) =
    (if is_some (lookup pid log)
      then []
      else record { kind = not_in_log; paper_id = some pid; ids = in_chroma } ∷ [])
    ++ unlogged_divergences log chroma

-- `set().union(*chroma_by_paper.values())`
unfoldable pub all_ids : Dict Text (List Text) → List Text
unfolding add_ids
all_ids [] = []
all_ids ((pid, ids) ∷ papers) = add_ids ids (all_ids papers)

abbrev pub stale_divergences : Dict Text (List Text) → Option (List Text) → List Divergence
stale_divergences chroma none = []
stale_divergences chroma (some ids) = diverging stale_in_bm25 none (without ids (all_ids chroma))

pub record Reconciled : Type 0 where
  pub papers_in_log : ℕ
  pub papers_in_chroma : ℕ
  pub consistent : Bool
  pub divergences : List Divergence

unfoldable pub compare_views :
    Dict Text (List Text) → Dict Text (List Text) → Option (List Text) → Reconciled
unfolding log_divergences unlogged_divergences all_ids
compare_views log chroma bm25 =
    let divergences =
      log_divergences chroma bm25 log
      ++ (unlogged_divergences log chroma ++ stale_divergences chroma bm25) in
    record {
      papers_in_log = length log;
      papers_in_chroma = length chroma;
      consistent = is_empty divergences;
      divergences = divergences;
    }

-- `reconcile`: the log's events, the collection's ids with their papers, and the ids that BM25 serves
unfoldable pub reconcile : Database → List (Text × Option Text) → Option (List Text) → Reconciled
unfolding compare_views ids_by_paper get_ingest_events
reconcile db found bm25 =
    compare_views (ids_by_paper (log_rows (get_ingest_events db)) [])
      (ids_by_paper (chroma_rows found) []) bm25
