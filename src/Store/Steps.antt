-- ===== src/Store/Steps.antt =====
-- vector_store.py: what each step of a deletion's cascade leaves when it runs.

use indic_rag.Store.Deletion.{
  worth_compacting, remove_from_index, retried, compensate, tried_index, clean_index, clean_log,
}
use indic_rag.Ledger.{
  Fault, unharmed, first_fails, second_fails, end_write, Event, Tables, Database,
  delete_ingest_events, delete_paper, maybe_commit,
}
use indic_rag.Sparse.{Index, compact}
use indic_rag.Sparse.Sound.{live, IsSound, named}
use indic_rag.Sparse.Remove.{remove_documents_total}
use indic_rag.Sparse.Compact.{compact-Compacts}
use indic_rag.Base.{
  All, Bool, Bool-cases, Dict, List, Option, Text, [], ap, false, if◌then◌else◌, inl, inr, mem,
  none, refl, remove, some, subst, sym, true, ◌==◌, ◌>>=◌, ◌∙◌, ◌∷◌, ◌≡◌, nat_eq, string_eq,
  pair_eq, list_eq,
}

-- no event of the log is of the paper
abbrev pub LogLacks : Text → Dict Text Event → Type 0
LogLacks paper_id log = All (λ r. (r.1.paper_id == paper_id) ≡ false) log

-- the index serves none of these chunks
abbrev pub ServesNone : List Text → Option (Index Text Text) → Type 0
ServesNone ids none = Unit
ServesNone ids (some ix) = (i : Text) → mem i ids ≡ true → live (named i) ix ≡ 0

abbrev pub LexicalSound : Option (Index Text Text) → Type 0
LexicalSound none = Unit
LexicalSound (some ix) = IsSound ix

delete_paper-LogLacks : (t : Text) (log : Dict Text Event) → LogLacks t (delete_paper t log)
unfolding delete_paper
delete_paper-LogLacks t [] = tt
delete_paper-LogLacks t ((j, e) ∷ log) = elim (Bool-cases (e.paper_id == t)) [
  | inl same ↦
      subst (LogLacks t)
        (ap (λ b. if b then delete_paper t log else (j, e) ∷ delete_paper t log) (sym same))
        (delete_paper-LogLacks t log)
  | inr other ↦
      subst (LogLacks t)
        (ap (λ b. if b then delete_paper t log else (j, e) ∷ delete_paper t log) (sym other))
        (other, delete_paper-LogLacks t log)
]

-- what an attempt leaves, by whether it has returned
abbrev pub Tried : {S : Type 0} → (S → Type 0) → (S → Type 0) → Bool × S → Type 0
Tried Before After (true, s) = After s
Tried Before After (false, s) = Before s

pub compensate-Tried :
    {S : Type 0} (Before After : S → Type 0) (first again : S → Bool × S)
    → ((s : S) → Before s → Tried Before After (first s))
    → ((s : S) → Before s → Tried Before After (again s))
    → (s : S) → Before s
    → Tried Before After (compensate first again s)
compensate-Tried {S} Before After first again once twice s h = go (first s) (once s h)
  where
    go : (r : Bool × S) → Tried Before After r → Tried Before After (retried again r)
    go (true, after) t = t
    go (false, after) t = twice after t

-- the log without the paper, in the tables that the connection sees
abbrev pub Dropped : Text → Database → Type 0
Dropped paper_id db = LogLacks paper_id db.working.ingest_log

pub clean_log-Dropped :
    (fault : Fault) (t : Text) (db : Database)
    → Tried (λ b. Unit {0}) (Dropped t) (clean_log fault t db)
unfolding delete_ingest_events end_write maybe_commit
clean_log-Dropped first_fails t db = tt
clean_log-Dropped second_fails t db = tt
clean_log-Dropped unharmed t db = go (db.depth == 0) (delete_paper-LogLacks t db.working.ingest_log)
  where
    tables : Tables
    tables = record {
      ingest_log = delete_paper t db.working.ingest_log;
      paper_index = remove t db.working.paper_index;
    }

    written : Database
    written = record db { working = tables }

    go :
        (b : Bool)
        → LogLacks t tables.ingest_log
        → Dropped t (if b then record written { committed = tables } else written)
    go true h = h
    go false h = h

remove_from_index-ServesNone :
    (ids : List Text) (lexical : Option (Index Text Text))
    → LexicalSound lexical
    → (after : Option (Index Text Text)) × (remove_from_index ids lexical ≡ some after)
      × ServesNone ids after
unfolding remove_from_index
remove_from_index-ServesNone ids none h = (none, refl, tt)
remove_from_index-ServesNone ids (some ix) h =
    let (left, count, done, sound, gone, counts) = remove_documents_total ids ix h in
    (
      some (if worth_compacting left then (compact left).0 else left),
      ap (λ o. o >>= λ r. some (some (if worth_compacting r.0 then (compact r.0).0 else r.0))) done,
      served left sound (λ i m. gone i ∙ ap (λ b. if b then 0 else live (named i) ix) m)
          (worth_compacting left),
    )
  where
    served :
        (left : Index Text Text)
        → IsSound left
        → ((i : Text) → mem i ids ≡ true → live (named i) left ≡ 0)
        → (b : Bool) → ServesNone ids (some (if b then (compact left).0 else left))
    served left sound gone true = λ i m. (compact-Compacts left sound).1 (named i) ∙ gone i m
    served left sound gone false = gone

pub clean_index-ServesNone :
    (made : Bool) (ids : List Text) (lexical : Option (Index Text Text))
    → LexicalSound lexical
    → Tried LexicalSound (ServesNone ids) (clean_index made ids lexical)
clean_index-ServesNone false ids lexical h = h
clean_index-ServesNone true ids lexical h =
    let (after, runs, none_served) = remove_from_index-ServesNone ids lexical h in
    subst (λ o. Tried LexicalSound (ServesNone ids) (tried_index lexical o)) (sym runs) none_served
