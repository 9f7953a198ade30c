-- ===== src/Ledger/Mirror.antt =====
-- persistence.py: `paper_index` has, at every moment, the row of each paper of the log and no other.
use indic_rag.Ledger.{
  Event, PaperRow, Tables, Database, maybe_commit, insert_event, paper_row, record_ingest,
  delete_paper, end_write, delete_ingest_events, clear_ingest_log, enter_batch, end_batch,
  abort_batch, Step, do_step, do_steps, unharmed, first_fails, second_fails, ingested, deleted,
  cleared, entered, ended, aborted,
}
use indic_rag.Base.{
  ==_iff, All, Bool, Bool-cases, Dict, List, Option, Text, [], ap, arith, false, if◌then◌else◌, inl,
  inr, insert, lookup, none, refl, remove, some, subst, sym, true, ◌-◌, ◌==◌, ◌∙◌, ◌∷◌, ◌≡◌, nat_eq,
  string_eq, pair_eq, list_eq,
}

-- the mirror that the log asks for
abbrev pub mirror : Dict Text Event → Dict Text PaperRow
mirror [] = []
mirror ((i, e) ∷ log) = (e.paper_id, paper_row e) ∷ mirror log

-- every row of the log stands under its paper
abbrev pub Named : Dict Text Event → Type 0
Named [] = Unit
Named ((i, e) ∷ log) = (i ≡ e.paper_id) × Named log

abbrev pub Mirrored : Tables → Type 0
Mirrored t = Named t.ingest_log × (t.paper_index ≡ mirror t.ingest_log)

insert-Named :
    (i : Text) (e : Event) (log : Dict Text Event)
    → i ≡ e.paper_id
    → Named log
    → Named (insert i e log)
unfolding insert
insert-Named i e [] n h = (n, tt)
insert-Named i e ((j, f) ∷ log) n h =
    go (j == i) (λ same. (==_iff j i).0 same) (insert-Named i e log n h.1)
  where
    go :
        (b : Bool)
        → (b ≡ true → j ≡ i)
        → Named (insert i e log)
        → Named (if b then (j, e) ∷ log else (j, f) ∷ insert i e log)
    go true same rest = (same refl ∙ n, h.1)
    go false same rest = (h.0, rest)

mirror-insert :
    (i : Text) (e : Event) (log : Dict Text Event)
    → i ≡ e.paper_id
    → Named log
    → mirror (insert i e log) ≡ insert i (paper_row e) (mirror log)
unfolding insert
mirror-insert i e [] n h = λ k. (sym n k, paper_row e) ∷ []
mirror-insert i e ((j, f) ∷ log) n h =
    go (j == i) (f.paper_id == i) (ap (λ t. t == i) h.0) (λ same. (==_iff j i).0 same)
      (mirror-insert i e log n h.1)
  where
    go :
        (b c : Bool)
        → b ≡ c
        → (b ≡ true → j ≡ i)
        → mirror (insert i e log) ≡ insert i (paper_row e) (mirror log)
        → mirror (if b then (j, e) ∷ log else (j, f) ∷ insert i e log) ≡ (
            if c
            then (f.paper_id, paper_row e) ∷ mirror log
            else (f.paper_id, paper_row f) ∷ insert i (paper_row e) (mirror log))
    go true true q same rest = λ k. ((sym n ∙ sym (same refl) ∙ h.0) k, paper_row e) ∷ mirror log
    go true false q same rest = cc
    go false true q same rest = cc
    go false false q same rest = λ k. (f.paper_id, paper_row f) ∷ rest k

lookup-Named :
    (i : Text) (old : Event) (log : Dict Text Event)
    → Named log
    → lookup i log ≡ some old
    → old.paper_id ≡ i
unfolding lookup
lookup-Named i old [] h e = cc
lookup-Named i old ((j, f) ∷ log) h e = elim (Bool-cases (j == i)) [
  | inl same ↦
      let found : f ≡ old = ground (arith, same, e) in
      ap (λ g. g.paper_id) (sym found) ∙ sym h.0 ∙ (==_iff j i).0 same
  | inr other ↦ lookup-Named i old log h.1 (ground (arith, other, e))
]

-- an update keeps the paper's name, which is the same
insert_event-insert :
    (e : Event) (log : Dict Text Event)
    → Named log
    → insert_event e.paper_id e log ≡ insert e.paper_id e log
unfolding insert_event
insert_event-insert e log h =
    go (lookup e.paper_id log) (λ old found. lookup-Named e.paper_id old log h found)
  where
    go :
        (o : Option Event)
        → ((old : Event) → o ≡ some old → old.paper_id ≡ e.paper_id)
        → elim o [
          | none ↦ insert e.paper_id e log
          | some old ↦ insert e.paper_id (record e { paper_id = old.paper_id }) log
        ]
          ≡ insert e.paper_id e log
    go none same = refl
    go (some old) same = ap (λ t. insert e.paper_id (record e { paper_id = t }) log) (same old refl)

delete-Named : (t : Text) (log : Dict Text Event) → Named log → Named (delete_paper t log)
unfolding delete_paper
delete-Named t [] h = tt
delete-Named t ((j, f) ∷ log) h = go (f.paper_id == t) (delete-Named t log h.1)
  where
    go :
        (b : Bool)
        → Named (delete_paper t log)
        → Named (if b then delete_paper t log else (j, f) ∷ delete_paper t log)
    go true rest = rest
    go false rest = (h.0, rest)

mirror-delete :
    (t : Text) (log : Dict Text Event) → mirror (delete_paper t log) ≡ remove t (mirror log)
unfolding delete_paper remove
mirror-delete t [] = refl
mirror-delete t ((j, f) ∷ log) = go (f.paper_id == t) (mirror-delete t log)
  where
    go :
        (b : Bool)
        → mirror (delete_paper t log) ≡ remove t (mirror log)
        → mirror (if b then delete_paper t log else (j, f) ∷ delete_paper t log)
          ≡ (if b then remove t (mirror log) else (f.paper_id, paper_row f) ∷ remove t (mirror log))
    go true rest = rest
    go false rest = λ k. (f.paper_id, paper_row f) ∷ rest k

-- both states of the tables
abbrev pub AlwaysMirrored : Database → Type 0
AlwaysMirrored db = Mirrored db.working × Mirrored db.committed

maybe_commit-Mirrored :
    (db : Database) → Mirrored db.working → Mirrored db.committed → AlwaysMirrored (maybe_commit db)
unfolding maybe_commit
maybe_commit-Mirrored db w c = go (db.depth == 0)
  where
    go : (b : Bool) → AlwaysMirrored (if b then record db { committed = db.working } else db)
    go true = (w, w)
    go false = (w, c)

-- The write is not broken off between the two DELETEs of a deletion.
abbrev pub IsWhole : Step → Type 0
IsWhole (deleted second_fails t) = ⊥
IsWhole (cleared second_fails) = ⊥
IsWhole _ = Unit

do_step-Mirrored :
    (s : Step) (db : Database) → IsWhole s → AlwaysMirrored db → AlwaysMirrored (do_step s db)
unfolding do_step record_ingest delete_ingest_events clear_ingest_log end_write enter_batch
    end_batch abort_batch
do_step-Mirrored (ingested first_fails e) db whole h = h
do_step-Mirrored (ingested second_fails e) db whole h = h
do_step-Mirrored (ingested unharmed e) db whole h =
    let same = insert_event-insert e db.working.ingest_log h.0.0 in
    maybe_commit-Mirrored _
      (
        subst Named (sym same) (insert-Named e.paper_id e db.working.ingest_log refl h.0.0),
        ap (insert e.paper_id (paper_row e)) h.0.1
            ∙ sym (mirror-insert e.paper_id e db.working.ingest_log refl h.0.0)
            ∙ ap mirror (sym same),
      )
      h.1
do_step-Mirrored (deleted unharmed t) db whole h =
    maybe_commit-Mirrored _
      (
        delete-Named t db.working.ingest_log h.0.0,
        ap (remove t) h.0.1 ∙ sym (mirror-delete t db.working.ingest_log),
      )
      h.1
do_step-Mirrored (deleted first_fails t) db whole h = h
do_step-Mirrored (deleted second_fails t) db whole h = elim whole [ ]
do_step-Mirrored (cleared unharmed) db whole h = maybe_commit-Mirrored _ (tt, refl) h.1
do_step-Mirrored (cleared first_fails) db whole h = h
do_step-Mirrored (cleared second_fails) db whole h = elim whole [ ]
do_step-Mirrored entered db whole h = h
do_step-Mirrored ended db whole h = maybe_commit-Mirrored _ h.0 h.1
do_step-Mirrored aborted db whole h = go (db.depth - 1 == 0)
  where
    go :
        (b : Bool)
        → (let left = record db { depth = db.depth - 1 } in
            AlwaysMirrored (if b then record left { working = left.committed } else left))
    go true = (h.1, h.1)
    go false = h

-- Whatever papers are ingested and deleted, in batches that end or are given up in any nesting,
-- `paper_index` has one row for each row of the log, in its order, with the title, the year and the
-- number of chunks of that row, and no other; of the tables as the connection sees them, and as they
-- were committed. Either statement of an ingestion may fail, and the first one of a deletion; the
-- second statement of a deletion must not, since nothing takes the first one back.
pub do_steps-Mirrored :
    (steps : List Step) (db : Database)
    → All IsWhole steps
    → AlwaysMirrored db
    → AlwaysMirrored (do_steps steps db)
unfolding do_steps
do_steps-Mirrored [] db whole h = h
do_steps-Mirrored (s ∷ steps) db whole h =
    do_steps-Mirrored steps (do_step s db) whole.1 (do_step-Mirrored s db whole.0 h)
