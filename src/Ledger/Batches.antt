-- ===== src/Ledger/Batches.antt =====
-- persistence.py: a batch of writes is committed whole at its end, or leaves nothing.

use indic_rag.Ledger.{
  Database, maybe_commit, record_ingest, end_write, delete_ingest_events, clear_ingest_log,
  enter_batch, end_batch, abort_batch, Step, do_step, do_steps, unharmed, first_fails, second_fails,
  ingested, deleted, cleared, entered, ended, aborted,
}
use indic_rag.Base.{List, [], ap, arith, refl, sym, ◌++◌, ◌+◌, ◌∙◌, ◌∷◌, ◌≡◌, ◌≤◌}

abbrev pub IsWrite : Step → Type 0
IsWrite entered = ⊥
IsWrite ended = ⊥
IsWrite aborted = ⊥
IsWrite _ = Unit

abbrev pub IsExit : Step → Type 0
IsExit ended = Unit
IsExit aborted = Unit
IsExit _ = ⊥

-- Writes and whole batches, in any nesting.
pub data Block : List Step → Type 0 where
  empty : Block []
  write : {s : Step} {steps : List Step} → IsWrite s → Block steps → Block (s ∷ steps)
  nested :
      {inner rest : List Step} (exit : Step)
      → Block inner
      → IsExit exit
      → Block rest
      → Block (entered ∷ (inner ++ exit ∷ rest))

do_steps-append :
    (a b : List Step) (db : Database) → do_steps (a ++ b) db ≡ do_steps b (do_steps a db)
unfolding do_steps
do_steps-append [] b db = refl
do_steps-append (s ∷ a) b db = do_steps-append a b (do_step s db)

-- what is committed, and the depth, stay
abbrev Held : Database → Database → Type 0
Held before now = (now.committed ≡ before.committed) × (now.depth ≡ before.depth)

maybe_commit-Held : (db : Database) → 1 ≤ db.depth → Held db (maybe_commit db)
unfolding maybe_commit
maybe_commit-Held db h = (ground (arith, h), ground (arith, h))

write-Held : (s : Step) (db : Database) → IsWrite s → 1 ≤ db.depth → Held db (do_step s db)
unfolding do_step record_ingest delete_ingest_events clear_ingest_log end_write
write-Held (ingested unharmed e) db w h = maybe_commit-Held _ h
write-Held (ingested first_fails e) db w h = (refl, refl)
write-Held (ingested second_fails e) db w h = (refl, refl)
write-Held (deleted unharmed t) db w h = maybe_commit-Held _ h
write-Held (deleted first_fails t) db w h = (refl, refl)
write-Held (deleted second_fails t) db w h = (refl, refl)
write-Held (cleared unharmed) db w h = maybe_commit-Held _ h
write-Held (cleared first_fails) db w h = (refl, refl)
write-Held (cleared second_fails) db w h = (refl, refl)
write-Held entered db w h = elim w [ ]
write-Held ended db w h = elim w [ ]
write-Held aborted db w h = elim w [ ]

exit-Held :
    (s : Step) (db : Database)
    → IsExit s
    → 2 ≤ db.depth
    → ((do_step s db).committed ≡ db.committed) × ((do_step s db).depth + 1 ≡ db.depth)
unfolding do_step end_batch abort_batch maybe_commit
exit-Held ended db w h = (ground (arith, h), ground (arith, h))
exit-Held aborted db w h = (ground (arith, h), ground (arith, h))
exit-Held (ingested _ _) db w h = elim w [ ]
exit-Held (deleted _ _) db w h = elim w [ ]
exit-Held (cleared _) db w h = elim w [ ]
exit-Held entered db w h = elim w [ ]

-- A block inside a batch commits nothing.
pub do_steps-Held :
    (steps : List Step) (db : Database)
    → Block steps
    → 1 ≤ db.depth
    → ((do_steps steps db).committed ≡ db.committed) × ((do_steps steps db).depth ≡ db.depth)
unfolding do_steps do_step enter_batch
do_steps-Held _ db empty h = (refl, refl)
do_steps-Held _ db (write {s} {steps} w b) h =
    let here = write-Held s db w h in
    let rest = do_steps-Held steps (do_step s db) b (omega (arith, here.1)) in
    (rest.0 ∙ here.0, rest.1 ∙ here.1)
do_steps-Held _ db (nested {inner} {rest} exit b x c) h =
    let opened : Database = record db { depth = db.depth + 1 } in
    let inside = do_steps-Held inner opened b (omega arith) in
    let left = exit-Held exit (do_steps inner opened) x (omega (arith, inside.1)) in
    let after =
      do_steps-Held rest (do_step exit (do_steps inner opened)) c
        (omega (arith, left.1, inside.1)) in
    let split = do_steps-append inner (exit ∷ rest) opened in
    (
      ap (λ d. d.committed) split ∙ after.0 ∙ left.0 ∙ inside.0,
      ap (λ d. d.depth) split ∙ after.1 ∙ omega (arith, left.1, inside.1),
    )

abort_lem :
    (db : Database)
    → db.depth ≡ 1
    → abort_batch db ≡ record { working = db.committed; committed = db.committed; depth = 0 }
unfolding abort_batch
abort_lem db h = ground (arith, h)

-- A batch that is given up, from a database with no batch open and nothing uncommitted, leaves the
-- database as it was, whatever was written in it and however its inner batches ended.
pub do_steps_aborted :
    (steps : List Step) (db : Database)
    → Block steps
    → db.depth ≡ 0
    → db.working ≡ db.committed
    → do_steps (entered ∷ (steps ++ aborted ∷ [])) db ≡ db
unfolding do_steps do_step enter_batch
do_steps_aborted steps db b d w =
    let opened : Database = record db { depth = db.depth + 1 } in
    let held = do_steps-Held steps opened b (omega arith) in
    do_steps-append steps (aborted ∷ []) opened
    ∙ abort_lem (do_steps steps opened) (held.1 ∙ omega (arith, d))
    ∙ λ i. record { working = (held.0 ∙ sym w) i; committed = held.0 i; depth = sym d i }
