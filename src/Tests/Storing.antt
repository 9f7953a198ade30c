-- ===== src/Tests/Storing.antt =====
-- A collection as a dict, and writes of two chunks in batches of one.
use indic_rag.Store.{
  Breaker, record_failure, record_success, Outcome, Reply, World, breaker_after, chroma_call,
  returned, raised, landed,
}
use indic_rag.Store.Documents.{
  Chunk, Chroma, Provenance, merged, stamped, preexisting, upsert_all, roll_back, add_documents,
  text, added, failed,
}
use indic_rag.Store.Rollback.{Restored, add_documents-Restored}
use indic_rag.Store.Kept.{with_stamp, add_documents-Stored}
use indic_rag.Store.Breaks.{FailsAlone, add_documents_undone}
use indic_rag.Base.{
  ==_iff, Bool-cases, Dict, List, Text, Unique, [], ap, arith, codes, false, if◌then◌else◌, inl,
  inr, insert, is_some, keys, lookup, lookup-insert, lookup-remove, mem, none, refl, remove, some,
  sym, true, ℕ, ◌*◌, ◌+◌, ◌==◌, ◌∙◌, ◌∷◌, ◌≡◌, ◌⊎◌, nat_eq, string_eq, pair_eq, list_eq,
}

abbrev pub Rows : Type 0
Rows = Dict Text (Chunk ℕ)

unfoldable pub upsert_rows : Rows → Rows → Rows
upsert_rows [] c = c
upsert_rows ((k, v) ∷ rows) c = upsert_rows rows (insert k v c)

unfoldable pub delete_rows : List Text → Rows → Rows
delete_rows [] c = c
delete_rows (j ∷ js) c = delete_rows js (remove j c)

pub other_rows :
    (i : Text) (rows c : Rows)
    → mem i (keys rows) ≡ false
    → lookup i (upsert_rows rows c) ≡ lookup i c
unfolding upsert_rows
other_rows i [] c h = refl
other_rows i ((k, v) ∷ rows) c h =
    other_rows i rows (insert k v c) (ground (arith, h)) ∙ ground (arith, lookup-insert k i v c, h)

pub new_rows :
    (i : Text) (rows c : Rows) (row : Chunk ℕ)
    → Unique (keys rows)
    → lookup i rows ≡ some row
    → lookup i (upsert_rows rows c) ≡ some row
unfolding upsert_rows lookup
new_rows i [] c row u e = cc
new_rows i ((k, v) ∷ rows) c row u e = elim (Bool-cases (k == i)) [
  | inl same ↦
      other_rows i rows (insert k v c)
        (ap (λ j. mem j (keys rows)) (sym ((==_iff k i).0 same)) ∙ u.0)
      ∙ ground (arith, lookup-insert k i v c, same, e)
  | inr other ↦ new_rows i rows (insert k v c) row u.1 (ground (arith, other, e))
]

pub kept_rows :
    (i : Text) (rows c : Rows)
    → is_some (lookup i c) ≡ true
    → is_some (lookup i (upsert_rows rows c)) ≡ true
unfolding upsert_rows
kept_rows i [] c h = h
kept_rows i ((k, v) ∷ rows) c h =
    kept_rows i rows (insert k v c) (ground (arith, lookup-insert k i v c, h))

pub deleted_rows :
    (i : Text) (ids : List Text) (c : Rows)
    → lookup i (delete_rows ids c) ≡ (if mem i ids then none else lookup i c)
unfolding delete_rows
deleted_rows i [] c = refl
deleted_rows i (j ∷ js) c = deleted_rows i js (remove j c) ∙ ground (arith, lookup-remove j i c)

abbrev pub rows_chroma : Chroma ℕ Rows
rows_chroma = record {
  stored = λ i c. lookup i c;
  upsert = upsert_rows;
  delete = delete_rows;
  upsert_new = λ i rows c row u e. new_rows i rows c row u e;
  upsert_kept = λ i rows c h. kept_rows i rows c h;
  upsert_other = λ i rows c h. other_rows i rows c h;
  delete_lem = λ i ids c. deleted_rows i ids c;
}

abbrev pub plain_chunk : Text → Chunk ℕ
plain_chunk t = record {
  document = t;
  embedding = 7;
  metadata = (codes "paper_id", text (codes "p")) ∷ [];
}

abbrev names : Provenance
names = record { embed_model = codes "m"; embed_dim = 3; embed_backend = codes "fp32" }

abbrev two_rows : Rows
two_rows = (codes "a", plain_chunk (codes "x")) ∷ (codes "b", plain_chunk (codes "y")) ∷ []

abbrev pub closed : Breaker
closed = record { until = 0; failures = 0 }

abbrev pub world_of : Rows → World Rows
world_of rows = record { collection = rows; breaker = closed; late = [] }

-- the second chunk was there
abbrev before : World Rows
before = world_of ((codes "b", plain_chunk (codes "old")) ∷ [])

abbrev pub answers : ℕ → Outcome → Reply
answers n o = record { now = 1000 * n; given_up = 1000 * n + 500; outcome = o }

abbrev pub all_return : ℕ → Reply
all_return n = answers n returned

-- the write of the second batch is given up after it had its effect
abbrev second_fails : ℕ → Reply
second_fails n = answers n (if n == 2 then landed else returned)

program : Unit {0}
unfolding record_failure record_success breaker_after chroma_call merged stamped preexisting
    upsert_all roll_back add_documents upsert_rows delete_rows lookup insert remove
program = tt

-- the new chunk is deleted again, the chunk that was there is kept, with its new text
undone : add_documents rows_chroma second_fails names 1 two_rows before ≡ (
  failed true true,
  record before {
    collection =
        (codes "b", with_stamp rows_chroma second_fails names (plain_chunk (codes "y"))) ∷ [];
  },
)
unfolding program
undone = refl

-- a time-out after two others, with no check to reset the count, opens the breaker, which refuses
-- the deletion
abbrev check_fails : ℕ → Reply
check_fails n = answers n (if n == 0 then raised false else if n == 1 then landed else returned)

refused_rollback :
    (add_documents rows_chroma check_fails names 1 two_rows
      (record before { breaker = record { until = 0; failures = 2 } })).0
    ≡ failed false false
unfolding program
refused_rollback = refl

ended : (add_documents rows_chroma second_fails names 1 two_rows before).0 ≡ failed true true
unfolding program
ended = refl

add_documents-Restored_example :
    (let left = (add_documents rows_chroma second_fails names 1 two_rows before).1.collection in
      Restored rows_chroma second_fails (codes "a") before.collection left
      × (mem (codes "a") (keys two_rows) ≡ false
          → lookup (codes "a") left ≡ lookup (codes "a") before.collection))
add_documents-Restored_example =
    add_documents-Restored rows_chroma second_fails names 1 two_rows before (codes "a") ended

distinct_ids : Unique (keys two_rows)
distinct_ids = (refl, (refl, tt))

second_row : lookup (codes "b") two_rows ≡ some (plain_chunk (codes "y"))
unfolding lookup
second_row = refl

all_added : (add_documents rows_chroma all_return names 1 two_rows before).0 ≡ added
unfolding program
all_added = refl

add_documents-Stored_example :
    lookup (codes "b") (add_documents rows_chroma all_return names 1 two_rows before).1.collection
    ≡ some (with_stamp rows_chroma all_return names (plain_chunk (codes "y")))
add_documents-Stored_example =
    add_documents-Stored rows_chroma all_return names 1 two_rows before (codes "b")
      (plain_chunk (codes "y")) distinct_ids second_row all_added

fails_alone : FailsAlone second_fails
fails_alone = (refl, λ n h. ground (arith, h))

add_documents_undone_example :
    (let ending = (add_documents rows_chroma second_fails names 1 two_rows before).0 in
      (ending ≡ added) ⊎ (ending ≡ failed true true))
add_documents_undone_example =
    add_documents_undone rows_chroma second_fails names 1 two_rows before (omega arith)
      (λ n. (omega arith, omega arith)) fails_alone
