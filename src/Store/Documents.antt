-- ===== src/Store/Documents.antt =====
-- vector_store.py: `add_documents`, with its batches and its rollback. ChromaDB's collection is a
-- parameter: what it holds under an id, what its writes are and what they leave. The count of the
-- collection that a success logs is left out.
use indic_rag.Store.{Reply, World, chroma_call}
use indic_rag.Base.{
  Bool, Dict, List, Option, Text, Unique, [], codes, drop, false, if◌then◌else◌, insert, is_empty,
  is_some, keep_if, keys, length, lookup, max, mem, none, not, some, suc, take, true, zero, ℕ, ◌++◌,
  ◌∷◌, ◌≡◌, nat_eq, string_eq, pair_eq, list_eq,
}

-- a value of a chunk's metadata
pub data Value : Type 0 where
  number : ℕ → Value
  text : Text → Value

pub record Chunk (V : Type 0) : Type 0 where
  pub document : Text
  pub embedding : V
  pub metadata : Dict Text Value

-- the documented behaviour of a collection's upsert and delete
pub record Chroma (V C : Type 0) : Type 0 where
  pub stored : Text → C → Option (Chunk V)
  pub upsert : Dict Text (Chunk V) → C → C
  pub delete : List Text → C → C
  pub upsert_new :
      (i : Text) (rows : Dict Text (Chunk V)) (c : C) (row : Chunk V)
      → Unique (keys rows)
      → lookup i rows ≡ some row
      → stored i (upsert rows c) ≡ some row
  pub upsert_kept :
      (i : Text) (rows : Dict Text (Chunk V)) (c : C)
      → is_some (stored i c) ≡ true
      → is_some (stored i (upsert rows c)) ≡ true
  pub upsert_other :
      (i : Text) (rows : Dict Text (Chunk V)) (c : C)
      → mem i (keys rows) ≡ false
      → stored i (upsert rows c) ≡ stored i c
  pub delete_lem :
      (i : Text) (ids : List Text) (c : C)
      → stored i (delete ids c) ≡ (if mem i ids then none else stored i c)

-- config's names of the embedding, and `embeddings.EMBED_BACKEND`
pub record Provenance : Type 0 where
  pub embed_model : Text
  pub embed_dim : ℕ
  pub embed_backend : Text

abbrev pub chunker_version : ℕ
chunker_version = 1

abbrev pub schema_version : ℕ
schema_version = 1

abbrev pub provenance_stamp : Provenance → Dict Text Value
provenance_stamp p =
    (codes "embed_model", text p.embed_model)
    ∷ (codes "embed_dim", number p.embed_dim)
    ∷ (codes "embed_backend", text p.embed_backend)
    ∷ (codes "chunker_version", number chunker_version)
    ∷ (codes "schema_version", number schema_version)
    ∷ []

-- `{**m, **stamp}`
unfoldable pub merged : Dict Text Value → Dict Text Value → Dict Text Value
merged m [] = m
merged m ((k, v) ∷ stamp) = merged (insert k v m) stamp

-- how `add_documents` ends: it returns, or it raises, with whether it could check which ids were there
-- and whether it could undo its writes, which its log tells
pub data Ending : Type 0 where
  added : Ending
  failed : Bool → Bool → Ending

module _ {V C : Type 0} (chroma : Chroma V C) (replies : ℕ → Reply) where
  unfoldable pub stamped : Provenance → Dict Text (Chunk V) → Dict Text (Chunk V)
  unfolding merged
  stamped p [] = []
  stamped p ((i, row) ∷ rows) =
      (i, record row { metadata = merged row.metadata (provenance_stamp p) }) ∷ stamped p rows

  -- `set(_chroma_call(collection.get, ids=list(ids), ...))`, empty when the call fails
  unfoldable pub preexisting : List Text → World C → Bool × List Text × World C
  unfolding chroma_call
  preexisting ids w =
      let (ok, w') = chroma_call (replies 0) (λ c. c) w in
      (ok, if ok then keep_if (λ i. is_some (chroma.stored i w.collection)) ids else [], w')

  -- `for start in range(0, len(ids), batch)`, from the call `k` on: whether every call returned,
  -- the ids attempted, the calls made, and what they left
  unfoldable pub upsert_all :
      ℕ → ℕ → ℕ → Dict Text (Chunk V) → List Text → World C → Bool × List Text × ℕ × World C
  unfolding chroma_call
  upsert_all zero k batch rows attempted w = (true, attempted, k, w)
  upsert_all (suc fuel) k batch [] attempted w = (true, attempted, k, w)
  upsert_all (suc fuel) k batch (row ∷ rows) attempted w =
      let some_rows = take batch (row ∷ rows) in
      let (ok, w') = chroma_call (replies k) (chroma.upsert some_rows) w in
      let now_attempted = attempted ++ keys some_rows in
      let rest = upsert_all fuel (suc k) batch (drop batch (row ∷ rows)) now_attempted w' in
      if ok then rest else (false, now_attempted, suc k, w')

  -- the `except` block: the rows that this call created are deleted; `false` when that fails
  unfoldable pub roll_back : List Text → List Text → ℕ → World C → Bool × World C
  unfolding chroma_call
  roll_back existing attempted k w =
      let orphans = keep_if (λ i. not (mem i existing)) attempted in
      if is_empty orphans then (true, w) else chroma_call (replies k) (chroma.delete orphans) w

  unfoldable pub add_documents : Provenance → ℕ → Dict Text (Chunk V) → World C → Ending × World C
  unfolding stamped preexisting upsert_all roll_back
  add_documents p upsert_batch rows w =
      let documents = stamped p rows in
      let (checked, existing, ready) = preexisting (keys documents) w in
      let (ok, attempted, k, written) =
        upsert_all (length documents) 1 (max 1 upsert_batch) documents [] ready in
      let (undone, left) = roll_back existing attempted k written in
      if ok then (added, written) else (failed checked undone, left)
