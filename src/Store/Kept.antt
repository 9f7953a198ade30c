-- ===== src/Store/Kept.antt =====
-- vector_store.py: an `add_documents` that returns has stored every chunk, with its stamp.
use indic_rag.Store.{Reply, World}
use indic_rag.Store.Documents.{
  Chunk, Chroma, Provenance, provenance_stamp, merged, Ending, stamped, preexisting, upsert_all,
  roll_back, add_documents, added, failed,
}
use indic_rag.Store.Added.{
  chroma_call-returned, mem-keys-take, after, round, upsert_all_on, upsert_all_stop,
  upsert_all-other,
}
use indic_rag.Store.Rollback.{keys-stamped}
use indic_rag.Base.{
  ==_iff, Bool, Bool-cases, Dict, List, Option-cases, Text, Unique, [], ap, arith, drop, false,
  if◌then◌else◌, inl, inr, is_some, keys, length, length-drop, lookup, max, mem, mem-keys, refl,
  some, subst, suc, sym, take, true, zero, ℕ, ◌++◌, ◌==◌, ◌∙◌, ◌∷◌, ◌≡◌, ◌≤◌, nat_eq, string_eq,
  pair_eq, list_eq,
}

module _ {A : Type 0} where
  lookup-take :
      (i : Text) (n : ℕ) (rows : Dict Text A)
      → lookup i rows ≡ (
          if is_some (lookup i (take n rows))
          then lookup i (take n rows)
          else lookup i (drop n rows))
  unfolding lookup
  lookup-take i zero rows = refl
  lookup-take i (suc n) [] = refl
  lookup-take i (suc n) ((k, v) ∷ rows) = ground (arith, lookup-take i n rows)

  take-Unique : (n : ℕ) (rows : Dict Text A) → Unique (keys rows) → Unique (keys (take n rows))
  take-Unique zero rows u = tt
  take-Unique (suc n) [] u = tt
  take-Unique (suc n) ((k, v) ∷ rows) u =
      (ground (arith, mem-keys-take k n rows, u.0), take-Unique n rows u.1)

  drop-Unique : (n : ℕ) (rows : Dict Text A) → Unique (keys rows) → Unique (keys (drop n rows))
  drop-Unique zero rows u = u
  drop-Unique (suc n) [] u = tt
  drop-Unique (suc n) ((k, v) ∷ rows) u = drop-Unique n rows u.1

  take-drop-disjoint :
      (i : Text) (n : ℕ) (rows : Dict Text A)
      → Unique (keys rows)
      → mem i (keys (take n rows)) ≡ true
      → mem i (keys (drop n rows)) ≡ false
  take-drop-disjoint i zero rows u h = cc
  take-drop-disjoint i (suc n) [] u h = cc
  take-drop-disjoint i (suc n) ((k, v) ∷ rows) u h = elim (Bool-cases (k == i)) [
    | inl same ↦
        ground
          (arith, mem-keys-take i n rows, ap (λ j. mem j (keys rows)) ((==_iff k i).0 same), u.0)
    | inr other ↦ take-drop-disjoint i n rows u.1 (ground (arith, h, other))
  ]

  length_left :
      (fuel batch : ℕ) (row : Text × A) (rows : Dict Text A)
      → 1 ≤ batch
      → length (row ∷ rows) ≤ suc fuel
      → length (drop batch (row ∷ rows)) ≤ fuel
  length_left fuel batch row rows b h = omega (arith, length-drop batch (row ∷ rows))

module _ {V C : Type 0} (chroma : Chroma V C) (replies : ℕ → Reply) where
  upsert_all-stored :
      (i : Text) (chunk : Chunk V) (fuel k batch : ℕ) (rows : Dict Text (Chunk V))
      (attempted : List Text) (w : World C)
      → 1 ≤ batch
      → length rows ≤ fuel
      → Unique (keys rows)
      → lookup i rows ≡ some chunk
      → (upsert_all chroma replies fuel k batch rows attempted w).0 ≡ true
      → chroma.stored i (after chroma replies fuel k batch rows attempted w) ≡ some chunk
  upsert_all-stored i chunk zero k batch [] attempted w b f u e ok = unfold lookup in cc
  upsert_all-stored i chunk zero k batch (row ∷ rows) attempted w b f u e ok = absurd (omega arith)
  upsert_all-stored i chunk (suc fuel) k batch [] attempted w b f u e ok = unfold lookup in cc
  upsert_all-stored i chunk (suc fuel) k batch (row ∷ rows) attempted w b f u e ok =
      elim (Bool-cases (round chroma replies fuel k batch row rows attempted w).0) [
        | inr bad ↦
            let stop = upsert_all_stop chroma replies fuel k batch row rows attempted w bad in
            absurd (ground (arith, sym (ap (λ r. r.0) stop) ∙ ok))
        | inl good ↦
            let on = upsert_all_on chroma replies fuel k batch row rows attempted w good in
            let call = round chroma replies fuel k batch row rows attempted w in
            let later = drop batch (row ∷ rows) in
            let now_attempted = attempted ++ keys (take batch (row ∷ rows)) in
            ap (λ r. chroma.stored i r.3.collection) on
            ∙ elim (Option-cases (lookup i (take batch (row ∷ rows)))) [
              | inl gone ↦
                  upsert_all-stored i chunk fuel (suc k) batch later now_attempted call.1 b
                    (length_left fuel batch row rows b f) (drop-Unique batch (row ∷ rows) u)
                    (ground (arith, lookup-take i batch (row ∷ rows), gone, e))
                    (sym (ap (λ r. r.0) on) ∙ ok)
              | inr (found, here) ↦
                  upsert_all-other chroma replies i fuel (suc k) batch later now_attempted call.1 (
                    take-drop-disjoint i batch (row ∷ rows) u
                      (ground (arith, mem-keys i (take batch (row ∷ rows)), here)))
                  ∙ ap (chroma.stored i) (
                      chroma_call-returned (replies k) (chroma.upsert (take batch (row ∷ rows))) w
                        good)
                  ∙ chroma.upsert_new i (take batch (row ∷ rows)) w.collection chunk
                      (take-Unique batch (row ∷ rows) u)
                      (ground (arith, lookup-take i batch (row ∷ rows), here, e))
            ]
      ]

  -- the chunk with the provenance stamp in its metadata
  abbrev pub with_stamp : Provenance → Chunk V → Chunk V
  with_stamp p row = record row { metadata = merged row.metadata (provenance_stamp p) }

  lookup-stamped :
      (i : Text) (p : Provenance) (rows : Dict Text (Chunk V)) (row : Chunk V)
      → lookup i rows ≡ some row
      → lookup i (stamped chroma replies p rows) ≡ some (with_stamp p row)
  unfolding lookup stamped
  lookup-stamped i p [] row e = cc
  lookup-stamped i p ((j, r) ∷ rows) row e = elim (Bool-cases (j == i)) [
    | inl same ↦ ground (arith, same, e)
    | inr other ↦ ground (arith, other, lookup-stamped i p rows row (ground (arith, other, e)))
  ]

  added_world :
      (P : World C → Type 0) (ok checked undone : Bool) (written left : World C)
      → (let r : Ending × World C =
            (if ok then (added, written) else (failed checked undone, left)) in
          r.0 ≡ added)
      → (ok ≡ true → P written)
      → (let r : Ending × World C =
            (if ok then (added, written) else (failed checked undone, left)) in
          P r.1)
  added_world P true checked undone written left h f = f refl
  added_world P false checked undone written left h f = cc

  -- If `add_documents` returns, and no id was given twice, the collection holds every chunk under its
  -- id, with the names of the embedding model and the versions in its metadata, for any batch size.
  pub add_documents-Stored :
      (p : Provenance) (upsert_batch : ℕ) (rows : Dict Text (Chunk V)) (w : World C) (i : Text)
      (row : Chunk V)
      → Unique (keys rows)
      → lookup i rows ≡ some row
      → (add_documents chroma replies p upsert_batch rows w).0 ≡ added
      → chroma.stored i (add_documents chroma replies p upsert_batch rows w).1.collection
        ≡ some (with_stamp p row)
  unfolding add_documents
  add_documents-Stored p upsert_batch rows w i row u e h =
      let documents = stamped chroma replies p rows in
      let checking = preexisting chroma replies (keys documents) w in
      let looped =
        upsert_all chroma replies (length documents) 1 (max 1 upsert_batch) documents []
          checking.2 in
      let undoing = roll_back chroma replies checking.1 looped.1 looped.2 looped.3 in
      added_world (λ left. chroma.stored i left.collection ≡ some (with_stamp p row)) looped.0
        checking.0 undoing.0 looped.3 undoing.1 h
        λ ok.
          upsert_all-stored i (with_stamp p row) (length documents) 1 (max 1 upsert_batch) documents
            [] checking.2 (omega arith) (omega arith)
            (subst Unique (sym (keys-stamped chroma replies p rows)) u)
            (lookup-stamped i p rows row e) ok
