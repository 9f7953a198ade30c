-- ===== src/Store/Rollback.antt =====
-- vector_store.py: a failed `add_documents` that could check and undo leaves no row of its own.
use indic_rag.Store.{Reply, World, chroma_call}
use indic_rag.Store.Documents.{
  Chunk, Chroma, Provenance, Ending, stamped, preexisting, upsert_all, roll_back, add_documents,
  added, failed,
}
use indic_rag.Store.Added.{
  chroma_call-cases, chroma_call-returned, mem-keys-take, round, upsert_all_on, upsert_all_stop,
  upsert_all-kept, upsert_all-unattempted,
}
use indic_rag.Base.{
  Bool, Bool-cases, Dict, List, Text, [], ap, arith, drop, false, if◌then◌else◌, inl, inr, is_empty,
  is_some, keep_if, keys, length, max, mem, mem-append, mem-keep_if, none, not, refl, suc, take,
  true, zero, ℕ, ◌&&◌, ◌++◌, ◌∙◌, ◌∷◌, ◌≡◌, nat_eq, string_eq, pair_eq, list_eq,
}

module _ {V C : Type 0} (chroma : Chroma V C) (replies : ℕ → Reply) where
  attempted_within :
      (i : Text) (fuel k batch : ℕ) (rows : Dict Text (Chunk V)) (attempted : List Text)
      (w : World C)
      → mem i (keys rows) ≡ false
      → mem i attempted ≡ false
      → mem i (upsert_all chroma replies fuel k batch rows attempted w).1 ≡ false
  attempted_within i zero k batch rows attempted w h a = unfold upsert_all in a
  attempted_within i (suc fuel) k batch [] attempted w h a = unfold upsert_all in a
  attempted_within i (suc fuel) k batch (row ∷ rows) attempted w h a =
      let here : mem i (attempted ++ keys (take batch (row ∷ rows))) ≡ false = ground (
        arith,
        mem-append i attempted (keys (take batch (row ∷ rows))),
        mem-keys-take i batch (row ∷ rows),
        h,
        a,
      ) in
      elim (Bool-cases (round chroma replies fuel k batch row rows attempted w).0) [
        | inl ok ↦
            ap (λ r. mem i r.1) (upsert_all_on chroma replies fuel k batch row rows attempted w ok)
            ∙ attempted_within i fuel (suc k) batch (drop batch (row ∷ rows))
                (attempted ++ keys (take batch (row ∷ rows)))
                (round chroma replies fuel k batch row rows attempted w).1
                (ground (arith, mem-keys-take i batch (row ∷ rows), h)) here
        | inr bad ↦
            ap (λ r. mem i r.1)
              (upsert_all_stop chroma replies fuel k batch row rows attempted w bad)
            ∙ here
      ]

  pub keys-stamped :
      (p : Provenance) (rows : Dict Text (Chunk V))
      → keys (stamped chroma replies p rows) ≡ keys rows
  unfolding stamped
  keys-stamped p [] = refl
  keys-stamped p ((i, row) ∷ rows) = λ j. i ∷ keys-stamped p rows j

  pub preexisting-collection :
      (ids : List Text) (w : World C)
      → (preexisting chroma replies ids w).2.collection ≡ w.collection
  unfolding preexisting
  preexisting-collection ids w = elim (chroma_call-cases (replies 0) (λ c. c) w) [
    | inl e ↦ e
    | inr e ↦ e
  ]

  -- a rollback that succeeds deletes what was attempted and was not there
  roll_back_lem :
      (i : Text) (existing attempted : List Text) (k : ℕ) (w : World C)
      → (roll_back chroma replies existing attempted k w).0 ≡ true
      → chroma.stored i (roll_back chroma replies existing attempted k w).1.collection
        ≡ (if mem i attempted && not (mem i existing) then none else chroma.stored i w.collection)
  unfolding roll_back
  roll_back_lem i existing attempted k w =
      go (keep_if (λ j. not (mem j existing)) attempted)
        (mem-keep_if i (λ j. not (mem j existing)) attempted)
    where
      go :
          (orphans : List Text)
          → mem i orphans ≡ (mem i attempted && not (mem i existing))
          → (if is_empty orphans
              then (true, w)
              else chroma_call (replies k) (chroma.delete orphans) w).0
            ≡ true
          → chroma.stored i
              (if is_empty orphans
                then (true, w)
                else chroma_call (replies k) (chroma.delete orphans) w).1.collection
            ≡ (if mem i attempted && not (mem i existing)
                then none
                else chroma.stored i w.collection)
      go [] m ok = ap (λ b. if b then none else chroma.stored i w.collection) m
      go (j ∷ orphans) m ok =
          ap (chroma.stored i) (chroma_call-returned (replies k) (chroma.delete (j ∷ orphans)) w ok)
          ∙ chroma.delete_lem i (j ∷ orphans) w.collection
          ∙ ap (λ b. if b then none else chroma.stored i w.collection) m

  existing_lem :
      (i : Text) (ids : List Text) (w : World C)
      → (preexisting chroma replies ids w).0 ≡ true
      → mem i (preexisting chroma replies ids w).1
        ≡ (mem i ids && is_some (chroma.stored i w.collection))
  unfolding preexisting
  existing_lem i ids w h =
      ap (λ b. mem i (if b then keep_if (λ j. is_some (chroma.stored j w.collection)) ids else []))
        h
      ∙ mem-keep_if i (λ j. is_some (chroma.stored j w.collection)) ids

  -- what is the same of the collection before and after, for one id
  pub Restored : Text → C → C → Type 0
  Restored i before left =
      (chroma.stored i before ≡ none → chroma.stored i left ≡ none)
      × (is_some (chroma.stored i before) ≡ true → is_some (chroma.stored i left) ≡ true)

  -- the failed loop and its rollback, for one id
  module _ (i : Text) (fuel batch : ℕ) (documents : Dict Text (Chunk V)) (w : World C)
      (checked : (preexisting chroma replies (keys documents) w).0 ≡ true) where
    abbrev existing : List Text
    existing = (preexisting chroma replies (keys documents) w).1

    abbrev ready : World C
    ready = (preexisting chroma replies (keys documents) w).2

    abbrev loop : Bool × List Text × ℕ × World C
    loop = upsert_all chroma replies fuel 1 batch documents [] ready

    loop-kept :
        is_some (chroma.stored i w.collection) ≡ true
        → is_some (chroma.stored i loop.3.collection) ≡ true
    loop-kept h =
        upsert_all-kept chroma replies i fuel 1 batch documents [] ready
          (ap (λ c. is_some (chroma.stored i c)) (preexisting-collection (keys documents) w) ∙ h)

    loop-unattempted :
        mem i loop.1 ≡ false → chroma.stored i loop.3.collection ≡ chroma.stored i w.collection
    loop-unattempted h =
        upsert_all-unattempted chroma replies i fuel 1 batch documents [] ready h
        ∙ ap (chroma.stored i) (preexisting-collection (keys documents) w)

    attempted_ids : mem i loop.1 ≡ true → mem i (keys documents) ≡ true
    attempted_ids h = elim (Bool-cases (mem i (keys documents))) [
      | inl here ↦ here
      | inr gone ↦
          absurd (ground (arith, h, attempted_within i fuel 1 batch documents [] ready gone refl))
    ]

    rolled_back :
        (roll_back chroma replies existing loop.1 loop.2 loop.3).0 ≡ true
        → Restored i w.collection
            (roll_back chroma replies existing loop.1 loop.2 loop.3).1.collection
    unfolding Restored
    rolled_back undone =
        let left = roll_back_lem i existing loop.1 loop.2 loop.3 undone in
        let there = existing_lem i (keys documents) w checked in
        elim (Bool-cases (mem i loop.1)) [
          | inl attempted ↦ (
            λ h. left ∙ ground (arith, attempted, there, h),
            λ h.
                ap is_some left
                ∙ ground (arith, attempted, there, h, loop-kept h, attempted_ids attempted),
          )
          | inr untouched ↦ (
            λ h. left ∙ ground (arith, untouched, loop-unattempted untouched, h),
            λ h. ap is_some left ∙ ground (arith, untouched, loop-kept h),
          )
        ]

    rolled_back_other :
        (roll_back chroma replies existing loop.1 loop.2 loop.3).0 ≡ true
        → mem i (keys documents) ≡ false
        → chroma.stored i (roll_back chroma replies existing loop.1 loop.2 loop.3).1.collection
          ≡ chroma.stored i w.collection
    rolled_back_other undone h =
        let unattempted = attempted_within i fuel 1 batch documents [] ready h refl in
        roll_back_lem i existing loop.1 loop.2 loop.3 undone
        ∙ ground (arith, unattempted, loop-unattempted unattempted)

  -- a failure that could check and undo leaves what the rollback leaves
  failed_world :
      (P : World C → Type 0) (ok checked undone : Bool) (written left : World C)
      → (let r : Ending × World C =
            (if ok then (added, written) else (failed checked undone, left)) in
          r.0 ≡ failed true true)
      → (checked ≡ true → undone ≡ true → P left)
      → (let r : Ending × World C =
            (if ok then (added, written) else (failed checked undone, left)) in
          P r.1)
  failed_world P true checked undone written left h f = cc
  failed_world P false true true written left h f = f refl refl
  failed_world P false true false written left h f = cc
  failed_world P false false undone written left h f = cc

  -- If `add_documents` raises after it could check which ids were there and could undo its writes,
  -- then, as its calls left the collection, no id holds a chunk that held none before, no chunk that
  -- was there is lost, and the ids that were not to be added hold what they held: whichever of its
  -- calls failed, and whether or not the calls that failed had their effect.
  pub add_documents-Restored :
      (p : Provenance) (upsert_batch : ℕ) (rows : Dict Text (Chunk V)) (w : World C) (i : Text)
      → (add_documents chroma replies p upsert_batch rows w).0 ≡ failed true true
      → (let left = (add_documents chroma replies p upsert_batch rows w).1.collection in
          Restored i w.collection left
          × (mem i (keys rows) ≡ false → chroma.stored i left ≡ chroma.stored i w.collection))
  unfolding add_documents
  add_documents-Restored p upsert_batch rows w i h =
      let documents = stamped chroma replies p rows in
      let fuel = length documents in
      let batch = max 1 upsert_batch in
      let checking = preexisting chroma replies (keys documents) w in
      let looped = upsert_all chroma replies fuel 1 batch documents [] checking.2 in
      let undoing = roll_back chroma replies checking.1 looped.1 looped.2 looped.3 in
      failed_world
        (λ left.
          Restored i w.collection left.collection
          × (mem i (keys rows) ≡ false
              → chroma.stored i left.collection ≡ chroma.stored i w.collection))
        looped.0 checking.0 undoing.0 looped.3 undoing.1 h
        λ checked undone. (
          rolled_back i fuel batch documents w checked undone,
          λ m.
              rolled_back_other i fuel batch documents w checked undone
                (ap (mem i) (keys-stamped p rows) ∙ m),
        )
