-- ===== src/Store/Added.antt =====
-- vector_store.py: what the batches of an upsert leave in the collection, however their calls end.
use indic_rag.Store.{
  circuit_open, Outcome, Reply, World, takes_effect, is_returned, chroma_call, returned, raised,
  landed, lost, pending,
}
use indic_rag.Store.Documents.{Chunk, Chroma, upsert_all}
use indic_rag.Base.{
  Bool, Bool-cases, Dict, List, Text, [], ap, arith, drop, false, inl, inr, is_some, keys, mem,
  mem-append, refl, suc, sym, take, true, zero, ℕ, ◌++◌, ◌||◌, ◌∙◌, ◌∷◌, ◌≡◌, ◌⊎◌, nat_eq,
  string_eq, pair_eq, list_eq,
}

-- A call leaves the collection as it was, or with its effect; one that returns has had it.
pub chroma_call-cases :
    {C : Type 0} (r : Reply) (fn : C → C) (w : World C)
    → ((chroma_call r fn w).1.collection ≡ fn w.collection)
      ⊎ ((chroma_call r fn w).1.collection ≡ w.collection)
unfolding chroma_call
chroma_call-cases r fn w = elim (Bool-cases (circuit_open r.now w.breaker)) [
  | inl opened ↦ inr (rw opened refl)
  | inr closed ↦ elim (Bool-cases (takes_effect r.outcome)) [
    | inl yes_effect ↦ inl (rw closed (rw yes_effect refl))
    | inr no_effect ↦ inr (rw closed (rw no_effect refl))
  ]
]

returned-effect : (o : Outcome) → is_returned o ≡ true → takes_effect o ≡ true
returned-effect returned h = refl
returned-effect (raised b) h = cc
returned-effect landed h = cc
returned-effect lost h = cc
returned-effect pending h = cc

pub chroma_call-returned :
    {C : Type 0} (r : Reply) (fn : C → C) (w : World C)
    → (chroma_call r fn w).0 ≡ true
    → (chroma_call r fn w).1.collection ≡ fn w.collection
unfolding chroma_call
chroma_call-returned r fn w h = elim (Bool-cases (circuit_open r.now w.breaker)) [
  | inl opened ↦ absurd (ground (arith, opened, h))
  | inr closed ↦ rw closed (rw (returned-effect r.outcome (ground (arith, closed, h))) refl)
]

pub mem-keys-take :
    {A : Type 0} (i : Text) (n : ℕ) (rows : Dict Text A)
    → mem i (keys rows) ≡ (mem i (keys (take n rows)) || mem i (keys (drop n rows)))
mem-keys-take i zero rows = refl
mem-keys-take i (suc n) [] = refl
mem-keys-take i (suc n) ((k, v) ∷ rows) = ground (arith, mem-keys-take i n rows)

module _ {V C : Type 0} (chroma : Chroma V C) (replies : ℕ → Reply) where
  upsert_once :
      (i : Text) (r : Reply) (rows : Dict Text (Chunk V)) (w : World C)
      → (is_some (chroma.stored i w.collection) ≡ true
          → is_some (chroma.stored i (chroma_call r (chroma.upsert rows) w).1.collection) ≡ true)
        × (mem i (keys rows) ≡ false
            → chroma.stored i (chroma_call r (chroma.upsert rows) w).1.collection
              ≡ chroma.stored i w.collection)
  upsert_once i r rows w = elim (chroma_call-cases r (chroma.upsert rows) w) [
    | inl e ↦ (
      λ h. ap (λ c. is_some (chroma.stored i c)) e ∙ chroma.upsert_kept i rows w.collection h,
      λ h. ap (chroma.stored i) e ∙ chroma.upsert_other i rows w.collection h,
    )
    | inr e ↦ (λ h. ap (λ c. is_some (chroma.stored i c)) e ∙ h, λ h. ap (chroma.stored i) e)
  ]

  -- what `upsert_all` leaves
  abbrev pub after : ℕ → ℕ → ℕ → Dict Text (Chunk V) → List Text → World C → C
  after fuel k batch rows attempted w =
      (upsert_all chroma replies fuel k batch rows attempted w).3.collection

  -- one round of the loop, by whether its call returns
  module _ (fuel k batch : ℕ) (row : Text × Chunk V) (rows : Dict Text (Chunk V))
      (attempted : List Text) (w : World C) where
    abbrev pub round_rows : Dict Text (Chunk V)
    round_rows = take batch (row ∷ rows)

    abbrev pub round : Bool × World C
    round = chroma_call (replies k) (chroma.upsert round_rows) w

    pub upsert_all_on :
        round.0 ≡ true
        → upsert_all chroma replies (suc fuel) k batch (row ∷ rows) attempted w
          ≡ upsert_all chroma replies fuel
              (suc k)
              batch
              (drop batch (row ∷ rows))
              (attempted ++ keys round_rows)
              round.1
    unfolding upsert_all
    upsert_all_on e = rw (e, upsert_all) refl

    pub upsert_all_stop :
        round.0 ≡ false
        → upsert_all chroma replies (suc fuel) k batch (row ∷ rows) attempted w
          ≡ (false, attempted ++ keys round_rows, suc k, round.1)
    unfolding upsert_all
    upsert_all_stop e = rw (e, upsert_all) refl

  -- A row that is stored stays stored.
  pub upsert_all-kept :
      (i : Text) (fuel k batch : ℕ) (rows : Dict Text (Chunk V)) (attempted : List Text)
      (w : World C)
      → is_some (chroma.stored i w.collection) ≡ true
      → is_some (chroma.stored i (after fuel k batch rows attempted w)) ≡ true
  upsert_all-kept i zero k batch rows attempted w h = unfold upsert_all in h
  upsert_all-kept i (suc fuel) k batch [] attempted w h = unfold upsert_all in h
  upsert_all-kept i (suc fuel) k batch (row ∷ rows) attempted w h =
      let here = (upsert_once i (replies k) (round_rows fuel k batch row rows attempted w) w).0 h in
      elim (Bool-cases (round fuel k batch row rows attempted w).0) [
        | inl ok ↦
            ap (λ r. is_some (chroma.stored i r.3.collection))
              (upsert_all_on fuel k batch row rows attempted w ok)
            ∙ upsert_all-kept i fuel (suc k) batch (drop batch (row ∷ rows))
                (attempted ++ keys (take batch (row ∷ rows)))
                (round fuel k batch row rows attempted w).1 here
        | inr bad ↦
            ap (λ r. is_some (chroma.stored i r.3.collection))
              (upsert_all_stop fuel k batch row rows attempted w bad)
            ∙ here
      ]

  -- A row whose id is not among the batches is not touched.
  pub upsert_all-other :
      (i : Text) (fuel k batch : ℕ) (rows : Dict Text (Chunk V)) (attempted : List Text)
      (w : World C)
      → mem i (keys rows) ≡ false
      → chroma.stored i (after fuel k batch rows attempted w) ≡ chroma.stored i w.collection
  upsert_all-other i zero k batch rows attempted w h = unfold upsert_all in refl
  upsert_all-other i (suc fuel) k batch [] attempted w h = unfold upsert_all in refl
  upsert_all-other i (suc fuel) k batch (row ∷ rows) attempted w h =
      let here =
        (upsert_once i (replies k) (take batch (row ∷ rows)) w).1
          (ground (arith, mem-keys-take i batch (row ∷ rows), h)) in
      elim (Bool-cases (round fuel k batch row rows attempted w).0) [
        | inl ok ↦
            ap (λ r. chroma.stored i r.3.collection)
              (upsert_all_on fuel k batch row rows attempted w ok)
            ∙ upsert_all-other i fuel (suc k) batch (drop batch (row ∷ rows))
                (attempted ++ keys (take batch (row ∷ rows)))
                (round fuel k batch row rows attempted w).1
                (ground (arith, mem-keys-take i batch (row ∷ rows), h))
            ∙ here
        | inr bad ↦
            ap (λ r. chroma.stored i r.3.collection)
              (upsert_all_stop fuel k batch row rows attempted w bad)
            ∙ here
      ]

  -- what has been attempted is remembered
  pub mem-attempted_old :
      (i : Text) (fuel k batch : ℕ) (rows : Dict Text (Chunk V)) (attempted : List Text)
      (w : World C)
      → mem i attempted ≡ true
      → mem i (upsert_all chroma replies fuel k batch rows attempted w).1 ≡ true
  mem-attempted_old i zero k batch rows attempted w h = unfold upsert_all in h
  mem-attempted_old i (suc fuel) k batch [] attempted w h = unfold upsert_all in h
  mem-attempted_old i (suc fuel) k batch (row ∷ rows) attempted w h =
      let here : mem i (attempted ++ keys (take batch (row ∷ rows))) ≡ true =
        ground (arith, mem-append i attempted (keys (take batch (row ∷ rows))), h) in
      elim (Bool-cases (round fuel k batch row rows attempted w).0) [
        | inl ok ↦
            ap (λ r. mem i r.1) (upsert_all_on fuel k batch row rows attempted w ok)
            ∙ mem-attempted_old i fuel (suc k) batch (drop batch (row ∷ rows))
                (attempted ++ keys (take batch (row ∷ rows)))
                (round fuel k batch row rows attempted w).1 here
        | inr bad ↦
            ap (λ r. mem i r.1) (upsert_all_stop fuel k batch row rows attempted w bad) ∙ here
      ]

  -- A row that is not attempted is not touched.
  pub upsert_all-unattempted :
      (i : Text) (fuel k batch : ℕ) (rows : Dict Text (Chunk V)) (attempted : List Text)
      (w : World C)
      → mem i (upsert_all chroma replies fuel k batch rows attempted w).1 ≡ false
      → chroma.stored i (after fuel k batch rows attempted w) ≡ chroma.stored i w.collection
  upsert_all-unattempted i zero k batch rows attempted w h = unfold upsert_all in refl
  upsert_all-unattempted i (suc fuel) k batch [] attempted w h = unfold upsert_all in refl
  upsert_all-unattempted i (suc fuel) k batch (row ∷ rows) attempted w h =
      elim (Bool-cases (round fuel k batch row rows attempted w).0) [
        | inl ok ↦
            let same = upsert_all_on fuel k batch row rows attempted w ok in
            let tail_w = (round fuel k batch row rows attempted w).1 in
            let rest_rows = drop batch (row ∷ rows) in
            let now_attempted = attempted ++ keys (take batch (row ∷ rows)) in
            let unattempted = sym (ap (λ r. mem i r.1) same) ∙ h in
            ap (λ r. chroma.stored i r.3.collection) same
            ∙ upsert_all-unattempted i fuel (suc k) batch rest_rows now_attempted tail_w unattempted
            ∙ (upsert_once i (replies k) (take batch (row ∷ rows)) w).1 (
                not_now
                  (λ here.
                    mem-attempted_old i fuel (suc k) batch rest_rows now_attempted tail_w here)
                  unattempted)
        | inr bad ↦
            let same = upsert_all_stop fuel k batch row rows attempted w bad in
            ap (λ r. chroma.stored i r.3.collection) same
            ∙ (upsert_once i (replies k) (take batch (row ∷ rows)) w).1
                (not_now (λ here. here) (sym (ap (λ r. mem i r.1) same) ∙ h))
      ]
    where
      not_now :
          {b : Bool}
          → (mem i (attempted ++ keys (take batch (row ∷ rows))) ≡ true → b ≡ true)
          → b ≡ false
          → mem i (keys (take batch (row ∷ rows))) ≡ false
      not_now {b} into out =
          elim (Bool-cases (mem i (attempted ++ keys (take batch (row ∷ rows))))) [
            | inl here ↦ absurd (ground (arith, into here, out))
            | inr gone ↦
                ground (arith, mem-append i attempted (keys (take batch (row ∷ rows))), gone)
          ]
