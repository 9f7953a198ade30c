-- ===== src/Ledger/Consistent.antt =====
-- check_db.py: the check reports consistency exactly when the log, the collection and the lexical
-- index hold the same chunks of the same papers.

use indic_rag.Ledger.Reconcile.{
  add_id, add_ids, without, log_divergences, unlogged_divergences, all_ids, stale_divergences,
  compare_views, stale_in_bm25,
}
use indic_rag.Ledger.Agreement.{
  without-Within, Within-without, is_empty-append, is_empty-diverging, ids_of, Serves, PaperAgrees,
  All-lookup, lookup-All, log_divergences-Agrees, unlogged_divergences-All,
}
use indic_rag.Base.{
  ==_iff, ==_refl, All, Bool, Bool-cases, Dict, Entries, List, Option, Option-cases, Text, Unique,
  Unique-Entries, [], ap, arith, false, inl, inr, is_empty, is_some, keys, lookup, mem, mem-append,
  none, or_else, refl, some, subst, sym, true, ◌++◌, ◌==◌, ◌||◌, ◌↔◌, ◌∙◌, ◌∷◌, ◌≡◌, nat_eq,
  string_eq, pair_eq, list_eq,
}

-- the ids that BM25 serves are those of the papers
abbrev pub ServesExactly : Option (List Text) → (Text → Text → Bool) → Type 0
ServesExactly none holds = Unit
ServesExactly (some served) holds =
    (i : Text) → (mem i served ≡ true) ↔ ((pid : Text) × (holds pid i ≡ true))

-- which ids a paper has
abbrev pub holding : Dict Text (List Text) → Text → Text → Bool
holding d pid i = mem i (ids_of pid d)

same_truth : (a b : Bool) → (a ≡ true → b ≡ true) → (b ≡ true → a ≡ true) → a ≡ b
same_truth true b f g = sym (f refl)
same_truth false true f g = g refl
same_truth false false f g = refl

pub mem-add_ids :
    (i : Text) (more ids : List Text) → mem i (add_ids more ids) ≡ (mem i more || mem i ids)
unfolding add_ids
mem-add_ids i [] ids = refl
mem-add_ids i (j ∷ more) ids =
    ground (arith, mem-add_ids i more (add_id j ids), mem-append i ids (j ∷ []), ==_iff j i)

-- an id of the union is the id of an entry
all_ids-entry :
    (i : Text) (whole d : Dict Text (List Text))
    → Entries whole d
    → mem i (all_ids d) ≡ true
    → (pid : Text) × (holding whole pid i ≡ true)
unfolding all_ids
all_ids-entry i whole [] n h = cc
all_ids-entry i whole ((pid, ids) ∷ d) n h = elim (Bool-cases (mem i ids)) [
  | inl here ↦ (pid, ap (λ o. mem i (or_else o [])) n.0 ∙ here)
  | inr gone ↦ all_ids-entry i whole d n.1 (ground (arith, mem-add_ids i ids (all_ids d), gone, h))
]

holding-all_ids :
    (i pid : Text) (d : Dict Text (List Text)) → holding d pid i ≡ true → mem i (all_ids d) ≡ true
unfolding all_ids lookup
holding-all_ids i pid [] h = cc
holding-all_ids i pid ((j, ids) ∷ d) h = elim (Bool-cases (j == pid)) [
  | inl same ↦ ground (arith, mem-add_ids i ids (all_ids d), same, h)
  | inr other ↦
      ground
        (arith, mem-add_ids i ids (all_ids d), holding-all_ids i pid d (ground (arith, other, h)))
]

module _ (log chroma : Dict Text (List Text)) (bm25 : Option (List Text))
    (log_keys : Unique (keys log)) (chroma_keys : Unique (keys chroma))
    (chroma_filled : All (λ r. is_empty r.1 ≡ false) chroma) where
  abbrev Parts : Type 0
  Parts =
      All (PaperAgrees chroma bm25) log
      × All (λ r. is_some (lookup r.0 log) ≡ true) chroma
      × (is_empty (stale_divergences chroma bm25) ≡ true)

  compare_views-parts : ((compare_views log chroma bm25).consistent ≡ true) ↔ Parts
  unfolding compare_views
  compare_views-parts =
      let outer =
        is_empty-append (log_divergences chroma bm25 log)
          (unlogged_divergences log chroma ++ stale_divergences chroma bm25) in
      let inner =
        is_empty-append (unlogged_divergences log chroma) (stale_divergences chroma bm25) in
      let logged = log_divergences-Agrees chroma bm25 log in
      let unlogged = unlogged_divergences-All log chroma in
      (
        λ h. (
          logged.0 (ground (arith, outer, h)),
          unlogged.0 (ground (arith, outer, inner, h)),
          ground (arith, outer, inner, h),
        ),
        λ (a, b, c). outer ∙ ground (arith, inner, logged.1 a, unlogged.1 b, c),
      )

  abbrev Agree : Type 0
  Agree =
      ((pid i : Text) → holding log pid i ≡ holding chroma pid i)
      × ServesExactly bm25 (holding chroma)

  Parts-same : Parts → (pid i : Text) → holding log pid i ≡ holding chroma pid i
  Parts-same (a, b, c) pid i = elim (Option-cases (lookup pid log)) [
    | inr (logged, e) ↦
        let agrees = All-lookup (PaperAgrees chroma bm25) pid logged log a e in
        ap (λ o. mem i (or_else o [])) e
        ∙ same_truth (mem i logged) (holding chroma pid i) (agrees.0 i) (agrees.1 i)
    | inl e ↦ elim (Option-cases (lookup pid chroma)) [
      | inl f ↦ ap (λ o. mem i (or_else o [])) (e ∙ sym f)
      | inr (ids, f) ↦
          absurd (
            ground (arith, e, All-lookup (λ r. is_some (lookup r.0 log) ≡ true) pid ids chroma b f))
    ]
  ]

  Parts-served :
      (served : List Text)
      → bm25 ≡ some served
      → Parts
      → (i : Text) → (mem i served ≡ true) ↔ ((pid : Text) × (holding chroma pid i ≡ true))
  Parts-served served q (a, b, c) i = (
    λ h.
        all_ids-entry i chroma chroma (Unique-Entries chroma chroma_keys)
          (without-Within served (all_ids chroma) (stale_empty c) i h),
    λ (pid, h). elim (Option-cases (lookup pid chroma)) [
      | inl f ↦ absurd (ground (arith, h, f))
      | inr (ids, f) ↦ elim (Option-cases (lookup pid log)) [
        | inl e ↦ absurd (
            ground (arith, e, All-lookup (λ r. is_some (lookup r.0 log) ≡ true) pid ids chroma b f))
        | inr (logged, e) ↦
            subst (λ o. Serves o (ids_of pid chroma)) q
              (All-lookup (PaperAgrees chroma bm25) pid logged log a e).2 i h
      ]
    ],
  )
    where
      stale_empty :
          is_empty (stale_divergences chroma bm25) ≡ true
          → is_empty (without served (all_ids chroma)) ≡ true
      stale_empty c =
          sym (is_empty-diverging stale_in_bm25 none (without served (all_ids chroma)))
          ∙ ap (λ o. is_empty (stale_divergences chroma o)) (sym q)
          ∙ c

  Agree-Parts : Agree → Parts
  Agree-Parts (same, exact) = (
    lookup-All (PaperAgrees chroma bm25) log log (Unique-Entries log log_keys) λ pid logged e. (
      λ i h. sym (same pid i) ∙ ap (λ o. mem i (or_else o [])) e ∙ h,
      λ i h. ap (λ o. mem i (or_else o [])) (sym e) ∙ same pid i ∙ h,
      served bm25 exact pid,
    ),
    lookup-All (λ r. is_some (lookup r.0 log) ≡ true) chroma chroma
        (Unique-Entries chroma chroma_keys)
        λ pid ids e.
          known pid ids e (All-lookup (λ r. is_empty r.1 ≡ false) pid ids chroma chroma_filled e),
    stale bm25 exact,
  )
    where
      served :
          (o : Option (List Text))
          → ServesExactly o (holding chroma)
          → (pid : Text) → Serves o (ids_of pid chroma)
      served none x pid = tt
      served (some s) x pid = λ i h. (x i).1 (pid, h)

      stale :
          (o : Option (List Text))
          → ServesExactly o (holding chroma)
          → is_empty (stale_divergences chroma o) ≡ true
      stale none x = refl
      stale (some s) x =
          is_empty-diverging stale_in_bm25 none (without s (all_ids chroma))
          ∙ Within-without s (all_ids chroma)
              (λ i h. let (pid, there) = (x i).0 h in holding-all_ids i pid chroma there)

      known :
          (pid : Text) (ids : List Text)
          → lookup pid chroma ≡ some ids
          → is_empty ids ≡ false
          → is_some (lookup pid log) ≡ true
      known pid [] e filled = cc
      known pid (i ∷ ids) e filled = elim (Option-cases (lookup pid log)) [
        | inl gone ↦ absurd (
            ground (
              arith,
              same pid i,
              ap (λ o. mem i (or_else o [])) gone,
              ap (λ o. mem i (or_else o [])) e,
              ==_refl i,
            ))
        | inr (logged, there) ↦ ap is_some there
      ]

  pub compare_views-Agree : ((compare_views log chroma bm25).consistent ≡ true) ↔ Agree
  compare_views-Agree = (
    λ h.
        let parts = compare_views-parts.0 h in
        (Parts-same parts, exact bm25 (λ served q. Parts-served served q parts)),
    λ a. compare_views-parts.1 (Agree-Parts a),
  )
    where
      exact :
          (o : Option (List Text))
          → ((served : List Text)
              → o ≡ some served
              → (i : Text) → (mem i served ≡ true) ↔ ((pid : Text) × (holding chroma pid i ≡ true)))
          → ServesExactly o (holding chroma)
      exact none f = tt
      exact (some served) f = f served refl
