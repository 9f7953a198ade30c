-- ===== src/Ledger/Agreement.antt =====
-- check_db.py: what the absence of each kind of divergence says.
use indic_rag.Ledger.Reconcile.{
  Kind, without, diverging, paper_divergences, log_divergences, unlogged_divergences,
  missing_from_chroma, extra_in_chroma, missing_from_bm25,
}
use indic_rag.Base.{
  ==_iff, ==_refl, All, Bool, Bool-cases, Dict, Entries, List, Option, Text, [], ap, arith, false,
  inl, inr, is_empty, is_some, lookup, mem, mem-keep_if, none, not, or_else, refl, some, subst, sym,
  true, ◌&&◌, ◌++◌, ◌==◌, ◌↔◌, ◌∙◌, ◌∷◌, ◌≡◌, nat_eq, string_eq, pair_eq, list_eq,
}

abbrev pub Within : List Text → List Text → Type 0
Within a b = (i : Text) → mem i a ≡ true → mem i b ≡ true

pub without-Within : (a b : List Text) → is_empty (without a b) ≡ true → Within a b
without-Within a b h i m = elim (Bool-cases (mem i b)) [
  | inl there ↦ there
  | inr gone ↦ absurd (found gone (without a b) (mem-keep_if i (λ j. not (mem j b)) a) h)
]
  where
    found :
        mem i b ≡ false
        → (left : List Text) → mem i left ≡ (mem i a && not (mem i b))
        → is_empty left ≡ true
        → ⊥
    found gone [] e h = ground (arith, e, m, gone)
    found gone (x ∷ left) e h = cc

pub Within-without : (a b : List Text) → Within a b → is_empty (without a b) ≡ true
Within-without a b h = none_left (without a b) (λ i. mem-keep_if i (λ j. not (mem j b)) a)
  where
    none_left :
        (left : List Text)
        → ((i : Text) → mem i left ≡ (mem i a && not (mem i b)))
        → is_empty left ≡ true
    none_left [] e = refl
    none_left (x ∷ left) e = elim (Bool-cases (mem x a)) [
      | inl here ↦ absurd (ground (arith, e x, here, h x here, ==_refl x))
      | inr gone ↦ absurd (ground (arith, e x, gone, ==_refl x))
    ]

pub is_empty-append :
    {A : Type 0} (xs ys : List A) → is_empty (xs ++ ys) ≡ (is_empty xs && is_empty ys)
is_empty-append [] ys = refl
is_empty-append (x ∷ xs) ys = refl

pub is_empty-diverging :
    (kind : Kind) (p : Option Text) (ids : List Text)
    → is_empty (diverging kind p ids) ≡ is_empty ids
is_empty-diverging kind p [] = refl
is_empty-diverging kind p (i ∷ ids) = refl

-- the ids of a paper, none when it has no entry
abbrev pub ids_of : Text → Dict Text (List Text) → List Text
ids_of pid d = or_else (lookup pid d) []

-- BM25, if there is an index, serves what is within these ids
abbrev pub Serves : Option (List Text) → List Text → Type 0
Serves none ids = Unit
Serves (some served) ids = Within ids served

-- one paper of the log agrees with the collection, which BM25 serves
abbrev pub PaperAgrees : Dict Text (List Text) → Option (List Text) → Text × List Text → Type 0
PaperAgrees chroma bm25 (pid, logged) =
    Within logged (ids_of pid chroma)
    × Within (ids_of pid chroma) logged
    × Serves bm25 (ids_of pid chroma)

serves : Option (List Text) → List Text → Bool
serves none ids = true
serves (some served) ids = is_empty (without ids served)

paper_divergences-empty :
    (chroma : Dict Text (List Text)) (bm25 : Option (List Text)) (pid : Text) (logged : List Text)
    → (let there = ids_of pid chroma in
        is_empty (paper_divergences chroma bm25 pid logged) ≡ (
          is_empty (without logged there)
          && (is_empty (without there logged) && serves bm25 there)))
unfolding paper_divergences serves
paper_divergences-empty chroma bm25 pid logged =
    is_empty-append (diverging missing_from_chroma (some pid) (without logged there)) _ ∙ λ i.
    is_empty-diverging missing_from_chroma (some pid) (without logged there) i && rest bm25 i
  where
    there : List Text
    there = ids_of pid chroma

    rest :
        (b : Option (List Text))
        → is_empty (
            diverging extra_in_chroma (some pid) (without there logged) ++ elim b [
              | none ↦ []
              | some ids ↦ diverging missing_from_bm25 (some pid) (without there ids)
            ])
          ≡ (is_empty (without there logged) && serves b there)
    rest none =
        is_empty-append (diverging extra_in_chroma (some pid) (without there logged)) _
        ∙ ap (λ b. b && true) (is_empty-diverging extra_in_chroma (some pid) (without there logged))
    rest (some ids) =
        is_empty-append (diverging extra_in_chroma (some pid) (without there logged)) _ ∙ λ i.
        is_empty-diverging extra_in_chroma (some pid) (without there logged) i
        && is_empty-diverging missing_from_bm25 (some pid) (without there ids) i

serves-Serves :
    (bm25 : Option (List Text)) (ids : List Text) → (serves bm25 ids ≡ true) ↔ Serves bm25 ids
unfolding serves
serves-Serves none ids = (λ h. tt, λ h. refl)
serves-Serves (some served) ids = (without-Within ids served, Within-without ids served)

paper_divergences-Agrees :
    (chroma : Dict Text (List Text)) (bm25 : Option (List Text)) (pid : Text) (logged : List Text)
    → (is_empty (paper_divergences chroma bm25 pid logged) ≡ true)
      ↔ PaperAgrees chroma bm25 (pid, logged)
paper_divergences-Agrees chroma bm25 pid logged = (
  λ h.
      let both = sym (paper_divergences-empty chroma bm25 pid logged) ∙ h in
      (
        without-Within logged there (ground (arith, both)),
        without-Within there logged (ground (arith, both)),
        (serves-Serves bm25 there).0 (ground (arith, both)),
      ),
  λ (a, b, c).
      paper_divergences-empty chroma bm25 pid logged
      ∙ ground (
        arith,
        Within-without logged there a,
        Within-without there logged b,
        (serves-Serves bm25 there).1 c,
      ),
)
  where
    there : List Text
    there = ids_of pid chroma

-- a property of every entry holds of what is looked up, and the converse for distinct keys
pub All-lookup :
    (P : Text × List Text → Type 0) (k : Text) (v : List Text) (d : Dict Text (List Text))
    → All P d
    → lookup k d ≡ some v
    → P (k, v)
unfolding lookup
All-lookup P k v [] a e = cc
All-lookup P k v ((j, w) ∷ d) a e = elim (Bool-cases (j == k)) [
  | inl same ↦
      let here : w ≡ v = ground (arith, same, e) in
      subst (λ r. P r) (λ i. ((==_iff j k).0 same i, here i)) a.0
  | inr other ↦ All-lookup P k v d a.1 (ground (arith, other, e))
]

pub lookup-All :
    (P : Text × List Text → Type 0) (whole d : Dict Text (List Text))
    → Entries whole d
    → ((k : Text) (v : List Text) → lookup k whole ≡ some v → P (k, v))
    → All P d
lookup-All P whole [] n h = tt
lookup-All P whole ((k, v) ∷ d) n h = (h k v n.0, lookup-All P whole d n.1 h)

pub log_divergences-Agrees :
    (chroma : Dict Text (List Text)) (bm25 : Option (List Text)) (log : Dict Text (List Text))
    → (is_empty (log_divergences chroma bm25 log) ≡ true) ↔ All (PaperAgrees chroma bm25) log
unfolding log_divergences
log_divergences-Agrees chroma bm25 [] = (λ h. tt, λ h. refl)
log_divergences-Agrees chroma bm25 ((pid, logged) ∷ log) =
    let ih = log_divergences-Agrees chroma bm25 log in
    let here = paper_divergences-Agrees chroma bm25 pid logged in
    let split =
      is_empty-append (paper_divergences chroma bm25 pid logged)
        (log_divergences chroma bm25 log) in
    (
      λ h. (here.0 (ground (arith, split, h)), ih.0 (ground (arith, split, h))),
      λ (a, rest). split ∙ ground (arith, here.1 a, ih.1 rest),
    )

pub unlogged_divergences-All :
    (log chroma : Dict Text (List Text))
    → (is_empty (unlogged_divergences log chroma) ≡ true)
      ↔ All (λ r. is_some (lookup r.0 log) ≡ true) chroma
unfolding unlogged_divergences
unlogged_divergences-All log [] = (λ h. tt, λ h. refl)
unlogged_divergences-All log ((pid, ids) ∷ chroma) =
    let ih = unlogged_divergences-All log chroma in
    elim (Bool-cases (is_some (lookup pid log))) [
      | inl there ↦
          (λ h. (there, ih.0 (ground (arith, there, h))), λ a. ground (arith, there, ih.1 a.1))
      | inr gone ↦ (λ h. ground (arith, gone, h), λ a. ground (arith, gone, a.0))
    ]
