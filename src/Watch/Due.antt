-- ===== src/Watch/Due.antt =====
-- persistence.py: the watches that are due, as a sweep of watch_runner.py takes them.
use indic_rag.Watch.{Topic, Watches, select_due, place, in_order, topics, due_watches}
use indic_rag.Watch.Run.{Outside, run_due_watches}
use indic_rag.Watch.Synced.{IsSynced, IsGood-row}
use indic_rag.Watch.Sweep.{claimable, ids, run_each, run_due-All}
use indic_rag.Base.{
  All, Bool-cases, Entries, List, Option-cases, String, Unique, Unique-Entries, [], ap, arith,
  false, inl, inr, keys, leb, length, mem, refl, string_eq, true, ℕ, ◌+◌, ◌==◌, ◌||◌, ◌∙◌, ◌∷◌, ◌≡◌,
  nat_eq, pair_eq, list_eq,
}

pub ids-place :
    (j : String) (n : ℕ) (t : Topic) (l : List (ℕ × Topic))
    → mem j (ids (topics (place n t l))) ≡ (t.id == j || mem j (ids (topics l)))
ids-place j n t [] = refl
ids-place j n t ((m, s) ∷ l) = ground (arith, ids-place j n t l)

pub place-Unique :
    (n : ℕ) (t : Topic) (l : List (ℕ × Topic))
    → mem t.id (ids (topics l)) ≡ false
    → Unique (ids (topics l))
    → Unique (ids (topics (place n t l)))
place-Unique n t [] h u = (refl, tt)
place-Unique n t ((m, s) ∷ l) h u = ground (
  arith,
  place-Unique n t l,
  ids-place s.id n t l,
  string_eq.beq_iff t.id s.id,
  string_eq.beq_iff s.id t.id,
)

pub ids-in_order :
    (j : String) (l : List (ℕ × Topic)) → mem j (ids (topics (in_order l))) ≡ mem j (ids (topics l))
ids-in_order j [] = refl
ids-in_order j ((n, t) ∷ l) =
    ids-place j n t (in_order l) ∙ ap (λ b. t.id == j || b) (ids-in_order j l)

pub in_order-Unique :
    (l : List (ℕ × Topic)) → Unique (ids (topics l)) → Unique (ids (topics (in_order l)))
in_order-Unique [] u = tt
in_order-Unique ((n, t) ∷ l) u =
    place-Unique n t (in_order l) (ids-in_order t.id l ∙ u.0) (in_order-Unique l u.1)

pub place-All :
    (P : Topic → Type 0) (n : ℕ) (t : Topic) (l : List (ℕ × Topic))
    → P t
    → All P (topics l)
    → All P (topics (place n t l))
place-All P n t [] p a = (p, tt)
place-All P n t ((m, s) ∷ l) p a = elim (Bool-cases (leb n m)) [
  | inl e ↦ rw (e) (p, a)
  | inr e ↦ rw (e) (a.0, place-All P n t l p a.1)
]

pub in_order-All :
    (P : Topic → Type 0) (l : List (ℕ × Topic)) → All P (topics l) → All P (topics (in_order l))
in_order-All P [] a = tt
in_order-All P ((n, t) ∷ l) a = place-All P n t (in_order l) a.0 (in_order-All P l a.1)

-- The selected watches, under the keys of the rows.
pub ids-select_due :
    (now : ℕ) (j : String) (full table : Watches)
    → IsSynced full
    → Entries full table
    → mem j (keys table) ≡ false
    → mem j (ids (topics (select_due now table))) ≡ false
ids-select_due now j full [] v a h = refl
ids-select_due now j full ((id, row) ∷ table) v a h =
    let rest = ids-select_due now j full table v a.1 (ground (arith, h)) in
    let good = IsGood-row id row full v a.0 in
    elim (Option-cases row.next_run) [
      | inl e ↦ rw (e) rest
      | inr (n, e) ↦ elim (Bool-cases (leb n now)) [
        | inl f ↦ rw (e, f, good.0) (ground (arith, rest, h))
        | inr f ↦ rw (e, f) rest
      ]
    ]

pub select_due-Unique :
    (now : ℕ) (full table : Watches)
    → IsSynced full
    → Entries full table
    → Unique (keys table)
    → Unique (ids (topics (select_due now table)))
select_due-Unique now full [] v a u = tt
select_due-Unique now full ((id, row) ∷ table) v a u =
    let rest = select_due-Unique now full table v a.1 u.1 in
    let good = IsGood-row id row full v a.0 in
    elim (Option-cases row.next_run) [
      | inl e ↦ rw (e) rest
      | inr (n, e) ↦ elim (Bool-cases (leb n now)) [
        | inl f ↦ rw (e, f, good.0) (ids-select_due now id full table v a.1 u.0, rest)
        | inr f ↦ rw (e, f) rest
      ]
    ]

pub select_due-claimable :
    (now : ℕ) (full table : Watches)
    → IsSynced full
    → Entries full table
    → All (λ t. claimable full t ≡ true) (topics (select_due now table))
select_due-claimable now full [] v a = tt
select_due-claimable now full ((id, row) ∷ table) v a =
    let rest = select_due-claimable now full table v a.1 in
    let good = IsGood-row id row full v a.0 in
    elim (Option-cases row.next_run) [
      | inl e ↦ rw (e) rest
      | inr (n, e) ↦ elim (Bool-cases (leb n now)) [
        | inl f ↦ rw (e, f) (rw (good.0, a.0, good.1, e) (ground arith), rest)
        | inr f ↦ rw (e, f) rest
      ]
    ]

module _ (env : Outside) where
  -- A worker that is alone claims and runs every watch that is due, each once and in the order in which
  -- `due_watches` lists them, also when some of the runs fail: the table and the world are those of
  -- putting off each listed watch by the lease and calling `run_watch` for it, one after the other, and
  -- the sweep counts as many watches as are listed. The table is one in which the copy of `next_run`
  -- in the JSON value agrees with the column, as every write leaves it.
  pub run_due_watches_all :
      (lease_seconds : ℕ) (table : Watches) (w : env.World)
      → IsSynced table
      → (let (now, w1) = env.clock w in
          let due = due_watches now table in
          let (after, w2) = run_each env (now + lease_seconds) due table w1 in
          run_due_watches env lease_seconds table w ≡ (length due, after, w2))
  unfolding run_due_watches due_watches
  run_due_watches_all lease_seconds table w v =
      let now = (env.clock w).0 in
      let entries = Unique-Entries table v.distinct in
      let due = select_due now table in
      run_due-All env (now + lease_seconds) (topics (in_order due)) table (env.clock w).1 v
        (in_order-Unique due (select_due-Unique now table table v entries v.distinct))
        (in_order-All (λ t. claimable table t ≡ true) due
          (select_due-claimable now table table v entries))
