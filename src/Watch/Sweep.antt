-- ===== src/Watch/Sweep.antt =====
-- watch_runner.py: the sweep of one worker over the watches that are due.
use indic_rag.Watch.{
  Topic, WatchRow, Watches, save_watch, get_watch, sql_equal, leased, claim_watch,
}
use indic_rag.Watch.Run.{
  Outside, Found, nothing_found, take_papers, search, refreshed, digest_of, finish_run, run_topic,
  run_watch, run_due,
}
use indic_rag.Watch.Synced.{IsSynced, save_watch-IsSynced, IsGood-row, claim_watch-IsSynced}
use indic_rag.Base.{
  All, Bool, Bool-cases, List, Option, Option-cases, String, Unique, [], ap, arith, false, inl, inr,
  insert, length, lookup, lookup-insert, mem, none, refl, some, string_eq, suc, true, ℕ, ◌==◌, ◌∙◌,
  ◌∷◌, ◌≡◌, nat_eq, pair_eq, list_eq,
}

-- the row of a watch is still at the time that was read
abbrev pub at_time : Option ℕ → Option WatchRow → Bool
at_time expected none = false
at_time expected (some row) = sql_equal row.next_run expected

abbrev pub claimable : Watches → Topic → Bool
claimable table t = at_time t.next_run (lookup t.id table)

-- An operation that writes at most the row of one id.
pub record Touches (id : String) (before after : Watches) : Type 0 where
  pub synced : IsSynced after
  pub others : (j : String) → (id == j) ≡ false → lookup j after ≡ lookup j before

pub none-Touches : (id : String) (table : Watches) → IsSynced table → Touches id table table
none-Touches id table v = record { synced = v; others = λ j h. refl }

pub claim_watch-Touches :
    (id : String) (expected : Option ℕ) (lease : ℕ) (table : Watches)
    → IsSynced table
    → Touches id table (claim_watch id expected lease table).1
unfolding claim_watch
claim_watch-Touches id expected lease table v = record {
  synced = claim_watch-IsSynced id expected lease table v;
  others = λ j h. elim (Option-cases (lookup id table)) [
    | inl e ↦ rw (e, claim_watch) refl
    | inr (row, e) ↦ elim (Bool-cases (sql_equal row.next_run expected)) [
      | inl f ↦ rw (e, claim_watch, f, lookup-insert id j (leased lease row) table, h) refl
      | inr f ↦ rw (e, claim_watch, f) refl
    ]
  ];
}

pub save_watch-Touches :
    (id : String) (w : Topic) (table : Watches)
    → w.id ≡ id
    → IsSynced table
    → Touches id table (save_watch w table)
unfolding save_watch
save_watch-Touches id w table e v = record {
  synced = save_watch-IsSynced w table v;
  others = λ j h. lookup-insert w.id j _ table ∙ ground (arith, h, e);
}

module _ (env : Outside) where
  pub finish_run-Touches :
      (id : String) (t : Topic) (f : Found) (table : Watches) (w : env.World)
      → t.id ≡ id
      → IsSynced table
      → Touches id table (finish_run env t f table w).1
  unfolding finish_run
  finish_run-Touches id t f table w e v =
      elim (Option-cases (digest_of env t f (refreshed env t f w)).0) [
        | inl d ↦ rw (d, finish_run) (none-Touches id table v)
        | inr (digest, d) ↦ rw (d, finish_run) (save_watch-Touches id _ table e v)
      ]

  pub run_watch-Touches :
      (id : String) (table : Watches) (w : env.World)
      → IsSynced table
      → Touches id table (run_watch env id table w).1
  unfolding run_watch run_topic get_watch
  run_watch-Touches id table w v = elim (Option-cases (lookup id table)) [
    | inl e ↦ rw (e, run_watch) (none-Touches id table v)
    | inr (row, e) ↦ rw (e, run_watch) (ran row.value (IsGood-row id row table v e).0)
  ]
    where
      ran : (t : Topic) → t.id ≡ id → Touches id table (run_topic env t table w).1
      ran t e = elim (Option-cases (search env t.topic w).0) [
        | inl s ↦ rw (s, run_topic) (none-Touches id table v)
        | inr (ps, s) ↦
            elim (Option-cases
              (take_papers env t.seen_ids ps nothing_found (search env t.topic w).1).0) [
                | inl p ↦ rw (s, run_topic, p) (none-Touches id table v)
                | inr (f, p) ↦ rw (s, run_topic, p) (finish_run-Touches id t f table _ e v)
              ]
      ]

abbrev pub ids : List Topic → List String
ids [] = []
ids (t ∷ ts) = t.id ∷ ids ts

pub claimable-Touches :
    (id : String) (before after : Watches) (ts : List Topic)
    → Touches id before after
    → mem id (ids ts) ≡ false
    → All (λ t. claimable before t ≡ true) ts
    → All (λ t. claimable after t ≡ true) ts
claimable-Touches id before after [] c h a = tt
claimable-Touches id before after (t ∷ ts) c h a = (
  ap (at_time t.next_run)
        (c.others t.id (ground (arith, h, string_eq.beq_iff t.id id, string_eq.beq_iff id t.id)))
      ∙ a.0,
  claimable-Touches id before after ts c (ground (arith, h)) a.1,
)

pub claim_watch-claimable :
    (t : Topic) (lease : ℕ) (table : Watches)
    → (claim_watch t.id t.next_run lease table).0 ≡ claimable table t
unfolding claim_watch
claim_watch-claimable t lease table = elim (Option-cases (lookup t.id table)) [
  | inl e ↦ rw (e, claim_watch) refl
  | inr (row, e) ↦ elim (Bool-cases (sql_equal row.next_run t.next_run)) [
    | inl f ↦ rw (e, claim_watch, f) refl
    | inr f ↦ rw (e, claim_watch, f) refl
  ]
]

-- The table in which the next run of a watch is moved to the end of a lease.
abbrev pub put_off : String → ℕ → Watches → Watches
put_off id lease table = elim (lookup id table) [
  | none ↦ table
  | some row ↦
      insert id
        (record row { next_run = some lease; value = record row.value { next_run = some lease } })
        table
]

claim_watch-put_off :
    (t : Topic) (lease : ℕ) (table : Watches)
    → claimable table t ≡ true
    → (claim_watch t.id t.next_run lease table).1 ≡ put_off t.id lease table
unfolding claim_watch
claim_watch-put_off t lease table h = elim (Option-cases (lookup t.id table)) [
  | inl e ↦ rw (e, claim_watch, put_off) refl
  | inr (row, e) ↦ elim (Bool-cases (sql_equal row.next_run t.next_run)) [
    | inl f ↦ rw (e, claim_watch, put_off, f) refl
    | inr f ↦ absurd (ground (arith, h, e, f))
  ]
]

module _ (env : Outside) where
  -- Every watch of a list is put off by a lease and then run, in the order of the list, each on the
  -- table and the world that the run in front of it has left, and whether or not that returned.
  abbrev pub run_each : ℕ → List Topic → Watches → env.World → Watches × env.World
  run_each lease [] table w = (table, w)
  run_each lease (t ∷ ts) table w =
      let (returned, table1, w1) = run_watch env t.id (put_off t.id lease table) w in
      run_each lease ts table1 w1

  run_behind : ℕ → Topic → List Topic → env.World → Watches → Watches × env.World
  run_behind lease t ts w put =
      let (returned, table1, w1) = run_watch env t.id put w in run_each lease ts table1 w1

  counted : ℕ → Watches × env.World → ℕ × Watches × env.World
  counted n (table, w) = (n, table, w)

  pub run_due-All :
      (lease : ℕ) (ts : List Topic) (table : Watches) (w : env.World)
      → IsSynced table
      → Unique (ids ts)
      → All (λ t. claimable table t ≡ true) ts
      → (let (after, w') = run_each lease ts table w in
          run_due env lease ts table w ≡ (length ts, after, w'))
  unfolding run_due run_behind counted
  run_due-All lease [] table w v u a = refl
  run_due-All lease (t ∷ ts) table w v u a =
      let claimed = (claim_watch t.id t.next_run lease table).1 in
      let c = claim_watch-Touches t.id t.next_run lease table v in
      let r = run_watch-Touches env t.id claimed w c.synced in
      let after_claim = claimable-Touches t.id table claimed ts c u.0 a.1 in
      let ran = run_watch env t.id claimed w in
      let after = claimable-Touches t.id claimed ran.1 ts r u.0 after_claim in
      let rest = run_due-All lease ts ran.1 ran.2 r.synced u.1 after in
      let put = claim_watch-put_off t lease table a.0 in
      rw (claim_watch-claimable t lease table ∙ a.0) (
        (λ i. (suc (rest i).0, (rest i).1, (rest i).2))
        ∙ ap (counted (suc (length ts))) (ap (run_behind lease t ts w) put))
