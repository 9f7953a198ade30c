-- ===== src/Jobs/Restart.antt =====
-- api_server.py and persistence.py: the jobs behind a restart of the process.
use indic_rag.Jobs.{
  Job, JobRow, is_finished, abandoned, is_past, is_expired, pruned, values, load_jobs, is_stale,
  reaped_row, reap_stale_jobs, adopt, restart, failed,
}
use indic_rag.Jobs.Leases.{reaped, lookup-reap_stale_jobs}
use indic_rag.Base.{
  Bool, Bool-cases, Dict, Entries, Option, Option-cases, String, Unique, Unique-Entries, [], ap,
  arith, false, if◌then◌else◌, inl, inr, insert, is_some, keys, lookup, lookup-insert, mem,
  mem-keys, none, not, refl, some, string_eq, true, ℕ, ◌&&◌, ◌==◌, ◌∙◌, ◌∷◌, ◌≡◌, nat_eq, pair_eq,
  list_eq,
}

module _ {Rest : Type 0} where
  -- The id in the value of each row is its key.
  abbrev pub IsFiled : Dict String (JobRow Rest) → Type 0
  IsFiled [] = Unit
  IsFiled ((id, row) ∷ table) = (row.value.job_id ≡ id) × IsFiled table

  -- the jobs of a table are all in memory
  abbrev pub IsPresent : Dict String (JobRow Rest) → Dict String (Job Rest) → Type 0
  IsPresent [] memory = Unit
  IsPresent ((id, row) ∷ table) memory =
      (is_some (lookup id memory) ≡ true) × IsPresent table memory

  abbrev pub value_in : Option (JobRow Rest) → Option (Job Rest)
  value_in none = none
  value_in (some row) = some row.value

  pub lookup-values :
      (id : String) (d : Dict String (JobRow Rest)) → lookup id (values d) ≡ value_in (lookup id d)
  unfolding lookup
  lookup-values id [] = refl
  lookup-values id ((j, row) ∷ d) = elim (Bool-cases (j == id)) [
    | inl e ↦ rw (e) refl
    | inr e ↦ rw (e) (lookup-values id d)
  ]

  pub mem-pruned :
      (now : ℕ) (j : String) (d : Dict String (JobRow Rest))
      → mem j (keys d) ≡ false
      → mem j (keys (pruned now d)) ≡ false
  mem-pruned now j [] h = refl
  mem-pruned now j ((id, row) ∷ d) h = ground (arith, h, mem-pruned now j d)

  pub pruned-Unique :
      (now : ℕ) (d : Dict String (JobRow Rest)) → Unique (keys d) → Unique (keys (pruned now d))
  pruned-Unique now [] u = tt
  pruned-Unique now ((id, row) ∷ d) u = elim (Bool-cases (is_past now row.completed_at)) [
    | inl e ↦ rw (e) (pruned-Unique now d u.1)
    | inr e ↦ rw (e) (mem-pruned now id d u.0, pruned-Unique now d u.1)
  ]

  pub pruned-IsFiled :
      (now : ℕ) (d : Dict String (JobRow Rest)) → IsFiled d → IsFiled (pruned now d)
  pruned-IsFiled now [] f = tt
  pruned-IsFiled now ((id, row) ∷ d) f = elim (Bool-cases (is_past now row.completed_at)) [
    | inl e ↦ rw (e) (pruned-IsFiled now d f.1)
    | inr e ↦ rw (e) (f.0, pruned-IsFiled now d f.1)
  ]

  pub insert-IsPresent :
      (id : String) (job : Job Rest) (table : Dict String (JobRow Rest))
      (memory : Dict String (Job Rest))
      → IsPresent table memory
      → IsPresent table (insert id job memory)
  insert-IsPresent id job [] memory p = tt
  insert-IsPresent id job ((j, row) ∷ table) memory p =
      (ground (arith, p.0, lookup-insert id j job memory), insert-IsPresent id job table memory p.1)

  pub values-IsPresent :
      (table d : Dict String (JobRow Rest)) → Entries d table → IsPresent table (values d)
  values-IsPresent [] d a = tt
  values-IsPresent ((id, row) ∷ table) d a =
      (ap is_some (lookup-values id d ∙ ap value_in a.0), values-IsPresent table d a.1)

  -- the row behind the deletion of the jobs that were completed a day ago
  abbrev pub unpruned : ℕ → Option (JobRow Rest) → Option (JobRow Rest)
  unpruned now none = none
  unpruned now (some row) = if is_past now row.completed_at then none else some row

  -- What a client finds of a job behind a restart, by its row in front of it: nothing, where it was
  -- completed a day ago; the failed job, where it was in flight and nobody holds its lease; and else
  -- the job as it was.
  abbrev pub settled : ℕ → ℕ → Option (JobRow Rest) → Option (Job Rest)
  settled loaded_at now none = none
  settled loaded_at now (some row) =
      if is_past loaded_at row.completed_at
      then none
      else if not (is_finished row.status) && is_expired now row.lease_until
      then some
          (record row.value { status = failed; failure = some abandoned; completed_at = some now })
      else some row.value

  -- the job of an id behind the adoption, by its row and by what was in memory
  abbrev pub adopted : ℕ → Option (JobRow Rest) → Option (Job Rest) → Option (Job Rest)
  adopted now none o = o
  adopted now (some row) o = if is_stale now row then some (reaped_row now row).value else o

  absent_row :
      (j id : String) (table : Dict String (JobRow Rest))
      → mem j (keys table) ≡ false
      → (j == id) ≡ true
      → lookup id table ≡ none
  absent_row j id table h g = elim (Option-cases (lookup id table)) [
    | inl e ↦ e
    | inr (row, e) ↦ absurd (ground (arith, h, g, e, mem-keys id table, string_eq.beq_iff j id))
  ]

  adopted_memory :
      (k j : String) (job : Job Rest) (memory : Dict String (Job Rest))
      → k ≡ j
      → is_some (lookup j memory) ≡ true
      → (if is_some (lookup k memory) then insert k job memory else memory) ≡ insert j job memory
  adopted_memory k j job memory e h =
      ap (λ x. if is_some (lookup x memory) then insert x job memory else memory) e
      ∙ ap (λ b. if b then insert j job memory else memory) h

  pub lookup-adopt :
      (now : ℕ) (id : String) (table : Dict String (JobRow Rest)) (memory : Dict String (Job Rest))
      → IsFiled table
      → Unique (keys table)
      → IsPresent table memory
      → lookup id (adopt (reap_stale_jobs now table).0 memory)
        ≡ adopted now (lookup id table) (lookup id memory)
  unfolding lookup reap_stale_jobs adopt
  lookup-adopt now id [] memory f u p = refl
  lookup-adopt now id ((j, row) ∷ table) memory f u p =
      let job = (reaped_row now row).value in
      let kept = lookup-adopt now id table memory f.1 u.1 p.1 in
      let written =
        lookup-adopt now id table (insert j job memory) f.1 u.1
          (insert-IsPresent j job table memory p.1) in
      let put = lookup-insert j id job memory in
      let moved =
        ap (λ m. lookup id (adopt (reap_stale_jobs now table).0 m))
          (adopted_memory row.value.job_id j job memory f.0 p.0) in
      elim (Bool-cases (is_stale now row)) [
        | inr e ↦ elim (Bool-cases (j == id)) [
          | inl g ↦
              rw (e, g, e)
                (kept ∙ ap (λ x. adopted now x (lookup id memory)) (absent_row j id table u.0 g))
          | inr g ↦ rw (e, g) kept
        ]
        | inl e ↦ elim (Bool-cases (j == id)) [
          | inl g ↦
              rw (e, g, e)
                (moved
                  ∙ written
                  ∙ ap (λ x. adopted now x (lookup id (insert j job memory)))
                      (absent_row j id table u.0 g)
                  ∙ put
                  ∙ ap (λ b. if b then some job else lookup id memory) g)
          | inr g ↦
              rw (e, g)
                (moved
                  ∙ written
                  ∙ ap (adopted now (lookup id table))
                      (put ∙ ap (λ b. if b then some job else lookup id memory) g))
        ]
      ]

  pub lookup-pruned :
      (now : ℕ) (id : String) (d : Dict String (JobRow Rest))
      → Unique (keys d)
      → lookup id (pruned now d) ≡ unpruned now (lookup id d)
  unfolding lookup
  lookup-pruned now id [] u = refl
  lookup-pruned now id ((j, row) ∷ d) u =
      let rest = lookup-pruned now id d u.1 in
      elim (Bool-cases (j == id)) [
        | inl g ↦ elim (Bool-cases (is_past now row.completed_at)) [
          | inl e ↦ rw (e, g, e) (rest ∙ ap (unpruned now) (absent_row j id d u.0 g))
          | inr e ↦ rw (e, g, e) (ground (arith, g))
        ]
        | inr g ↦ elim (Bool-cases (is_past now row.completed_at)) [
          | inl e ↦ rw (e, g) rest
          | inr e ↦ rw (e, g) (ground (arith, g, rest))
        ]
      ]

  -- the row is in flight without a lease that still runs
  abbrev pub is_abandoned : ℕ → Option (JobRow Rest) → Bool
  is_abandoned now none = false
  is_abandoned now (some row) = is_stale now row

  reaped-is_abandoned :
      (now : ℕ) (o : Option (JobRow Rest)) → is_abandoned now (reaped now o) ≡ false
  reaped-is_abandoned now none = refl
  reaped-is_abandoned now (some row) = ground arith

  adopted_value :
      (now : ℕ) (o : Option (JobRow Rest)) → adopted now o (value_in o) ≡ value_in (reaped now o)
  adopted_value now none = refl
  adopted_value now (some row) = elim (Bool-cases (is_stale now row)) [
    | inl e ↦ rw (e) refl
    | inr e ↦ rw (e) refl
  ]

  settled_value :
      (loaded_at now : ℕ) (o : Option (JobRow Rest))
      → value_in (reaped now (unpruned loaded_at o)) ≡ settled loaded_at now o
  settled_value loaded_at now none = refl
  settled_value loaded_at now (some row) = elim (Bool-cases (is_past loaded_at row.completed_at)) [
    | inl e ↦ rw (e) refl
    | inr e ↦ elim (Bool-cases (is_stale now row)) [
      | inl f ↦ rw (e, f) refl
      | inr f ↦ rw (e, f) refl
    ]
  ]

  -- Behind a restart of the process, memory and table agree on every job: one that was completed a
  -- day ago is gone; one that was in flight without a lease that still runs is failed, with the text
  -- of the abandonment and the time of the reaper; and every other is as its row had it. No row is
  -- then in flight without a lease that still runs. The table has every id once, and each row holds
  -- the id of its job.
  pub restart-Settles :
      (loaded_at now : ℕ) (table : Dict String (JobRow Rest)) (id : String)
      → IsFiled table
      → Unique (keys table)
      → (lookup id (restart loaded_at now table).memory ≡ settled loaded_at now (lookup id table))
        × (value_in (lookup id (restart loaded_at now table).table)
            ≡ settled loaded_at now (lookup id table))
        × (is_abandoned now (lookup id (restart loaded_at now table).table) ≡ false)
  unfolding restart load_jobs
  restart-Settles loaded_at now table id f u =
      let kept = pruned loaded_at table in
      let distinct = pruned-Unique loaded_at table u in
      let by_reaper = lookup-reap_stale_jobs now id kept in
      let by_row =
        ap (λ o. value_in (reaped now o)) (lookup-pruned loaded_at id table u)
        ∙ settled_value loaded_at now (lookup id table) in
      (
        lookup-adopt now id kept (values kept) (pruned-IsFiled loaded_at table f) distinct
              (values-IsPresent kept kept (Unique-Entries kept distinct))
            ∙ ap (adopted now (lookup id kept)) (lookup-values id kept)
            ∙ adopted_value now (lookup id kept)
            ∙ by_row,
        ap value_in by_reaper ∙ by_row,
        ap (is_abandoned now) by_reaper ∙ reaped-is_abandoned now (lookup id kept),
      )
