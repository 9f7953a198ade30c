-- ===== src/Jobs/Leases.antt =====
-- deps.py and persistence.py: what the reaper spares, and what a restart leaves in flight.
use indic_rag.Jobs.{
  Status, Job, JobRow, Jobs, Now, is_finished, hour, is_expired, save_job, delete_job, past_ids,
  forget_all, evict_past, write_job, update_job, is_stale, reaped_row, reap_stale_jobs, pending,
  running, success, failed,
}
use indic_rag.Base.{
  Bool, Bool-cases, Dict, List, Option, String, [], ap, arith, if◌then◌else◌, inl, inr, leb, lookup,
  lookup-insert_same, lookup-remove, none, not, or_else, refl, remove, some, sym, true, ℕ, ◌&&◌,
  ◌+◌, ◌-◌, ◌==◌, ◌||◌, ◌∙◌, ◌∷◌, ◌≡◌, ◌⊎◌, nat_eq, string_eq, pair_eq, list_eq,
}

module _ {Rest : Type 0} where
  -- what the reaper makes of a row
  abbrev pub reaped : ℕ → Option (JobRow Rest) → Option (JobRow Rest)
  reaped now none = none
  reaped now (some row) = some (if is_stale now row then reaped_row now row else row)

  pub lookup-reap_stale_jobs :
      (now : ℕ) (id : String) (table : Dict String (JobRow Rest))
      → lookup id (reap_stale_jobs now table).1 ≡ reaped now (lookup id table)
  unfolding lookup reap_stale_jobs
  lookup-reap_stale_jobs now id [] = refl
  lookup-reap_stale_jobs now id ((j, row) ∷ table) = elim (Bool-cases (is_stale now row)) [
    | inl e ↦ elim (Bool-cases (j == id)) [
      | inl f ↦ rw (e, f, e) refl
      | inr f ↦ rw (e, f) (lookup-reap_stale_jobs now id table)
    ]
    | inr e ↦ elim (Bool-cases (j == id)) [
      | inl f ↦ rw (e, f, e) refl
      | inr f ↦ rw (e, f) (lookup-reap_stale_jobs now id table)
    ]
  ]

  -- the row of a job after an update, if the sweep of the day-old ones leaves it
  pub lookup-forget_all :
      (id : String) (ids : List String) (s : Jobs Rest)
      → (lookup id (forget_all ids s).table ≡ none)
        ⊎ (lookup id (forget_all ids s).table ≡ lookup id s.table)
  unfolding forget_all delete_job
  lookup-forget_all id [] s = inr refl
  lookup-forget_all id (j ∷ ids) s =
      elim (lookup-forget_all id ids
        (record s { memory = remove j s.memory; table = remove j s.table })) [
          | inl e ↦ inl e
          | inr e ↦ elim (Bool-cases (j == id)) [
            | inl f ↦ inl (e ∙ lookup-remove j id s.table ∙ ground (arith, f))
            | inr f ↦ inr (e ∙ lookup-remove j id s.table ∙ ground (arith, f))
          ]
        ]

  -- a row that the reaper spares
  abbrev pub is_spared : ℕ → Option (JobRow Rest) → Bool
  is_spared now none = true
  is_spared now (some row) = not (is_stale now row)

  pub reaped_spared :
      (now : ℕ) (o : Option (JobRow Rest)) → is_spared now o ≡ true → reaped now o ≡ o
  reaped_spared now none h = refl
  reaped_spared now (some row) h = ground (arith, h)

  pub write_job_spared :
      (lease later : ℕ) (now : Now) (id : String) (job : Job Rest) (s : Jobs Rest)
      → (is_finished job.status || leb later (now.utc + lease)) ≡ true
      → is_spared later (lookup id (write_job lease now id job s).table) ≡ true
  unfolding save_job
  write_job_spared lease later now id job s h =
      rw (lookup-insert_same id _ s.table) (by_status job.status h)
    where
      by_status :
          (x : Status)
          → (is_finished x || leb later (now.utc + lease)) ≡ true
          → not (
              not (is_finished x)
              && is_expired later (if is_finished x then none else some (now.utc + lease)))
            ≡ true
      by_status pending g = ground (arith, g)
      by_status running g = ground (arith, g)
      by_status success g = refl
      by_status failed g = refl

  pub lookup-evict_past :
      (now : Now) (id : String) (s : Jobs Rest)
      → (lookup id (evict_past now s).table ≡ none)
        ⊎ (lookup id (evict_past now s).table ≡ lookup id s.table)
  unfolding evict_past
  lookup-evict_past now id s = elim (Bool-cases (leb hour (now.monotonic - s.last_eviction))) [
    | inl e ↦ rw (e, evict_past) (lookup-forget_all id (past_ids now.utc s.memory) _)
    | inr e ↦ rw (e, evict_past) (inr refl)
  ]

  pub updated_spared :
      (lease later : ℕ) (now : Now) (id : String) (job : Job Rest) (s : Jobs Rest)
      → (is_finished job.status || leb later (now.utc + lease)) ≡ true
      → is_spared later (lookup id (evict_past now (write_job lease now id job s)).table) ≡ true
  updated_spared lease later now id job s h =
      elim (lookup-evict_past now id (write_job lease now id job s)) [
        | inl e ↦ ap (is_spared later) e
        | inr e ↦ ap (is_spared later) e ∙ write_job_spared lease later now id job s h
      ]

  -- Every update of a job is a heartbeat: until the lease that it writes has run out, no reaper of
  -- this process or of another one changes the row of the job; and if the update has finished the job,
  -- none ever does.
  pub update_job-Spared :
      (lease later : ℕ) (now : Now) (id : String) (update : Job Rest → Job Rest) (job : Job Rest)
      (s t : Jobs Rest)
      → lookup id s.memory ≡ some job
      → update_job lease now id update s ≡ some t
      → (is_finished (update job).status || leb later (now.utc + lease)) ≡ true
      → lookup id (reap_stale_jobs later t.table).1 ≡ lookup id t.table
  unfolding update_job
  update_job-Spared lease later now id update job s t f e h =
      lookup-reap_stale_jobs later id t.table
      ∙ reaped_spared later (lookup id t.table) (
          ap (λ x. is_spared later (lookup id x.table)) (sym same)
          ∙ updated_spared lease later now id (update job) s h)
    where
      written : Jobs Rest
      written = evict_past now (write_job lease now id (update job) s)

      reached : update_job lease now id update s ≡ some written
      reached = rw (f, update_job) refl

      same : written ≡ t
      same = ap (λ o. or_else o written) (sym reached ∙ e)
