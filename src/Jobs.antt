-- ===== src/Jobs.antt =====
-- deps.py and persistence.py: the background jobs, their leases and the reaper. Times are UTC readings
-- in seconds (a text in ISO form is its time), but for those of `time.monotonic()`.
pub mod Leases
pub mod Restart
use indic_rag.Base.{
  Bool, Dict, List, Option, String, Text, [], ap, codes, false, if◌then◌else◌, insert, is_some, leb,
  lookup, ltb, mem, min, none, not, or_else, remove, some, suc, true, ℕ, ◌&&◌, ◌*◌, ◌+◌, ◌-◌, ◌<◌,
  ◌∷◌, nat_eq, string_eq, pair_eq, list_eq,
}

pub data Status : Type 0 where
  pending : Status
  running : Status
  success : Status
  failed : Status

-- The JSON value of a job; `rest` holds the fields that the modelled code never reads.
pub record Job (Rest : Type 0) : Type 0 where
  pub job_id : String
  pub status : Status
  pub failure : Option Text
  pub submitted_at : Option ℕ
  pub completed_at : Option ℕ
  pub rest : Rest

-- A row of the table `jobs`, under its primary key.
pub record JobRow (Rest : Type 0) : Type 0 where
  pub value : Job Rest
  pub status : Status
  pub submitted_at : Option ℕ
  pub completed_at : Option ℕ
  pub lease_until : Option ℕ

-- `_jobs`, the table, `_last_lease_touch` and `_last_job_eviction`
pub record Jobs (Rest : Type 0) : Type 0 where
  pub memory : Dict String (Job Rest)
  pub table : Dict String (JobRow Rest)
  pub touched : Dict String ℕ
  pub last_eviction : ℕ

-- the readings of `time.monotonic()` and of the UTC time
pub record Now : Type 0 where
  pub monotonic : ℕ
  pub utc : ℕ

abbrev pub is_finished : Status → Bool
is_finished pending = false
is_finished running = false
is_finished success = true
is_finished failed = true

abbrev pub hour : ℕ
hour = 3600

abbrev pub abandoned : Text
abandoned =
    codes
      "Abandoned: the process running this job exited before it finished. Resubmit to try again."

-- `completed_at < now - 24 hours`
abbrev pub is_past : ℕ → Option ℕ → Bool
is_past now none = false
is_past now (some t) = ltb (t + 24 * hour) now

-- `lease_until IS NULL OR lease_until < now`
abbrev pub is_expired : ℕ → Option ℕ → Bool
is_expired now none = true
is_expired now (some t) = ltb t now

module _ {Rest : Type 0} where
  abbrev pub submitted_column : Option (JobRow Rest) → Job Rest → Option ℕ
  submitted_column none job = job.submitted_at
  submitted_column (some row) job = row.submitted_at

  unfoldable pub save_job :
      String → Job Rest → Option ℕ → Dict String (JobRow Rest) → Dict String (JobRow Rest)
  save_job id job lease table =
      insert id
        record {
          value = job;
          status = job.status;
          submitted_at = submitted_column (lookup id table) job;
          completed_at = job.completed_at;
          lease_until = lease;
        }
        table

  unfoldable pub delete_job : String → Dict String (JobRow Rest) → Dict String (JobRow Rest)
  delete_job id table = remove id table

  abbrev pub pruned : ℕ → Dict String (JobRow Rest) → Dict String (JobRow Rest)
  pruned now [] = []
  pruned now ((id, row) ∷ table) =
      if is_past now row.completed_at then pruned now table else (id, row) ∷ pruned now table

  abbrev pub values : Dict String (JobRow Rest) → Dict String (Job Rest)
  values [] = []
  values ((id, row) ∷ table) = (id, row.value) ∷ values table

  -- what is loaded at a start, and the table behind it
  unfoldable pub load_jobs :
      ℕ → Dict String (JobRow Rest) → Dict String (Job Rest) × Dict String (JobRow Rest)
  load_jobs now table = (values (pruned now table), pruned now table)

  -- `touch_job_lease`, with JOB_LEASE_SECONDS and `min_interval`
  unfoldable pub touch_job_lease : ℕ → ℕ → Now → String → Jobs Rest → Jobs Rest
  touch_job_lease lease interval now id s =
      if ltb (now.monotonic - or_else (lookup id s.touched) 0) interval
      then s
      else elim (lookup id s.memory) [
        | none ↦ s
        | some job ↦ if is_finished job.status then s else record s {
          touched = insert id now.monotonic s.touched;
          table = save_job id job (some (now.utc + lease)) s.table;
        }
      ]

  -- the ids of the jobs in memory that were completed a day ago
  abbrev pub past_ids : ℕ → Dict String (Job Rest) → List String
  past_ids now [] = []
  past_ids now ((id, job) ∷ d) =
      if is_past now job.completed_at then id ∷ past_ids now d else past_ids now d

  unfoldable pub forget_all : List String → Jobs Rest → Jobs Rest
  forget_all [] s = s
  forget_all (id ∷ ids) s =
      forget_all ids (record s { memory = remove id s.memory; table = delete_job id s.table })

  unfoldable pub evict_past : Now → Jobs Rest → Jobs Rest
  evict_past now s =
      if leb hour (now.monotonic - s.last_eviction)
      then forget_all (past_ids now.utc s.memory) (record s { last_eviction = now.monotonic })
      else s

  abbrev pub lease_of : ℕ → Now → Job Rest → Option ℕ
  lease_of lease now job = if is_finished job.status then none else some (now.utc + lease)

  -- a job that is written through
  abbrev pub write_job : ℕ → Now → String → Job Rest → Jobs Rest → Jobs Rest
  write_job lease now id job s = record s {
    memory = insert id job s.memory;
    table = save_job id job (lease_of lease now job) s.table;
  }

  -- `_update_job`; the keyword arguments are what they make of a job. A job that is not there is a
  -- KeyError.
  unfoldable pub update_job :
      ℕ → Now → String → (Job Rest → Job Rest) → Jobs Rest → Option (Jobs Rest)
  update_job lease now id update s = elim (lookup id s.memory) [
    | none ↦ none
    | some job ↦ some (evict_past now (write_job lease now id (update job) s))
  ]

  abbrev pub is_stale : ℕ → JobRow Rest → Bool
  is_stale now row = not (is_finished row.status) && is_expired now row.lease_until

  -- the UPDATE of a row that is reaped
  abbrev pub reaped_row : ℕ → JobRow Rest → JobRow Rest
  reaped_row now row = record row {
    value = record row.value { status = failed; failure = some abandoned; completed_at = some now };
    status = failed;
    completed_at = some now;
    lease_until = none;
  }

  -- the jobs that are reaped, and the table behind them
  unfoldable pub reap_stale_jobs :
      ℕ → Dict String (JobRow Rest) → List (Job Rest) × Dict String (JobRow Rest)
  reap_stale_jobs now [] = ([], [])
  reap_stale_jobs now ((id, row) ∷ table) =
      let (jobs, rest) = reap_stale_jobs now table in
      if is_stale now row
      then ((reaped_row now row).value ∷ jobs, (id, reaped_row now row) ∷ rest)
      else (jobs, (id, row) ∷ rest)

  -- api_server.py: the copies in memory move with the reaped rows
  unfoldable pub adopt : List (Job Rest) → Dict String (Job Rest) → Dict String (Job Rest)
  adopt [] memory = memory
  adopt (job ∷ jobs) memory =
      adopt jobs
        (if is_some (lookup job.job_id memory) then insert job.job_id job memory else memory)

  -- a start of the process: the jobs are loaded when deps.py is imported, and then reaped
  unfoldable pub restart : ℕ → ℕ → Dict String (JobRow Rest) → Jobs Rest
  restart loaded_at now table =
      let (memory, kept) = load_jobs loaded_at table in
      let (jobs, reaped) = reap_stale_jobs now kept in
      record { memory = adopt jobs memory; table = reaped; touched = []; last_eviction = 0 }
