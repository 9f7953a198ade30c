-- ===== src/Tests/Working.antt =====
-- A job whose process has died, and one that is still at work.
use indic_rag.Jobs.{
  Status, pending, running, Job, JobRow, Jobs, update_job, save_job, evict_past, reap_stale_jobs,
  restart,
}
use indic_rag.Jobs.Leases.{update_job-Spared}
use indic_rag.Jobs.Restart.{restart-Settles, settled, value_in, is_abandoned}
use indic_rag.Base.{
  Dict, Option, String, [], false, insert, lookup, none, refl, some, ℕ, ◌∷◌, ◌≡◌, nat_eq, string_eq,
  pair_eq, list_eq,
}

abbrev job_of : String → Status → Job ℕ
job_of id status = record {
  job_id = id;
  status = status;
  failure = none;
  submitted_at = some 10;
  completed_at = none;
  rest = 0;
}

abbrev row_of : String → Status → Option ℕ → JobRow ℕ
row_of id status lease = record {
  value = job_of id status;
  status = status;
  submitted_at = some 10;
  completed_at = none;
  lease_until = lease;
}

abbrev rows : Dict String (JobRow ℕ)
rows = ("a", row_of "a" running (some 100)) ∷ ("b", row_of "b" running (some 900)) ∷ []

restart-Settles_example :
    (lookup "a" (restart 500 500 rows).memory ≡ settled 500 500 (lookup "a" rows))
    × (value_in (lookup "a" (restart 500 500 rows).table) ≡ settled 500 500 (lookup "a" rows))
    × (is_abandoned 500 (lookup "a" (restart 500 500 rows).table) ≡ false)
restart-Settles_example = restart-Settles 500 500 rows "a" (refl, (refl, tt)) (refl, (refl, tt))

abbrev at_work : Jobs ℕ
at_work = record {
  memory = ("a", job_of "a" pending) ∷ [];
  table = ("a", row_of "a" pending none) ∷ [];
  touched = [];
  last_eviction = 0;
}

abbrev starts : Job ℕ → Job ℕ
starts job = record job { status = running }

abbrev updated : Jobs ℕ
updated = record {
  memory = ("a", job_of "a" running) ∷ [];
  table = ("a", row_of "a" running (some 400)) ∷ [];
  touched = [];
  last_eviction = 0;
}

a_found : lookup "a" at_work.memory ≡ some (job_of "a" pending)
unfolding lookup
a_found = refl

a_updated : update_job 300 (record { monotonic = 50; utc = 100 }) "a" starts at_work ≡ some updated
unfolding update_job evict_past save_job lookup insert
a_updated = refl

update_job-Spared_example :
    lookup "a" (reap_stale_jobs 350 updated.table).1 ≡ lookup "a" updated.table
update_job-Spared_example =
    update_job-Spared 300 350 (record { monotonic = 50; utc = 100 }) "a" starts (job_of "a" pending)
      at_work updated a_found a_updated refl
