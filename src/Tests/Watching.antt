-- ===== src/Tests/Watching.antt =====
-- A sweep over two watches, one of which fails, and a race for a claim.
use indic_rag.Watch.{Topic, WatchRow, Watches, save_watch, get_watch, due_watches, claim_watch}
use indic_rag.Watch.Run.{
  Paper, Outside, take_paper, take_papers, search, digest_of, finish_run, run_topic, run_watch,
  run_due, run_due_watches,
}
use indic_rag.Watch.Synced.{IsSynced, insert-IsSynced}
use indic_rag.Watch.Claims.{winners, winners_one}
use indic_rag.Watch.Due.{run_due_watches_all}
use indic_rag.Watch.Sweep.{run_each}
use indic_rag.Base.{
  String, [], codes, if◌then◌else◌, insert, length, lookup, nat_beq, none, refl, some, ℕ, ◌+◌, ◌∷◌,
  ◌≡◌, nat_eq, string_eq, pair_eq, list_eq,
}

-- The world counts the calls. arXiv knows one paper; the model fails on the third call.
abbrev paper : Paper
paper = record { arxiv_id = "2401.1"; pdf_url = []; title = codes "Zero"; text = codes "A text." }

abbrev outside : Outside
outside = record {
  World = ℕ;
  clock = λ w. (100, w);
  arxiv_search = λ topic w. (some (paper ∷ []), w + 1);
  open_access_search = λ topic w. (some [], w + 1);
  download_pdf = λ url w. (some none, w + 1);
  ingest = λ file p w. (some (3, []), w + 1);
  summarize =
      λ topic entries language w. (if nat_beq w 3 then none else some (codes "Digest."), w + 1);
  refresh = λ w. w;
  regenerate = λ t w. w;
}

abbrev watch : String → ℕ → Topic
watch id next = record {
  id = id;
  user_id = none;
  owner = none;
  topic = codes "numerals";
  language = none;
  cadence = some "daily";
  report_id = none;
  seen_ids = [];
  latest_digest = none;
  next_run = some next;
  last_run = none;
  created_at = none;
}

abbrev row_of : String → ℕ → WatchRow
row_of id next = record {
  user_id = none;
  value = watch id next;
  next_run = some next;
  last_run = none;
  created_at = none;
}

abbrev two_watches : Watches
two_watches = ("w1", row_of "w1" 90) ∷ ("w2", row_of "w2" 80) ∷ ("w3", row_of "w3" 500) ∷ []

no_watches-IsSynced : IsSynced []
unfolding lookup
no_watches-IsSynced = record { good = λ id. tt; distinct = tt }

two_watches-IsSynced : IsSynced two_watches
unfolding insert
two_watches-IsSynced =
    insert-IsSynced "w3" (row_of "w3" 500) (("w1", row_of "w1" 90) ∷ ("w2", row_of "w2" 80) ∷ [])
      (refl, refl)
      (insert-IsSynced "w2" (row_of "w2" 80) (("w1", row_of "w1" 90) ∷ []) (refl, refl)
        (insert-IsSynced "w1" (row_of "w1" 90) [] (refl, refl) no_watches-IsSynced))

two_due : (run_due_watches outside 3600 two_watches 0).0 ≡ 2
unfolding run_due_watches due_watches run_due claim_watch run_watch get_watch run_topic search
    take_papers take_paper finish_run digest_of save_watch lookup insert
two_due = refl

run_due_watches_all_example :
    let due = due_watches 100 two_watches in
    let (after, w) = run_each outside 3700 due two_watches 0 in
    run_due_watches outside 3600 two_watches 0 ≡ (length due, after, w)
run_due_watches_all_example = run_due_watches_all outside 3600 two_watches 0 two_watches-IsSynced

w1_found : lookup "w1" two_watches ≡ some (row_of "w1" 90)
unfolding lookup
w1_found = refl

winners_one_example : winners "w1" (some 90) (3700 ∷ 3701 ∷ 3702 ∷ []) two_watches ≡ 1
winners_one_example =
    winners_one "w1" 90 3700 (3701 ∷ 3702 ∷ []) two_watches (row_of "w1" 90) w1_found refl refl
