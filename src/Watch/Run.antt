-- ===== src/Watch/Run.antt =====
-- watch_runner.py: one run of a watch, and the sweep over the watches that are due. The searches, the
-- downloads, the ingestion and the model are calls of the world; a call that raises has no result.
use indic_rag.Watch.{Topic, Watches, save_watch, get_watch, due_watches, claim_watch}
use indic_rag.Base.{
  Bool, List, Option, String, Text, [], codes, false, if◌then◌else◌, is_empty, is_some, keep_if,
  mem, none, not, or_else, or_text, some, suc, true, zero, ℕ, ◌*◌, ◌++◌, ◌+◌, ◌==◌, ◌||◌, ◌∷◌,
  nat_eq, string_eq, pair_eq, list_eq,
}

-- a passage of the search
pub record Paper : Type 0 where
  pub arxiv_id : String
  pub pdf_url : Text
  pub title : Text
  pub text : Text

-- what the digest is made of
pub record Entry : Type 0 where
  pub arxiv_id : String
  pub title : Text
  pub text : Text

pub record Outside : Type 1 where
  pub World : Type 0
  pub clock : World → ℕ × World
  pub arxiv_search : Text → World → Option (List Paper) × World
  pub open_access_search : Text → World → Option (List Paper) × World
  -- `_download_pdf`: a path, or nothing
  pub download_pdf : Text → World → Option (Option Text) × World
  -- `_keep_pdf`, `ingest_pdf` and the removal of a temporary file: chunks and title
  pub ingest : Text → Paper → World → Option (ℕ × Text) × World
  pub summarize : Text → List Entry → Text → World → Option Text × World
  -- `_post_ingest_refresh`, and a new review of the watch, whose failure is logged
  pub refresh : World → World
  pub regenerate : Topic → World → World

-- the lists that the loop builds: `ingested`, `new_ids`, and the flag `indexed`
pub record Found : Type 0 where
  pub ingested : List Entry
  pub new_ids : List String
  pub indexed : Bool

abbrev pub nothing_found : Found
nothing_found = record { ingested = []; new_ids = []; indexed = false }

abbrev pub mark : Paper → Found → Found
mark p f = record f { new_ids = f.new_ids ++ p.arxiv_id ∷ [] }

abbrev pub add_entry : Paper → Text → Found → Found
add_entry p title f = record f {
  ingested = f.ingested ++ record { arxiv_id = p.arxiv_id; title = title; text = p.text } ∷ [];
}

abbrev pub day : ℕ
day = 86400

-- `_CADENCES`, with the weekly one as the default
abbrev pub cadence_of : Option String → ℕ
cadence_of none = 7 * day
cadence_of (some c) = if c == "daily" then day else if c == "monthly" then 30 * day else 7 * day

-- `list(set(seen_ids))`, in the order of first occurrences
abbrev pub once : List String → List String
once [] = []
once (x ∷ xs) = x ∷ keep_if (λ y. not (x == y)) (once xs)

module _ (env : Outside) where
  open env use {
    World, clock, arxiv_search, open_access_search, download_pdf, ingest, summarize, refresh,
    regenerate,
  }

  -- `n_chunks > 0` behind an ingestion
  abbrev pub ingested_paper : Paper → Found → Option (ℕ × Text) → Option Found
  ingested_paper p f none = none
  ingested_paper p f (some (zero, title)) = some f
  ingested_paper p f (some (suc n, title)) =
      some (record (add_entry p (or_text title p.title) f) { indexed = true })

  -- a paper that is new, behind its mark
  unfoldable pub take_paper : Paper → Found → World → Option Found × World
  take_paper p f w =
      if is_empty p.pdf_url
      then (some (add_entry p p.title f), w)
      else (let (path, w1) = download_pdf p.pdf_url w in
          elim path [
            | none ↦ (none, w1)
            | some none ↦ (some (add_entry p p.title f), w1)
            | some (some file) ↦
                if is_empty file
                then (some (add_entry p p.title f), w1)
                else (let (done, w2) = ingest file p w1 in (ingested_paper p f done, w2))
          ])

  -- the loop over the passages
  unfoldable pub take_papers : List String → List Paper → Found → World → Option Found × World
  take_papers seen [] f w = (some f, w)
  take_papers seen (p ∷ ps) f w =
      if p.arxiv_id == "" || mem p.arxiv_id seen
      then take_papers seen ps f w
      else (let (taken, w1) = take_paper p (mark p f) w in
          elim taken [ none ↦ (none, w1) | some g ↦ take_papers seen ps g w1 ])

  -- arXiv, and the open-access search where that has found nothing
  unfoldable pub search : Text → World → Option (List Paper) × World
  search topic w =
      let (papers, w1) = arxiv_search topic w in
      elim papers [
        | none ↦ (none, w1)
        | some [] ↦ open_access_search topic w1
        | some (p ∷ ps) ↦ (some (p ∷ ps), w1)
      ]

  abbrev pub refreshed : Topic → Found → World → World
  refreshed t f w =
      if f.indexed then (if is_some t.report_id then regenerate t (refresh w) else refresh w) else w

  unfoldable pub digest_of : Topic → Found → World → Option (Option Text) × World
  digest_of t f w = elim f.ingested [
    | [] ↦ (some t.latest_digest, w)
    | e ∷ es ↦
        (let (text, w1) = summarize t.topic (e ∷ es) (or_else t.language (codes "en")) w in
          elim text [ none ↦ (none, w1) | some d ↦ (some (some d), w1) ])
  ]

  -- the watch behind a run
  abbrev pub after_run : ℕ → Option Text → Found → Topic → Topic
  after_run now digest f t = record t {
    seen_ids = once t.seen_ids ++ f.new_ids;
    latest_digest = digest;
    last_run = some now;
    next_run = some (now + cadence_of t.cadence);
  }

  -- `run_watch`: whether it returns, and the table behind it
  unfoldable pub finish_run : Topic → Found → Watches → World → Bool × Watches × World
  finish_run t f table w =
      let (digest, w1) = digest_of t f (refreshed t f w) in
      elim digest [
        | none ↦ (false, table, w1)
        | some d ↦ (let (now, w2) = clock w1 in (true, save_watch (after_run now d f t) table, w2))
      ]

  unfoldable pub run_topic : Topic → Watches → World → Bool × Watches × World
  run_topic t table w =
      let (papers, w1) = search t.topic w in
      elim papers [
        | none ↦ (false, table, w1)
        | some ps ↦
            (let (found, w2) = take_papers t.seen_ids ps nothing_found w1 in
              elim found [ none ↦ (false, table, w2) | some f ↦ finish_run t f table w2 ])
      ]

  unfoldable pub run_watch : String → Watches → World → Bool × Watches × World
  run_watch id table w = elim (get_watch id table) [
    | none ↦ (false, table, w)
    | some t ↦ run_topic t table w
  ]

  -- the loop of `run_due_watches`: the watches that were claimed and run, and the table behind them
  unfoldable pub run_due : ℕ → List Topic → Watches → World → ℕ × Watches × World
  run_due lease [] table w = (0, table, w)
  run_due lease (t ∷ ts) table w =
      let (won, claimed) = claim_watch t.id t.next_run lease table in
      let (returned, table1, w1) = run_watch t.id claimed w in
      let won_rest = run_due lease ts table1 w1 in
      let lost_rest = run_due lease ts claimed w in
      if won then (suc won_rest.0, won_rest.1, won_rest.2) else lost_rest

  unfoldable pub run_due_watches : ℕ → Watches → World → ℕ × Watches × World
  run_due_watches lease_seconds table w =
      let (now, w1) = clock w in run_due (now + lease_seconds) (due_watches now table) table w1
