-- ===== src/Watch.antt =====
-- persistence.py and watch_runner.py: the registered watches, their claims, and the sweep over those
-- that are due. Times are UTC readings in seconds (a text in ISO form is its time).
pub mod Run
pub mod Synced
pub mod Claims
pub mod Sweep
pub mod Due
use indic_rag.Base.{
  Bool, Dict, List, Option, String, Text, [], false, if◌then◌else◌, insert, keys, leb, lookup,
  nat_beq, none, not, remove, some, true, ℕ, ◌-◌, ◌<◌, ◌==◌, ◌∷◌, nat_eq, string_eq, pair_eq,
  list_eq,
}

-- The JSON value of a watch, by the keys that the modelled code reads or writes.
pub record Topic : Type 0 where
  pub id : String
  pub user_id : Option String
  pub owner : Option String
  pub topic : Text
  pub language : Option Text
  pub cadence : Option String
  pub report_id : Option String
  pub seen_ids : List String
  pub latest_digest : Option Text
  pub next_run : Option ℕ
  pub last_run : Option ℕ
  pub created_at : Option ℕ

-- A row of the table `watches`, under its primary key.
pub record WatchRow : Type 0 where
  pub user_id : Option String
  pub value : Topic
  pub next_run : Option ℕ
  pub last_run : Option ℕ
  pub created_at : Option ℕ

abbrev pub Watches : Type 0
Watches = Dict String WatchRow

-- the column of a row that is there stays
abbrev pub created_column : Option WatchRow → Topic → Option ℕ
created_column none w = w.created_at
created_column (some row) w = row.created_at

unfoldable pub save_watch : Topic → Watches → Watches
save_watch w table =
    insert w.id
      record {
        user_id = w.user_id;
        value = w;
        next_run = w.next_run;
        last_run = w.last_run;
        created_at = created_column (lookup w.id table) w;
      }
      table

abbrev pub value_of : Option WatchRow → Option Topic
value_of none = none
value_of (some row) = some row.value

unfoldable pub get_watch : String → Watches → Option Topic
get_watch id table = value_of (lookup id table)

unfoldable pub delete_watch : String → Watches → Watches
delete_watch id table = remove id table

unfoldable pub owns_watch : Option Topic → Option String → Bool
owns_watch none owner = false
owns_watch (some w) none = true
owns_watch (some w) (some o) = elim w.owner [ none ↦ false | some p ↦ p == o ]

-- SELECT data FROM watches WHERE next_run IS NOT NULL AND next_run <= ?, with the column
abbrev pub select_due : ℕ → Watches → List (ℕ × Topic)
select_due now [] = []
select_due now ((id, row) ∷ table) = elim row.next_run [
  | none ↦ select_due now table
  | some t ↦ if leb t now then (t, row.value) ∷ select_due now table else select_due now table
]

-- ORDER BY next_run ASC
abbrev pub place : ℕ → Topic → List (ℕ × Topic) → List (ℕ × Topic)
place t w [] = (t, w) ∷ []
place t w ((u, v) ∷ rest) = if leb t u then (t, w) ∷ (u, v) ∷ rest else (u, v) ∷ place t w rest

abbrev pub in_order : List (ℕ × Topic) → List (ℕ × Topic)
in_order [] = []
in_order ((t, w) ∷ rest) = place t w (in_order rest)

abbrev pub topics : List (ℕ × Topic) → List Topic
topics [] = []
topics ((t, w) ∷ rest) = w ∷ topics rest

unfoldable pub due_watches : ℕ → Watches → List Topic
due_watches now table = topics (in_order (select_due now table))

-- `next_run = ?` in SQL: NULL is equal to nothing
abbrev pub sql_equal : Option ℕ → Option ℕ → Bool
sql_equal none b = false
sql_equal (some a) none = false
sql_equal (some a) (some b) = nat_beq a b

-- the row that the UPDATE writes: the column and its copy in the JSON value
abbrev pub leased : ℕ → WatchRow → WatchRow
leased lease row = record row {
  next_run = some lease;
  value = record row.value { next_run = some lease };
}

-- the claim, and the table behind it
unfoldable pub claim_watch : String → Option ℕ → ℕ → Watches → Bool × Watches
claim_watch id expected lease table = elim (lookup id table) [
  | none ↦ (false, table)
  | some row ↦
      if sql_equal row.next_run expected
      then (true, insert id (leased lease row) table)
      else (false, table)
]
