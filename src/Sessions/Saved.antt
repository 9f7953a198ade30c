-- ===== src/Sessions/Saved.antt =====
-- deps.py and persistence.py: the table of sessions against the memory.
use indic_rag.Sessions.{
  Citation, Session, Row, Sessions, Limits, Clocks, row_for, save_session, delete_session, is_old,
  keep_rows, loaded, load_sessions, old_ids, evict, evict_all, evict_stale_sessions, owns_session,
  new_session, keep_session, given_id, open_session, get_or_create_session, append_session_messages,
}
use indic_rag.Base.{
  Bool, Bool-cases, Dict, List, Option, Option-cases, String, Text, Unique, [], ap, arith,
  if◌then◌else◌, inl, inr, insert-Unique, keys, lookup, lookup-insert, lookup-remove, ltb, mem-keys,
  none, not, refl, remove-Unique, some, string_eq, ℕ, ◌-◌, ◌==◌, ◌∙◌, ◌∷◌, ◌≡◌, nat_eq, pair_eq,
  list_eq,
}

-- the session of a row, with the time that the sweeps read
abbrev pub row_view : Option Row → Option (Session × ℕ)
row_view none = none
row_view (some row) = some (row.value, row.updated_at)

abbrev pub session_view : Option Session → Option (Session × ℕ)
session_view none = none
session_view (some session) = some (session, session.updated_at)

-- The memory and the table have the same sessions, and no id twice.
pub record IsSaved (s : Sessions) : Type 0 where
  pub held : (sid : String) → row_view (lookup sid s.table) ≡ session_view (lookup sid s.memory)
  pub in_memory : Unique (keys s.memory)
  pub in_table : Unique (keys s.table)

pub row_view_for :
    (o : Option Row) (session : Session)
    → row_view (some (row_for o session)) ≡ some (session, session.updated_at)
row_view_for none session = refl
row_view_for (some row) session = refl

pub keep_session-IsSaved :
    (sid : String) (session : Session) (s : Sessions)
    → IsSaved s
    → IsSaved (keep_session sid session s)
unfolding save_session
keep_session-IsSaved sid session s v = record {
  held = λ j. elim (Bool-cases (sid == j)) [
    | inl e ↦
        rw
          (
            lookup-insert sid j session s.memory,
            lookup-insert sid j (row_for (lookup sid s.table) session) s.table,
            e,
          )
          (row_view_for (lookup sid s.table) session)
    | inr e ↦
        rw
          (
            lookup-insert sid j session s.memory,
            lookup-insert sid j (row_for (lookup sid s.table) session) s.table,
            e,
          )
          (v.held j)
  ];
  in_memory = insert-Unique sid session s.memory v.in_memory;
  in_table = insert-Unique sid _ s.table v.in_table;
}

pub evict-IsSaved : (sid : String) (s : Sessions) → IsSaved s → IsSaved (evict sid s)
unfolding evict delete_session
evict-IsSaved sid s v = record {
  held = λ j. elim (Bool-cases (sid == j)) [
    | inl e ↦ rw (lookup-remove sid j s.memory, lookup-remove sid j s.table, e) refl
    | inr e ↦ rw (lookup-remove sid j s.memory, lookup-remove sid j s.table, e) (v.held j)
  ];
  in_memory = remove-Unique sid s.memory v.in_memory;
  in_table = remove-Unique sid s.table v.in_table;
}

pub evict_all-IsSaved : (ids : List String) (s : Sessions) → IsSaved s → IsSaved (evict_all ids s)
unfolding evict_all
evict_all-IsSaved [] s v = v
evict_all-IsSaved (sid ∷ ids) s v = evict_all-IsSaved ids (evict sid s) (evict-IsSaved sid s v)

pub evict_stale_sessions-IsSaved :
    (limits : Limits) (clocks : Clocks) (s : Sessions)
    → IsSaved s
    → IsSaved (evict_stale_sessions limits clocks s)
unfolding evict_stale_sessions
evict_stale_sessions-IsSaved limits clocks s v =
    elim (Bool-cases (ltb (clocks.monotonic - s.last_eviction) 60)) [
      | inl e ↦ rw (e, evict_stale_sessions) v
      | inr e ↦
          rw (e, evict_stale_sessions)
            (evict_all-IsSaved (old_ids limits.max_age clocks.swept_at s.memory) _ (swept v))
    ]
  where
    swept : IsSaved s → IsSaved (record s { last_eviction = clocks.monotonic })
    swept v = record { held = v.held; in_memory = v.in_memory; in_table = v.in_table }

pub open_session-IsSaved :
    (session_id : Option String) (fresh : String) (owner : Option String) (now : ℕ) (s : Sessions)
    → IsSaved s
    → IsSaved (open_session session_id fresh owner now s).1
unfolding open_session
open_session-IsSaved none fresh owner now s v =
    keep_session-IsSaved fresh (new_session fresh owner now) s v
open_session-IsSaved (some sid) fresh owner now s v = elim (Option-cases (lookup sid s.memory)) [
  | inl e ↦ rw (e, open_session) (keep_session-IsSaved sid (new_session sid owner now) s v)
  | inr (session, e) ↦ elim (Bool-cases (owns_session (some session) owner)) [
    | inl o ↦ rw (e, open_session, o) v
    | inr o ↦ rw (e, open_session, o) v
  ]
]

-- What the routes do with the store.
pub data Request : Type 0 where
  opens : Clocks → String → Option String → Option String → Request
  appends : ℕ → String → Text → Text → Option String → List Citation → Request

unfoldable pub step : Limits → Request → Sessions → Sessions
step limits (opens clocks fresh sid owner) s =
    (get_or_create_session limits clocks fresh sid owner s).1
step limits (appends now sid question answer owner citations) s =
    append_session_messages limits now sid question answer owner citations s

unfoldable pub run : Limits → List Request → Sessions → Sessions
run limits [] s = s
run limits (r ∷ rs) s = run limits rs (step limits r s)

pub step-IsSaved :
    (limits : Limits) (r : Request) (s : Sessions) → IsSaved s → IsSaved (step limits r s)
unfolding step get_or_create_session append_session_messages
step-IsSaved limits (opens clocks fresh sid owner) s v =
    open_session-IsSaved (given_id sid) fresh owner clocks.now _
      (evict_stale_sessions-IsSaved limits clocks s v)
step-IsSaved limits (appends now sid question answer owner citations) s v =
    keep_session-IsSaved sid _ s v

pub run-IsSaved :
    (limits : Limits) (rs : List Request) (s : Sessions) → IsSaved s → IsSaved (run limits rs s)
unfolding run
run-IsSaved limits [] s v = v
run-IsSaved limits (r ∷ rs) s v =
    run-IsSaved limits rs (step limits r s) (step-IsSaved limits r s v)

-- A session that is not too old at a time.
abbrev pub not_old : Limits → ℕ → Option Session → Option Session
not_old limits now none = none
not_old limits now (some session) =
    if is_old limits.max_age now session.updated_at then none else some session

abbrev pub row_if : (Row → Bool) → Option Row → Option Session
row_if p none = none
row_if p (some row) = if p row then some row.value else none

pub lookup-loaded :
    (p : Row → Bool) (sid : String) (d : Dict String Row)
    → Unique (keys d)
    → lookup sid (loaded (keep_rows p d)) ≡ row_if p (lookup sid d)
unfolding lookup
lookup-loaded p sid [] u = refl
lookup-loaded p sid ((j, row) ∷ d) u =
    ground (arith, lookup-loaded p sid d u.1, mem-keys sid d, string_eq.beq_iff j sid)

abbrev pub view_if : Limits → ℕ → Option (Session × ℕ) → Option Session
view_if limits now none = none
view_if limits now (some (session, updated_at)) =
    if is_old limits.max_age now updated_at then none else some session

pub row_if-view :
    (limits : Limits) (now : ℕ) (o : Option Row)
    → row_if (λ row. not (is_old limits.max_age now row.updated_at)) o
      ≡ view_if limits now (row_view o)
row_if-view limits now none = refl
row_if-view limits now (some row) = ground arith

pub view_if-session :
    (limits : Limits) (now : ℕ) (o : Option Session)
    → view_if limits now (session_view o) ≡ not_old limits now o
view_if-session limits now none = refl
view_if-session limits now (some session) = refl

-- After a restart, `load_sessions` gives for every id the session that was in memory, if it is not
-- older than the maximal age, and none otherwise: whatever requests opened sessions (with the sweeps
-- of stale ones) and appended exchanges, from a store whose table agrees with its memory.
pub load_sessions-run :
    (limits : Limits) (rs : List Request) (s : Sessions) (now : ℕ) (sid : String)
    → IsSaved s
    → lookup sid (load_sessions limits now (run limits rs s).table).0
      ≡ not_old limits now (lookup sid (run limits rs s).memory)
unfolding load_sessions
load_sessions-run limits rs s now sid v =
    let t = run limits rs s in
    let w = run-IsSaved limits rs s v in
    lookup-loaded (λ row. not (is_old limits.max_age now row.updated_at)) sid t.table w.in_table
    ∙ row_if-view limits now (lookup sid t.table)
    ∙ ap (view_if limits now) (w.held sid)
    ∙ view_if-session limits now (lookup sid t.memory)
