-- ===== src/Tests/Chats.antt =====
-- Two callers of the chat sessions.
use indic_rag.Sessions.{
  Sessions, Limits, Clocks, save_session, delete_session, load_sessions, evict, evict_all,
  evict_stale_sessions, owns_session, open_session, get_or_create_session, exchange, recent,
  append_session_messages,
}
use indic_rag.Sessions.Saved.{IsSaved, Request, run, not_old, load_sessions-run, opens, appends}
use indic_rag.Sessions.Owners.{IsOpened, get_or_create_session-IsOpened}
use indic_rag.Sessions.Turns.{get_or_create_session-append}
use indic_rag.Base.{
  List, [], arith, codes, insert, lookup, none, refl, remove, some, ℕ, ◌++◌, ◌∷◌, ◌≡◌, nat_eq,
  string_eq, pair_eq, list_eq,
}

abbrev limits : Limits
limits = record { max_age = 86400; max_turns = 1 }

abbrev at : ℕ → Clocks
at t = record { monotonic = t; swept_at = t; now = t }

abbrev no_sessions : Sessions
no_sessions = record { memory = []; table = []; last_eviction = 0 }

no_sessions-IsSaved : IsSaved no_sessions
unfolding lookup
no_sessions-IsSaved = record { held = λ sid. refl; in_memory = tt; in_table = tt }

-- one caller opens a session and asks, another one knocks
abbrev visits : List Request
visits =
    opens (at 100) "s1" none (some "alice")
    ∷ appends 110 "s1" (codes "What?") (codes "This.") (some "alice") []
    ∷ opens (at 120) "s2" (some "s1") (some "bob")
    ∷ []

load_sessions-run_example :
    lookup "s1" (load_sessions limits 200 (run limits visits no_sessions).table).0
    ≡ not_old limits 200 (lookup "s1" (run limits visits no_sessions).memory)
load_sessions-run_example = load_sessions-run limits visits no_sessions 200 "s1" no_sessions-IsSaved

knock_denied :
    (get_or_create_session limits
      (at 120)
      "s2"
      (some "s1")
      (some "bob")
      (get_or_create_session limits (at 100) "s1" none (some "alice") no_sessions).1).0
    ≡ none
unfolding get_or_create_session open_session evict_stale_sessions evict_all evict delete_session
    save_session owns_session lookup insert remove
knock_denied = refl

get_or_create_session-IsOpened_example :
    (let (result, after) =
        get_or_create_session limits (at 100) "s1" none (some "alice") no_sessions in
      IsOpened "s1" none
        (some "alice")
        (at 100).now
        (evict_stale_sessions limits (at 100) no_sessions)
        result
        after)
get_or_create_session-IsOpened_example =
    get_or_create_session-IsOpened limits (at 100) "s1" none (some "alice") no_sessions

opened_first :
    (get_or_create_session limits (at 100) "s1" none (some "alice") no_sessions).0 ≡ some ("s1", [])
unfolding get_or_create_session open_session
opened_first = refl

get_or_create_session-append_example :
    (let opened = (get_or_create_session limits (at 100) "s1" none (some "alice") no_sessions).1 in
      let after =
        append_session_messages limits 110 "s1"
          (codes "What?")
          (codes "This.")
          (some "alice")
          []
          opened in
      (get_or_create_session limits (at 120) "s2" (some "s1") (some "alice") after).0
      ≡ some ("s1", recent 2 ([] ++ exchange (codes "What?") (codes "This.") [])))
get_or_create_session-append_example =
    get_or_create_session-append limits (at 100) (at 120) 110 "s1" "s2" none (some "alice")
      no_sessions "s1" [] (codes "What?") (codes "This.") [] no_sessions-IsSaved opened_first refl
      (omega arith)
