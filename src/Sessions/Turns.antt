-- ===== src/Sessions/Turns.antt =====
-- deps.py: two turns of one conversation, as routes/chat.py makes them.
use indic_rag.Sessions.{
  Citation, Message, Session, Sessions, Limits, Clocks, evict_stale_sessions, owns_session,
  keep_session, given_id, open_session, get_or_create_session, exchange, recent,
  append_session_messages,
}
use indic_rag.Sessions.Saved.{
  IsSaved, evict_stale_sessions-IsSaved, open_session-IsSaved, keep_session-IsSaved,
}
use indic_rag.Sessions.Owners.{
  IsOpened, get_or_create_session-IsOpened, lookup-evict_stale_sessions,
}
use indic_rag.Base.{
  List, Option, String, Text, arith, false, lookup, lookup-insert_same, none, refl, some, string_eq,
  subst, true, ℕ, ◌*◌, ◌++◌, ◌+◌, ◌==◌, ◌∙◌, ◌≡◌, ◌≤◌, nat_eq, pair_eq, list_eq,
}

-- the session behind an exchange
abbrev pub extended : Limits → ℕ → Text → Text → List Citation → Session → Session
extended limits now question answer citations session = record session {
  messages = recent (limits.max_turns * 2) (session.messages ++ exchange question answer citations);
  updated_at = now;
}

pub owns-extended :
    (limits : Limits) (now : ℕ) (question answer : Text) (citations : List Citation)
    (session : Session) (owner : Option String)
    → owns_session (some (extended limits now question answer citations session)) owner
      ≡ owns_session (some session) owner
unfolding owns_session
owns-extended limits now question answer citations session none = refl
owns-extended limits now question answer citations session (some o) = refl

pub append_session_messages-found :
    (limits : Limits) (now : ℕ) (sid : String) (question answer : Text) (owner : Option String)
    (citations : List Citation) (s : Sessions) (session : Session)
    → lookup sid s.memory ≡ some session
    → append_session_messages limits now sid question answer owner citations s
      ≡ keep_session sid (extended limits now question answer citations session) s
unfolding append_session_messages
append_session_messages-found limits now sid question answer owner citations s session e =
    rw (e) refl

-- A session that is in memory and owned is opened with its messages, if the sweep spares it.
pub get_or_create_session-found :
    (limits : Limits) (clocks : Clocks) (fresh sid : String) (owner : Option String) (s : Sessions)
    (session : Session)
    → IsSaved s
    → (sid == "") ≡ false
    → lookup sid s.memory ≡ some session
    → owns_session (some session) owner ≡ true
    → clocks.swept_at ≤ session.updated_at + limits.max_age
    → (get_or_create_session limits clocks fresh (some sid) owner s).0
      ≡ some (sid, session.messages)
unfolding get_or_create_session open_session
get_or_create_session-found limits clocks fresh sid owner s session v filled e o young =
    let kept = lookup-evict_stale_sessions limits clocks sid s v (rw (e) (ground (arith, young))) in
    rw (filled, open_session, kept, e, o) refl

-- A turn of the conversation is there for the next one: if opening a session has given an id and
-- its messages, and an exchange is appended to it, then the owner who opens the id again, no later
-- than the maximal age behind the exchange, gets those messages and the exchange, cut to the last
-- `max_turns * 2`. The store is one whose table agrees with its memory.
pub get_or_create_session-append :
    (limits : Limits) (clocks next : Clocks) (now : ℕ) (fresh unused : String)
    (session_id owner : Option String) (s : Sessions) (sid : String) (msgs : List Message)
    (question answer : Text) (citations : List Citation)
    → IsSaved s
    → (get_or_create_session limits clocks fresh session_id owner s).0 ≡ some (sid, msgs)
    → (sid == "") ≡ false
    → next.swept_at ≤ now + limits.max_age
    → (let opened = (get_or_create_session limits clocks fresh session_id owner s).1 in
        let after = append_session_messages limits now sid question answer owner citations opened in
        (get_or_create_session limits next unused (some sid) owner after).0
        ≡ some (sid, recent (limits.max_turns * 2) (msgs ++ exchange question answer citations)))
unfolding get_or_create_session IsOpened
get_or_create_session-append limits clocks next now fresh unused session_id owner s sid msgs
      question answer citations v e filled young =
    go (
      subst
        (λ r.
          IsOpened fresh session_id owner clocks.now (evict_stale_sessions limits clocks s) r
            opened)
        e (get_or_create_session-IsOpened limits clocks fresh session_id owner s))
  where
    opened : Sessions
    opened = (get_or_create_session limits clocks fresh session_id owner s).1

    saved : IsSaved opened
    saved =
        open_session-IsSaved (given_id session_id) fresh owner clocks.now
          (evict_stale_sessions limits clocks s) (evict_stale_sessions-IsSaved limits clocks s v)

    go :
        IsOpened fresh session_id owner clocks.now
          (evict_stale_sessions limits clocks s)
          (some (sid, msgs))
          opened
        → (get_or_create_session limits next unused
            (some sid)
            owner
            (append_session_messages limits now sid question answer owner citations opened)).0
          ≡ some (sid, recent (limits.max_turns * 2) (msgs ++ exchange question answer citations))
    go (session, m, o, origin, others) =
        let longer = extended limits now question answer citations session in
        let found = others sid ∙ ground (arith, string_eq.beq_iff sid sid) in
        let after = keep_session sid longer opened in
        let again =
          get_or_create_session-found limits next unused sid owner after longer
            (keep_session-IsSaved sid longer opened saved) filled
            (lookup-insert_same sid longer opened.memory)
            (owns-extended limits now question answer citations session owner ∙ o) young in
        rw
          (append_session_messages-found limits now sid question answer owner citations opened
            session found)
          (again ∙ (λ i.
            some (sid, recent (limits.max_turns * 2) (m i ++ exchange question answer citations))))
