-- ===== src/Sessions.antt =====
-- deps.py and persistence.py: the chat sessions, in memory and in the table that is written through.
-- Times are readings of the clocks in seconds; a text in ISO form is its time, and a JSON text its
-- value.
pub mod Saved
pub mod Owners
pub mod Turns
use indic_rag.Base.{
  Bool, Dict, List, Option, String, Text, [], ap, drop, false, get_or, if◌then◌else◌, insert,
  length, lookup, ltb, map, max, mem, none, not, or_else, remove, some, true, ℕ, ◌*◌, ◌++◌, ◌+◌,
  ◌-◌, ◌<◌, ◌==◌, ◌∷◌, nat_eq, string_eq, pair_eq, list_eq,
}

-- a citation as the pipeline gives it, and as it is stored
pub record Citation : Type 0 where
  pub number : Option ℕ
  pub title : Option Text
  pub section : Option Text

pub record Source : Type 0 where
  pub number : Option ℕ
  pub title : Text
  pub section : Text

pub data Role : Type 0 where
  user : Role
  assistant : Role

pub record Message : Type 0 where
  pub role : Role
  pub content : Text
  pub citations : Option (List Source)

pub record Session : Type 0 where
  pub id : String
  pub messages : List Message
  pub owner : Option String
  pub created_at : ℕ
  pub updated_at : ℕ

-- A row of the table `sessions`, under its primary key.
pub record Row : Type 0 where
  pub value : Session
  pub created_at : ℕ
  pub updated_at : ℕ

pub record Sessions : Type 0 where
  pub memory : Dict String Session
  pub table : Dict String Row
  pub last_eviction : ℕ

-- config.py: SESSION_MAX_AGE_HOURS in seconds, CHAT_HISTORY_MAX_TURNS
pub record Limits : Type 0 where
  pub max_age : ℕ
  pub max_turns : ℕ

-- The readings of a request: `time.monotonic()` and the UTC time at the sweep, the UTC time behind it.
pub record Clocks : Type 0 where
  pub monotonic : ℕ
  pub swept_at : ℕ
  pub now : ℕ

-- INSERT ... ON CONFLICT(id) DO UPDATE: the column `created_at` of a row that is there stays.
abbrev pub row_for : Option Row → Session → Row
row_for none session = record {
  value = session;
  created_at = session.created_at;
  updated_at = session.updated_at;
}
row_for (some row) session = record {
  value = session;
  created_at = row.created_at;
  updated_at = session.updated_at;
}

unfoldable pub save_session : String → Session → Dict String Row → Dict String Row
save_session sid session table = insert sid (row_for (lookup sid table) session) table

unfoldable pub delete_session : String → Dict String Row → Dict String Row
delete_session sid table = remove sid table

-- `updated_at < now - max_age`
abbrev pub is_old : ℕ → ℕ → ℕ → Bool
is_old max_age now updated_at = ltb (updated_at + max_age) now

-- the rows that a condition on them keeps
abbrev pub keep_rows {ℓ} : {V : Type ℓ} → (V → Bool) → Dict String V → Dict String V
keep_rows p [] = []
keep_rows p ((sid, v) ∷ d) = if p v then (sid, v) ∷ keep_rows p d else keep_rows p d

abbrev pub loaded : Dict String Row → Dict String Session
loaded [] = []
loaded ((sid, row) ∷ d) = (sid, row.value) ∷ loaded d

-- what is loaded at a start, and the table behind it
unfoldable pub load_sessions : Limits → ℕ → Dict String Row → Dict String Session × Dict String Row
load_sessions limits now table =
    let kept = keep_rows (λ row. not (is_old limits.max_age now row.updated_at)) table in
    (loaded kept, kept)

-- `[s for s, v in _sessions.items() if updated_at < cutoff]`
abbrev pub old_ids : ℕ → ℕ → Dict String Session → List String
old_ids max_age now [] = []
old_ids max_age now ((sid, session) ∷ d) =
    if is_old max_age now session.updated_at
    then sid ∷ old_ids max_age now d
    else old_ids max_age now d

unfoldable pub evict : String → Sessions → Sessions
evict sid s = record s { memory = remove sid s.memory; table = delete_session sid s.table }

unfoldable pub evict_all : List String → Sessions → Sessions
evict_all [] s = s
evict_all (sid ∷ ids) s = evict_all ids (evict sid s)

unfoldable pub evict_stale_sessions : Limits → Clocks → Sessions → Sessions
evict_stale_sessions limits clocks s =
    if ltb (clocks.monotonic - s.last_eviction) 60
    then s
    else evict_all (old_ids limits.max_age clocks.swept_at s.memory)
        (record s { last_eviction = clocks.monotonic })

abbrev pub same_owner : Option String → Option String → Bool
same_owner none none = true
same_owner none (some o) = false
same_owner (some o) none = false
same_owner (some o) (some p) = o == p

unfoldable pub owns_session : Option Session → Option String → Bool
owns_session none owner = false
owns_session (some session) none = true
owns_session (some session) (some o) = same_owner session.owner (some o)

abbrev pub new_session : String → Option String → ℕ → Session
new_session sid owner now = record {
  id = sid;
  messages = [];
  owner = owner;
  created_at = now;
  updated_at = now;
}

-- the session in memory, and written through
abbrev pub keep_session : String → Session → Sessions → Sessions
keep_session sid session s = record s {
  memory = insert sid session s.memory;
  table = save_session sid session s.table;
}

-- The part of `_get_or_create_session` behind the sweep; an empty id is none, and `fresh` is the
-- reading of `uuid4`. No result stands for a PermissionError.
abbrev pub given_id : Option String → Option String
given_id none = none
given_id (some sid) = if sid == "" then none else some sid

unfoldable pub open_session :
    Option String
    → String
    → Option String
    → ℕ
    → Sessions
    → Option (String × List Message) × Sessions
open_session none fresh owner now s =
    (some (fresh, []), keep_session fresh (new_session fresh owner now) s)
open_session (some sid) fresh owner now s = elim (lookup sid s.memory) [
  | none ↦ (some (sid, []), keep_session sid (new_session sid owner now) s)
  | some session ↦
      if owns_session (some session) owner then (some (sid, session.messages), s) else (none, s)
]

unfoldable pub get_or_create_session :
    Limits
    → Clocks
    → String
    → Option String
    → Option String
    → Sessions
    → Option (String × List Message) × Sessions
get_or_create_session limits clocks fresh session_id owner s =
    open_session (given_id session_id) fresh owner clocks.now (evict_stale_sessions limits clocks s)

abbrev pub source_of : Citation → Source
source_of c = record {
  number = c.number;
  title = or_else c.title [];
  section = or_else c.section [];
}

abbrev pub stored_citations : List Citation → Option (List Source)
stored_citations [] = none
stored_citations (c ∷ cs) = some (map source_of (c ∷ cs))

-- the two messages of an exchange
abbrev pub exchange : Text → Text → List Citation → List Message
exchange user_text assistant_text citations =
    record { role = user; content = user_text; citations = none }
    ∷ record { role = assistant; content = assistant_text; citations = stored_citations citations }
    ∷ []

-- `del msgs[:len(msgs) - max_msgs]`
unfoldable pub recent : ℕ → List Message → List Message
recent max_msgs msgs = drop (length msgs - max_msgs) msgs

abbrev pub session_or_new : String → Option String → ℕ → Option Session → Session
session_or_new sid owner now found = or_else found (new_session sid owner now)

unfoldable pub append_session_messages :
    Limits → ℕ → String → Text → Text → Option String → List Citation → Sessions → Sessions
append_session_messages limits now sid user_text assistant_text owner citations s =
    let session = session_or_new sid owner now (lookup sid s.memory) in
    keep_session sid
      (record session {
        messages =
            recent (limits.max_turns * 2)
              (session.messages ++ exchange user_text assistant_text citations);
        updated_at = now;
      })
      s
