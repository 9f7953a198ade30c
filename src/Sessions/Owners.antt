-- ===== src/Sessions/Owners.antt =====
-- deps.py: what a caller sees and changes of the sessions, by the fingerprint of its key.
use indic_rag.Sessions.{
  Message, Session, Sessions, Limits, Clocks, is_old, old_ids, evict, evict_all,
  evict_stale_sessions, owns_session, new_session, keep_session, given_id, open_session,
  get_or_create_session,
}
use indic_rag.Sessions.Saved.{IsSaved}
use indic_rag.Base.{
  Bool, Bool-cases, Dict, List, Option, Option-cases, String, Unique, [], arith, false,
  if◌then◌else◌, inl, inr, keys, lookup, lookup-insert, lookup-remove, mem, mem-keys, none, refl,
  some, string_eq, true, ℕ, ◌==◌, ◌∙◌, ◌∷◌, ◌≡◌, ◌⊎◌, nat_eq, pair_eq, list_eq,
}

pub owns-new_session :
    (sid : String) (owner : Option String) (now : ℕ)
    → owns_session (some (new_session sid owner now)) owner ≡ true
unfolding owns_session
owns-new_session sid none now = refl
owns-new_session sid (some o) now = ground (arith, string_eq.beq_iff o o)

-- Where the session of an id comes from: it was in memory under the id that the caller has given, or
-- it is new, and there was none under the id of the caller, or the caller has given no id.
abbrev pub ComesFrom :
    String → Option String → Option String → ℕ → Sessions → String → Session → Type 0
ComesFrom fresh session_id owner now before sid session =
    ((given_id session_id ≡ some sid) × (lookup sid before.memory ≡ some session))
    ⊎ ((session ≡ new_session sid owner now)
        × (session.messages ≡ [])
        × (((given_id session_id ≡ none) × (sid ≡ fresh))
            ⊎ ((given_id session_id ≡ some sid) × (lookup sid before.memory ≡ none))))

-- A session is opened: it was there or is new, the caller owns it and gets its messages, and the
-- others are as before. Or the id names a session that the caller does not own, and nothing is
-- changed.
unfoldable pub IsOpened :
    String
    → Option String
    → Option String
    → ℕ
    → Sessions
    → Option (String × List Message)
    → Sessions
    → Type 0
IsOpened fresh session_id owner now before none after =
    (after ≡ before)
    × ((sid : String) × (session : Session) × (given_id session_id ≡ some sid)
        × (lookup sid before.memory ≡ some session)
        × (owns_session (some session) owner ≡ false))
IsOpened fresh session_id owner now before (some (sid, msgs)) after =
    (session : Session) × (session.messages ≡ msgs)
    × (owns_session (some session) owner ≡ true)
    × ComesFrom fresh session_id owner now before sid session
    × ((j : String)
        → lookup j after.memory ≡ (if sid == j then some session else lookup j before.memory))

pub open_session-IsOpened :
    (session_id : Option String) (fresh : String) (owner : Option String) (now : ℕ) (s : Sessions)
    → (let (result, after) = open_session (given_id session_id) fresh owner now s in
        IsOpened fresh session_id owner now s result after)
unfolding IsOpened open_session
open_session-IsOpened session_id fresh owner now s = go (given_id session_id) refl
  where
    created :
        (sid : String)
        → (j : String)
        → lookup j (keep_session sid (new_session sid owner now) s).memory
          ≡ (if sid == j then some (new_session sid owner now) else lookup j s.memory)
    created sid j = lookup-insert sid j (new_session sid owner now) s.memory

    found :
        (sid : String) (session : Session)
        → lookup sid s.memory ≡ some session
        → (j : String) → lookup j s.memory ≡ (if sid == j then some session else lookup j s.memory)
    found sid session e j = ground (arith, e, string_eq.beq_iff sid j)

    go :
        (o : Option String)
        → given_id session_id ≡ o
        → IsOpened fresh session_id owner now s
            (open_session o fresh owner now s).0
            (open_session o fresh owner now s).1
    go none e = (
      new_session fresh owner now,
      refl,
      owns-new_session fresh owner now,
      inr (refl, refl, inl (e, refl)),
      created fresh,
    )
    go (some sid) e = elim (Option-cases (lookup sid s.memory)) [
      | inl f ↦
          rw (f, open_session)
            (
              new_session sid owner now,
              refl,
              owns-new_session sid owner now,
              inr (refl, refl, inr (e, f)),
              created sid,
            )
      | inr (session, f) ↦ elim (Bool-cases (owns_session (some session) owner)) [
        | inl o ↦ rw (f, open_session, o) (session, refl, o, inl (e, f), found sid session f)
        | inr o ↦ rw (f, open_session, o) (refl, (sid, session, e, f, o))
      ]
    ]

-- `_get_or_create_session` hands out a session only to a caller that owns it: the very session that
-- the sweep of the stale ones has left under the id that the caller has given, or a new one of this
-- caller without messages, where that id has none or no id was given (then it has the fresh id). The
-- messages are those of the session, which is in memory behind the call, and every other session is
-- as the sweep has left it. Otherwise the id names a session that the caller does not own, and
-- nothing but the sweep has happened.
pub get_or_create_session-IsOpened :
    (limits : Limits) (clocks : Clocks) (fresh : String) (session_id owner : Option String)
    (s : Sessions)
    → (let (result, after) = get_or_create_session limits clocks fresh session_id owner s in
        IsOpened fresh session_id owner clocks.now
          (evict_stale_sessions limits clocks s)
          result
          after)
unfolding get_or_create_session
get_or_create_session-IsOpened limits clocks fresh session_id owner s =
    open_session-IsOpened session_id fresh owner clocks.now (evict_stale_sessions limits clocks s)

-- A sweep leaves what is not old.
pub lookup-evict_all :
    (sid : String) (ids : List String) (s : Sessions)
    → mem sid ids ≡ false
    → lookup sid (evict_all ids s).memory ≡ lookup sid s.memory
unfolding evict_all evict
lookup-evict_all sid [] s h = refl
lookup-evict_all sid (j ∷ ids) s h = ground (
  arith,
  lookup-evict_all sid ids (evict j s),
  lookup-remove j sid s.memory,
  string_eq.beq_iff j sid,
)

abbrev pub is_old_session : Limits → ℕ → Option Session → Bool
is_old_session limits now none = false
is_old_session limits now (some session) = is_old limits.max_age now session.updated_at

pub mem-old_ids :
    (limits : Limits) (now : ℕ) (sid : String) (d : Dict String Session)
    → Unique (keys d)
    → mem sid (old_ids limits.max_age now d) ≡ is_old_session limits now (lookup sid d)
unfolding lookup
mem-old_ids limits now sid [] u = refl
mem-old_ids limits now sid ((j, session) ∷ d) u =
    ground (arith, mem-old_ids limits now sid d u.1, mem-keys sid d, string_eq.beq_iff j sid)

pub lookup-evict_stale_sessions :
    (limits : Limits) (clocks : Clocks) (sid : String) (s : Sessions)
    → IsSaved s
    → is_old_session limits clocks.swept_at (lookup sid s.memory) ≡ false
    → lookup sid (evict_stale_sessions limits clocks s).memory ≡ lookup sid s.memory
unfolding evict_stale_sessions
lookup-evict_stale_sessions limits clocks sid s v h =
    (let kept =
        lookup-evict_all sid (old_ids limits.max_age clocks.swept_at s.memory)
          (record s { last_eviction = clocks.monotonic })
          (mem-old_ids limits clocks.swept_at sid s.memory v.in_memory ∙ h) in
      ground (arith, kept))
