-- ===== src/Gemini/Context.antt =====
-- gemini_cache.py: the registry of explicit context caches. Times are readings of
-- `time.monotonic()` in seconds. The locks are left out: a call that waits for the lock of its key
-- meets whatever the other threads have written by then.
use indic_rag.Base.{
  Bool, Dict, Eq, Option, String, Text, [], false, if◌then◌else◌, insert, is_empty, lookup, ltb,
  nat_eq, none, not, pair_eq, remove, some, string_eq, ℕ, ◌+◌, ◌||◌, list_eq,
}

-- `(id(client), model, prefix_hash)`, as nested pairs
abbrev pub CacheKey : Type 0
CacheKey = (ℕ × String) × String

instance abbrev pub key_eq : Eq CacheKey
key_eq = pair_eq

-- the key of a call
abbrev pub key_of : ℕ → String → String → CacheKey
key_of client model prefix = ((client, model), prefix)

abbrev pub create_fail_cooldown : ℕ
create_fail_cooldown = 300

abbrev pub expiry_safety : ℕ
expiry_safety = 60

pub record Contexts : Type 0 where
  pub registry : Dict CacheKey (String × ℕ)
  pub cooldown : Dict CacheKey ℕ

abbrev pub no_contexts : Contexts
no_contexts = record { registry = []; cooldown = [] }

-- The clock, the hash, the waiting for the lock of a key, and `client.caches.create` with its
-- time to live: a name, or an exception.
pub record Service (Tools : Type 0) : Type 1 where
  pub World : Type 0
  pub enabled : Bool
  pub ttl : ℕ
  pub clock : World → ℕ × World
  pub prefix_hash : Text → Option Tools → String
  pub wait : CacheKey → Contexts × World → Contexts × World
  pub create : ℕ → String → Text → Option Tools → World → Option String × World

-- What a look at the two tables says.
pub data Look : Type 0 where
  cooling : Look
  ready : String → Look
  missing : Look

abbrev pub is_cooling : ℕ → Option ℕ → Bool
is_cooling now none = false
is_cooling now (some until) = ltb now until

-- `now < entry[1] - _EXPIRY_SAFETY`
abbrev pub look_entry : ℕ → Option (String × ℕ) → Look
look_entry now none = missing
look_entry now (some (name, expiry)) =
    if ltb (now + expiry_safety) expiry then ready name else missing

unfoldable pub look : CacheKey → ℕ → Contexts → Look
look key now s =
    if is_cooling now (lookup key s.cooldown)
    then cooling
    else look_entry now (lookup key s.registry)

module _ {Tools : Type 0} (env : Service Tools) where
  open env use {World, enabled, ttl, clock, prefix_hash, wait, create}

  -- `create` and what is written behind it
  unfoldable pub create_cache :
      CacheKey
      → ℕ
      → String
      → Text
      → Option Tools
      → Contexts
      → World
      → Option String × Contexts × World
  create_cache key client model instruction tools s w =
      let (made, w1) = create client model instruction tools w in
      let (now, w2) = clock w1 in
      elim made [
        | none ↦
            (none, record s { cooldown = insert key (now + create_fail_cooldown) s.cooldown }, w2)
        | some name ↦ (
          some name,
          record {
            registry = insert key (name, now + ttl) s.registry;
            cooldown = remove key s.cooldown;
          },
          w2,
        )
      ]

  -- the second look, under the lock of the key
  unfoldable pub look_again :
      CacheKey
      → ℕ
      → String
      → Text
      → Option Tools
      → Contexts
      → World
      → Option String × Contexts × World
  look_again key client model instruction tools s w =
      let (now, w1) = clock w in
      elim (look key now s) [
        | cooling ↦ (none, s, w1)
        | ready name ↦ (some name, s, w1)
        | missing ↦ create_cache key client model instruction tools s w1
      ]

  -- The client is given by its `id`.
  unfoldable pub get_or_create :
      ℕ → String → Text → Option Tools → Contexts → World → Option String × Contexts × World
  get_or_create client model instruction tools s w =
      if not enabled || is_empty instruction
      then (none, s, w)
      else (let key = key_of client model (prefix_hash instruction tools) in
          let (now, w1) = clock w in
          elim (look key now s) [
            | cooling ↦ (none, s, w1)
            | ready name ↦ (some name, s, w1)
            | missing ↦
                (let (s2, w2) = wait key (s, w1) in
                  look_again key client model instruction tools s2 w2)
          ])
