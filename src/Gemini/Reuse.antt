-- ===== src/Gemini/Reuse.antt =====
-- gemini_cache.py and the round robin of providers/gemini.py: what a call leaves for the next one.
use indic_rag.Gemini.Context.{
  Service, CacheKey, Contexts, Look, cooling, ready, key_of, key_eq, create_cache, look,
  get_or_create, create_fail_cooldown, expiry_safety,
}
use indic_rag.Base.{
  Option, Option-cases, String, Text, arith, false, inl, inr, is_empty, lookup-insert_same,
  lookup-remove_same, ltb, none, refl, some, true, ℕ, ◌+◌, ◌-◌, ◌<◌, ◌≡◌, nat_eq, string_eq,
  pair_eq, list_eq,
}

module _ {Tools : Type 0} (env : Service Tools) where
  -- until when an answer of `create` at a reading of the clock is used again
  abbrev pub reused_until : Option String → ℕ → ℕ
  reused_until none now = now + create_fail_cooldown
  reused_until (some name) now = now + env.ttl - expiry_safety

  -- the reading of the clock behind a call of `create`
  abbrev pub created_at : ℕ → String → Text → Option Tools → env.World → ℕ
  created_at client model instruction tools w =
      (env.clock (env.create client model instruction tools w).1).0

  -- what the tables say of an answer of `create`
  abbrev pub look_of : Option String → Look
  look_of none = cooling
  look_of (some name) = ready name

  pub look-create_cache :
      (key : CacheKey) (client : ℕ) (model : String) (instruction : Text) (tools : Option Tools)
      (s : Contexts) (w : env.World) (now : ℕ)
      → now
        < reused_until
            (env.create client model instruction tools w).0
            (created_at client model instruction tools w)
      → look key now (create_cache env key client model instruction tools s w).1
        ≡ look_of (env.create client model instruction tools w).0
  unfolding create_cache look
  look-create_cache key client model instruction tools s w now early =
      let at = created_at client model instruction tools w in
      elim (Option-cases (env.create client model instruction tools w).0) [
        | inl e ↦
            rw
              (
                e,
                create_cache,
                look,
                lookup-insert_same key (at + create_fail_cooldown) s.cooldown,
                early_wait e,
              )
              refl
        | inr (name, e) ↦
            rw
              (
                e,
                create_cache,
                look,
                lookup-remove_same key s.cooldown,
                lookup-insert_same key (name, at + env.ttl) s.registry,
                early_name name e,
              )
              refl
      ]
    where
      early_wait :
          (env.create client model instruction tools w).0 ≡ none
          → ltb now (created_at client model instruction tools w + create_fail_cooldown) ≡ true
      early_wait e = ground (arith, e)

      early_name :
          (name : String)
          → (env.create client model instruction tools w).0 ≡ some name
          → ltb (now + expiry_safety) (created_at client model instruction tools w + env.ttl) ≡ true
      early_name name e = ground (arith, e)

  pub get_or_create-look :
      (client : ℕ) (model : String) (instruction : Text) (tools : Option Tools) (s : Contexts)
      (v : env.World) (o : Option String)
      → env.enabled ≡ true
      → is_empty instruction ≡ false
      → look (key_of client model (env.prefix_hash instruction tools)) (env.clock v).0 s ≡ look_of o
      → get_or_create env client model instruction tools s v ≡ (o, s, (env.clock v).1)
  unfolding get_or_create
  get_or_create-look client model instruction tools s v none on filled e =
      rw (on, filled, get_or_create, e) refl
  get_or_create-look client model instruction tools s v (some name) on filled e =
      rw (on, filled, get_or_create, e) refl

  -- The answer of `create` (a name, or a failure) is given again without another `create` to every
  -- call for the same client, model, instruction and tools that reads a time before the end of the
  -- cooldown (a failure) or before the safety margin of the expiry (a name). Caching is enabled and
  -- the instruction is not empty, and nobody has written to the tables in between.
  pub get_or_create-Reuses :
      (client : ℕ) (model : String) (instruction : Text) (tools : Option Tools) (s : Contexts)
      (w v : env.World)
      → env.enabled ≡ true
      → is_empty instruction ≡ false
      → (env.clock v).0
        < reused_until
            (env.create client model instruction tools w).0
            (created_at client model instruction tools w)
      → (let key = key_of client model (env.prefix_hash instruction tools) in
          let made = create_cache env key client model instruction tools s w in
          get_or_create env client model instruction tools made.1 v
          ≡ ((env.create client model instruction tools w).0, made.1, (env.clock v).1))
  get_or_create-Reuses client model instruction tools s w v on filled early =
      let key = key_of client model (env.prefix_hash instruction tools) in
      get_or_create-look client model instruction tools
        (create_cache env key client model instruction tools s w).1 v
        (env.create client model instruction tools w).0 on filled
        (look-create_cache key client model instruction tools s w (env.clock v).0 early)
