-- ===== src/Tests/Backends.antt =====
-- Tests of providers/gemini.py and gemini_cache.py on small worlds.
use indic_rag.Gemini.{
  Sdk, ApiError, is_invalid_argument, level_ladder, next_after, GenConfig, supports_thinking,
  level_of, level_for_budget, has_thinking_budget, current_level_name, escalate_level, skip_levels,
  skip_rejected_levels, remember_level_rejection, translate_thinking,
  remember_zero_budget_rejection, next_config, tokens,
}
use indic_rag.Gemini.Ladder.{IsNamed, IsUpper}
use indic_rag.Gemini.Pool.{
  Settings, Client, Pools, no_pools, client_of, init_pool, ensure_pool, next_client_idx,
  pick_client,
}
use indic_rag.Gemini.Context.{no_contexts, Service, look, create_cache, look_again, get_or_create}
use indic_rag.Gemini.Calls.{
  StreamChunk, Network, settle_thinking, State, with_cache, prep_config, generate_rounds, generate,
  generate_stream,
}
use indic_rag.Gemini.Converge.{generate_converges, generate_stream-IsSound, IsSound, IsLastCall}
use indic_rag.Gemini.Prepared.{prep_config-IsAcceptable, IsAcceptable}
use indic_rag.Base.{
  List, Option, String, Text, [], ap, arith, codes, contains, if◌then◌else◌, inl, inr, insert,
  lookup, mem, none, or_else, refl, remove, some, starts_with, true, ℕ, ◌+◌, ◌==◌, ◌∙◌, ◌∷◌, ◌≡◌,
  ◌⊎◌, nat_eq, string_eq, pair_eq, list_eq,
}

-- An enum whose members are the names on the ladder.
abbrev member : String → Option String
member name = if mem name level_ladder then some name else none

abbrev sdk : Sdk
sdk = record {
  Level = String;
  Tools = ℕ;
  Rest = ℕ;
  members = some member;
  level_name = λ level. level;
  upper = λ name. name;
  lower = λ text. text;
}

member_name : (name level : String) → member name ≡ some level → level ≡ name
member_name name level h = ground arith

sdk-IsNamed : IsNamed sdk
unfolding IsNamed
sdk-IsNamed enum name level e f = member_name name level (ap (λ o. or_else o enum name) e ∙ f)

sdk-IsUpper : IsUpper sdk
unfolding IsUpper
sdk-IsUpper = (refl, (refl, (refl, (refl, tt))))

-- The world counts the calls; the clock reads it.
abbrev service : Service ℕ
service = record {
  World = ℕ;
  enabled = true;
  ttl = 3600;
  clock = λ w. (w, w);
  prefix_hash = λ text tools. "hash";
  wait = λ key s. s;
  create = λ client model text tools w. (some "caches/1", w + 1);
}

-- a refusal of a budget, and of a level
abbrev refusal : Text → ApiError
refusal text = record { status_code = none; code = some 400; message = text }

-- A model that refuses every budget and the lowest level.
abbrev answer : GenConfig sdk → ℕ → (String ⊎ ApiError) × ℕ
answer c w =
    if has_thinking_budget sdk c
    then (inr (refusal (codes "budget")), w + 1)
    else elim (current_level_name sdk c) [
      | none ↦ (inl "default", w + 1)
      | some name ↦
          if name == "MINIMAL"
          then (inr (refusal (codes "thinking level MINIMAL")), w + 1)
          else (inl name, w + 1)
    ]

-- The same model over streams.
abbrev chunk : String → StreamChunk
chunk text = record { finish_reason = some (codes "STOP"); text = some (codes text) }

abbrev reply : GenConfig sdk → ℕ → List StreamChunk × Option ApiError × ℕ
reply c w = elim (answer c w).0 [
  | inl name ↦ (chunk "First. " ∷ chunk name ∷ [], none, w + 1)
  | inr exc ↦ ([], some exc, w + 1)
]

abbrev net : Network sdk
net = record {
  Response = String;
  service = service;
  generate_content = λ client model c w. answer c w;
  generate_content_stream = λ client model c w. reply c w;
}

abbrev without_budget : GenConfig sdk
without_budget = record {
  thinking_config = some record { thinking_budget = some (tokens 0); thinking_level = none };
  system_instruction = some (codes "Answer from the papers.");
  tools = none;
  cached_content = none;
  rest = 0;
}

abbrev start : State sdk net
start = record {
  learned = record { zero_budget = []; levels = [] };
  contexts = no_contexts;
  world = 0;
}

-- A budget of zero becomes MINIMAL, then LOW, in three calls; both refusals are remembered.
generate_climbs : (generate sdk net 7 "gemini-3.7-flash" without_budget start).0 ≡ inl "LOW"
unfolding generate generate_rounds prep_config with_cache get_or_create look look_again create_cache
    settle_thinking supports_thinking skip_rejected_levels skip_levels next_config
    remember_zero_budget_rejection remember_level_rejection translate_thinking level_for_budget
    level_of escalate_level next_after current_level_name has_thinking_budget is_invalid_argument
    contains starts_with lookup insert remove
generate_climbs = refl

generate_converges_example :
    IsLastCall sdk net 7 "gemini-3.7-flash"
      (generate sdk net 7 "gemini-3.7-flash" without_budget start)
generate_converges_example =
    generate_converges sdk net 7 "gemini-3.7-flash" without_budget start sdk-IsNamed sdk-IsUpper

generate_stream-IsSound_example :
    IsSound sdk net 7 "gemini-3.7-flash"
      (generate_stream sdk net 7 "gemini-3.7-flash" without_budget start)
generate_stream-IsSound_example =
    generate_stream-IsSound sdk net 7 "gemini-3.7-flash" without_budget start sdk-IsNamed
      sdk-IsUpper

prep_config-IsAcceptable_example :
    IsAcceptable sdk "gemini-3.7-flash" start.learned
      (prep_config sdk net 7 "gemini-3.7-flash" without_budget start).0
prep_config-IsAcceptable_example =
    prep_config-IsAcceptable sdk net 7 "gemini-3.7-flash" without_budget start sdk-IsNamed
      sdk-IsUpper

-- The round robin over two keys.
abbrev two_keys : Settings
two_keys = record { key_pool = "a" ∷ "b" ∷ []; request_timeout = 60; stream_timeout = 600 }

abbrev picked : Option (Option Client × Pools) → Option Client
picked none = none
picked (some (client, pools)) = client

first_of_two :
    picked (pick_client (λ p. p.streaming) two_keys none no_pools) ≡ some (client_of 600 "a")
unfolding pick_client next_client_idx ensure_pool init_pool
first_of_two = refl
