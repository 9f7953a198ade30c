-- ===== src/Tests/Failover.antt =====
-- Runs of the failover of llm_client.py, with two providers and a clock that ticks at each reading.
use indic_rag.Llm.Circuits.{
  Key, Circuits, no_circuits, circuit_blocked, counted, tripped, circuit_fail, circuit_clear,
}
use indic_rag.Llm.Circuits.Laws.{IsBelowTrip}
use indic_rag.Llm.Routing.{
  Config, partition_colon, has_slash, non_empty, split_model, infer_provider, resolve_provider,
  first_openrouter, gemini_fallback, fallback_model_for, ordered_attempts, same_provider,
  cross_provider, backstop, attempts,
}
use indic_rag.Llm.Routing.Laws.{usable}
use indic_rag.Llm.Failover.{
  Reply, answer, raised, Env, ok, has_backend, too_late, is_blocked, record_failure, call_backend,
  attempt, failover, generate_with_failover,
}
use indic_rag.Llm.Failover.Chain.{FromChain, failover-FromChain}
use indic_rag.Llm.Failover.Available.{Healthy, Passable, failover_available}
use indic_rag.Llm.Stream.{settle, call_stream, stream_attempt, stream_failover}
use indic_rag.Llm.Stream.Laws.{FromOne, stream-FromOne}
use indic_rag.Base.{
  All, List, Option, String, [], any, arith, false, if◌then◌else◌, insert, lookup, none, refl,
  remove, some, true, ℕ, ◌+◌, ◌==◌, ◌∷◌, ◌≡◌, ◌≢◌, nat_eq, string_eq, pair_eq, list_eq,
}

program : Unit {0}
unfolding circuit_blocked counted tripped circuit_fail circuit_clear partition_colon has_slash
    split_model infer_provider resolve_provider first_openrouter gemini_fallback fallback_model_for
    ordered_attempts same_provider cross_provider backstop attempts has_backend too_late is_blocked
    record_failure call_backend attempt failover generate_with_failover settle call_stream
    stream_attempt stream_failover lookup insert remove usable
program = tt

abbrev settings_of : String → Option String
settings_of name = if name == "groq" then some "llama-3" else none

abbrev cfg : Config
cfg = record {
  gemini_model = "gemini-2.0-flash";
  model_name = "gemini-2.0-flash";
  fallback_model = "gemini-1.5-flash";
  provider_order = [];
  fallback_provider = "groq";
  selectable_models = "gemini-2.0-flash" ∷ "qwen/qwen3" ∷ [];
  provider_settings = settings_of;
  in_backends = λ name. false;
  min_attempt = 3;
}

abbrev generate_at : Key → ℕ → Reply ℕ ℕ × ℕ
generate_at key w = if key.0 == "gemini" then (raised w, w + 1) else (answer 7, w + 1)

abbrev stream_at : Key → ℕ → List ℕ × Option ℕ × ℕ
stream_at key w = if key.0 == "gemini" then ([], some w, w + 1) else (1 ∷ 2 ∷ [], some 5, w + 1)

-- Gemini always fails with a passing failure, and the other answers
abbrev env : Env
env = record {
  World = ℕ;
  Answer = ℕ;
  Chunk = ℕ;
  Exn = ℕ;
  clock = λ w. (w, w + 1);
  generate = generate_at;
  stream = stream_at;
  is_permanent = λ prov x. false;
  is_local = λ x. false;
}

abbrev gemini : Key
gemini = ("gemini", "gemini-2.0-flash")

abbrev groq : Key
groq = ("groq", "llama-3")

abbrev chain : List Key
chain = gemini ∷ groq ∷ []

chain_of :
    attempts cfg "gemini-2.0-flash" "gemini" ≡ gemini ∷ ("gemini", "gemini-1.5-flash") ∷ groq ∷ []
unfolding program
chain_of = refl

answered : (failover env cfg none chain none false no_circuits 0).0 ≡ ok 7
unfolding program
answered = refl

none_below : IsBelowTrip no_circuits
unfolding lookup
none_below key = omega arith

failover-FromChain_example :
    FromChain env cfg chain 7 (failover env cfg none chain none false no_circuits 0).1
failover-FromChain_example =
    failover-FromChain env cfg none chain none false no_circuits 0 7 answered

gemini_found : has_backend cfg "gemini" ≡ true
unfolding program
gemini_found = refl

groq_found : has_backend cfg "groq" ≡ true
unfolding program
groq_found = refl

chain-Passable : All (Passable env cfg) chain
chain-Passable = (
  record { found = gemini_found; transient = λ w x h. refl },
  (record { found = groq_found; transient = λ w x h. refl }, tt),
)

groq-Healthy : Healthy env cfg groq
groq-Healthy = record { found = groq_found; answers = λ w. (7, refl) }

no_breaker : lookup groq no_circuits.breaker ≡ none
unfolding lookup
no_breaker = refl

failover_available_example :
    (a : ℕ) × ((failover env cfg none chain none false no_circuits 0).0 ≡ ok a)
failover_available_example =
    failover_available env cfg chain groq none false no_circuits 0 chain-Passable refl groq-Healthy
      no_breaker

-- both circuits are open until 1000, and the clock stands still at 5
abbrev opened : Circuits
opened = record { breaker = (gemini, 1000) ∷ (groq, 1000) ∷ []; failures = [] }

abbrev still : Env
still = record env { clock = λ w. (5, w) }

gemini_open : (v : ℕ) → circuit_blocked gemini 5 opened ≡ true
unfolding program
gemini_open v = refl

groq_open : (v : ℕ) → circuit_blocked groq 5 opened ≡ true
unfolding program
groq_open v = refl

yielded : (stream_failover env cfg none chain none false no_circuits 0).0 ≢ []
unfolding program
yielded h = cc

stream-FromOne_example :
    (let out = stream_failover env cfg none chain none false no_circuits 0 in
      FromOne env cfg chain out.0 out.1)
stream-FromOne_example = stream-FromOne env cfg none chain none false no_circuits 0 yielded

no_failures : lookup gemini no_circuits.failures ≡ none
unfolding lookup
no_failures = refl

different : gemini ≢ groq
different h = cc

gemini_known : non_empty (fallback_model_for cfg "gemini") ≡ true
unfolding program
gemini_known = refl

one_runs : any (λ m. resolve_provider cfg m none == "openrouter") cfg.selectable_models ≡ true
unfolding program
one_runs = refl
