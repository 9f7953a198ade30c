-- ===== src/Llm/Stream.antt =====
-- llm_client.py: `generate_stream_with_failover` and `llm_generate_stream`. A generator is the list
-- of the chunks that it yields, with the exception that ends it, if one does; the caller reads it
-- to its end.
pub mod Laws
use indic_rag.Llm.Circuits.{Key, Circuits, circuit_clear}
use indic_rag.Llm.Routing.{Config, resolve_provider, attempts, non_empty}
use indic_rag.Llm.Failover.{
  Env, Failure, backend_error, all_open, unknown_provider, has_backend, raise_last, out_of_time,
  too_late, is_blocked, record_failure,
}
use indic_rag.Base.{
  Bool, List, Option, String, [], any, false, if◌then◌else◌, none, some, true, ℕ, ◌-◌, ◌∷◌,
}

-- One pass through the loop's body. `finished` and `broken` have yielded chunks of one backend.
pub data StreamPass (C E : Type 0) : Type 0 where
  finished : List C → StreamPass C E
  broken : C → List C → E → StreamPass C E
  stopped : Failure E → StreamPass C E
  skipped : StreamPass C E
  failed : E → StreamPass C E

module _ (env : Env) (cfg : Config) where
  open env use {World, Chunk, Exn, clock, stream, is_permanent}

  -- what is made of the chunks of a backend and of the exception behind them
  unfoldable pub settle :
      Key → Circuits → List Chunk → Option Exn → World → StreamPass Chunk Exn × Circuits × World
  settle key s chunks none w = (finished chunks, circuit_clear key s, w)
  settle key s (chunk ∷ chunks) (some exc) w = (broken chunk chunks exc, s, w)
  settle key s [] (some exc) w =
      if is_permanent key.0 exc
      then (stopped (backend_error exc), s, w)
      else (let (s', w') = record_failure env cfg key exc s w in (failed exc, s', w'))

  unfoldable pub call_stream : Key → Circuits → World → StreamPass Chunk Exn × Circuits × World
  call_stream key s w = let (chunks, ended, w') = stream key w in settle key s chunks ended w'

  unfoldable pub stream_attempt :
      Option ℕ → Option Exn → Key → Circuits → World → StreamPass Chunk Exn × Circuits × World
  stream_attempt deadline last key s w =
      let (late, w1) = too_late env cfg deadline w in
      if late
      then (stopped (out_of_time env cfg last), s, w1)
      else (let (blocked, w2) = is_blocked env cfg key s w1 in
          if blocked
          then (skipped, s, w2)
          else if has_backend cfg key.0
          then call_stream key s w2
          else (stopped unknown_provider, s, w2))

  -- the chunks that are yielded, and what is raised behind them
  abbrev pub Yield : Type 0
  Yield = List Chunk × Option (Failure Exn) × Circuits × World

  unfoldable pub stream_failover :
      Option ℕ → List Key → Option Exn → Bool → Circuits → World → Yield
  stream_failover deadline [] last any_attempted s w =
      ([], some (if any_attempted then raise_last env cfg last else all_open), s, w)
  stream_failover deadline (key ∷ rest) last any_attempted s w =
      let (pass, s', w') = stream_attempt deadline last key s w in
      elim pass [
        | finished chunks ↦ (chunks, none, s', w')
        | broken chunk chunks exc ↦ (chunk ∷ chunks, some (backend_error exc), s', w')
        | stopped failure ↦ ([], some failure, s', w')
        | skipped ↦ stream_failover deadline rest last any_attempted s' w'
        | failed exc ↦ stream_failover deadline rest (some exc) true s' w'
      ]

  unfoldable pub generate_stream_with_failover :
      String → Option String → Option ℕ → Circuits → World → Yield
  generate_stream_with_failover model provider deadline s w =
      stream_failover deadline (attempts cfg model (resolve_provider cfg model provider)) none false
        s w

  -- `model or LLM_MODEL_NAME`
  abbrev pub model_or_default : Option String → String
  model_or_default none = cfg.model_name
  model_or_default (some model) = if non_empty model then model else cfg.model_name

  -- the same loop, with no deadline; the configuration of each backend is part of its call
  unfoldable pub llm_generate_stream : Option String → Option String → Circuits → World → Yield
  llm_generate_stream model provider s w =
      let target = model_or_default model in
      stream_failover none (attempts cfg target (resolve_provider cfg target provider)) none false s
        w
